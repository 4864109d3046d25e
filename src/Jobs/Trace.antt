-- ===== src/Jobs/Trace.antt =====
-- Histories of store calls, each of which may fail in any of its statements: the abstract view of what a part
-- of the service does to the tables.
use ipa_now.Common.{ℕ, ◌≡◌, refl, subst, inl, inr, List, [], ◌∷◌, Bool-cases, if◌then◌else◌, All}
use ipa_now.Jobs.Model.{Job, Db}
use ipa_now.Jobs.Tx.{Result, ok, err, Disk, read, statement}
use ipa_now.Jobs.Queue.{enqueue, admitted, leaving, enqueued}
use ipa_now.Jobs.Calls.{Call, enqueues, exec, run}

-- Calls of one kind lead from some tables to others, at any times and with any failures.
pub data Trace (P : Call → Type 0) : Db → Db → Type 0 where
  over : (db : Db) → Trace P db db
  calls : (c : Call) (d : Disk) (e : Db) → P c → Trace P (exec c d).1.db e → Trace P d.db e

module _ (P : Call → Type 0) where
  pub Trace-trans : (a b c : Db) → Trace P a b → Trace P b c → Trace P a c
  Trace-trans _ _ c (over db) h = h
  Trace-trans _ _ c (calls x d e p g) h = calls x d c p (Trace-trans _ e c g h)

  pub once : (c : Call) (d : Disk) → P c → Trace P d.db (exec c d).1.db
  once c d p = calls c d _ p (over _)

  pub run-Trace :
      (d : Disk) (cs : List (ℕ × Call)) → All (λ x. P x.1) cs → Trace P d.db (run d cs).db
  unfolding run
  run-Trace d [] h = over d.db
  run-Trace d ((t, c) ∷ cs) (h, hs) =
      calls c (record d { now = t }) _ h (run-Trace (exec c (record d { now = t })).1 cs hs)

  pub same-Trace : (a b : Db) → a ≡ b → Trace P a b
  same-Trace a b e = subst (Trace P a) e (over a)

  pub read-Trace : {A : Type 0} (f : Db → Result A) (d : Disk) → Trace P d.db (read f d).1.db
  unfolding read statement
  read-Trace f d = elim (Bool-cases (d.fails d.done)) [
    | inl e ↦ rw (e, if◌then◌else◌) (over d.db)
    | inr e ↦ rw (e, if◌then◌else◌) (over d.db)
  ]

  pub enqueued-Trace :
      (j : Job) (limit : ℕ) (d : Disk)
      → P (enqueues j limit)
      → Trace P d.db (enqueued j limit d).1.db
  unfolding enqueued exec
  enqueued-Trace j limit d p = subst (Trace P d.db) (same (enqueue j limit d)) (stored p)
    where
      stored : P (enqueues j limit) → Trace P d.db (enqueue j limit d).1.db
      stored q = once (enqueues j limit) d q

      same : (r : Result Unit × Disk) → r.1.db ≡ (leaving (admitted d.now j) r).1.db
      same (ok a, e) = refl
      same (err x, e) = refl

pub Trace-mono :
    (P Q : Call → Type 0) (a b : Db) → ((c : Call) → P c → Q c) → Trace P a b → Trace Q a b
Trace-mono P Q _ _ weaken (over db) = over db
Trace-mono P Q _ _ weaken (calls c d e p h) = calls c d e (weaken c p) (Trace-mono P Q _ e weaken h)
