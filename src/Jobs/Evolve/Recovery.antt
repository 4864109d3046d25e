-- ===== src/Jobs/Evolve/Recovery.antt =====
-- The loop of `Recover` over the jobs that were active at shutdown.
use ipa_now.Common.{
  ℕ, ◌≡◌, refl, inl, inr, Bool, true, false, List, [], ◌∷◌, if◌then◌else◌, All, All-mono, All-All,
  All-update_row, Bool-cases, subst, sym,
}
use ipa_now.Jobs.Model.{Job, Db}
use ipa_now.Jobs.Tx.{Disk, Tx, Result, ok, read, ◌>>=◌, ◌>>◌, Done}
use ipa_now.Jobs.Rules.{
  Leaves, bind_assoc, pure_then, read_then, update_then, device_last, transaction_keeps,
  transaction-Holds, after, next,
}
use ipa_now.Jobs.Rows.{
  has_id, is_active, awaits_review, select, update_jobs, with_update, with_device, update_device,
}
use ipa_now.Jobs.Cleanup.{interrupted, recover_each, recover_device, recover}
use ipa_now.Jobs.Evolve.Table.{Evolves-refl, Evolves-mono}
use ipa_now.Jobs.Evolve.Rows.{Advances, Distinct, Good, Good-refl}
use ipa_now.Jobs.Evolve.Elem.{find-Elem, select-Elem}
use ipa_now.Jobs.Evolve.QueueCalls.{Keeps}
use ipa_now.Jobs.Evolve.Interrupted.{
  Interrupts, Interrupts-refl, Interrupts-Advances, Live, Live-All, Recovers, Recovers-rewritten,
  Settled, Pending, Pending-skip, Pending-rewritten,
}

-- What a recovery that succeeds makes of the table. `P` is any fact of the rows that an update of the
-- loop keeps.
abbrev pub Recovered : (Job → Type 0) → List Job → Db → Type 0
Recovered P xs db = Recovers xs db.jobs × All Settled db.jobs × All P db.jobs

abbrev pub Survives : (Job → Type 0) → Type 0
Survives P = (t : ℕ) (j k : Job) → P k → P (record (interrupted j k) { updated_at = t })

Pending-none : (ys : List Job) → All (Pending []) ys → All Settled ys
Pending-none = All-mono _ _ λ k. elim [ inl s ↦ s | inr m ↦ elim m [ ] ]

recover_each-Recovered :
    {A : Type 0} (P : Job → Type 0) (keep : Survives P) (Q : Db → Type 0) (js xs : List Job)
    (m : Done → Tx A) (d : Disk)
    → Recovers xs d.db.jobs
    → All P d.db.jobs
    → All (Live d.db.jobs) js
    → All (Pending js) d.db.jobs
    → ((e : Disk) → Recovered P xs e.db → Leaves Q (m tt e))
    → Leaves Q ((recover_each js >>= m) d)
unfolding recover_each
recover_each-Recovered P keep Q [] xs m d g r live p h =
    pure_then _ _ _ _ (h d (g, Pending-none d.db.jobs p, r))
recover_each-Recovered P keep Q (j ∷ js) xs m d g r (l, ls) p h =
    elim (Bool-cases (awaits_review j)) [
      | inl seen ↦
          rw (seen, if◌then◌else◌)
            (recover_each-Recovered P keep Q js xs m d g r ls
              (All-mono _ _ (λ k. Pending-skip j js k seen) d.db.jobs p) h)
      | inr unseen ↦
          rw (unseen, if◌then◌else◌)
            (rw (bind_assoc _ m (update_jobs (has_id j.id) (interrupted j)) d) (
              update_then _ _ _ _ _ (
                recover_each-Recovered P keep Q js xs m
                  (after d (with_update (has_id j.id) (interrupted j) d.now d.db))
                  (Recovers-rewritten d.now j xs d.db.jobs g l)
                  (All-update_row P _ _ d.db.jobs (λ k _. keep d.now j k) r)
                  (Live-All d.now j d.db.jobs js ls) (Pending-rewritten d.now j js d.db.jobs g.1 p)
                  h)))
    ]

-- At the start: each active row is found by its ID, and each row is settled or among them.
Live-select : (xs : List Job) → Distinct xs → All (Live xs) (select is_active xs)
Live-select xs d =
    All-mono _ _ (λ j h. (j, find-Elem xs j d h.0, h.1)) (select is_active xs)
      (select-Elem is_active xs)

Pending-later : (x : Job) (js : List Job) (k : Job) → Pending js k → Pending (x ∷ js) k
Pending-later x js k (inl s) = inl s
Pending-later x js k (inr m) = inr (inr m)

select_hit :
    (p : Job → Bool) (x : Job) (xs : List Job) → p x ≡ true → select p (x ∷ xs) ≡ x ∷ select p xs
unfolding select
select_hit p x xs e = rw e

select_miss :
    (p : Job → Bool) (x : Job) (xs : List Job) → p x ≡ false → select p (x ∷ xs) ≡ select p xs
unfolding select
select_miss p x xs e = rw e

Pending-select : (xs : List Job) → All (Pending (select is_active xs)) xs
Pending-select [] = tt
Pending-select (x ∷ xs) = elim (Bool-cases (is_active x)) [
  | inl act ↦
      subst (λ l. All (Pending l) (x ∷ xs)) (sym (select_hit is_active x xs act))
        (
          inr (inl refl),
          All-mono _ _ (Pending-later x (select is_active xs)) xs (Pending-select xs),
        )
  | inr idle ↦
      subst (λ l. All (Pending l) (x ∷ xs)) (sym (select_miss is_active x xs idle))
        (inl (inl idle), Pending-select xs)
]

select_none : (p : Job → Bool) (xs : List Job) → select p xs ≡ [] → All (λ j. p j ≡ false) xs
unfolding select
select_none p [] e = tt
select_none p (x ∷ xs) e = elim (Bool-cases (p x)) [
  | inl t ↦ let no : x ∷ select p xs ≡ [] = rw t at e in cc
  | inr f ↦ (f, select_none p xs (rw f at e))
]

module _ (P : Job → Type 0) (keep : Survives P) (G : Db → Type 0) (d : Disk)
    (distinct : Distinct d.db.jobs) (all : All P d.db.jobs) where
  begun :
      (js : List Job)
      → select is_active d.db.jobs ≡ js
      → (All (λ j. is_active j ≡ false) d.db.jobs → G (with_device (recover_device []) d.db))
      → ((db : Db) (j : Job) (rest : List Job)
          → Recovered P d.db.jobs db
          → G (with_device (recover_device (j ∷ rest)) db))
      → Leaves G ((recover_each js >> update_device (recover_device js)) (next d))
  unfolding recover_each
  begun [] e idle busy =
      pure_then _ _ _ _ (device_last G _ _ (idle (select_none is_active d.db.jobs e)))
  begun (j ∷ js) e idle busy =
      recover_each-Recovered P keep G (j ∷ js) d.db.jobs _ (next d)
        (Evolves-refl Interrupts Interrupts-refl d.db.jobs, distinct) all
        (subst (All (Live d.db.jobs)) e (Live-select d.db.jobs distinct))
        (subst (λ js. All (Pending js) d.db.jobs) e (Pending-select d.db.jobs))
        (λ x r. device_last G _ _ (busy x.db j js r))

  read_active :
      (All (λ j. is_active j ≡ false) d.db.jobs → G (with_device (recover_device []) d.db))
      → ((db : Db) (j : Job) (rest : List Job)
          → Recovered P d.db.jobs db
          → G (with_device (recover_device (j ∷ rest)) db))
      → Leaves G (
          (read (λ db. ok (select is_active db.jobs)) >>= λ active.
          recover_each active >> update_device (recover_device active))
            d)
  read_active idle busy = read_then _ _ _ _ λ active e. begun active (same e) idle busy
    where
      same : {xs ys : List Job} → ◌≡◌ {A = Result (List Job)} (ok xs) (ok ys) → xs ≡ ys
      same e = cc

  -- What holds before, and of every table that the loop can end with, holds after `recover`.
  pub recover_keeps :
      G d.db
      → (All (λ j. is_active j ≡ false) d.db.jobs → G (with_device (recover_device []) d.db))
      → ((db : Db) (j : Job) (rest : List Job)
          → Recovered P d.db.jobs db
          → G (with_device (recover_device (j ∷ rest)) db))
      → G (recover d).1.db
  unfolding recover
  recover_keeps old idle busy = transaction_keeps G d _ old (read_active idle busy)

  pub recover-Holds :
      (All (λ j. is_active j ≡ false) d.db.jobs → G (with_device (recover_device []) d.db))
      → ((db : Db) (j : Job) (rest : List Job)
          → Recovered P d.db.jobs db
          → G (with_device (recover_device (j ∷ rest)) db))
      → Leaves G (recover d)
  unfolding recover
  recover-Holds idle busy = transaction-Holds (λ _. G) _ d (read_active idle busy)

pub recover-Keeps : Keeps recover
recover-Keeps d h =
    recover_keeps (λ _. Unit) (λ t j k u. tt) (λ db. Good d.db.jobs db.jobs) d h
      (All-All (λ _. tt) d.db.jobs) (Good-refl _ h) (λ _. Good-refl _ h)
      (λ db j rest r. (Evolves-mono Interrupts Advances Interrupts-Advances _ _ r.0.0, r.0.1))
