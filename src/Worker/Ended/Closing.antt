-- ===== src/Worker/Ended/Closing.antt =====
-- From the begin of its cleanup on, a job is cleaning or terminal.
use ipa_now.Common.{String, ◌≡◌, ◌⊎◌, inl, inr, arith, true}
use ipa_now.Jobs.Model.{cleaning, Job, Db, terminal}
use ipa_now.Jobs.Cancellation.{Row}
use ipa_now.Jobs.Evolve.Table.{Evolves, find-Evolves}
use ipa_now.Jobs.Evolve.Rows.{Distinct}
use ipa_now.Jobs.Evolve.History.{Later, run-Later}
use ipa_now.Worker.World.{Env, World, Work, ◌>>=◌, before}
use ipa_now.Worker.Alive.{Alive}
use ipa_now.Worker.Ended.Rules.{Yields, bind-Yields, any-Yields}

-- The cleanup of the job has begun.
abbrev pub IsClosing : Job → Type 0
IsClosing k = (k.state ≡ cleaning) ⊎ (terminal k.state ≡ true)

pub record Closing (id : String) (db : Db) : Type 0 where
  pub distinct : Distinct db.jobs
  pub row : Row id IsClosing db

IsClosing-Later : (j k : Job) → Later j k → IsClosing j → IsClosing k
unfolding terminal
IsClosing-Later j k h (inl e) = ground arith
IsClosing-Later j k h (inr e) = ground arith

Closing-moved :
    (id : String) (a b : Db)
    → Evolves Later a.jobs b.jobs × Distinct b.jobs
    → Closing id a
    → Closing id b
Closing-moved id a b (e, u) c =
    let (j, there, closing) = c.row in
    let (k, there', later) = find-Evolves Later (λ x y g. g.same_id) id a.jobs b.jobs j e there in
    record { distinct = u; row = (k, there', IsClosing-Later j k later closing) }

module _ (id : String) where
  Alive-Closing :
      {A : Type 0} (m : Work A) (w : World)
      → Alive m
      → Closing id w.disk.db
      → Closing id (m w).1.disk.db
  unfolding Alive
  Alive-Closing m w live c = Closing-moved id _ _ (live w c.distinct) c

  pub before-Closing : (env : Env) (w : World) → Closing id w.disk.db → Closing id (before env w).db
  before-Closing env w c = Closing-moved id _ _ (run-Later w.disk (env.others w.step) c.distinct) c

  -- A part whose result does not matter here.
  pub Alive-then :
      {A B : Type 0} (Q : B → World → Type 0) (m : Work A) (k : A → Work B) (w : World)
      → Alive m
      → Closing id w.disk.db
      → ((a : A) (v : World) → Closing id v.disk.db → Yields Q (k a v))
      → Yields Q ((m >>= k) w)
  Alive-then Q m k w live c h =
      bind-Yields Q (λ _ v. Closing id v.disk.db) m k w
        (any-Yields (λ v. Closing id v.disk.db) (m w) (Alive-Closing m w live c)) h
