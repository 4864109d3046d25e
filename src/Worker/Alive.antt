-- ===== src/Worker/Alive.antt =====
-- Whatever the worker does, and whatever the others do meanwhile, the jobs only move forward: a
-- predicate on what the worker runs, and how it is composed.
pub mod Parts
pub mod Serve
use ipa_now.Common.{ℕ, ◌≡◌, refl, Bool, true, false, List, if◌then◌else◌, Bool-cases, inl, inr}
use ipa_now.Jobs.Model.{Job}
use ipa_now.Jobs.Tx.{Error, Result, ok, err, Disk, Tx, Done, Tx, read}
use ipa_now.Jobs.Model.{Db}
use ipa_now.Jobs.Evolve.Table.{Evolves, Evolves-refl, Evolves-trans, Evolves-mono}
use ipa_now.Jobs.Evolve.Rows.{Advances, Distinct, Good-refl}
use ipa_now.Jobs.Evolve.QueueCalls.{Keeps}
use ipa_now.Jobs.Evolve.History.{Later, Later-refl, Later-trans, Advances-Later, run-Later}
use ipa_now.Storage.{Files}
use ipa_now.Worker.World.{
  Env, World, Work, proceed, ◌>>=◌, ◌>>◌, attempt, pure, fail, before, call, file, require, ask,
}

-- Each job is in the same or in a later state, and the IDs stay distinct.
abbrev pub Lives : World → World → Type 0
Lives w v =
    Distinct w.disk.db.jobs → Evolves Later w.disk.db.jobs v.disk.db.jobs × Distinct v.disk.db.jobs

-- It does so whether it succeeds or fails.
unfoldable pub Alive : {A : Type 0} → Work A → Type 0
Alive m = (w : World) → Lives w (m w).1

pub Lives-refl : (w : World) → Lives w w
Lives-refl w h = (Evolves-refl Later Later-refl _, h)

pub Lives-trans : (u v w : World) → Lives u v → Lives v w → Lives u w
Lives-trans u v w f g h =
    let (step, distinct) = f h in
    let (rest, distinct') = g distinct in
    (Evolves-trans Later Later-trans _ _ _ step rest, distinct')

module _ {A B : Type 0} where
  proceed-Lives :
      (w : World) (r : Result A) (v : World) (k : A → Work B)
      → Lives w v
      → ((a : A) → Alive (k a))
      → Lives w (proceed r k v).1
  unfolding Alive
  proceed-Lives w (ok a) v k f g = Lives-trans w v (k a v).1 f (g a v)
  proceed-Lives w (err e) v k f g = f

  pub bind-Alive :
      (m : Work A) (k : A → Work B) → Alive m → ((a : A) → Alive (k a)) → Alive (m >>= k)
  unfolding Alive ◌>>=◌
  bind-Alive m k f g w = proceed-Lives w (m w).0 (m w).1 k (f w) g

  pub attempt-Alive :
      (f : Result A → Work B) (m : Work A)
      → Alive m
      → ((r : Result A) → Alive (f r))
      → Alive (attempt f m)
  unfolding Alive attempt
  attempt-Alive f m g h w = Lives-trans w (m w).1 (f (m w).0 (m w).1).1 (g w) (h (m w).0 (m w).1)

module _ {A : Type 0} where
  pub pure-Alive : (a : A) → Alive (pure a)
  unfolding Alive pure
  pure-Alive a w = Lives-refl w

  pub ask-Alive : (f : ℕ → A) → Alive (ask f)
  unfolding Alive ask
  ask-Alive f w = Lives-refl w

  pub if-Alive : (b : Bool) (m k : Work A) → Alive m → Alive k → Alive (if b then m else k)
  if-Alive true m k f g = f
  if-Alive false m k f g = g

  -- A call of the store, after any calls of the others.
  pub call-Alive : (env : Env) (m : Tx A) → Keeps m → Alive (call env m)
  unfolding Alive call
  call-Alive env m keep w h =
      let (rest, distinct) = run-Later w.disk (env.others w.step) h in
      let (step, distinct') = keep (before env w) distinct in
      (
        Evolves-trans Later Later-trans _ _ _ rest
            (Evolves-mono Advances Later Advances-Later _ _ step),
        distinct',
      )

  pub read-Keeps : (f : Db → Result A) → Keeps (read f)
  unfolding read
  read-Keeps f d h = elim (Bool-cases (d.fails d.done)) [
    | inl e ↦ rw (e, if◌then◌else◌) (Good-refl _ h)
    | inr e ↦ rw (e, if◌then◌else◌) (Good-refl _ h)
  ]

pub file-Alive : (f : Files → Bool × Files) → Alive (file f)
unfolding Alive file
file-Alive f w = Lives-refl w

pub fail-Alive : (A : Type 0) (e : Error) → Alive {A = A} (fail e)
unfolding Alive fail
fail-Alive A e w = Lives-refl w

pub require-Alive : (b : Bool) → Alive (require b)
unfolding Alive require
require-Alive true w = Lives-refl w
require-Alive false w = Lives-refl w
