-- ===== src/Worker/Ended/Rules.antt =====
-- Rules to reason about what the worker promises when it succeeds.
use ipa_now.Common.{suc, ◌≡◌, refl, arith, Bool, true, false, subst, if◌then◌else◌}
use ipa_now.Jobs.Tx.{Result, ok, err, Disk, Tx}
use ipa_now.Jobs.Model.{Db}
use ipa_now.Jobs.Rules.{Holds}
use ipa_now.Storage.{Files}
use ipa_now.Worker.World.{Env, World, Work, proceed, ◌>>=◌, pure, fail, before, call, file, require}

unfoldable pub Yields : {A : Type 0} → (A → World → Type 0) → Result A × World → Type 0
Yields Q (ok a, w) = Q a w
Yields Q (err e, w) = Unit

pub Yields-ok :
    {A : Type 0} (Q : A → World → Type 0) (r : Result A × World) (a : A)
    → Yields Q r
    → r.0 ≡ ok a
    → Q a r.1
unfolding Yields
Yields-ok Q (ok b, w) a h e = subst (λ x. Q x w) (ground (arith, e)) h
Yields-ok Q (err x, w) a h e = cc

pub Yields-pure :
    {A : Type 0} (Q : A → World → Type 0) (a : A) (w : World) → Q a w → Yields Q (pure a w)
unfolding Yields pure
Yields-pure Q a w h = h

module _ {A B : Type 0} (Q : B → World → Type 0) where
  proceed-Yields :
      (P : A → World → Type 0) (r : Result A × World) (k : A → Work B)
      → Yields P r
      → ((a : A) (v : World) → P a v → Yields Q (k a v))
      → Yields Q (proceed r.0 k r.1)
  unfolding Yields
  proceed-Yields P (ok a, v) k h g = g a v h
  proceed-Yields P (err e, v) k h g = tt

  -- One step promises `P`, and the rest relies on it.
  pub bind-Yields :
      (P : A → World → Type 0) (m : Work A) (k : A → Work B) (w : World)
      → Yields P (m w)
      → ((a : A) (v : World) → P a v → Yields Q (k a v))
      → Yields Q ((m >>= k) w)
  unfolding ◌>>=◌
  bind-Yields P m k w h g = proceed-Yields P (m w) k h g

-- What holds after a step whatever it returns.
pub any-Yields :
    {A : Type 0} (P : World → Type 0) (r : Result A × World) → P r.1 → Yields (λ _. P) r
unfolding Yields
any-Yields P (ok a, w) h = h
any-Yields P (err e, w) h = tt

pub self-Yields : {A : Type 0} (r : Result A × World) → Yields (λ a v. r.0 ≡ ok a) r
unfolding Yields
self-Yields (ok a, w) = refl
self-Yields (err e, w) = tt

pub both-Yields :
    {A : Type 0} (P Q : A → World → Type 0) (r : Result A × World)
    → Yields P r
    → Yields Q r
    → Yields (λ a v. P a v × Q a v) r
unfolding Yields
both-Yields P Q (ok a, w) g h = (g, h)
both-Yields P Q (err e, w) g h = tt

pub mono-Yields :
    {A : Type 0} (P Q : A → World → Type 0) (r : Result A × World)
    → ((a : A) (v : World) → P a v → Q a v)
    → Yields P r
    → Yields Q r
unfolding Yields
mono-Yields P Q (ok a, w) g h = g a w h
mono-Yields P Q (err e, w) g h = tt

-- A call of the store promises what its transaction does.
pub call-Yields :
    {A : Type 0} (Q : A → Db → Type 0) (env : Env) (m : Tx A) (w : World)
    → Holds Q (m (before env w))
    → Yields (λ a v. Q a v.disk.db) (call env m w)
unfolding call Yields Holds
call-Yields {A} Q env m w h = called (m (before env w)) h
  where
    called :
        (r : Result A × Disk)
        → Holds Q r
        → Yields (λ a v. Q a v.disk.db) (r.0, record w { disk = r.1; step = suc w.step })
    called (ok a, d) g = g
    called (err e, d) g = tt

pub if-Yields :
    {A : Type 0} (Q : A → World → Type 0) (b : Bool) (m k : Work A) (w : World)
    → (b ≡ true → Yields Q (m w))
    → (b ≡ false → Yields Q (k w))
    → Yields Q ((if b then m else k) w)
if-Yields Q true m k w f g = f refl
if-Yields Q false m k w f g = g refl

pub file-Yields :
    (f : Files → Bool × Files) (w : World)
    → Yields
        (λ b v.
          (b ≡ (f w.files).0)
          × (v.files ≡ (f w.files).1)
          × (v.disk ≡ w.disk)
          × (v.step ≡ suc w.step))
        (file f w)
unfolding Yields file
file-Yields f w = (refl, refl, refl, refl)

pub require-Yields : (b : Bool) (w : World) → Yields (λ _ v. (b ≡ true) × (v ≡ w)) (require b w)
unfolding Yields require pure fail
require-Yields true w = (refl, refl)
require-Yields false w = tt
