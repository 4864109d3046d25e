-- ===== src/Http/Shows.antt =====
-- Rules to reason about what a handler leaves, both when it goes on and when it has responded.
use ipa_now.Common.{suc, ◌≡◌, refl, Bool, true, false, String, ℕ}
use ipa_now.Jobs.Tx.{Error, Result, ok, err, Disk, Tx}
use ipa_now.Storage.{Files}
use ipa_now.Worker.World.{Env, before, call}
use ipa_now.Http.Message.{Response, refusal}
use ipa_now.Http.Web.{
  Site, Outcome, go, stop, Web, proceed, ◌>>=◌, pure, respond, on_world, on_files, ask, refuse,
  or_stop, store_call,
}

-- The site after a call of the files, and after one of the store
abbrev pub with_files : Site → Files → Site
with_files s g = record s { world = record s.world { files = g; step = suc s.world.step } }

abbrev pub with_disk : Site → Disk → Site
with_disk s d = record s { world = record s.world { disk = d; step = suc s.world.step } }

module _ {A : Type 0} (P : A → Site → Type 0) (T : Response → Site → Type 0) where
  unfoldable pub Shows : Outcome A × Site → Type 0
  Shows (go a, s) = P a s
  Shows (stop r, s) = T r s

  pub pure-Shows : (a : A) (s : Site) → P a s → Shows (pure a s)
  unfolding Shows pure
  pure-Shows a s h = h

  pub respond-Shows : (r : Response) (s : Site) → T r s → Shows (respond r s)
  unfolding Shows respond
  respond-Shows r s h = h

  pub ask-Shows :
      (f : ℕ → A) (s : Site)
      → P (f s.world.step) (record s { world = record s.world { step = suc s.world.step } })
      → Shows (ask f s)
  unfolding Shows ask on_world ◌>>=◌ pure
  ask-Shows f s h = h

  pub store-Shows :
      (env : Env) (f : Error → Response) (m : Tx A) (s : Site)
      → ((a : A) → (m (before env s.world)).0 ≡ ok a → P a (with_disk s (m (before env s.world)).1))
      → ((e : Error) → T (f e) (with_disk s (m (before env s.world)).1))
      → Shows (store_call env f m s)
  unfolding Shows store_call on_world call ◌>>=◌
  store-Shows env f m s h g = told (m (before env s.world)) h g
    where
      told :
          (r : Result A × Disk)
          → ((a : A) → r.0 ≡ ok a → P a (with_disk s r.1))
          → ((e : Error) → T (f e) (with_disk s r.1))
          → Shows (or_stop f r.0 (with_disk s r.1))
      told (ok a, d) h g = pure-Shows a (with_disk s d) (h a refl)
      told (err e, d) h g = respond-Shows (f e) (with_disk s d) (g e)

pub mono-Shows :
    {A : Type 0} (P Q : A → Site → Type 0) (T : Response → Site → Type 0) (r : Outcome A × Site)
    → ((a : A) (v : Site) → P a v → Q a v)
    → Shows P T r
    → Shows Q T r
unfolding Shows
mono-Shows P Q T (go a, v) weaken h = weaken a v h
mono-Shows P Q T (stop r, v) weaken h = h

module _ {A B : Type 0} (Q : B → Site → Type 0) (T : Response → Site → Type 0) where
  proceed-Shows :
      (P : A → Site → Type 0) (r : Outcome A × Site) (k : A → Web B)
      → Shows P T r
      → ((a : A) (v : Site) → P a v → Shows Q T (k a v))
      → Shows Q T (proceed r.0 k r.1)
  unfolding Shows
  proceed-Shows P (go a, v) k h g = g a v h
  proceed-Shows P (stop r, v) k h g = h

  pub bind-Shows :
      (P : A → Site → Type 0) (m : Web A) (k : A → Web B) (s : Site)
      → Shows P T (m s)
      → ((a : A) (v : Site) → P a v → Shows Q T (k a v))
      → Shows Q T ((m >>= k) s)
  unfolding ◌>>=◌
  bind-Shows P m k s h g = proceed-Shows P (m s) k h g

module _ (T : Response → Site → Type 0) where
  pub files-Shows :
      (P : Bool → Site → Type 0) (f : Files → Bool × Files) (s : Site)
      → P (f s.world.files).0 (with_files s (f s.world.files).1)
      → Shows P T (on_files f s)
  unfolding Shows on_files
  files-Shows P f s h = h

  pub refuse-Shows :
      (P : Site → Type 0) (b : Bool) (n : ℕ) (c : String) (s : Site)
      → P s
      → T (refusal n c) s
      → Shows (λ _ v. P v × (b ≡ false)) T (refuse b n c s)
  unfolding refuse
  refuse-Shows P true n c s p t = respond-Shows _ T _ s t
  refuse-Shows P false n c s p t = pure-Shows (λ _ v. P v × (false ≡ false)) T tt s (p, refl)
