-- ===== src/Http/Acts.antt =====
-- What a handler does to the tables, and what its steps have found out when it goes on.
use ipa_now.Common.{ℕ, ◌≡◌, refl, Bool, true, false, String}
use ipa_now.Jobs.Tx.{Error, Result, ok, err, Tx}
use ipa_now.Jobs.Calls.{Call}
use ipa_now.Jobs.Trace.{Trace, over, Trace-trans}
use ipa_now.Secrets.Broker.{Broker}
use ipa_now.Storage.{Files}
use ipa_now.Worker.World.{Env, Work, call}
use ipa_now.Worker.Traced.{Gives, Traced}
use ipa_now.Http.Message.{Content, other_type, malformed, value, Response}
use ipa_now.Http.Web.{
  Site, Outcome, go, stop, Web, proceed, ◌>>=◌, pure, respond, on_world, on_files, on_broker, ask,
  refuse, or_stop, store_call, decode,
}

abbrev pub Given : {A : Type 0} → (A → Type 0) → Outcome A → Type 0
Given R (go a) = R a
Given R (stop r) = Unit

module _ (P : Call → Type 0) where
  -- All calls are of the kind `P`, and the handler goes on only with a value of `R`.
  unfoldable pub Acts : {A : Type 0} → (A → Type 0) → Web A → Type 0
  Acts R m = (s : Site) → Trace P s.world.disk.db (m s).1.world.disk.db × Given R (m s).0

  module _ {A B : Type 0} (R : A → Type 0) (S : B → Type 0) where
    proceed-Acts :
        (s : Site) (o : Outcome A) (t : Site) (k : A → Web B)
        → Trace P s.world.disk.db t.world.disk.db
        → Given R o
        → ((a : A) → R a → Acts S (k a))
        → Trace P s.world.disk.db (proceed o k t).1.world.disk.db × Given S (proceed o k t).0
    unfolding Acts
    proceed-Acts s (go a) t k h g f = let (x, b) = f a g t in (Trace-trans P _ _ _ h x, b)
    proceed-Acts s (stop r) t k h g f = (h, tt)

    pub bind-Acts :
        (m : Web A) (k : A → Web B) → Acts R m → ((a : A) → R a → Acts S (k a)) → Acts S (m >>= k)
    unfolding Acts ◌>>=◌
    bind-Acts m k f g s = let (t, a) = f s in proceed-Acts s (m s).0 (m s).1 k t a g

  module _ {A : Type 0} (R : A → Type 0) where
    pub pure-Acts : (a : A) → R a → Acts R (pure a)
    unfolding Acts pure
    pure-Acts a h s = (over s.world.disk.db, h)

    pub respond-Acts : (r : Response) → Acts R (respond r)
    unfolding Acts respond
    respond-Acts r s = (over s.world.disk.db, tt)

    pub or_stop-Acts : (f : Error → Response) (r : Result A) → Gives R r → Acts R (or_stop f r)
    or_stop-Acts f (ok a) h = pure-Acts a h
    or_stop-Acts f (err e) h = respond-Acts (f e)

    pub on_world-Acts : (m : Work A) → Traced P R m → Acts (Gives R) (on_world m)
    unfolding Acts Traced on_world
    on_world-Acts m f s = f s.world

    pub store-Acts :
        (env : Env) (f : Error → Response) (m : Tx A)
        → Traced P R (call env m)
        → Acts R (store_call env f m)
    unfolding store_call
    store-Acts env f m g =
        bind-Acts (Gives R) R _ _ (on_world-Acts (call env m) g) λ r h. or_stop-Acts f r h

  pub refuse-Acts : (b : Bool) (n : ℕ) (c : String) → Acts (λ _. b ≡ false) (refuse b n c)
  unfolding refuse
  refuse-Acts true n c = respond-Acts _ _
  refuse-Acts false n c = pure-Acts _ tt refl

  pub decode-Acts : {B : Type 0} (c : Content B) → Acts (λ b. c ≡ value b) (decode c)
  unfolding decode
  decode-Acts other_type = respond-Acts _ _
  decode-Acts malformed = respond-Acts _ _
  decode-Acts (value b) = pure-Acts _ b refl

  pub on_files-Acts : (f : Files → Bool × Files) → Acts (λ _. Unit) (on_files f)
  unfolding Acts on_files
  on_files-Acts f s = (over s.world.disk.db, tt)

  pub on_broker-Acts : {A : Type 0} (f : Broker → A × Broker) → Acts (λ _. Unit) (on_broker f)
  unfolding Acts on_broker
  on_broker-Acts f s = (over s.world.disk.db, tt)

  pub ask-Acts : {A : Type 0} (f : ℕ → A) → Acts (λ _. Unit) (ask f)
  unfolding Acts ask on_world ◌>>=◌ pure
  ask-Acts f s = (over s.world.disk.db, tt)

  pub mono-Acts :
      {A : Type 0} (R S : A → Type 0) (m : Web A) → ((a : A) → R a → S a) → Acts R m → Acts S m
  unfolding Acts
  mono-Acts R S m weaken f s = let (t, g) = f s in (t, given (m s).0 g)
    where
      given : (o : Outcome _) → Given R o → Given S o
      given (go a) g = weaken a g
      given (stop r) g = tt
