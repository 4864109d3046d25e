-- ===== src/Worker/Reconciled/Steady.antt =====
-- What touches no file, and what an expiry and the removal of temporary files leave.
use ipa_now.Common.{
  ℕ, String, ◌≡◌, refl, ◌∙◌, Bool, true, false, List, [], ◌∷◌, if◌then◌else◌, subst, sym,
}
use ipa_now.Jobs.Model.{Job}
use ipa_now.Jobs.Tx.{Result, ok, err, Tx, Done}
use ipa_now.Jobs.Rows.{all}
use ipa_now.Jobs.Queue.{metadata}
use ipa_now.Storage.{Files, artifacts, remove}
use ipa_now.Worker.World.{
  Env, World, Work, proceed, ◌>>=◌, ◌>>◌, pure, attempt, call, file, require, ask,
}
use ipa_now.Worker.Device.{succeeded, cleanup_device}
use ipa_now.Worker.Finish.{review_device, is_due, expiry_fields, expire_each, expire}
use ipa_now.Worker.Startup.{resolve_each}
use ipa_now.Worker.Ended.Rules.{
  Yields, bind-Yields, any-Yields, if-Yields, file-Yields, require-Yields, mono-Yields, Yields-pure,
}

unfoldable pub Steady : {A : Type 0} → Work A → Type 0
Steady m = (w : World) → (m w).1.files ≡ w.files

module _ {A B : Type 0} where
  proceed-Steady :
      (r : Result A) (v : World) (k : A → Work B)
      → ((a : A) → Steady (k a))
      → (proceed r k v).1.files ≡ v.files
  unfolding Steady
  proceed-Steady (ok a) v k g = g a v
  proceed-Steady (err e) v k g = refl

  bind-Steady :
      (m : Work A) (k : A → Work B) → Steady m → ((a : A) → Steady (k a)) → Steady (m >>= k)
  unfolding Steady ◌>>=◌
  bind-Steady m k f g w = proceed-Steady (m w).0 (m w).1 k g ∙ f w

  attempt-Steady :
      (f : Result A → Work B) (m : Work A)
      → Steady m
      → ((r : Result A) → Steady (f r))
      → Steady (attempt f m)
  unfolding Steady attempt
  attempt-Steady f m g h w = h (m w).0 (m w).1 ∙ g w

module _ {A : Type 0} where
  pure-Steady : (a : A) → Steady (pure a)
  unfolding Steady pure
  pure-Steady a w = refl

  ask-Steady : (f : ℕ → A) → Steady (ask f)
  unfolding Steady ask
  ask-Steady f w = refl

  pub call-Steady : (env : Env) (m : Tx A) → Steady (call env m)
  unfolding Steady call
  call-Steady env m w = refl

  if-Steady : (b : Bool) (m k : Work A) → Steady m → Steady k → Steady (if b then m else k)
  if-Steady true m k f g = f
  if-Steady false m k f g = g

  -- A step that touches no file keeps what is known of them.
  pub Steady-Yields :
      (F : Files → Type 0) (m : Work A) (w : World)
      → Steady m
      → F w.files
      → Yields (λ _ v. F v.files) (m w)
  unfolding Steady
  Steady-Yields F m w s h = any-Yields (λ v. F v.files) (m w) (subst F (sym (s w)) h)

succeeded-Steady : (r : Result Done) → Steady (succeeded r)
succeeded-Steady (ok a) = pure-Steady _
succeeded-Steady (err e) = pure-Steady _

cleanup_device-Steady : (env : Env) (id : String) → Steady (cleanup_device env id)
unfolding cleanup_device
cleanup_device-Steady env id = if-Steady _ _ _ (pure-Steady _) (
    bind-Steady _ _ (ask-Steady _) λ result.
      if-Steady _ _ _ (pure-Steady _)
        (if-Steady _ _ _ (attempt-Steady _ _ (call-Steady env _) succeeded-Steady) (pure-Steady _)))

pub review_device-Steady : (env : Env) (id : String) (b : Bool) → Steady (review_device env id b)
unfolding review_device
review_device-Steady env id b =
    if-Steady _ _ _ (bind-Steady _ _ (cleanup_device-Steady env id) λ _. pure-Steady _)
      (pure-Steady _)

pub resolve_each-Steady : (env : Env) (js : List Job) → Steady (resolve_each env js)
unfolding resolve_each
resolve_each-Steady env [] = pure-Steady _
resolve_each-Steady env (j ∷ js) =
    if-Steady _ _ _
      (bind-Steady _ _ (cleanup_device-Steady env j.id) λ clean.
        if-Steady _ _ _ (bind-Steady _ _ (call-Steady env _) λ _. resolve_each-Steady env js)
          (resolve_each-Steady env js))
      (resolve_each-Steady env js)

-- What a removal of artifacts keeps, an expiry keeps.
module _ (F : Files → Type 0)
    (removed : (id : String) (f : Files) → F f → F (remove artifacts id f).1) where
  remove-Yields :
      (id : String) (w : World)
      → F w.files
      → Yields (λ _ v. F v.files) ((file (remove artifacts id) >>= require) w)
  remove-Yields id w h = bind-Yields _ _ _ _ w (file-Yields (remove artifacts id) w) λ b v e.
      mono-Yields _ _ _
        (λ _ u q. subst (λ x. F x.files) (sym q.1) (subst F (sym e.1) (removed id w.files h)))
        (require-Yields b v)

  expire_each-Yields :
      (env : Env) (js : List Job) (w : World)
      → F w.files
      → Yields (λ _ v. F v.files) (expire_each env js w)
  unfolding expire_each
  expire_each-Yields env [] w h = Yields-pure _ _ w h
  expire_each-Yields env (j ∷ js) w h =
      bind-Yields _ (λ _ v. F v.files) _ _ w (Steady-Yields F _ w (ask-Steady env.time) h)
        λ now v g.
          if-Yields _ (is_due j now)
            (file (remove artifacts j.id)
              >>= require
              >> call env (metadata j.id (expiry_fields j))
              >> expire_each env js)
            (expire_each env js) v
            (λ _.
              bind-Yields _ (λ _ u. F u.files) _ _ v
                (bind-Yields _ (λ _ u. F u.files) _ _ v (remove-Yields j.id v g)
                  λ _ u p. Steady-Yields F _ u (call-Steady env _) p)
                λ _ u p. expire_each-Yields env js u p)
            (λ _. expire_each-Yields env js v g)

  pub expire-Yields : (env : Env) (w : World) → F w.files → Yields (λ _ v. F v.files) (expire env w)
  unfolding expire
  expire-Yields env w h =
      bind-Yields _ (λ _ v. F v.files) _ _ w (Steady-Yields F _ w (call-Steady env all) h)
        λ js v g. expire_each-Yields env js v g
