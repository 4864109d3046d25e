-- ===== src/Worker/Traced.antt =====
-- What a part of the service does to the tables: its own calls of the store, and those of the others.
use ipa_now.Common.{
  ℕ, String, ◌≡◌, refl, Bool, true, false, if◌then◌else◌, All, List, [], ◌∷◌, some, none, Option,
  not, sym, find, find-sat, eq_iff, Bool-cases, inl, inr,
}
use ipa_now.Jobs.Model.{Job, Db}
use ipa_now.Jobs.Tx.{Error, Result, ok, err, Disk, Tx, read, statement}
use ipa_now.Jobs.Rows.{all, get, first_job, has_id, found, awaits_review}
use ipa_now.Jobs.Queue.{metadata}
use ipa_now.Jobs.Calls.{Call, resolves, writes_metadata, exec}
use ipa_now.Jobs.Trace.{Trace, over, Trace-trans, once, run-Trace, read-Trace}
use ipa_now.Storage.{Files}
use ipa_now.Worker.World.{
  Env, World, Work, proceed, ◌>>=◌, pure, fail, before, call, file, require, ask,
}
use ipa_now.Worker.Finish.{expiry_fields, expire, expire_each, is_due, clear_files}
use ipa_now.Worker.Startup.{resolve_job}

-- What holds of a value, if there is one
abbrev pub Gives : {A : Type 0} → (A → Type 0) → Result A → Type 0
Gives R (ok a) = R a
Gives R (err e) = Unit

pub Gives-any : {A : Type 0} (r : Result A) → Gives (λ _. Unit) r
Gives-any (ok a) = tt
Gives-any (err e) = tt

module _ (P : Call → Type 0) where
  -- From the tables to the tables the calls are all of the kind `P`, and the value is one of `R`.
  unfoldable pub Traced : {A : Type 0} → (A → Type 0) → Work A → Type 0
  Traced R m = (w : World) → Trace P w.disk.db (m w).1.disk.db × Gives R (m w).0

  module _ {A B : Type 0} (R : A → Type 0) (S : B → Type 0) where
    proceed-Traced :
        (w : World) (r : Result A) (v : World) (k : A → Work B)
        → Trace P w.disk.db v.disk.db
        → Gives R r
        → ((a : A) → R a → Traced S (k a))
        → Trace P w.disk.db (proceed r k v).1.disk.db × Gives S (proceed r k v).0
    unfolding Traced
    proceed-Traced w (ok a) v k h g f = let (t, b) = f a g v in (Trace-trans P _ _ _ h t, b)
    proceed-Traced w (err e) v k h g f = (h, tt)

    pub bind-Traced :
        (m : Work A) (k : A → Work B)
        → Traced R m
        → ((a : A) → R a → Traced S (k a))
        → Traced S (m >>= k)
    unfolding Traced ◌>>=◌
    bind-Traced m k f g w = let (t, a) = f w in proceed-Traced w (m w).0 (m w).1 k t a g

  module _ {A : Type 0} (R : A → Type 0) where
    pub pure-Traced : (a : A) → R a → Traced R (pure a)
    unfolding Traced pure
    pure-Traced a h w = (over w.disk.db, h)

    pub fail-Traced : (e : Error) → Traced R (fail e)
    unfolding Traced fail
    fail-Traced e w = (over w.disk.db, tt)

    pub if-Traced :
        (b : Bool) (m k : Work A) → Traced R m → Traced R k → Traced R (if b then m else k)
    if-Traced true m k f g = f
    if-Traced false m k f g = g

  pub ask-Traced : {A : Type 0} (f : ℕ → A) → Traced (λ _. Unit) (ask f)
  unfolding Traced ask
  ask-Traced f w = (over w.disk.db, tt)

  pub file-Traced : (f : Files → Bool × Files) → Traced (λ _. Unit) (file f)
  unfolding Traced file
  file-Traced f w = (over w.disk.db, tt)

  pub require-Traced : (b : Bool) → Traced (λ _. Unit) (require b)
  unfolding require
  require-Traced true = pure-Traced _ tt tt
  require-Traced false = fail-Traced _ _

  module _ (env : Env) (others : (n : ℕ) → All (λ x. P x.1) (env.others n)) where
    pub call-Traced :
        {A : Type 0} (R : A → Type 0) (m : Tx A)
        → ((d : Disk) → Trace P d.db (m d).1.db × Gives R (m d).0)
        → Traced R (call env m)
    unfolding Traced call
    call-Traced R m f w =
        let (t, a) = f (before env w) in
        (Trace-trans P _ _ _ (run-Trace P w.disk (env.others w.step) (others w.step)) t, a)

    read-Gives :
        {A : Type 0} (R : A → Type 0) (f : Db → Result A)
        → ((db : Db) → Gives R (f db))
        → (d : Disk) → Gives R (read f d).0
    unfolding read statement
    read-Gives R f g d = elim (Bool-cases (d.fails d.done)) [
      | inl e ↦ rw (e, if◌then◌else◌) tt
      | inr e ↦ rw (e, if◌then◌else◌) (g d.db)
    ]

    pub read-Traced :
        {A : Type 0} (R : A → Type 0) (f : Db → Result A)
        → ((db : Db) → Gives R (f db))
        → Traced R (call env (read f))
    read-Traced R f g = call-Traced R (read f) (λ d. (read-Trace P f d, read-Gives R f g d))

    pub exec-Traced : (c : Call) → P c → Traced (λ _. Unit) (call env (exec c))
    exec-Traced c p = call-Traced (λ _. Unit) (exec c) (λ d. (once P c d p, Gives-any _))

    -- The job that is found has the ID that was asked for.
    pub get-Traced : (id : String) → Traced (λ j. j.id ≡ id) (call env (get id))
    unfolding get first_job
    get-Traced id =
        read-Traced (λ j. j.id ≡ id) (λ db. found (find (has_id id) db.jobs))
          λ db. found-id db (find (has_id id) db.jobs) refl
      where
        found-id :
            (db : Db) (o : Option Job)
            → o ≡ find (has_id id) db.jobs
            → Gives (λ j. j.id ≡ id) (found o)
        found-id db none e = tt
        found-id db (some j) e = (eq_iff j.id id).0 (find-sat (has_id id) db.jobs j (sym e))

    module _ (written : (id : String) (j : Job) → P (writes_metadata id (expiry_fields j))) where
      expire_each-Traced : (jobs : List Job) → Traced (λ _. Unit) (expire_each env jobs)
      unfolding expire_each exec
      expire_each-Traced [] = pure-Traced _ tt tt
      expire_each-Traced (j ∷ js) = bind-Traced _ _ _ _ (ask-Traced env.time) λ now _.
          if-Traced _ (is_due j now) _ _
            (bind-Traced _ _ _ _
              (bind-Traced _ _ _ _ (bind-Traced _ _ _ _ (file-Traced _) λ b _. require-Traced b)
                λ _ _. writes j)
              λ _ _. expire_each-Traced js)
            (expire_each-Traced js)
        where
          writes : (k : Job) → Traced (λ _. Unit) (call env (metadata k.id (expiry_fields k)))
          writes k = exec-Traced (writes_metadata k.id (expiry_fields k)) (written k.id k)

      pub expire-Traced : Traced (λ _. Unit) (expire env)
      unfolding expire all
      expire-Traced =
          bind-Traced _ _ _ _ (read-Traced (λ _. Unit) _ λ db. tt) λ jobs _. expire_each-Traced jobs

      pub resolve_job-Traced :
          (id : String) → P (resolves id) → Traced (λ _. Unit) (resolve_job env id)
      unfolding resolve_job clear_files exec
      resolve_job-Traced id p =
          bind-Traced (λ j. j.id ≡ id) _ _ _ (get-Traced id)
            λ j _. if-Traced _ (not (awaits_review j)) _ _ (fail-Traced _ _) (
              bind-Traced (λ _. Unit) _ _ _ cleared
                λ c _.
                  bind-Traced (λ _. Unit) _ _ _ (require-Traced c)
                    λ _ _.
                      bind-Traced (λ _. Unit) _ _ _ expire-Traced
                        λ _ _. exec-Traced (resolves id) p)
        where
          cleared : Traced (λ _. Unit) (clear_files id)
          cleared =
              bind-Traced (λ _. Unit) _ _ _ (file-Traced _)
                λ a _.
                  bind-Traced (λ _. Unit) _ _ _ (file-Traced _)
                    λ b _. bind-Traced (λ _. Unit) _ _ _ (file-Traced _) λ c _. pure-Traced _ _ tt
