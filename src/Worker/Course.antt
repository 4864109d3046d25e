-- ===== src/Worker/Course.antt =====
-- What a run calls of the job store: which calls, and how many retries among them.
pub mod Parts
pub mod Run
use ipa_now.Common.{
  ℕ, zero, suc, ◌+◌, ◌≤◌, String, ◌≡◌, refl, arith, subst, ◌⊎◌, inl, inr, Bool, true, false,
  if◌then◌else◌, List, [], ◌∷◌, All, Bool-cases,
}
use ipa_now.Jobs.Model.{Job, Db}
use ipa_now.Jobs.Rows.{Field}
use ipa_now.Jobs.Tx.{Error, Result, ok, err, Disk, Tx, Done, read, statement}
use ipa_now.Jobs.Calls.{
  Call, enqueues, claims, recovers, changes, progresses, cancels, releases, resolves,
  resolves_automatic, retries, quarantines, writes_metadata, begins_cleanup, starts_operation, exec,
  run,
}
use ipa_now.Storage.{Files}
use ipa_now.Worker.World.{
  Env, World, Work, proceed, ◌>>=◌, attempt, pure, fail, before, call, file, require, ask,
}
use ipa_now.Worker.Finish.{expiry_fields, is_due}

-- An expiry that is due of an artifact, whichever job it is of
abbrev pub IsExpiry : String → List Field → Type 0
IsExpiry i fields =
    (k : Job) × (now : ℕ) × (k.id ≡ i) × (is_due k now ≡ true) × (fields ≡ expiry_fields k)

-- The calls that a run makes itself: for its own job, but for the expiry of artifacts.
abbrev pub IsOfRun : String → Call → Type 0
IsOfRun id (changes i to fields) = i ≡ id
IsOfRun id (begins_cleanup i desired code message) = i ≡ id
IsOfRun id (quarantines i reason desired) = i ≡ id
IsOfRun id (releases i) = i ≡ id
IsOfRun id (retries i) = i ≡ id
IsOfRun id (writes_metadata i fields) = (i ≡ id) ⊎ IsExpiry i fields
IsOfRun id _ = ⊥

abbrev pub cost : Call → ℕ
cost (retries id) = 1
cost _ = 0

-- Calls lead from some tables to others: those of others, and the run's own with so many retries among
-- them at most.
pub data Course (Others : Call → Type 0) (id : String) : ℕ → Db → Db → Type 0 where
  over : (n : ℕ) (db : Db) → Course Others id n db db
  beside :
      (c : Call) (d : Disk) (n : ℕ) (e : Db)
      → Others c
      → Course Others id n (exec c d).1.db e
      → Course Others id n d.db e
  own :
      (c : Call) (d : Disk) (m n : ℕ) (e : Db)
      → IsOfRun id c
      → cost c + m ≤ n
      → Course Others id m (exec c d).1.db e
      → Course Others id n d.db e

module _ (Others : Call → Type 0) (id : String) where
  pub Course-mono : (m n : ℕ) (a b : Db) → m ≤ n → Course Others id m a b → Course Others id n a b
  Course-mono m n _ _ le (over k db) = over n db
  Course-mono m n _ b le (beside c d i e p g) = beside c d n b p (Course-mono i n _ b le g)
  Course-mono m n _ b le (own c d i j e p least g) = own c d i n b p (omega (arith, le, least)) g

  pub Course-trans :
      (m n : ℕ) (a b c : Db)
      → Course Others id m a b
      → Course Others id n b c
      → Course Others id (m + n) a c
  Course-trans m n _ _ c (over k db) h = Course-mono n (m + n) db c (omega arith) h
  Course-trans m n _ b c (beside x d i e p g) h =
      beside x d (m + n) c p (Course-trans m n _ b c g h)
  Course-trans m n _ b c (own x d i j e p le g) h =
      own x d (i + n) (m + n) c p (omega (arith, le)) (Course-trans i n _ b c g h)

  run-Course :
      (d : Disk) (cs : List (ℕ × Call))
      → All (λ x. Others x.1) cs
      → Course Others id 0 d.db (run d cs).db
  unfolding run
  run-Course d [] h = over 0 d.db
  run-Course d ((t, c) ∷ cs) (h, hs) =
      beside c (record d { now = t }) 0 _ h (run-Course (exec c (record d { now = t })).1 cs hs)

  -- A part of the run with so many retries at most
  unfoldable pub Costs : {A : Type 0} → ℕ → Work A → Type 0
  Costs n m = (w : World) → Course Others id n w.disk.db (m w).1.disk.db

  module _ (a b n : ℕ) (le : a + b ≤ n) where
    both : (u v w : Db) → Course Others id a u v → Course Others id b v w → Course Others id n u w
    both u v w f g = Course-mono (a + b) n u w le (Course-trans a b u v w f g)

    module _ {A B : Type 0} where
      proceed-Costs :
          (w : World) (r : Result A) (v : World) (k : A → Work B)
          → Course Others id a w.disk.db v.disk.db
          → ((x : A) → Costs b (k x))
          → Course Others id n w.disk.db (proceed r k v).1.disk.db
      unfolding Costs
      proceed-Costs w (ok x) v k f g = both _ _ _ f (g x v)
      proceed-Costs w (err e) v k f g = both _ _ _ f (over b _)

      pub bind_both-Costs :
          (m : Work A) (k : A → Work B) → Costs a m → ((x : A) → Costs b (k x)) → Costs n (m >>= k)
      unfolding Costs ◌>>=◌
      bind_both-Costs m k f g w = proceed-Costs w (m w).0 (m w).1 k (f w) g

      pub attempt-Costs :
          (f : Result A → Work B) (m : Work A)
          → Costs a m
          → ((r : Result A) → Costs b (f r))
          → Costs n (attempt f m)
      unfolding Costs attempt
      attempt-Costs f m g h w = both _ _ _ (g w) (h (m w).0 (m w).1)

  -- The first part makes no retry.
  pub bind-Costs :
      {A B : Type 0} (n : ℕ) (m : Work A) (k : A → Work B)
      → Costs 0 m
      → ((x : A) → Costs n (k x))
      → Costs n (m >>= k)
  bind-Costs n m k f g = bind_both-Costs 0 n n (omega arith) m k f g

  module _ {A : Type 0} (n : ℕ) where
    pub pure-Costs : (a : A) → Costs n (pure a)
    unfolding Costs pure
    pure-Costs a w = over n _

    pub ask-Costs : (f : ℕ → A) → Costs n (ask f)
    unfolding Costs ask
    ask-Costs f w = over n _

    pub if-Costs : (b : Bool) (m k : Work A) → Costs n m → Costs n k → Costs n (if b then m else k)
    if-Costs true m k f g = f
    if-Costs false m k f g = g

    pub if_true-Costs :
        (b : Bool) (m k : Work A)
        → (b ≡ true → Costs n m)
        → Costs n k
        → Costs n (if b then m else k)
    if_true-Costs true m k f g = f refl
    if_true-Costs false m k f g = g

    pub if_false-Costs :
        (b : Bool) (m k : Work A)
        → Costs n m
        → (b ≡ false → Costs n k)
        → Costs n (if b then m else k)
    if_false-Costs true m k f g = f
    if_false-Costs false m k f g = g refl

  pub fail-Costs : (A : Type 0) (n : ℕ) (e : Error) → Costs n (fail {A = A} e)
  unfolding Costs fail
  fail-Costs A n e w = over n _

  pub file-Costs : (f : Files → Bool × Files) → Costs 0 (file f)
  unfolding Costs file
  file-Costs f w = over 0 _

  pub require-Costs : (b : Bool) → Costs 0 (require b)
  unfolding require
  require-Costs true = pure-Costs 0 tt
  require-Costs false = fail-Costs Unit 0 _

  module _ (env : Env) (others : (n : ℕ) → All (λ x. Others x.1) (env.others n)) where
    pub call-Costs :
        {A : Type 0} (n : ℕ) (m : Tx A)
        → ((d : Disk) → Course Others id n d.db (m d).1.db)
        → Costs n (call env m)
    unfolding Costs call
    call-Costs n m f w = Course-mono (0 + n) n _ _ (omega arith) (
        Course-trans 0 n _ _ _ (run-Course w.disk (env.others w.step) (others w.step))
          (f (before env w)))

    pub exec-Costs : (c : Call) → IsOfRun id c → Costs (cost c) (call env (exec c))
    exec-Costs c p =
        call-Costs (cost c) (exec c) λ d. own c d 0 (cost c) _ p (omega arith) (over 0 _)

    pub read-Costs : {A : Type 0} (f : Db → Result A) → Costs 0 (call env (read f))
    unfolding read statement
    read-Costs f = call-Costs 0 (read f) kept
      where
        kept : (d : Disk) → Course Others id 0 d.db (read f d).1.db
        kept d = elim (Bool-cases (d.fails d.done)) [
          | inl e ↦ rw (e, if◌then◌else◌) (over 0 d.db)
          | inr e ↦ rw (e, if◌then◌else◌) (over 0 d.db)
        ]
