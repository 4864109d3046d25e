-- ===== src/Jobs/Rules.antt =====
-- Rules to reason about a transaction step by step, over every way in which its statements fail.
use ipa_now.Common.{
  ℕ, suc, ◌≡◌, refl, arith, subst, inl, inr, Bool, true, false, Bool-cases, if◌then◌else◌,
}
use ipa_now.Jobs.Model.{Job, Device, Db}
use ipa_now.Jobs.Tx.{
  Error, Result, ok, err, Disk, Tx, Done, continue, ◌>>=◌, pure, finish, statement, transaction,
  read, write, clock, refuse,
}
use ipa_now.Jobs.Rows.{with_update, with_device, update_jobs, update_device}

-- What a step promises of the rows if it succeeds.
unfoldable pub Holds : {A : Type 0} → (A → Db → Type 0) → Result A × Disk → Type 0
Holds Q (ok a, d) = Q a d.db
Holds Q (err e, d) = Unit

-- A promise about the rows alone.
abbrev pub Leaves : {A : Type 0} → (Db → Type 0) → Result A × Disk → Type 0
Leaves G = Holds (λ _. G)

abbrev pub next : Disk → Disk
next d = record d { done = suc d.done }

abbrev pub after : Disk → Db → Disk
after d db = record d { db = db; done = suc d.done }

pub Holds-pure :
    {A : Type 0} (Q : A → Db → Type 0) (d : Disk) (a : A) → Q a d.db → Holds Q (pure a d)
unfolding Holds pure
Holds-pure Q d a h = h

module _ {A B C : Type 0} (f : A → Tx B) (g : B → Tx C) where
  continue-bind :
      (r : Result A) (d : Disk)
      → continue (continue r f d).0 g (continue r f d).1 ≡ continue r (λ a. f a >>= g) d
  unfolding ◌>>=◌
  continue-bind (ok a) d = refl
  continue-bind (err e) d = refl

  pub bind_assoc : (m : Tx A) (d : Disk) → ((m >>= f) >>= g) d ≡ (m >>= λ a. f a >>= g) d
  unfolding ◌>>=◌
  bind_assoc m d = continue-bind (m d).0 (m d).1

module _ {A : Type 0} (Q : A → Db → Type 0) (d : Disk) where
  pub pure_then : {B : Type 0} (b : B) (k : B → Tx A) → Holds Q (k b d) → Holds Q ((pure b >>= k) d)
  unfolding ◌>>=◌ pure
  pure_then b k h = h

  answered :
      {B : Type 0} (r : Result B) (e : Disk) (k : B → Tx A)
      → ((b : B) → r ≡ ok b → Holds Q (k b e))
      → Holds Q (continue r k e)
  unfolding Holds
  answered (ok b) e k g = g b refl
  answered (err x) e k g = tt

  pub read_then :
      {B : Type 0} (f : Db → Result B) (k : B → Tx A)
      → ((b : B) → f d.db ≡ ok b → Holds Q (k b (next d)))
      → Holds Q ((read f >>= k) d)
  unfolding ◌>>=◌ read Holds
  read_then f k h = elim (Bool-cases (d.fails d.done)) [
    | inl e ↦ rw (e, if◌then◌else◌) tt
    | inr e ↦ rw (e, if◌then◌else◌) (answered (f d.db) (next d) k h)
  ]

  pub statement_then :
      {B : Type 0} (f : Db → Result B × Db) (k : B → Tx A)
      → ((b : B) → (f d.db).0 ≡ ok b → Holds Q (k b (after d (f d.db).1)))
      → Holds Q ((statement f >>= k) d)
  unfolding ◌>>=◌ statement Holds
  statement_then f k h = elim (Bool-cases (d.fails d.done)) [
    | inl e ↦ rw (e, if◌then◌else◌) tt
    | inr e ↦ rw (e, if◌then◌else◌) (answered (f d.db).0 (after d (f d.db).1) k h)
  ]

  pub clock_then : (k : ℕ → Tx A) → Holds Q (k d.now d) → Holds Q ((clock >>= k) d)
  unfolding ◌>>=◌ clock
  clock_then k h = h

  pub refuse_then :
      (b : Bool) (e : Error) (k : Done → Tx A)
      → (b ≡ false → Holds Q (k tt d))
      → Holds Q ((refuse b e >>= k) d)
  unfolding ◌>>=◌ refuse Holds
  refuse_then true e k h = tt
  refuse_then false e k h = h refl

  write_then :
      (g : Db → Db) (k : Done → Tx A)
      → Holds Q (k tt (after d (g d.db)))
      → Holds Q ((write g >>= k) d)
  unfolding ◌>>=◌ write Holds
  write_then g k h = elim (Bool-cases (d.fails d.done)) [
    | inl e ↦ rw (e, if◌then◌else◌) tt
    | inr e ↦ rw (e, if◌then◌else◌) h
  ]

  pub update_then :
      (p : Job → Bool) (f : Job → Job) (k : Done → Tx A)
      → Holds Q (k tt (after d (with_update p f d.now d.db)))
      → Holds Q ((update_jobs p f >>= k) d)
  unfolding update_jobs ◌>>=◌
  update_then p f k h = write_then (with_update p f d.now) k h

  pub device_then :
      (f : Device → Device) (k : Done → Tx A)
      → Holds Q (k tt (after d (with_device f d.db)))
      → Holds Q ((update_device f >>= k) d)
  unfolding update_device
  device_then f k h = write_then (with_device f) k h

module _ (G : Db → Type 0) (d : Disk) where
  pub statement_last :
      {B : Type 0} (f : Db → Result B × Db)
      → ((b : B) → (f d.db).0 ≡ ok b → G (f d.db).1)
      → Leaves G (statement f d)
  unfolding statement Holds
  statement_last {B} f h = elim (Bool-cases (d.fails d.done)) [
    | inl e ↦ rw (e, if◌then◌else◌) tt
    | inr e ↦ rw (e, if◌then◌else◌) (last (f d.db).0 h)
  ]
    where
      last : (r : Result B) → ((b : B) → r ≡ ok b → G (f d.db).1) → Leaves G (r, after d (f d.db).1)
      last (ok b) g = g b refl
      last (err x) g = tt

  write_last : (g : Db → Db) → G (g d.db) → Leaves G (write g d)
  unfolding write Holds
  write_last g h = elim (Bool-cases (d.fails d.done)) [
    | inl e ↦ rw (e, if◌then◌else◌) tt
    | inr e ↦ rw (e, if◌then◌else◌) h
  ]

  pub update_last :
      (p : Job → Bool) (f : Job → Job)
      → G (with_update p f d.now d.db)
      → Leaves G (update_jobs p f d)
  unfolding update_jobs
  update_last p f h = write_last (with_update p f d.now) h

  pub device_last : (f : Device → Device) → G (with_device f d.db) → Leaves G (update_device f d)
  unfolding update_device
  device_last f h = write_last (with_device f) h

  -- A single statement outside a transaction.
  write_keeps : (g : Db → Db) → G d.db → G (g d.db) → G (write g d).1.db
  unfolding write
  write_keeps g old new = elim (Bool-cases (d.fails d.done)) [
    | inl e ↦ rw (e, if◌then◌else◌) old
    | inr e ↦ rw (e, if◌then◌else◌) new
  ]

  pub update_keeps :
      (p : Job → Bool) (f : Job → Job)
      → G d.db
      → G (with_update p f d.now d.db)
      → G (update_jobs p f d).1.db
  unfolding update_jobs
  update_keeps p f old new = write_keeps (with_update p f d.now) old new

  pub device_keeps :
      (f : Device → Device) → G d.db → G (with_device f d.db) → G (update_device f d).1.db
  unfolding update_device
  device_keeps f old new = write_keeps (with_device f) old new

  pub transaction_keeps :
      {A : Type 0} (m : Tx A) → G d.db → Leaves G (m d) → G (transaction m d).1.db
  unfolding transaction Holds
  transaction_keeps {A} m old h = committed (m d) h
    where
      committed : (r : Result A × Disk) → Leaves G r → G (finish d.db r).1.db
      committed (ok a, d') g = elim (Bool-cases (d'.fails d'.done)) [
        | inl e ↦ rw (e, if◌then◌else◌) old
        | inr e ↦ rw (e, if◌then◌else◌) g
      ]
      committed (err x, d') g = old

module _ {A : Type 0} (Q : A → Db → Type 0) where
  finish-Holds : (db : Db) (r : Result A × Disk) → Holds Q r → Holds Q (finish db r)
  unfolding Holds
  finish-Holds db (ok a, d) h = elim (Bool-cases (d.fails d.done)) [
    | inl e ↦ rw (e, if◌then◌else◌) tt
    | inr e ↦ rw (e, if◌then◌else◌) h
  ]
  finish-Holds db (err x, d) h = tt

  -- What a transaction promises, it promises once committed.
  pub transaction-Holds : (m : Tx A) (d : Disk) → Holds Q (m d) → Holds Q (transaction m d)
  unfolding transaction
  transaction-Holds m d h = finish-Holds d.db (m d) h

  pub Holds-ok : (r : Result A × Disk) (a : A) → Holds Q r → r.0 ≡ ok a → Q a r.1.db
  unfolding Holds
  Holds-ok (ok b, d) a h e = subst (λ x. Q x d.db) (ground (arith, e)) h
  Holds-ok (err x, d) a h e = cc
