-- ===== src/Jobs/Tx.antt =====
-- Statements and transactions, as internal/jobs uses them of GORM and SQLite: a statement runs or
-- fails, a transaction is committed whole or rolled back, and a failure of either is an error.
use ipa_now.Common.{ℕ, suc, Bool, if◌then◌else◌}
use ipa_now.Jobs.Model.{Db}

-- `gorm.ErrRecordNotFound`, `ErrConflict`, `ErrQueueFull`, and any other error of the database.
pub data Error : Type 0 where
  not_found conflict queue_full storage : Error

pub data Result {ℓ} (A : Type ℓ) : Type ℓ where
  ok : A → Result A
  err : Error → Result A

-- `fails n` says whether the database fails the `n`-th statement; `done` counts the statements.
-- `now` is what `time.Now()` returns.
pub record Disk : Type 0 where
  pub db : Db
  pub now : ℕ
  pub fails : ℕ → Bool
  pub done : ℕ

abbrev pub Tx : Type 0 → Type 0
Tx A = Disk → Result A × Disk

-- What a method returns that returns an `error` only.
abbrev pub Done : Type 0
Done = Unit

module _ {A B : Type 0} where
  abbrev pub continue : Result A → (A → Tx B) → Tx B
  continue (ok a) f d = f a d
  continue (err e) f d = (err e, d)

  infixl 5 ◌>>=◌ ◌>>◌
  unfoldable pub ◌>>=◌ : Tx A → (A → Tx B) → Tx B
  ◌>>=◌ m f d = let (r, d') = m d in continue r f d'

  abbrev pub ◌>>◌ : Tx A → Tx B → Tx B
  m >> k = m >>= λ _. k

module _ {A : Type 0} where
  unfoldable pub pure : A → Tx A
  pure a d = (ok a, d)

  unfoldable pub fail : Error → Tx A
  fail e d = (err e, d)

  -- One SQL statement, which reads and writes the rows, or fails.
  unfoldable pub statement : (Db → Result A × Db) → Tx A
  statement f d =
      if d.fails d.done
      then (err storage, record d { done = suc d.done })
      else let (r, db') = f d.db in (r, record d { db = db'; done = suc d.done })

  -- A rolled back transaction leaves the rows as `db` has them. The commit may fail too.
  abbrev pub finish : Db → Result A × Disk → Result A × Disk
  finish db (ok a, d) =
      if d.fails d.done
      then (err storage, record d { db = db; done = suc d.done })
      else (ok a, record d { done = suc d.done })
  finish db (err e, d) = (err e, record d { db = db })

  unfoldable pub transaction : Tx A → Tx A
  transaction m d = finish d.db (m d)

  unfoldable pub read : (Db → Result A) → Tx A
  unfolding statement
  read f = statement λ db. (f db, db)

unfoldable pub write : (Db → Db) → Tx Done
unfolding statement
write f = statement λ db. (ok tt, f db)

-- `time.Now()`
unfoldable pub clock : Tx ℕ
clock d = (ok d.now, d)

-- `if test { return e }`
unfoldable pub refuse : Bool → Error → Tx Done
unfolding pure fail
refuse test e = if test then fail e else pure tt
