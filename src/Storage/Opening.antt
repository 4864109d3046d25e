-- ===== src/Storage/Opening.antt =====
-- The private data directory is opened (Open of internal/storage/storage.go): its directories, the file
-- of its lock, and the lock. Nothing else changes the directory meanwhile.
pub mod Opened
mod Tests
use ipa_now.Common.{
  ℕ, suc, ◌%◌, String, Bool, true, false, not, ◌&&◌, ◌||◌, Option, none, some, List, [], ◌∷◌, ◌==◌,
  nat_eq, if◌then◌else◌,
}

-- A symbolic link leads to a directory or not.
pub data NodeKind : Type 0 where
  directory regular special : NodeKind
  symlink : Bool → NodeKind

pub record Node : Type 0 where
  pub kind : NodeKind
  pub perm : ℕ

-- The nodes by their paths from the root, whether another process has the lock, and whether this one
-- has it; `fails n` says whether the `n`-th call of the system fails.
pub record Tree : Type 0 where
  pub node : String → Option Node
  pub taken : Bool
  pub held : Bool
  pub fails : ℕ → Bool
  pub done : ℕ

abbrev pub Opening : Type 0 → Type 0
Opening A = Tree → Option A × Tree

abbrev pub Done : Type 0
Done = Unit

abbrev pub proceed : {A B : Type 0} → Option A × Tree → (A → Opening B) → Option B × Tree
proceed (none, t) f = (none, t)
proceed (some a, t) f = f a t

infixl 5 ◌>>=◌ ◌>>◌
unfoldable pub ◌>>=◌ : {A B : Type 0} → Opening A → (A → Opening B) → Opening B
◌>>=◌ m f t = proceed (m t) f

abbrev pub ◌>>◌ : {A B : Type 0} → Opening A → Opening B → Opening B
m >> k = m >>= λ _. k

-- One call of the system
unfoldable pub system : {A : Type 0} → Opening A → Opening A
system m t = let t' = record t { done = suc t.done } in if t.fails t.done then (none, t') else m t'

unfoldable pub require : Bool → Opening Done
require b t = if b then (some tt, t) else (none, t)

-- A node is created only where there is none.
abbrev pub with_node : String → Node → (String → Option Node) → String → Option Node
with_node p n node q = elim (node q) [ some m ↦ some m | none ↦ if p == q then some n else none ]

unfoldable pub create : String → Node → Opening Done
create p n t = (some tt, record t { node = with_node p n t.node })

-- The mode by `Stat`, which follows a link
abbrev pub leads_to_directory : NodeKind → Bool
leads_to_directory directory = true
leads_to_directory (symlink b) = b
leads_to_directory _ = false

-- `MkdirAll` with mode 0700, under the mask 0077: it is content with a link to a directory.
unfoldable pub make_all : String → Opening Done
unfolding system create require
make_all p = system λ t. elim (t.node p) [
  | none ↦ create p (record { kind = directory; perm = 448 }) t
  | some n ↦ require (leads_to_directory n.kind) t
]

-- `Lstat`; what is not there is `none`.
unfoldable pub lstat : String → Opening (Option Node)
unfolding system
lstat p = system λ t. (some (t.node p), t)

abbrev pub is_directory : NodeKind → Bool
is_directory directory = true
is_directory _ = false

abbrev pub is_regular : NodeKind → Bool
is_regular regular = true
is_regular _ = false

-- `Perm()&0077 == 0`
abbrev pub is_closed : Node → Bool
is_closed n = nat_eq (n.perm % 64) 0

unfoldable pub is_private_directory : Option Node → Bool
is_private_directory none = false
is_private_directory (some n) = is_directory n.kind && is_closed n

unfoldable pub is_private_file : Option Node → Bool
is_private_file none = false
is_private_file (some n) = is_regular n.kind && is_closed n

-- A lock that is not there is created.
unfoldable pub is_lock : Option Node → Bool
unfolding is_private_file
is_lock none = true
is_lock (some n) = is_private_file (some n)

abbrev pub lock_path : String
lock_path = "service.lock"

-- `OpenFile` with `O_CREATE`, mode 0600
unfoldable pub open_lock : Opening Done
unfolding system create
open_lock = system λ t. elim (t.node lock_path) [
  | none ↦ create lock_path (record { kind = regular; perm = 384 }) t
  | some n ↦ (some tt, t)
]

-- `Flock` with `LOCK_EX|LOCK_NB`
unfoldable pub flock : Opening Done
unfolding system
flock = system λ t. if t.taken then (none, t) else (some tt, record t { held = true })

abbrev pub directories : List String
directories = "work" ∷ "inputs" ∷ "artifacts" ∷ "secrets" ∷ "tmp" ∷ "device-journal" ∷ []

unfoldable pub make_private : String → Opening Done
unfolding make_all lstat require ◌>>=◌
make_private p = make_all p >> (lstat p >>= λ info. require (is_private_directory info))

unfoldable pub make_each : List String → Opening Done
unfolding ◌>>=◌ make_private
make_each [] t = (some tt, t)
make_each (p ∷ ps) t = (make_private p >> make_each ps) t

-- `Close` gives up the lock,
abbrev pub close : Tree → Tree
close t = record t { held = false }

-- also on an error.
abbrev pub or_close : {A : Type 0} → Option A × Tree → Option A × Tree
or_close (some u, t) = (some u, t)
or_close (none, t) = (none, close t)

unfoldable pub take_lock : Opening Done
unfolding ◌>>=◌ lstat require open_lock flock
take_lock = lstat lock_path >>= λ info. (require (is_lock info) >>= λ _. (open_lock >>= λ _. flock))

unfoldable pub open_root : Opening Done
unfolding ◌>>=◌ make_private take_lock make_each
open_root = make_private "" >>= λ _. (take_lock >>= λ _ t. or_close (make_each directories t))
