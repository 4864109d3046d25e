-- ===== src/Storage/Opening/Opened.antt =====
-- What an opened data directory is: private, and locked.
use ipa_now.Common.{
  arith, suc, ◌≡◌, refl, ◌∙◌, subst, sym, ap, String, Bool, true, false, Option, none, some, List,
  [], ◌∷◌, All, inl, inr, Bool-cases, if◌then◌else◌, ◌==◌,
}
use ipa_now.Storage.Opening.{
  Done, directory, regular, leads_to_directory, Node, Tree, Opening, ◌>>=◌, system, require,
  with_node, create, make_all, lstat, is_private_directory, is_lock, is_private_file, lock_path,
  open_lock, flock, directories, make_private, make_each, or_close, take_lock, open_root,
}

-- What is there stays as it is.
Grows : Tree → Tree → Type 0
Grows t u = (p : String) (n : Node) → t.node p ≡ some n → u.node p ≡ some n

Same : Bool → Tree → Tree → Type 0
Same h t u = Grows t u × (u.held ≡ h)

abbrev pub IsPrivate : Tree → String → Type 0
IsPrivate t p = is_private_directory (t.node p) ≡ true

IsPrivate-Grows : (p : String) (t u : Tree) → Grows t u → IsPrivate t p → IsPrivate u p
unfolding Grows is_private_directory
IsPrivate-Grows p t u g e = go (t.node p) refl e
  where
    go : (o : Option Node) → t.node p ≡ o → is_private_directory o ≡ true → IsPrivate u p
    go none q e = grind arith
    go (some n) q e = rw (g p n q) e

Grows-trans : (a b c : Tree) → Grows a b → Grows b c → Grows a c
unfolding Grows
Grows-trans a b c f g p n e = g p n (f p n e)

-- A part of the opening: what holds after it, and of the lock if it fails
abbrev pub Ends : {A : Type 0} → Bool → (A → Tree → Type 0) → Option A × Tree → Type 0
Ends h P (some a, u) = P a u
Ends h P (none, u) = u.held ≡ h

module _ {A B : Type 0} (h : Bool) (P : A → Tree → Type 0) (Q : B → Tree → Type 0) where
  bind-Ends :
      (m : Opening A) (f : A → Opening B) (t : Tree)
      → Ends h P (m t)
      → ((a : A) (u : Tree) → P a u → Ends h Q (f a u))
      → Ends h Q ((m >>= f) t)
  unfolding ◌>>=◌
  bind-Ends m f t e k = go (m t) e
    where
      go : (r : Option A × Tree) → Ends h P r → Ends h Q (ipa_now.Storage.Opening.proceed r f)
      go (some a, u) e = k a u e
      go (none, u) e = e

weaken-Ends :
    {A : Type 0} (h : Bool) (P Q : A → Tree → Type 0) (r : Option A × Tree)
    → ((a : A) (u : Tree) → P a u → Q a u)
    → Ends h P r
    → Ends h Q r
weaken-Ends h P Q (some a, u) k e = k a u e
weaken-Ends h P Q (none, u) k e = e

system-Ends :
    {A : Type 0} (h : Bool) (P : A → Tree → Type 0) (m : Opening A) (t : Tree)
    → t.held ≡ h
    → Ends h P (m (record t { done = suc t.done }))
    → Ends h P (system m t)
unfolding system
system-Ends h P m t e k = elim (Bool-cases (t.fails t.done)) [
  | inl f ↦ rw (f, if◌then◌else◌) e
  | inr f ↦ rw (f, if◌then◌else◌) k
]

require-Ends :
    (h : Bool) (P : Done → Tree → Type 0) (b : Bool) (t : Tree)
    → t.held ≡ h
    → (b ≡ true → P tt t)
    → Ends h P (require b t)
unfolding require
require-Ends h P true t e k = k refl
require-Ends h P false t e k = e

create-Grows : (p : String) (n : Node) (t : Tree) → Grows t (create p n t).1
unfolding create Grows
create-Grows p n t q m e =
    ap (λ o. elim o [ some k ↦ some k | none ↦ if p == q then some n else none ]) e

make_all-Ends :
    (h : Bool) (p : String) (t : Tree) → t.held ≡ h → Ends h (λ _. Same h t) (make_all p t)
unfolding make_all Same Grows create
make_all-Ends h p t e =
    system-Ends h (λ _. Same h t)
      (λ u. elim (u.node p) [
        | none ↦ create p (record { kind = directory; perm = 448 }) u
        | some n ↦ require (leads_to_directory n.kind) u
      ])
      t e (made (t.node p))
  where
    ticked : Tree
    ticked = record t { done = suc t.done }

    made :
        (o : Option Node)
        → Ends {A = Done} h
            (λ _. Same h t)
            (elim o [
              | none ↦ create p (record { kind = directory; perm = 448 }) ticked
              | some n ↦ require (leads_to_directory n.kind) ticked
            ])
    made none = (create-Grows p (record { kind = directory; perm = 448 }) t, e)
    made (some n) =
        require-Ends h (λ _. Same h t) (leads_to_directory n.kind) ticked e λ _. ((λ _ _ q. q), e)

lstat-Ends :
    (h : Bool) (p : String) (t : Tree)
    → t.held ≡ h
    → Ends h (λ info u. Same h t u × (info ≡ u.node p)) (lstat p t)
unfolding lstat Same Grows
lstat-Ends h p t e =
    system-Ends h (λ info u. Same h t u × (info ≡ u.node p)) (λ u. (some (u.node p), u)) t e
      (((λ _ _ q. q), e), refl)

Same-trans : (h : Bool) (a b c : Tree) → Same h a b → Same h b c → Same h a c
unfolding Same
Same-trans h a b c (f, _) (g, e) = (Grows-trans a b c f g, e)

-- A directory that is made is private.
Made : Bool → Tree → String → Tree → Type 0
Made h t p u = Same h t u × IsPrivate u p

make_private-Ends :
    (h : Bool) (p : String) (t : Tree) → t.held ≡ h → Ends h (λ _. Made h t p) (make_private p t)
unfolding make_private Made Same
make_private-Ends h p t e =
    bind-Ends h (λ _. Same h t) (λ _. Made h t p) (make_all p) _ t (make_all-Ends h p t e)
      λ _ u s.
        bind-Ends h (λ info v. Same h u v × (info ≡ v.node p)) (λ _. Made h t p) (lstat p) _ u
          (lstat-Ends h p u s.1)
          λ info v r.
            require-Ends h (λ _. Made h t p) (is_private_directory info) v r.0.1
              λ b. (Same-trans h t u v s r.0, ap is_private_directory (sym r.1) ∙ b)

make_each-Ends :
    (h : Bool) (ps : List String) (t : Tree)
    → t.held ≡ h
    → Ends h (λ _ u. Same h t u × All (IsPrivate u) ps) (make_each ps t)
unfolding make_each Same Grows Made
make_each-Ends h [] t e = (((λ _ _ q. q), e), tt)
make_each-Ends h (p ∷ ps) t e =
    bind-Ends h (λ _. Made h t p) (λ _ u. Same h t u × All (IsPrivate u) (p ∷ ps)) (make_private p)
      _ t (make_private-Ends h p t e)
      λ _ u m.
        weaken-Ends h (λ _ v. Same h u v × All (IsPrivate v) ps)
          (λ _ v. Same h t v × All (IsPrivate v) (p ∷ ps)) (make_each ps u)
          (λ _ v r. (Same-trans h t u v m.0 r.0, (IsPrivate-Grows p u v r.0.0 m.1, r.1)))
          (make_each-Ends h ps u m.0.1)

abbrev IsLockFile : Tree → Type 0
IsLockFile t = is_private_file (t.node lock_path) ≡ true

IsLockFile-Grows : (t u : Tree) → Grows t u → IsLockFile t → IsLockFile u
unfolding Grows is_private_file
IsLockFile-Grows t u g e = go (t.node lock_path) refl e
  where
    go : (o : Option Node) → t.node lock_path ≡ o → is_private_file o ≡ true → IsLockFile u
    go none q e = grind arith
    go (some n) q e = rw (g lock_path n q) e

-- A lock file that passes the check is opened, or created.
open_lock-Ends :
    (h : Bool) (t : Tree)
    → t.held ≡ h
    → is_lock (t.node lock_path) ≡ true
    → Ends h (λ _ u. Same h t u × IsLockFile u) (open_lock t)
unfolding open_lock Same Grows create is_lock is_private_file
open_lock-Ends h t e l =
    system-Ends h (λ _ u. Same h t u × IsLockFile u)
      (λ u. elim (u.node lock_path) [
        | none ↦ create lock_path (record { kind = regular; perm = 384 }) u
        | some n ↦ (some tt, u)
      ])
      t e (opened (t.node lock_path) refl)
  where
    ticked : Tree
    ticked = record t { done = suc t.done }

    made :
        t.node lock_path ≡ none
        → IsLockFile (create lock_path (record { kind = regular; perm = 384 }) ticked).1
    made q =
        ap
          (λ o. is_private_file (elim o [
            | some k ↦ some k
            | none ↦
                if lock_path == lock_path
                then some (record { kind = regular; perm = 384 })
                else none
          ]))
          q

    opened :
        (o : Option Node)
        → t.node lock_path ≡ o
        → Ends {A = Done} h
            (λ _ u. Same h t u × IsLockFile u)
            (elim o [
              | none ↦ create lock_path (record { kind = regular; perm = 384 }) ticked
              | some n ↦ (some tt, ticked)
            ])
    opened none q = ((create-Grows lock_path (record { kind = regular; perm = 384 }) t, e), made q)
    opened (some n) q = (
      ((λ _ _ r. r), e),
      subst (λ o. is_private_file o ≡ true) (sym q) (subst (λ o. is_lock o ≡ true) q l),
    )

flock-Ends : (t : Tree) → t.held ≡ false → Ends false (λ _ u. Grows t u × (u.held ≡ true)) (flock t)
unfolding flock Grows
flock-Ends t e =
    system-Ends false (λ _ u. Grows t u × (u.held ≡ true))
      (λ u. if u.taken then (none, u) else (some tt, record u { held = true })) t e (go t.taken)
  where
    ticked : Tree
    ticked = record t { done = suc t.done }

    go :
        (b : Bool)
        → Ends {A = Done} false
            (λ _ u. Grows t u × (u.held ≡ true))
            (if b then (none, ticked) else (some tt, record ticked { held = true }))
    go true = e
    go false = ((λ _ _ q. q), refl)

Locked : Tree → Done → Tree → Type 0
Locked t _ u = Grows t u × (u.held ≡ true) × IsLockFile u

take_lock-Ends : (t : Tree) → t.held ≡ false → Ends false (Locked t) (take_lock t)
unfolding take_lock Same Locked
take_lock-Ends t e =
    bind-Ends false (λ info u. Same false t u × (info ≡ u.node lock_path)) (Locked t)
      (lstat lock_path) _ t (lstat-Ends false lock_path t e)
      λ info u r.
        bind-Ends false (λ _ v. Same false t v × (is_lock (v.node lock_path) ≡ true)) (Locked t)
          (require (is_lock info)) _ u
          (require-Ends false (λ _ v. Same false t v × (is_lock (v.node lock_path) ≡ true))
            (is_lock info) u r.0.1 λ b. (r.0, ap is_lock (sym r.1) ∙ b))
          λ _ v s.
            bind-Ends false (λ _ x. Same false v x × IsLockFile x) (Locked t) open_lock _ v
              (open_lock-Ends false v s.0.1 s.1)
              λ _ x k.
                weaken-Ends false (λ _ y. Grows x y × (y.held ≡ true)) (Locked t) (flock x)
                  (λ _ y g. (
                    Grows-trans t v y s.0.0 (Grows-trans v x y k.0.0 g.0),
                    g.1,
                    IsLockFile-Grows x y g.0 k.1,
                  ))
                  (flock-Ends x k.0.1)

-- An opened data directory, and one whose opening fails
abbrev pub IsOpen : Done → Tree → Type 0
IsOpen _ u = (u.held ≡ true) × IsLockFile u × IsPrivate u "" × All (IsPrivate u) directories

or_close-Ends :
    (P : Done → Tree → Type 0) (r : Option Done × Tree) → Ends true P r → Ends false P (or_close r)
or_close-Ends P (some a, u) e = e
or_close-Ends P (none, u) e = refl

-- If the process does not have the lock yet then, after an opening that succeeds, it has the lock, the
-- file of the lock is a regular file that only its owner can use, and the data directory and its six
-- directories are real directories that only their owner can use. After one that fails, at whatever
-- call, it does not have the lock.
pub open_root-IsOpen : (t : Tree) → t.held ≡ false → Ends false IsOpen (open_root t)
unfolding open_root Made Locked Same
open_root-IsOpen t e =
    bind-Ends false (λ _. Made false t "") IsOpen (make_private "") _ t
      (make_private-Ends false "" t e)
      λ _ u m. bind-Ends false (Locked u) IsOpen take_lock _ u (take_lock-Ends u m.0.1) λ _ v l.
        or_close-Ends IsOpen (make_each directories v) (
          weaken-Ends true (λ _ w. Same true v w × All (IsPrivate w) directories) IsOpen
            (make_each directories v)
            (λ _ w r. (
              r.0.1,
              IsLockFile-Grows v w r.0.0 l.2,
              IsPrivate-Grows "" u w (Grows-trans u v w l.0 r.0.0) m.1,
              r.1,
            ))
            (make_each-Ends true directories v l.1))
