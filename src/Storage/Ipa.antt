-- ===== src/Storage/Ipa.antt =====
-- The inspection of an archive before anything trusts it (internal/storage/storage.go). The ZIP and
-- property list readers of the libraries are not modelled: an entry is what they say of it. A text is
-- its bytes, and `lower` is `strings.ToLower`.
pub mod Passed
pub mod Accepted
use ipa_now.Common.{
  ℕ, suc, ◌+◌, ◌-◌, ◌*◌, ◌^◌, ◌%◌, Bool, true, false, not, ◌&&◌, ◌||◌, Option, none, some, List, [],
  ◌∷◌, ◌++◌, ltb, leb, nat_eq, length, if◌then◌else◌, codes, same, is_text, member, among,
  has_prefix, has_suffix, split, joined, trim_last, is_bundle_id,
}

-- What is read of `Info.plist`.
pub record Meta : Type 0 where
  pub size : ℕ
  pub id : List ℕ
  pub executable : List ℕ

-- `meta` is `none` when the entry cannot be read or decoded.
pub record Entry : Type 0 where
  pub name : List ℕ
  pub size : ℕ
  pub is_link : Bool
  pub is_regular : Bool
  pub is_dir : Bool
  pub meta : Option Meta

abbrev pub Archive : Type 0
Archive = List Entry

-- `path.Clean` of the elements that are still to come, with those that are kept, the last one first
unfoldable pub clean_onto : Bool → List (List ℕ) → List (List ℕ) → List (List ℕ)
unfolding same
clean_onto rooted kept [] = kept
clean_onto rooted [] (w ∷ ws) =
    if same w [] || is_text w "." || (rooted && is_text w "..")
    then clean_onto rooted [] ws
    else clean_onto rooted (w ∷ []) ws
clean_onto rooted (k ∷ ks) (w ∷ ws) =
    if same w [] || is_text w "."
    then clean_onto rooted (k ∷ ks) ws
    else if is_text w ".." && not (is_text k "..")
    then clean_onto rooted ks ws
    else clean_onto rooted (w ∷ k ∷ ks) ws

abbrev pub reversed : List (List ℕ) → List (List ℕ) → List (List ℕ)
reversed out [] = out
reversed out (w ∷ ws) = reversed (w ∷ out) ws

abbrev pub or_dot : List ℕ → List ℕ
or_dot [] = b'.' ∷ []
or_dot (c ∷ cs) = c ∷ cs

-- `path.Clean`
unfoldable pub clean_path : List ℕ → List ℕ
unfolding clean_onto split joined has_prefix
clean_path p =
    let rooted = has_prefix p (codes "/") in
    let body = joined b'/' (reversed [] (clean_onto rooted [] (split b'/' p))) in
    if rooted then b'/' ∷ body else or_dot body

-- The name of an entry is safe: the disjuncts of the source, but for `seen` and the mode, in its order.
unfoldable pub is_unsafe_name : List ℕ → Bool
unfolding clean_path same member has_prefix trim_last
is_unsafe_name n =
    let clean = trim_last b'/' n in
    same n []
    || member b'\\' n
    || member 0 n
    || has_prefix n (codes "/")
    || not (same (clean_path clean) clean)
    || is_text clean ".."
    || has_prefix clean (codes "../")
    || member b':' clean

-- A valid Executable has a name of its own.
unfoldable pub is_good_meta : Meta → Bool
unfolding is_bundle_id member same
is_good_meta m =
    leb m.size (2 ^ 20)
    && is_bundle_id m.id
    && not (
        same m.executable []
        || member b'/' m.executable
        || member b'\\' m.executable
        || member 0 m.executable
        || is_text m.executable "."
        || is_text m.executable "..")

-- The application whose metadata the entry is: `Payload/<name>.app/Info.plist`
unfoldable pub app_of : List (List ℕ) → Option (List ℕ)
unfolding has_suffix same
app_of (a ∷ b ∷ c ∷ []) =
    if is_text a "Payload" && has_suffix b (codes ".app") && is_text c "Info.plist"
    then some b
    else none
app_of _ = none

abbrev pub good_meta : Option Meta → Bool
good_meta none = false
good_meta (some m) = is_good_meta m

-- A set of names
abbrev pub with_name : List ℕ → List (List ℕ) → List (List ℕ)
with_name x xs = if among x xs then xs else x ∷ xs

-- `seen`, `apps` and `expanded` of the loop
pub record Seen : Type 0 where
  pub keys : List (List ℕ)
  pub apps : List (List ℕ)
  pub expanded : ℕ

module _ (lower : List ℕ → List ℕ) (max : ℕ) where
  abbrev pub key : Entry → List ℕ
  key e = lower (trim_last b'/' e.name)

  abbrev pub is_unsafe : Seen → Entry → Bool
  is_unsafe s e =
      is_unsafe_name e.name
      || among (key e) s.keys
      || e.is_link
      || (not e.is_regular && not e.is_dir)

  -- `f.UncompressedSize64 > maxExpanded-expanded`, on 64-bit integers
  abbrev pub is_too_large : Seen → Entry → Bool
  is_too_large s e = ltb ((max + (2 ^ 64 - s.expanded)) % 2 ^ 64) e.size

  abbrev pub noted : Seen → Entry → Seen
  noted s e = record {
    keys = key e ∷ s.keys;
    apps = s.apps;
    expanded = (s.expanded + e.size) % 2 ^ 64;
  }

  -- What the loop does with an entry that is safe: the metadata of an application must be good.
  abbrev pub with_app : Entry → Seen → Option (List ℕ) → Option Seen
  with_app e s none = some s
  with_app e s (some app) =
      if ltb (2 ^ 20) e.size || not (good_meta e.meta)
      then none
      else some (record s { apps = with_name app s.apps })

  unfoldable pub inspect : Seen → Entry → Option Seen
  unfolding is_unsafe_name among app_of is_good_meta split trim_last
  inspect s e =
      if is_unsafe s e || is_too_large s e
      then none
      else with_app e (noted s e) (app_of (split b'/' e.name))

  abbrev pub inspected : Option Seen → (Seen → Option Seen) → Option Seen
  inspected none k = none
  inspected (some s) k = k s

  unfoldable pub inspect_all : Seen → Archive → Option Seen
  unfolding inspect
  inspect_all s [] = some s
  inspect_all s (e ∷ es) = inspected (inspect s e) λ s'. inspect_all s' es

  abbrev pub has_one_app : Option Seen → Bool
  has_one_app none = false
  has_one_app (some s) = nat_eq (length s.apps) 1

  -- `none` is no regular file, or no ZIP archive.
  unfoldable pub validate_ipa : Option Archive → Bool
  unfolding inspect_all
  validate_ipa none = false
  validate_ipa (some es) =
      not (nat_eq (length es) 0)
      && leb (length es) 100000
      && has_one_app (inspect_all (record { keys = []; apps = []; expanded = 0 }) es)
