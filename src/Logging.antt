-- ===== src/Logging.antt =====
-- What goes to the log of the operator (internal/logging/logging.go), on the bytes of the text. The
-- logger itself is the standard library's.
pub mod Redact
pub mod Line
pub mod Allowed
mod Tests
use ipa_now.Common.{
  ℕ, String, Bool, true, false, not, ◌&&◌, ◌||◌, Option, none, some, List, [], ◌∷◌, ◌++◌, map,
  nat_eq, ltb, length, take, same, joined, codes, if◌then◌else◌,
}
use ipa_now.Common.Sorting.{sorted}
use ipa_now.Logging.Redact.{redact}

-- `strings.NewReplacer("\r\n", "; ", "\r", "; ", "\n", "; ")`, after a carriage return or not
unfoldable pub unbroken : Bool → List ℕ → List ℕ
unbroken cr [] = []
unbroken cr (c ∷ s) =
    let rest = unbroken false s in
    let after = unbroken true s in
    if nat_eq c 13
    then codes "; " ++ after
    else if nat_eq c 10
    then (if cr then rest else codes "; " ++ rest)
    else c ∷ rest

unfoldable pub cut : List ℕ → List ℕ
cut s = if ltb 2000 (length s) then take 2000 s ++ codes " ...[truncated]" else s

unfoldable pub detail : List ℕ → List ℕ
unfolding unbroken redact cut
detail s = cut (redact (unbroken false s))

-- `fields`, a map of strings
abbrev pub Entries : Type 0
Entries = List (List ℕ × List ℕ)

unfoldable pub look_up : Entries → List ℕ → Option (List ℕ)
unfolding same
look_up [] key = none
look_up ((k, v) ∷ fs) key = let rest = look_up fs key in if same k key then some v else rest

abbrev pub is_some : Option (List ℕ) → Bool
is_some none = false
is_some (some v) = true

abbrev pub has_key : Entries → List ℕ → Bool
has_key fs key = is_some (look_up fs key)

-- The order of `sort.Strings`
unfoldable pub precedes : List ℕ → List ℕ → Bool
precedes [] [] = false
precedes [] (y ∷ ys) = true
precedes (x ∷ xs) [] = false
precedes (x ∷ xs) (y ∷ ys) = ltb x y || nat_eq x y && precedes xs ys

unfoldable pub present : Entries → List (List ℕ) → List (List ℕ)
present fs [] = []
present fs (k ∷ ks) = let rest = present fs ks in if has_key fs k then k ∷ rest else rest

abbrev pub is_empty : {A : Type 0} → List A → Bool
is_empty [] = true
is_empty (x ∷ xs) = false

abbrev pub value : Option (List ℕ) → List ℕ
value none = []
value (some v) = v

-- `key+"="+fields[key]`
abbrev pub pair : Entries → List ℕ → List ℕ
pair fs k = k ++ b'=' ∷ value (look_up fs k)

unfoldable pub fields : Entries → (allow : List (List ℕ)) → List ℕ
unfolding detail present joined sorted look_up precedes
fields fs allow =
    if is_empty fs || is_empty allow
    then []
    else detail (joined b' ' (map (pair fs) (sorted precedes (present fs allow))))

-- `strings.Join(parts, ": ")`
unfoldable pub chained : List (List ℕ) → List ℕ
chained [] = []
chained (m ∷ []) = m
chained (m ∷ n ∷ ms) = m ++ codes ": " ++ chained (n ∷ ms)

abbrev pub is_last : Option (List ℕ) → List ℕ → Bool
is_last none m = false
is_last (some l) m = same l m

-- `parts`, after the last of them: a message that repeats it is left out.
unfoldable pub parts : Option (List ℕ) → List (List ℕ) → List (List ℕ)
unfolding unbroken same
parts last [] = []
parts last (m ∷ ms) =
    let line = unbroken false m in
    elim (is_last last line) [ true ↦ parts last ms | false ↦ line ∷ parts (some line) ms ]

-- The messages of an error and of those that it wraps; there is none for `nil`.
unfoldable pub chain : List (List ℕ) → List ℕ
unfolding detail parts chained
chain [] = []
chain (m ∷ ms) = detail (chained (parts none (m ∷ ms)))
