-- ===== src/Common/Bytes.antt =====
-- Texts as the lists of their bytes or code points: what `strings` and `path` do with them.
use Prim.Native.Char.{code}
use Prim.Native.String.{String}
use Prim.Native.Nat.{ℕ}
use mathlib.Core.Bool.{Bool, true, false, not, ◌&&◌, ◌||◌}
use mathlib.Core.List.{List, [], ◌∷◌, ◌++◌}
use ipa_now.Common.Tests.{leb, nat_eq, if◌then◌else◌}
use ipa_now.Common.Lists.{length}

-- The code points of a text.
abbrev pub codes : String → List ℕ
codes String.[] = []
codes (String.◌∷◌ c s) = code c ∷ codes s

unfoldable pub same : List ℕ → List ℕ → Bool
same [] [] = true
same (x ∷ xs) (y ∷ ys) = nat_eq x y && same xs ys
same _ _ = false

abbrev pub is_text : List ℕ → String → Bool
is_text xs s = same xs (codes s)

unfoldable pub member : ℕ → List ℕ → Bool
member x [] = false
member x (y ∷ ys) = nat_eq x y || member x ys

-- `slices.Contains`, and the test of a key in a set
unfoldable pub among : List ℕ → List (List ℕ) → Bool
unfolding same
among x [] = false
among x (y ∷ ys) = same x y || among x ys

-- `strings.HasPrefix`
unfoldable pub has_prefix : List ℕ → List ℕ → Bool
has_prefix xs [] = true
has_prefix [] (p ∷ ps) = false
has_prefix (x ∷ xs) (p ∷ ps) = nat_eq x p && has_prefix xs ps

-- `strings.HasSuffix`
unfoldable pub has_suffix : List ℕ → List ℕ → Bool
unfolding same
has_suffix [] s = same [] s
has_suffix (x ∷ xs) s = same (x ∷ xs) s || has_suffix xs s

-- `strings.Contains`
unfoldable pub has_part : List ℕ → List ℕ → Bool
unfolding has_prefix
has_part [] p = has_prefix [] p
has_part (x ∷ xs) p = has_prefix (x ∷ xs) p || has_part xs p

abbrev pub on_first : ℕ → List (List ℕ) → List (List ℕ)
on_first x [] = (x ∷ []) ∷ []
on_first x (w ∷ ws) = (x ∷ w) ∷ ws

-- `strings.Split` at one character
unfoldable pub split : ℕ → List ℕ → List (List ℕ)
split c [] = [] ∷ []
split c (x ∷ xs) = let rest = split c xs in if nat_eq x c then [] ∷ rest else on_first x rest

-- `strings.Join` with one character
unfoldable pub joined : ℕ → List (List ℕ) → List ℕ
joined c [] = []
joined c (w ∷ []) = w
joined c (w ∷ v ∷ vs) = w ++ c ∷ joined c (v ∷ vs)

-- `strings.TrimSuffix` of one character
unfoldable pub trim_last : ℕ → List ℕ → List ℕ
trim_last c [] = []
trim_last c (x ∷ []) = if nat_eq x c then [] else x ∷ []
trim_last c (x ∷ y ∷ ys) = x ∷ trim_last c (y ∷ ys)

unfoldable pub all_of : (ℕ → Bool) → List ℕ → Bool
all_of p [] = true
all_of p (c ∷ cs) = p c && all_of p cs

-- `[0-9]`
abbrev pub is_digit : ℕ → Bool
is_digit c = leb b'0' c && leb c b'9'

-- `[A-Za-z0-9]`
abbrev pub is_alnum : ℕ → Bool
is_alnum c = (leb b'A' c && leb c b'Z') || (leb b'a' c && leb c b'z') || is_digit c

-- `[A-Za-z0-9][A-Za-z0-9-]*`
unfoldable pub is_label : List ℕ → Bool
unfolding all_of
is_label [] = false
is_label (c ∷ cs) = is_alnum c && all_of (λ d. is_alnum d || nat_eq d b'-') cs

abbrev pub are_labels : List (List ℕ) → Bool
are_labels [] = true
are_labels (w ∷ ws) = is_label w && are_labels ws

-- `^[A-Za-z0-9][A-Za-z0-9-]*(\.[A-Za-z0-9][A-Za-z0-9-]*)+$`: two labels or more, with dots between
unfoldable pub is_bundle_id : List ℕ → Bool
unfolding split is_label
is_bundle_id s = let ws = split b'.' s in not (leb (length ws) 1) && are_labels ws
