-- ===== src/Config/Values.antt =====
-- What the values of settings look like (internal/config/config.go).
use ipa_now.Common.{
  ℕ, ◌+◌, ◌-◌, ◌*◌, ◌^◌, Bool, true, false, not, ◌&&◌, ◌||◌, Option, none, some, List, [], ◌∷◌, leb,
  ltb, nat_eq, length, if◌then◌else◌, is_digit, is_alnum, all_of, split, trim_last,
}
use ipa_now.Http.Target.{is_space}

unfoldable pub digits_value : ℕ → List ℕ → Option ℕ
digits_value n [] = some n
digits_value n (c ∷ cs) =
    let rest = digits_value (n * 10 + (c - b'0')) cs in if is_digit c then rest else none

unfoldable pub unsigned : List ℕ → Option ℕ
unfolding digits_value
unsigned [] = none
unsigned (c ∷ cs) = digits_value 0 (c ∷ cs)

abbrev pub below : ℕ → Option ℕ → Option ℕ
below limit none = none
below limit (some n) = if ltb n limit then some n else none

-- A number below zero is refused wherever one is read, as zero is.
abbrev pub negated : Option ℕ → Option ℕ
negated none = none
negated (some n) = if leb n (2 ^ 63) then some 0 else none

-- `strconv.Atoi`, and `strconv.ParseInt` with base 10, on 64 bits
unfoldable pub atoi : List ℕ → Option ℕ
unfolding unsigned
atoi [] = none
atoi (c ∷ cs) =
    if nat_eq c b'-'
    then negated (unsigned cs)
    else below (2 ^ 63) (if nat_eq c b'+' then unsigned cs else unsigned (c ∷ cs))

abbrev pub is_inner : ℕ → Bool
is_inner c = is_alnum c || nat_eq c b'-'

unfoldable pub ends_in_alnum : List ℕ → Bool
ends_in_alnum [] = false
ends_in_alnum (c ∷ []) = is_alnum c
ends_in_alnum (c ∷ d ∷ cs) = ends_in_alnum (d ∷ cs)

-- `^[a-zA-Z0-9](?:[a-zA-Z0-9-]{0,61}[a-zA-Z0-9])?$`
unfoldable pub is_host_label : List ℕ → Bool
unfolding ends_in_alnum all_of
is_host_label [] = false
is_host_label (c ∷ cs) =
    is_alnum c && ends_in_alnum (c ∷ cs) && leb (length cs) 62 && all_of is_inner cs

unfoldable pub are_host_labels : List (List ℕ) → Bool
unfolding is_host_label
are_host_labels [] = true
are_host_labels (w ∷ ws) = is_host_label w && are_host_labels ws

unfoldable pub valid_hostname : List ℕ → Bool
unfolding are_host_labels split trim_last
valid_hostname [] = false
valid_hostname (c ∷ cs) = are_host_labels (split b'.' (trim_last b'.' (c ∷ cs)))

abbrev pub is_word : ℕ → Bool
is_word c = is_alnum c || nat_eq c b'_' || nat_eq c b'-'

-- `^[a-zA-Z_][a-zA-Z0-9_-]{0,31}$`
unfoldable pub is_user : List ℕ → Bool
unfolding all_of
is_user [] = false
is_user (c ∷ cs) =
    (is_alnum c && not (is_digit c) || nat_eq c b'_') && leb (length cs) 31 && all_of is_word cs

-- `unicode.IsControl`
abbrev pub is_control : ℕ → Bool
is_control c = leb c 31 || (leb 127 c && leb c 159)

-- The line is no comment, and not empty.
unfoldable pub is_entry : List ℕ → Bool
unfolding is_space
is_entry [] = false
is_entry (c ∷ cs) = let rest = is_entry cs in if is_space c then rest else not (nat_eq c b'#')

unfoldable pub has_entry : List (List ℕ) → Bool
unfolding is_entry
has_entry [] = false
has_entry (l ∷ ls) = is_entry l || has_entry ls
