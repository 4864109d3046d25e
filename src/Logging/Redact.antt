-- ===== src/Logging/Redact.antt =====
-- The redaction of secrets in diagnostics (internal/logging/logging.go), on the bytes of the text. The
-- two regular expressions are matched by hand, as they are written: their repetitions are greedy, and
-- never have to give back what they took.
use ipa_now.Common.{
  ℕ, zero, suc, ◌+◌, ◌-◌, String, Bool, true, false, not, ◌&&◌, ◌||◌, Option, none, some, List, [],
  ◌∷◌, ◌++◌, nat_eq, length, take, member, has_prefix, codes, is_alnum, if◌then◌else◌,
}

-- `\w`, and `\b` before a byte
abbrev pub is_word : ℕ → Bool
is_word c = is_alnum c || nat_eq c b'_'

abbrev pub starts_word : List ℕ → Bool
starts_word [] = false
starts_word (c ∷ s) = is_word c

abbrev pub differ : Bool → Bool → Bool
differ true b = not b
differ false b = b

-- `\s`
abbrev pub is_blank : ℕ → Bool
is_blank c = member c (9 ∷ 10 ∷ 12 ∷ 13 ∷ 32 ∷ [])

-- `[^\s;,)]`
abbrev pub is_plain : ℕ → Bool
is_plain c = not (is_blank c || member c (b';' ∷ b',' ∷ b')' ∷ []))

-- What follows the longest run of such bytes
unfoldable pub skip_while : (ℕ → Bool) → List ℕ → List ℕ
skip_while p [] = []
skip_while p (c ∷ s) = let rest = skip_while p s in if p c then rest else c ∷ s

-- One such byte or more
unfoldable pub skip_some : (ℕ → Bool) → List ℕ → Option (List ℕ)
unfolding skip_while
skip_some p [] = none
skip_some p (c ∷ s) = if p c then some (skip_while p s) else none

infixl 5 ◌>>=◌
-- A chain of matches
abbrev pub ◌>>=◌ : {A B : Type 0} → Option A → (A → Option B) → Option B
none >>= f = none
some a >>= f = f a

-- A small letter in ASCII, in either case
unfoldable pub ascii_letter : ℕ → List ℕ → Option (List ℕ)
ascii_letter l [] = none
ascii_letter l (c ∷ s) = if nat_eq c l || nat_eq (c + 32) l then some s else none

abbrev pub skip : ℕ → List ℕ → List ℕ
skip zero s = s
skip (suc n) [] = []
skip (suc n) (c ∷ s) = skip n s

-- A small letter under `(?i)`: the long s folds to an s, and the sign of the kelvin to a k.
unfoldable pub fold_letter : ℕ → List ℕ → Option (List ℕ)
unfolding ascii_letter has_prefix
fold_letter l s =
    if nat_eq l b's' && has_prefix s (197 ∷ 191 ∷ [])
    then some (skip 2 s)
    else if nat_eq l b'k' && has_prefix s (226 ∷ 132 ∷ 170 ∷ [])
    then some (skip 3 s)
    else ascii_letter l s

unfoldable pub fold_word : List ℕ → List ℕ → Option (List ℕ)
unfolding fold_letter
fold_word [] s = some s
fold_word (l ∷ ls) s = do rest ← fold_letter l s; fold_word ls rest

-- The first of the words, none of which starts another, up to a `\b`: each ends in a letter that has
-- no other case than the two in ASCII.
unfoldable pub keyword : List String → List ℕ → Option (List ℕ)
unfolding fold_word
keyword [] s = none
keyword (w ∷ ws) s = elim (fold_word (codes w) s) [
  | none ↦ keyword ws s
  | some rest ↦ if starts_word rest then none else some rest
]

abbrev pub secret_words : List String
secret_words =
    "password" ∷ "passphrase" ∷ "secret" ∷ "token" ∷ "authorization" ∷ "cookie" ∷ "session" ∷ []

-- `bearer\s+[^\s;,)]+`
unfoldable pub bearer_token : List ℕ → Option (List ℕ)
unfolding fold_word skip_some
bearer_token s = do
  after ← fold_word (codes "bearer") s
  value ← skip_some is_blank after
  skip_some is_plain value

abbrev pub after_quote : List ℕ → Option (List ℕ)
after_quote [] = none
after_quote (c ∷ s) = some s

-- `"[^"]*"`
unfoldable pub quoted : List ℕ → Option (List ℕ)
unfolding skip_while
quoted [] = none
quoted (c ∷ s) =
    if nat_eq c b'"' then after_quote (skip_while (λ d. not (nat_eq d b'"')) s) else none

-- The value of a secret, by the first alternative that matches
unfoldable pub secret_value : List ℕ → Option (List ℕ)
unfolding bearer_token quoted skip_some
secret_value s = elim (bearer_token s) [
  | some rest ↦ some rest
  | none ↦ elim (quoted s) [ some rest ↦ some rest | none ↦ skip_some is_plain s ]
]

-- `[:=]`
abbrev pub separator : List ℕ → Option (List ℕ)
separator [] = none
separator (c ∷ s) = if nat_eq c b':' || nat_eq c b'=' then some s else none

-- What follows a match, and what replaces the match
abbrev pub Match : Type 0
Match = List ℕ × List ℕ

-- A match of an expression at some text, after a byte that is a `\w` or not
abbrev pub Matcher : Type 0
Matcher = Bool → List ℕ → Option Match

-- `m[:sep+1] + " [redacted]"`
unfoldable pub secret_pair : Matcher
unfolding keyword secret_value skip_while
secret_pair word s =
    if differ word (starts_word s)
    then (do
      name ← keyword secret_words s
      after ← separator (skip_while is_blank name)
      rest ← secret_value (skip_while is_blank after)
      some (rest, take (length s - length after) s ++ codes " [redacted]"))
    else none

unfoldable pub bearer : Matcher
unfolding bearer_token
bearer word s =
    if differ word (starts_word s)
    then (bearer_token s >>= λ rest. some (rest, codes "bearer [redacted]"))
    else none

-- `ReplaceAllStringFunc` and `ReplaceAllString`: the matches from the left, none in another. The number
-- is that of the bytes that a match has still to go.
unfoldable pub replace_all : Matcher → Bool → ℕ → List ℕ → List ℕ
replace_all m word n [] = []
replace_all m word (suc n) (c ∷ s) = replace_all m (is_word c) n s
replace_all m word zero (c ∷ s) = elim (m word (c ∷ s)) [
  | none ↦ c ∷ replace_all m (is_word c) 0 s
  | some (rest, by) ↦ by ++ replace_all m (is_word c) (length s - length rest) s
]

-- `Redact`
unfoldable pub redact : List ℕ → List ℕ
unfolding replace_all secret_pair bearer
redact s = replace_all bearer false 0 (replace_all secret_pair false 0 s)
