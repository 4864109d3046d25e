-- ===== src/Logging/Line.antt =====
-- Diagnostics are single lines of bounded length.
use ipa_now.Common.{
  ◌-◌, ℕ, map, joined, not, ◌||◌, all_of, zero, suc, ◌≤◌, Bool, true, false, Option, none, some,
  List, [], ◌∷◌, ◌++◌, nat_eq, ltb, length, take, All, All-append, length-take, length-append, ◌≡◌,
  refl, inl, inr, Bool-cases, if◌then◌else◌, codes, arith,
}
use ipa_now.Common.Sorting.{sorted}
use ipa_now.Logging.{
  parts, chained, precedes, present, pair, unbroken, cut, detail, Entries, is_empty, fields, chain,
}
use ipa_now.Logging.Redact.{
  Matcher, Match, secret_pair, bearer, replace_all, redact, secret_words, keyword, separator,
  secret_value, skip_while, bearer_token, differ, starts_word, is_word, is_blank, ◌>>=◌,
}

-- Neither a line feed nor a carriage return
abbrev IsInline : ℕ → Type 0
IsInline c = (nat_eq c 10 ≡ false) × (nat_eq c 13 ≡ false)

abbrev pub IsLine : List ℕ → Type 0
IsLine s = All IsInline s × (length s ≤ 2015)

abbrev is_inline : ℕ → Bool
is_inline c = not (nat_eq c 10 || nat_eq c 13)

-- A text that is written out is looked through.
literal-Inline : (s : List ℕ) → all_of is_inline s ≡ true → All IsInline s
unfolding all_of
literal-Inline [] e = tt
literal-Inline (c ∷ s) e = ((ground arith, ground arith), literal-Inline s (ground arith))

unbroken-Inline : (cr : Bool) (s : List ℕ) → All IsInline (unbroken cr s)
unfolding unbroken
unbroken-Inline cr [] = tt
unbroken-Inline cr (c ∷ s) = elim (Bool-cases (nat_eq c 13)) [
  | inl e ↦ rw (e, if◌then◌else◌) ((refl, refl), ((refl, refl), unbroken-Inline true s))
  | inr e ↦ elim (Bool-cases (nat_eq c 10)) [
    | inl f ↦ rw (e, f, if◌then◌else◌) (broken cr (unbroken-Inline false s))
    | inr f ↦ rw (e, f, if◌then◌else◌) ((f, e), unbroken-Inline false s)
  ]
]
  where
    broken :
        (b : Bool)
        → All IsInline (unbroken false s)
        → All IsInline (if b then unbroken false s else codes "; " ++ unbroken false s)
    broken true h = h
    broken false h = ((refl, refl), ((refl, refl), h))

take-Inline : (n : ℕ) (s : List ℕ) → All IsInline s → All IsInline (take n s)
take-Inline zero s h = tt
take-Inline (suc n) [] h = tt
take-Inline (suc n) (c ∷ s) (h, hs) = (h, take-Inline n s hs)

-- The replacement of a match in a line is in the line.
abbrev Fits : Option Match → Type 0
Fits none = Unit
Fits (some (rest, by)) = All IsInline by

abbrev Stays : Matcher → Type 0
Stays m = (word : Bool) (s : List ℕ) → All IsInline s → Fits (m word s)

replaced-Inline :
    (o : Option Match) (c : ℕ) (s : List ℕ) (k : ℕ → List ℕ)
    → Fits o
    → IsInline c
    → ((n : ℕ) → All IsInline (k n))
    → All IsInline (elim o [ none ↦ c ∷ k 0 | some (rest, by) ↦ by ++ k (length s - length rest) ])
replaced-Inline none c s k f h g = (h, g 0)
replaced-Inline (some (rest, by)) c s k f h g = All-append IsInline by _ f (g _)

replace_all-Inline :
    (m : Matcher)
    → Stays m
    → (word : Bool) (n : ℕ) (s : List ℕ) → All IsInline s
    → All IsInline (replace_all m word n s)
unfolding replace_all
replace_all-Inline m stays word n [] h = tt
replace_all-Inline m stays word (suc n) (c ∷ s) (h, hs) =
    replace_all-Inline m stays (is_word c) n s hs
replace_all-Inline m stays word zero (c ∷ s) (h, hs) =
    replaced-Inline (m word (c ∷ s)) c s (λ n. replace_all m (is_word c) n s)
      (stays word (c ∷ s) (h, hs)) h λ n. replace_all-Inline m stays (is_word c) n s hs

bind-Fits :
    {A : Type 0} (o : Option A) (f : A → Option Match) → ((a : A) → Fits (f a)) → Fits (o >>= f)
bind-Fits none f h = tt
bind-Fits (some a) f h = h a

if-Fits : (b : Bool) (o : Option Match) → Fits o → Fits (if b then o else none)
if-Fits true o h = h
if-Fits false o h = tt

secret_pair-Stays : Stays secret_pair
unfolding secret_pair all_of
secret_pair-Stays word s h = if-Fits (differ word (starts_word s)) _ (
    bind-Fits (keyword secret_words s) _ λ name.
      bind-Fits (separator (skip_while is_blank name)) _ λ after.
        bind-Fits (secret_value (skip_while is_blank after)) _ λ rest.
          All-append IsInline (take (length s - length after) s) (codes " [redacted]")
            (take-Inline _ s h) (literal-Inline (codes " [redacted]") refl))

bearer-Stays : Stays bearer
unfolding bearer all_of
bearer-Stays word s h =
    if-Fits (differ word (starts_word s)) _
      (bind-Fits (bearer_token s) _ λ rest. literal-Inline (codes "bearer [redacted]") refl)

redact-Inline : (s : List ℕ) → All IsInline s → All IsInline (redact s)
unfolding redact
redact-Inline s h =
    replace_all-Inline bearer bearer-Stays false 0 _
      (replace_all-Inline secret_pair secret_pair-Stays false 0 s h)

cut-IsLine : (s : List ℕ) → All IsInline s → IsLine (cut s)
unfolding cut all_of
cut-IsLine s h = elim (Bool-cases (ltb 2000 (length s))) [
  | inl e ↦
      rw (e, if◌then◌else◌)
        (
          All-append IsInline (take 2000 s) _ (take-Inline 2000 s h)
              (literal-Inline (codes " ...[truncated]") refl),
          omega (arith, length-append (take 2000 s) (codes " ...[truncated]"), length-take 2000 s),
        )
  | inr e ↦ rw (e, if◌then◌else◌) (h, (ground arith))
]

detail-IsLine : (s : List ℕ) → IsLine (detail s)
unfolding detail
detail-IsLine s = cut-IsLine _ (redact-Inline _ (unbroken-Inline false s))

pub fields-IsLine : (fs : Entries) (allow : List (List ℕ)) → IsLine (fields fs allow)
unfolding fields
fields-IsLine fs allow = elim (Bool-cases (is_empty fs || is_empty allow)) [
  | inl e ↦ rw (e, if◌then◌else◌) (tt, omega arith)
  | inr e ↦
      rw (e, if◌then◌else◌)
        (detail-IsLine (joined b' ' (map (pair fs) (sorted precedes (present fs allow)))))
]

pub chain-IsLine : (ms : List (List ℕ)) → IsLine (chain ms)
unfolding chain
chain-IsLine [] = (tt, omega arith)
chain-IsLine (m ∷ ms) = detail-IsLine (chained (parts none (m ∷ ms)))

-- Whatever the text, the fields and the errors are, `Detail`, `Fields` and `Chain` say it in one line,
-- without a line feed and without a carriage return, of 2015 bytes at most.
pub diagnostics-AreLines :
    (s : List ℕ) (fs : Entries) (allow : List (List ℕ)) (ms : List (List ℕ))
    → IsLine (detail s) × IsLine (fields fs allow) × IsLine (chain ms)
diagnostics-AreLines s fs allow ms = (detail-IsLine s, fields-IsLine fs allow, chain-IsLine ms)
