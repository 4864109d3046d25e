-- ===== src/Http/Name/Safe.antt =====
-- The file name of a download cannot carry a separator, a traversal, a quote or a line break into the header.
use ipa_now.Common.{
  ℕ, zero, suc, ◌≤◌, ◌≡◌, refl, arith, inl, inr, Bool, true, false, ◌||◌, ◌&&◌, List, [], ◌∷◌, ◌++◌,
  leb, nat_eq, length, take, length-take, if◌then◌else◌, codes, all_of, Bool-cases, All, All-append,
}
use ipa_now.Jobs.Model.{Job}
use ipa_now.Storage.Ids.{valid_id, is_hex}
use ipa_now.Worker.Metadata.{rune_size}
use ipa_now.Http.Name.{
  is_kept, clean, dashed_from, is_trimmed_off, trim_left, trim_right, sanitize_name_part, join,
  or_id, download_name,
}

-- A letter, a digit, a dot or a dash
abbrev pub is_safe : ℕ → Bool
is_safe c = is_kept c || nat_eq c b'-'

abbrev Safe : List ℕ → Type 0
Safe = All (λ c. is_safe c ≡ true)

clean-IsSafe : (c : ℕ) → is_safe (clean c) ≡ true
clean-IsSafe c = elim (Bool-cases (is_kept c)) [
  | inl e ↦ rw (e, if◌then◌else◌) (rw e refl)
  | inr e ↦ rw (e, if◌then◌else◌) refl
]

dashed_from-Safe : (n : ℕ) (s : List ℕ) → Safe (dashed_from n s)
unfolding dashed_from
dashed_from-Safe n [] = tt
dashed_from-Safe (suc n) (b ∷ bs) = dashed_from-Safe n bs
dashed_from-Safe zero (b ∷ bs) = sized (λ k. dashed_from-Safe k bs) (rune_size b bs)
  where
    sized :
        ((k : ℕ) → Safe (dashed_from k bs))
        → (k : ℕ)
        → Safe (elim k [
          | zero ↦ b'-' ∷ dashed_from 0 bs
          | suc zero ↦ clean b ∷ dashed_from 0 bs
          | suc (suc n) ↦ b'-' ∷ dashed_from (suc n) bs
        ])
    sized f zero = (refl, f 0)
    sized f (suc zero) = (clean-IsSafe b, f 0)
    sized f (suc (suc n)) = (refl, f (suc n))

trim_left-Safe : (s : List ℕ) → Safe s → Safe (trim_left s)
unfolding trim_left
trim_left-Safe [] h = tt
trim_left-Safe (c ∷ cs) (h, hs) = elim (Bool-cases (is_trimmed_off c)) [
  | inl e ↦ rw (e, if◌then◌else◌) (trim_left-Safe cs hs)
  | inr e ↦ rw (e, if◌then◌else◌) (h, hs)
]

trim_right-Safe : (s : List ℕ) → Safe s → Safe (trim_right s)
unfolding trim_right
trim_right-Safe [] h = tt
trim_right-Safe (c ∷ cs) (h, hs) = kept (trim_right cs) (trim_right-Safe cs hs)
  where
    kept :
        (t : List ℕ)
        → Safe t
        → Safe (elim t [ [] ↦ if is_trimmed_off c then [] else c ∷ [] | d ∷ ds ↦ c ∷ d ∷ ds ])
    kept [] g = elim (Bool-cases (is_trimmed_off c)) [
      | inl e ↦ rw (e, if◌then◌else◌) tt
      | inr e ↦ rw (e, if◌then◌else◌) (h, tt)
    ]
    kept (d ∷ ds) g = (h, g)

part-Safe : (s : List ℕ) → Safe (sanitize_name_part s)
unfolding sanitize_name_part
part-Safe s = trim_right-Safe _ (trim_left-Safe _ (dashed_from-Safe 0 s))

-- It does not begin with a dot or a dash.
abbrev pub IsVisible : List ℕ → Type 0
IsVisible [] = Unit
IsVisible (c ∷ cs) = is_trimmed_off c ≡ false

trim_left-IsVisible : (s : List ℕ) → IsVisible (trim_left s)
unfolding trim_left
trim_left-IsVisible [] = tt
trim_left-IsVisible (c ∷ cs) = elim (Bool-cases (is_trimmed_off c)) [
  | inl e ↦ rw (e, if◌then◌else◌) (trim_left-IsVisible cs)
  | inr e ↦ rw (e, if◌then◌else◌) e
]

trim_right-IsVisible : (s : List ℕ) → IsVisible s → IsVisible (trim_right s)
unfolding trim_right
trim_right-IsVisible [] h = tt
trim_right-IsVisible (c ∷ cs) h = kept (trim_right cs)
  where
    kept :
        (t : List ℕ)
        → IsVisible (elim t [ [] ↦ if is_trimmed_off c then [] else c ∷ [] | d ∷ ds ↦ c ∷ d ∷ ds ])
    kept [] = elim (Bool-cases (is_trimmed_off c)) [
      | inl e ↦ rw (e, if◌then◌else◌) tt
      | inr e ↦ rw (e, if◌then◌else◌) e
    ]
    kept (d ∷ ds) = h

part-IsVisible : (s : List ℕ) → IsVisible (sanitize_name_part s)
unfolding sanitize_name_part
part-IsVisible s =
    trim_right-IsVisible (trim_left (dashed_from 0 s)) (trim_left-IsVisible (dashed_from 0 s))

join-Safe : (u v : List ℕ) → Safe u → Safe v → Safe (join u v)
join-Safe [] v h g = g
join-Safe (c ∷ cs) [] h g = h
join-Safe (c ∷ cs) (d ∷ ds) (h, hs) g = (h, All-append _ cs (b'-' ∷ d ∷ ds) hs (refl, g))

join-IsVisible : (u v : List ℕ) → IsVisible u → IsVisible v → IsVisible (join u v)
join-IsVisible [] v h g = g
join-IsVisible (c ∷ cs) [] h g = h
join-IsVisible (c ∷ cs) (d ∷ ds) h g = h

or_id-Safe : (u v : List ℕ) → Safe u → Safe v → Safe (or_id u v)
or_id-Safe [] v h g = g
or_id-Safe (c ∷ cs) v h g = h

-- It begins with another character than these.
abbrev pub IsNamed : List ℕ → Type 0
IsNamed [] = ⊥
IsNamed (c ∷ cs) = is_trimmed_off c ≡ false

or_id-IsNamed : (u v : List ℕ) → IsVisible u → IsNamed v → IsNamed (or_id u v)
or_id-IsNamed [] v h g = g
or_id-IsNamed (c ∷ cs) v h g = h

take-Safe : (n : ℕ) (s : List ℕ) → Safe s → Safe (take n s)
take-Safe zero s h = tt
take-Safe (suc n) [] h = tt
take-Safe (suc n) (c ∷ cs) (h, hs) = (h, take-Safe n cs hs)

take-IsNamed : (n : ℕ) (s : List ℕ) → IsNamed s → IsNamed (take (suc n) s)
take-IsNamed n [] h = h
take-IsNamed n (c ∷ cs) h = h

hex-Safe : (s : List ℕ) → all_of is_hex s ≡ true → Safe s
unfolding all_of is_hex
hex-Safe [] h = tt
hex-Safe (c ∷ cs) h = (ground arith, hex-Safe cs (ground arith))

id-IsNamed : (s : List ℕ) → (nat_eq (length s) 32 && all_of is_hex s) ≡ true → IsNamed s
unfolding all_of is_hex
id-IsNamed [] h = ground arith
id-IsNamed (c ∷ cs) h = ground arith

-- Letters, digits, dots and dashes, 150 at most, of which the first is neither a dot nor a dash
pub record Plain (s : List ℕ) : Type 0 where
  pub is_safe_name : Safe s
  pub is_named : IsNamed s
  pub is_short : length s ≤ 150

cut-Plain : (s : List ℕ) → Safe s → IsNamed s → Plain (if leb (length s) 150 then s else take 150 s)
cut-Plain s h g = elim (Bool-cases (leb (length s) 150)) [
  | inl e ↦
      rw (e, if◌then◌else◌) (record { is_safe_name = h; is_named = g; is_short = ground arith })
  | inr e ↦
      rw (e, if◌then◌else◌)
        (record {
          is_safe_name = take-Safe 150 s h;
          is_named = take-IsNamed 149 s g;
          is_short = length-take 150 s;
        })
]

-- Whatever an app says of itself, the file name of a download is a plain name and `.ipa`: letters, digits, dots
-- and dashes, 150 at most, of which the first is a letter or a digit.
pub download_name-Plain :
    (j : Job)
    → valid_id j.id ≡ true
    → (name : List ℕ) × Plain name × (download_name j ≡ name ++ codes ".ipa")
unfolding download_name valid_id
download_name-Plain j h =
    let u = sanitize_name_part j.bundle_id in
    let v = sanitize_name_part j.version in
    (
      _,
      cut-Plain (or_id (join u v) (codes j.id))
          (or_id-Safe (join u v) (codes j.id)
            (join-Safe u v (part-Safe j.bundle_id) (part-Safe j.version))
            (hex-Safe (codes j.id) (ground arith)))
          (or_id-IsNamed (join u v) (codes j.id)
            (join-IsVisible u v (part-IsVisible j.bundle_id) (part-IsVisible j.version))
            (id-IsNamed (codes j.id) h)),
      refl,
    )
