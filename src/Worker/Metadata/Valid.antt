-- ===== src/Worker/Metadata/Valid.antt =====
-- The texts that are saved of an app are valid UTF-8 and fit (internal/worker/worker.go).
use ipa_now.Common.{
  take, length-take, ℕ, zero, suc, ◌≤◌, ◌≡◌, refl, ◌⊎◌, inl, inr, arith, true, Option, none, some,
  subst, List, [], ◌∷◌, leb, length, if◌then◌else◌, Bool-cases, leb→le,
}
use ipa_now.Worker.Metadata.{
  first_info, continued, size_by, rune_size, is_valid_from, is_valid, to_valid_from, longest_valid,
  bounded_metadata,
}

-- The size of a rune is decided by its own bytes, which `ToValidUTF8` keeps.
continued_stable :
    (n lo hi : ℕ) (bs : List ℕ)
    → continued n lo hi bs ≡ true
    → continued n lo hi (to_valid_from n bs) ≡ true
unfolding continued to_valid_from
continued_stable zero lo hi bs h = refl
continued_stable (suc n) lo hi [] h = h
continued_stable (suc n) lo hi (b ∷ bs) h = ground (arith, continued_stable n 128 191 bs)

size_stable :
    (o : Option (ℕ × ℕ × ℕ)) (m : ℕ) (bs : List ℕ)
    → size_by o bs ≡ suc m
    → size_by o (to_valid_from m bs) ≡ suc m
size_stable none m bs h = absurd (ground arith)
size_stable (some (n, lo, hi)) m bs h = elim (Bool-cases (continued n lo hi bs)) [
  | inl e ↦
      let same_size : n ≡ m = ground arith in
      subst (λ k. (if continued n lo hi (to_valid_from k bs) then suc n else 0) ≡ suc k) same_size
        (rw (continued_stable n lo hi bs e) refl)
  | inr e ↦ absurd (ground arith)
]

rune_stable :
    (b n : ℕ) (bs : List ℕ) → rune_size b bs ≡ suc n → rune_size b (to_valid_from n bs) ≡ suc n
unfolding rune_size
rune_stable b n bs h = size_stable (first_info b) n bs h

to_valid-valid : (n : ℕ) (bs : List ℕ) → is_valid_from n (to_valid_from n bs) ≡ true
unfolding to_valid_from is_valid_from
to_valid-valid n [] = refl
to_valid-valid (suc n) (b ∷ bs) = to_valid-valid n bs
to_valid-valid zero (b ∷ bs) = elim (sized (rune_size b bs)) [
  | inl e ↦ rw (e, is_valid_from) (to_valid-valid zero bs)
  | inr (n, e) ↦
      rw (e, is_valid_from) (rw (rune_stable b n bs e, is_valid_from) (to_valid-valid n bs))
]
  where
    sized : (m : ℕ) → (m ≡ 0) ⊎ ((n : ℕ) × (m ≡ suc n))
    sized zero = inl refl
    sized (suc n) = inr (n, refl)

longest_fits :
    (n : ℕ) (v : List ℕ) → (is_valid (longest_valid n v) ≡ true) × (length (longest_valid n v) ≤ n)
unfolding longest_valid is_valid_from
longest_fits zero v = (refl, omega arith)
longest_fits (suc n) v = elim (Bool-cases (is_valid (take (suc n) v))) [
  | inl e ↦ rw (e, if◌then◌else◌) (e, length-take (suc n) v)
  | inr e ↦ let (valid, short) = longest_fits n v in rw (e, if◌then◌else◌) (valid, omega arith)
]

-- Whatever bytes an app says of itself, what is saved of them is valid UTF-8 and has at most `max` bytes.
pub bounded_metadata-valid :
    (value : List ℕ) (max : ℕ)
    → (is_valid (bounded_metadata value max) ≡ true) × (length (bounded_metadata value max) ≤ max)
unfolding bounded_metadata
bounded_metadata-valid value max = elim (Bool-cases (leb (length (to_valid_from 0 value)) max)) [
  | inl e ↦ rw (e, if◌then◌else◌) (to_valid-valid 0 value, leb→le _ _ e)
  | inr e ↦ rw (e, if◌then◌else◌) (longest_fits max (to_valid_from 0 value))
]
