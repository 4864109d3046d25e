-- ===== src/Worker/Metadata.antt =====
-- The texts that an app says of itself, cut to what a column holds (internal/worker/worker.go). A
-- text is its bytes, and UTF-8 is as `unicode/utf8` decodes it.
pub mod Valid
use ipa_now.Common.{
  ℕ, zero, suc, ◌-◌, Bool, true, false, not, ◌&&◌, Option, none, some, List, [], ◌∷◌, ltb, leb,
  nat_eq, length, take, if◌then◌else◌,
}

abbrev within : ℕ → ℕ → ℕ → Bool
within lo hi b = leb lo b && leb b hi

-- What the first byte of a rune says: the number of bytes that follow, and the range of the first of
-- them. The others are 0x80 to 0xBF.
unfoldable pub first_info : ℕ → Option (ℕ × ℕ × ℕ)
first_info b =
    if ltb b 128
    then some (0, 0, 0)
    else if within 194 223 b
    then some (1, 128, 191)
    else if nat_eq b 224
    then some (2, 160, 191)
    else if within 225 236 b
    then some (2, 128, 191)
    else if nat_eq b 237
    then some (2, 128, 159)
    else if within 238 239 b
    then some (2, 128, 191)
    else if nat_eq b 240
    then some (3, 144, 191)
    else if within 241 243 b
    then some (3, 128, 191)
    else if nat_eq b 244
    then some (3, 128, 143)
    else none

unfoldable pub continued : ℕ → ℕ → ℕ → List ℕ → Bool
continued zero lo hi bs = true
continued (suc n) lo hi [] = false
continued (suc n) lo hi (b ∷ bs) = within lo hi b && continued n 128 191 bs

abbrev pub size_by : Option (ℕ × ℕ × ℕ) → List ℕ → ℕ
size_by none bs = 0
size_by (some (n, lo, hi)) bs = if continued n lo hi bs then suc n else 0

-- The size of the rune that starts with the byte `b`, and 0 if the bytes are no rune.
unfoldable pub rune_size : ℕ → List ℕ → ℕ
unfolding first_info continued
rune_size b bs = size_by (first_info b) bs

-- `utf8.ValidString` of what is left, when `n` bytes of a rune are still to be passed
unfoldable pub is_valid_from : ℕ → List ℕ → Bool
unfolding rune_size
is_valid_from n [] = true
is_valid_from (suc n) (b ∷ bs) = is_valid_from n bs
is_valid_from zero (b ∷ bs) = elim (rune_size b bs) [ zero ↦ false | suc n ↦ is_valid_from n bs ]

abbrev pub is_valid : List ℕ → Bool
is_valid v = is_valid_from 0 v

-- `strings.ToValidUTF8(value, "")`
unfoldable pub to_valid_from : ℕ → List ℕ → List ℕ
unfolding rune_size
to_valid_from n [] = []
to_valid_from (suc n) (b ∷ bs) = b ∷ to_valid_from n bs
to_valid_from zero (b ∷ bs) = elim (rune_size b bs) [
  | zero ↦ to_valid_from 0 bs
  | suc n ↦ b ∷ to_valid_from n bs
]

-- The loop that drops the last byte until the rest is valid; the empty text is.
unfoldable pub longest_valid : ℕ → List ℕ → List ℕ
unfolding is_valid_from
longest_valid zero v = []
longest_valid (suc n) v =
    let rest = longest_valid n v in if is_valid (take (suc n) v) then take (suc n) v else rest

unfoldable pub bounded_metadata : List ℕ → ℕ → List ℕ
unfolding to_valid_from longest_valid
bounded_metadata value max =
    let v = to_valid_from 0 value in if leb (length v) max then v else longest_valid max v
