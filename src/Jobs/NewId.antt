-- ===== src/Jobs/NewId.antt =====
-- New IDs (internal/jobs/store.go, `NewID`) are valid IDs of the private directory, whatever bytes
-- `rand.Read` gives. Its failure stops the process.
use Prim.Native.Char.{Char, code}
use Prim.Native.String.{String}
use ipa_now.Common.{
  ℕ, zero, suc, ◌/◌, ◌%◌, ◌*◌, ◌≡◌, refl, arith, true, List, [], ◌∷◌, length, codes, all_of,
}
use ipa_now.Storage.Ids.{is_hex, valid_id}

-- The digit at a position, and the last one beyond them
unfoldable pub digit_at : String → ℕ → Char
digit_at String.[] n = "f"
digit_at (String.◌∷◌ c s) zero = c
digit_at (String.◌∷◌ c s) (suc n) = digit_at s n

unfoldable pub digit : ℕ → Char
unfolding digit_at
digit n = digit_at "0123456789abcdef" n

-- `hex.EncodeToString` of 16 bytes, the upper half of a byte first
unfoldable pub new_id : List ℕ → String
unfolding digit
new_id [] = String.[]
new_id (b ∷ bs) = String.◌∷◌ (digit (b / 16)) (String.◌∷◌ (digit (b % 16)) (new_id bs))

digit_at-hex :
    (s : String) (n : ℕ) → all_of is_hex (codes s) ≡ true → is_hex (code (digit_at s n)) ≡ true
unfolding digit_at all_of is_hex
digit_at-hex String.[] n h = refl
digit_at-hex (String.◌∷◌ c s) zero h = ground arith
digit_at-hex (String.◌∷◌ c s) (suc n) h = digit_at-hex s n (ground arith)

hex_digits : all_of is_hex (codes "0123456789abcdef") ≡ true
unfolding all_of is_hex
hex_digits = refl

digit-hex : (n : ℕ) → is_hex (code (digit n)) ≡ true
unfolding digit
digit-hex n = digit_at-hex "0123456789abcdef" n hex_digits

length-new_id : (bs : List ℕ) → length (codes (new_id bs)) ≡ 2 * length bs
unfolding new_id
length-new_id [] = refl
length-new_id (b ∷ bs) = omega (arith, length-new_id bs)

new_id-hex : (bs : List ℕ) → all_of is_hex (codes (new_id bs)) ≡ true
unfolding new_id all_of
new_id-hex [] = refl
new_id-hex (b ∷ bs) = rw (digit-hex (b / 16), digit-hex (b % 16), new_id-hex bs) refl

-- An ID that is made of 16 bytes, whatever they are, is a valid ID of the private directory.
pub new_id-valid : (bs : List ℕ) → length bs ≡ 16 → valid_id (new_id bs) ≡ true
unfolding valid_id
new_id-valid bs h =
    let n : length (codes (new_id bs)) ≡ 32 = omega (arith, length-new_id bs, h) in
    rw (n, new_id-hex bs) refl
