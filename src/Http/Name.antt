-- ===== src/Http/Name.antt =====
-- The file name of a download (internal/httpapi/server.go). A text is its bytes.
pub mod Safe
use ipa_now.Common.{
  ℕ, zero, suc, Bool, true, false, not, ◌||◌, List, [], ◌∷◌, ◌++◌, leb, nat_eq, length, take,
  if◌then◌else◌, codes, is_alnum,
}
use ipa_now.Jobs.Model.{Job}
use ipa_now.Worker.Metadata.{rune_size}

abbrev pub is_kept : ℕ → Bool
is_kept c = is_alnum c || nat_eq c b'.'

abbrev pub clean : ℕ → ℕ
clean c = if is_kept c then c else b'-'

-- Each rune becomes one byte, and so does each byte that is no rune; `n` bytes of a rune are passed. A rune
-- of more than one byte is none of those that are kept.
unfoldable pub dashed_from : ℕ → List ℕ → List ℕ
unfolding rune_size
dashed_from n [] = []
dashed_from (suc n) (b ∷ bs) = dashed_from n bs
dashed_from zero (b ∷ bs) = elim (rune_size b bs) [
  | zero ↦ b'-' ∷ dashed_from 0 bs
  | suc zero ↦ clean b ∷ dashed_from 0 bs
  | suc (suc n) ↦ b'-' ∷ dashed_from (suc n) bs
]

abbrev pub is_trimmed_off : ℕ → Bool
is_trimmed_off c = nat_eq c b'.' || nat_eq c b'-'

unfoldable pub trim_left : List ℕ → List ℕ
trim_left [] = []
trim_left (c ∷ cs) = let rest = trim_left cs in if is_trimmed_off c then rest else c ∷ cs

unfoldable pub trim_right : List ℕ → List ℕ
trim_right [] = []
trim_right (c ∷ cs) = elim (trim_right cs) [
  | [] ↦ if is_trimmed_off c then [] else c ∷ []
  | d ∷ ds ↦ c ∷ d ∷ ds
]

-- `strings.Trim(..., ".-")` of what the loop has written
unfoldable pub sanitize_name_part : List ℕ → List ℕ
unfolding dashed_from trim_left trim_right
sanitize_name_part s = trim_right (trim_left (dashed_from 0 s))

-- The parts that are not empty, joined by a dash
abbrev pub join : List ℕ → List ℕ → List ℕ
join [] v = v
join (c ∷ cs) [] = c ∷ cs
join (c ∷ cs) (d ∷ ds) = (c ∷ cs) ++ b'-' ∷ d ∷ ds

abbrev pub or_id : List ℕ → List ℕ → List ℕ
or_id [] id = id
or_id (c ∷ cs) id = c ∷ cs

unfoldable pub download_name : Job → List ℕ
unfolding sanitize_name_part
download_name j =
    let name =
      or_id (join (sanitize_name_part j.bundle_id) (sanitize_name_part j.version)) (codes j.id) in
    (if leb (length name) 150 then name else take 150 name) ++ codes ".ipa"
