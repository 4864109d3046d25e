-- ===== src/Storage/Ids.antt =====
-- Opaque IDs and the names of the library's temporary files (internal/storage/storage.go).
use ipa_now.Common.{String, codes, all_of, ℕ, Bool, ◌&&◌, ◌||◌, leb, nat_eq, length}

-- `[a-f0-9]`
unfoldable pub is_hex : ℕ → Bool
is_hex c = (leb b'a' c && leb c b'f') || (leb b'0' c && leb c b'9')

-- `^[a-f0-9]{32}$`
unfoldable pub valid_id : String → Bool
unfolding is_hex all_of
valid_id id = nat_eq (length (codes id)) 32 && all_of is_hex (codes id)
