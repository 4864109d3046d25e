-- ===== src/Storage/Temp.antt =====
-- The library's temporary files (internal/storage/storage.go).
use ipa_now.Common.{
  codes, same, is_digit, ℕ, suc, String, Bool, true, false, not, ◌&&◌, ◌||◌, List, [], ◌∷◌, nat_eq,
  if◌then◌else◌,
}
use ipa_now.Storage.{Temporary, Files, tick}

-- `^[0-9]+\.ipa$` of what follows the prefix, by the digits read
unfoldable pub digits_then_ipa : ℕ → List ℕ → Bool
unfolding same
digits_then_ipa n [] = false
digits_then_ipa n (c ∷ cs) =
    (is_digit c && digits_then_ipa (suc n) cs) || (not (nat_eq n 0) && same (c ∷ cs) (codes ".ipa"))

abbrev pub after_prefix : List ℕ → List ℕ → Bool
after_prefix [] cs = digits_then_ipa 0 cs
after_prefix (p ∷ ps) [] = false
after_prefix (p ∷ ps) (c ∷ cs) = nat_eq p c && after_prefix ps cs

-- `^ipadecrypt-patched-[0-9]+\.ipa$`
unfoldable pub allowed : String → Bool
unfolding digits_then_ipa
allowed name = after_prefix (codes "ipadecrypt-patched-") (codes name)

-- The loop of `CleanupTemp` over the entries; it stops at the first that is not the library's.
unfoldable pub cleanup_entries : List Temporary → Files → Bool × Files
unfolding allowed
cleanup_entries [] f = (true, f)
cleanup_entries (x ∷ xs) f =
    let rest = cleanup_entries xs (record (tick f) { tmp = xs }) in
    if (not (allowed x.name) || x.is_directory) || f.fails f.done then (false, tick f) else rest

unfoldable pub cleanup_temp : Files → Bool × Files
unfolding cleanup_entries
cleanup_temp f = if f.fails f.done then (false, tick f) else cleanup_entries f.tmp (tick f)
