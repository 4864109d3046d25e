-- ===== src/Storage/Tests.antt =====
-- Archives and names, and the theorem at them.
use ipa_now.Common.{
  ◌≡◌, refl, arith, true, false, some, none, [], ◌∷◌, codes, same, member, among, has_prefix,
  has_suffix, split, joined, trim_last, is_bundle_id, is_label, all_of,
}
use ipa_now.Storage.Ids.{valid_id, is_hex}
use ipa_now.Storage.Temp.{allowed, digits_then_ipa}
use ipa_now.Storage.Ipa.{
  Entry, clean_onto, clean_path, is_unsafe_name, is_good_meta, app_of, inspect, inspect_all,
  validate_ipa,
}
use ipa_now.Storage.Ipa.Accepted.{Accepted, validate_ipa-Accepted}

good_id : valid_id "0123456789abcdef0123456789abcdef" ≡ true
unfolding valid_id is_hex all_of
good_id = refl

bad_id : valid_id "0123456789abcdef0123456789abcde/" ≡ false
unfolding valid_id is_hex all_of
bad_id = refl

temporary : allowed "ipadecrypt-patched-42.ipa" ≡ true
unfolding allowed digits_then_ipa same
temporary = refl

not_temporary : allowed "ipadecrypt-patched-.ipa" ≡ false
unfolding allowed digits_then_ipa same
not_temporary = refl

abbrev info : Entry
info = record {
  name = codes "Payload/A.app/Info.plist";
  size = 300;
  is_link = false;
  is_regular = true;
  is_dir = false;
  meta = some (record { size = 300; id = codes "com.example.app"; executable = codes "A" });
}

abbrev binary : Entry
binary = record info { name = codes "Payload/A.app/A"; size = 4096; meta = none }

abbrev escape : Entry
escape = record binary { name = codes "Payload/../../etc/passwd" }

info_accepted : validate_ipa (λ s. s) 65536 (some (info ∷ binary ∷ [])) ≡ true
unfolding validate_ipa inspect_all inspect is_unsafe_name clean_path clean_onto is_good_meta app_of
    same member among has_prefix has_suffix split joined trim_last is_bundle_id is_label all_of
info_accepted = refl

escape_refused : validate_ipa (λ s. s) 65536 (some (info ∷ escape ∷ [])) ≡ false
unfolding validate_ipa inspect_all inspect is_unsafe_name clean_path clean_onto is_good_meta app_of
    same member among has_prefix has_suffix split joined trim_last is_bundle_id is_label all_of
escape_refused = refl

validate_ipa-Accepted_example : Accepted (λ s. s) 65536 (info ∷ binary ∷ [])
validate_ipa-Accepted_example =
    validate_ipa-Accepted (λ s. s) 65536 (info ∷ binary ∷ []) (omega arith) info_accepted
