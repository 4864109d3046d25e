-- ===== src/Http/Tests.antt =====
-- Targets that are typed, and the theorem at them.
use ipa_now.Common.{
  ℕ, ◌≡◌, refl, false, some, none, List, [], codes, same, has_prefix, has_suffix, has_part, split,
  is_bundle_id, is_label, all_of,
}
use ipa_now.Http.Target.{
  Url, installed, app_store, is_trimmed, is_space, byte_length, is_app_id, id_of, after_app,
  app_path, store_id, url_id, check_plain, validate_target,
}
use ipa_now.Http.Target.Accepted.{Accepted, validate_target-Accepted}

abbrev store_url : Url
store_url = record {
  scheme = codes "https";
  host = codes "apps.apple.com";
  has_user = false;
  fragment = [];
  path = codes "/us/app/example/id123";
}

abbrev typed_url : List ℕ
typed_url = codes "https://apps.apple.com/us/app/example/id123"

url_accepted :
    validate_target (λ _. some store_url) (λ s. s) typed_url app_store ≡ some (codes "123")
unfolding validate_target byte_length is_trimmed is_space has_part has_prefix has_suffix url_id
    store_id app_path after_app id_of is_app_id check_plain same split is_bundle_id is_label all_of
url_accepted = refl

id_refused : validate_target (λ _. none) (λ s. s) (codes "123") installed ≡ none
unfolding validate_target byte_length is_trimmed is_space has_part has_prefix has_suffix url_id
    store_id app_path after_app id_of is_app_id check_plain same split is_bundle_id is_label all_of
id_refused = refl

file_refused : validate_target (λ _. none) (λ s. s) (codes "com.example.ipa") app_store ≡ none
unfolding validate_target byte_length is_trimmed is_space has_part has_prefix has_suffix url_id
    store_id app_path after_app id_of is_app_id check_plain same split is_bundle_id is_label all_of
file_refused = refl

validate_target-Accepted_example :
    Accepted (λ _. some store_url) (λ s. s) typed_url app_store (codes "123")
validate_target-Accepted_example =
    validate_target-Accepted (λ _. some store_url) (λ s. s) typed_url app_store (codes "123")
      url_accepted
