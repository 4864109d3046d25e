-- ===== src/Http/Target.antt =====
-- The target of a new job (internal/httpapi/validation.go). A text is its code points; `parse` is
-- `url.Parse`, and `lower` is `strings.ToLower`.
pub mod Accepted
use ipa_now.Common.{
  ℕ, suc, ◌+◌, Bool, true, false, not, ◌&&◌, ◌||◌, Option, none, some, List, [], ◌∷◌, leb, ltb,
  nat_eq, length, if◌then◌else◌, codes, same, is_text, member, has_prefix, has_suffix, has_part,
  split, all_of, is_digit, is_bundle_id,
}

pub record Url : Type 0 where
  pub scheme : List ℕ
  pub host : List ℕ
  pub has_user : Bool
  pub fragment : List ℕ
  pub path : List ℕ

-- `unicode.IsSpace`
unfoldable pub is_space : ℕ → Bool
is_space c =
    (leb 9 c && leb c 13)
    || nat_eq c 32
    || nat_eq c 133
    || nat_eq c 160
    || nat_eq c 5760
    || (leb 8192 c && leb c 8202)
    || nat_eq c 8232
    || nat_eq c 8233
    || nat_eq c 8239
    || nat_eq c 8287
    || nat_eq c 12288

abbrev pub ends_in_space : List ℕ → Bool
ends_in_space [] = false
ends_in_space (c ∷ []) = is_space c
ends_in_space (c ∷ d ∷ cs) = ends_in_space (d ∷ cs)

abbrev pub starts_with_space : List ℕ → Bool
starts_with_space [] = false
starts_with_space (c ∷ cs) = is_space c

-- `raw == strings.TrimSpace(raw)`
unfoldable pub is_trimmed : List ℕ → Bool
unfolding is_space
is_trimmed s = not (starts_with_space s) && not (ends_in_space s)

-- The number of bytes of a text in UTF-8
unfoldable pub byte_length : List ℕ → ℕ
byte_length [] = 0
byte_length (c ∷ cs) =
    (if ltb c 128 then 1 else if ltb c 2048 then 2 else if ltb c 65536 then 3 else 4)
    + byte_length cs

-- `^[1-9][0-9]{0,19}$`
unfoldable pub is_app_id : List ℕ → Bool
unfolding all_of
is_app_id [] = false
is_app_id (c ∷ cs) = leb b'1' c && leb c b'9' && leb (length cs) 19 && all_of is_digit cs

-- `id([1-9][0-9]{0,19})`
unfoldable pub id_of : List ℕ → Option (List ℕ)
unfolding is_app_id
id_of (c ∷ d ∷ cs) = if nat_eq c b'i' && nat_eq d b'd' && is_app_id cs then some cs else none
id_of _ = none

-- What follows `app/`: a name that may be missing, the ID, and a slash that may be.
unfoldable pub after_app : List (List ℕ) → Option (List ℕ)
unfolding id_of same
after_app (x ∷ []) = id_of x
after_app (x ∷ y ∷ []) = if same y [] then id_of x else if same x [] then none else id_of y
after_app (x ∷ y ∷ z ∷ []) = if same z [] && not (same x []) then id_of y else none
after_app _ = none

-- `[a-z]{2}`
abbrev pub is_country : List ℕ → Bool
is_country (c ∷ d ∷ []) = leb b'a' c && leb c b'z' && leb b'a' d && leb d b'z'
is_country _ = false

unfoldable pub app_path : List (List ℕ) → Option (List ℕ)
unfolding after_app same
app_path (r ∷ a ∷ ws) =
    if not (same r [])
    then none
    else if is_text a "app"
    then after_app ws
    else if is_country a
    then elim ws [ [] ↦ none | b ∷ vs ↦ if is_text b "app" then after_app vs else none ]
    else none
app_path _ = none

-- `^/(?:[a-z]{2}/)?app/(?:[^/]+/)?id([1-9][0-9]{0,19})/?$`
unfoldable pub store_id : List ℕ → Option (List ℕ)
unfolding split app_path
store_id p = app_path (split b'/' p)

pub data Source : Type 0 where
  installed app_store another : Source

-- The checks of a target that is no URL.
unfoldable pub check_plain : (List ℕ → List ℕ) → Source → List ℕ → Option (List ℕ)
unfolding is_bundle_id is_app_id has_suffix
check_plain lower another raw = none
check_plain lower installed raw =
    if not (is_bundle_id raw) || has_suffix (lower raw) (codes ".ipa") then none else some raw
check_plain lower app_store raw =
    if not (is_bundle_id raw) && not (is_app_id raw) || has_suffix (lower raw) (codes ".ipa")
    then none
    else some raw

abbrev pub is_store_url : Url → Bool
is_store_url u =
    is_text u.scheme "https"
    && is_text u.host "apps.apple.com"
    && not u.has_user
    && same u.fragment []

-- The App Store ID that a URL names.
unfoldable pub url_id : Option Url → Option (List ℕ)
unfolding same store_id
url_id none = none
url_id (some u) = if is_store_url u then store_id u.path else none

abbrev pub then_check : (List ℕ → Option (List ℕ)) → Option (List ℕ) → Option (List ℕ)
then_check f none = none
then_check f (some raw) = f raw

abbrev pub is_source : Source → Bool
is_source another = false
is_source _ = true

unfoldable pub validate_target :
    (List ℕ → Option Url) → (List ℕ → List ℕ) → List ℕ → Source → Option (List ℕ)
unfolding byte_length is_trimmed has_part url_id check_plain
validate_target parse lower raw source =
    if not (leb (byte_length raw) 512) || not (is_trimmed raw) || not (is_source source)
    then none
    else if has_part raw (codes "://")
    then then_check (check_plain lower source) (url_id (parse raw))
    else check_plain lower source raw
