-- ===== src/Http/Target/Accepted.antt =====
-- What a target is that the web interface accepts (internal/httpapi/validation.go).
use ipa_now.Common.{
  ℕ, ◌≤◌, ◌≡◌, refl, sym, subst, ap, ◌∙◌, ◌⊎◌, inl, inr, arith, true, false, not, ◌||◌, Option,
  none, some, List, leb, leb→le, if◌then◌else◌, codes, has_part, has_suffix, is_bundle_id,
  Bool-cases,
}
use ipa_now.Http.Target.{
  Url, Source, installed, app_store, another, is_trimmed, byte_length, is_app_id, store_id,
  is_store_url, url_id, then_check, check_plain, is_source, validate_target,
}

module _ (parse : List ℕ → Option Url) (lower : List ℕ → List ℕ) where
  -- What the accepted target `t` is: what was typed, or the ID that an App Store URL names.
  abbrev pub ComesFrom : List ℕ → List ℕ → Type 0
  ComesFrom raw t =
      (t ≡ raw)
      ⊎ ((u : Url) × (parse raw ≡ some u) × (is_store_url u ≡ true) × (store_id u.path ≡ some t))

  pub record Accepted (raw : List ℕ) (source : Source) (t : List ℕ) : Type 0 where
    pub short : byte_length raw ≤ 512
    pub trimmed : is_trimmed raw ≡ true
    pub origin : ComesFrom raw t
    pub shape : (is_bundle_id t ≡ true) ⊎ ((source ≡ app_store) × (is_app_id t ≡ true))
    pub no_file : has_suffix (lower t) (codes ".ipa") ≡ false

  checked :
      (source : Source) (raw t : List ℕ)
      → check_plain lower source raw ≡ some t
      → (t ≡ raw)
        × ((is_bundle_id t ≡ true) ⊎ ((source ≡ app_store) × (is_app_id t ≡ true)))
        × (has_suffix (lower t) (codes ".ipa") ≡ false)
  unfolding check_plain
  checked another raw t h = absurd (ground arith)
  checked installed raw t h =
      let same : raw ≡ t = ground arith in
      (
        sym same,
        inl (subst (λ x. is_bundle_id x ≡ true) same (ground arith)),
        subst (λ x. has_suffix (lower x) (codes ".ipa") ≡ false) same (ground arith),
      )
  checked app_store raw t h =
      let same : raw ≡ t = ground arith in
      (
        sym same,
        subst (λ x. (is_bundle_id x ≡ true) ⊎ ((app_store ≡ app_store) × (is_app_id x ≡ true))) same
            (ground arith),
        subst (λ x. has_suffix (lower x) (codes ".ipa") ≡ false) same (ground arith),
      )

  url_named :
      (o : Option Url) (t : List ℕ)
      → url_id o ≡ some t
      → (u : Url) × (o ≡ some u) × (is_store_url u ≡ true) × (store_id u.path ≡ some t)
  unfolding url_id
  url_named none t h = absurd (ground arith)
  url_named (some u) t h = (u, refl, ground arith, ground arith)

  then_checked :
      (source : Source) (o : Option (List ℕ)) (t : List ℕ)
      → then_check (check_plain lower source) o ≡ some t
      → (raw : List ℕ) × (o ≡ some raw) × (check_plain lower source raw ≡ some t)
  then_checked source none t h = absurd (ground arith)
  then_checked source (some raw) t h = (raw, refl, h)

  -- A target that is accepted is short and without spaces around it. It is what was typed, or the ID
  -- that an App Store URL names. It is a bundle ID or, for the App Store only, an App Store ID, and no
  -- file name of an IPA.
  pub validate_target-Accepted :
      (raw : List ℕ) (source : Source) (t : List ℕ)
      → validate_target parse lower raw source ≡ some t
      → Accepted raw source t
  unfolding validate_target
  validate_target-Accepted raw source t h =
      elim (Bool-cases
        (not (leb (byte_length raw) 512) || not (is_trimmed raw) || not (is_source source))) [
          | inl x ↦ absurd (refused x)
          | inr x ↦ elim (Bool-cases (has_part raw (codes "://"))) [
            | inl p ↦
                let (id, from, check) =
                  then_checked source (url_id (parse raw)) t (rw (x, p, if◌then◌else◌) at h) in
                let (same, shape, no_file) = checked source id t check in
                let (u, parsed, store, named) = url_named (parse raw) id from in
                accepted x (inr (u, parsed, store, named ∙ ap some (sym same))) shape no_file
            | inr p ↦
                let (same, shape, no_file) = checked source raw t (rw (x, p, if◌then◌else◌) at h) in
                accepted x (inl same) shape no_file
          ]
        ]
    where
      refused :
          (not (leb (byte_length raw) 512) || not (is_trimmed raw) || not (is_source source)) ≡ true
          → ⊥
      refused x = ground arith

      accepted :
          (not (leb (byte_length raw) 512) || not (is_trimmed raw) || not (is_source source))
            ≡ false
          → ComesFrom raw t
          → (is_bundle_id t ≡ true) ⊎ ((source ≡ app_store) × (is_app_id t ≡ true))
          → has_suffix (lower t) (codes ".ipa") ≡ false
          → Accepted raw source t
      accepted x o s f = record {
        short = leb→le (byte_length raw) 512 (ground arith);
        trimmed = ground arith;
        origin = o;
        shape = s;
        no_file = f;
      }
