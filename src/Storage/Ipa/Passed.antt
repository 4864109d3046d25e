-- ===== src/Storage/Ipa/Passed.antt =====
-- What the loop of `ValidateIPA` has checked of one entry (internal/storage/storage.go).
use ipa_now.Common.{
  ℕ, ◌+◌, ◌-◌, ◌^◌, ◌%◌, ◌≤◌, ◌<◌, ◌≡◌, sym, ap, ◌∙◌, ◌⊎◌, inl, inr, arith, true, false, not, ◌||◌,
  none, some, List, ◌∷◌, ltb, if◌then◌else◌, among, split, Bool-cases, Option-cases,
}
use ipa_now.Storage.Ipa.{
  Entry, Seen, key, is_unsafe, is_unsafe_name, is_too_large, noted, with_app, with_name, app_of,
  good_meta, inspect,
}

sub64 : (m e : ℕ) → e ≤ m → m < 2 ^ 64 → (m + (2 ^ 64 - e)) % 2 ^ 64 ≡ m - e
sub64 m e h g = omega arith

module _ (lower : List ℕ → List ℕ) (max : ℕ) where
  -- One entry that is accepted
  pub record Passed (s : Seen) (e : Entry) (t : Seen) : Type 0 where
    pub safe : is_unsafe_name e.name ≡ false
    pub fresh : among (key lower max e) s.keys ≡ false
    pub no_link : e.is_link ≡ false
    pub fits : s.expanded + e.size ≤ max
    pub expanded : t.expanded ≡ s.expanded + e.size
    pub keys : t.keys ≡ key lower max e ∷ s.keys
    pub apps :
        ((app_of (split b'/' e.name) ≡ none) × (t.apps ≡ s.apps))
        ⊎ ((a : List ℕ) × (app_of (split b'/' e.name) ≡ some a)
            × (good_meta e.meta ≡ true)
            × (t.apps ≡ with_name a s.apps))

  fits_in :
      (s : Seen) (e : Entry)
      → max < 2 ^ 64
      → s.expanded ≤ max
      → is_too_large lower max s e ≡ false
      → s.expanded + e.size ≤ max
  fits_in s e m b x = ground (arith, sub64 max s.expanded b m)

  no_wrap :
      (s : Seen) (e : Entry)
      → max < 2 ^ 64
      → s.expanded + e.size ≤ max
      → (s.expanded + e.size) % 2 ^ 64 ≡ s.expanded + e.size
  no_wrap s e m b = omega arith

  pub inspect-Passed :
      (s : Seen) (e : Entry) (t : Seen)
      → max < 2 ^ 64
      → s.expanded ≤ max
      → inspect lower max s e ≡ some t
      → Passed s e t
  unfolding inspect
  inspect-Passed s e t m b h = elim (Bool-cases (is_unsafe lower max s e)) [
    | inl x ↦ absurd (unsafe x)
    | inr u ↦ elim (Bool-cases (is_too_large lower max s e)) [
      | inl x ↦ absurd (large x)
      | inr l ↦ elim (Option-cases (app_of (split b'/' e.name))) [
        | inl o ↦ plain u l o (rw (u, l, o, if◌then◌else◌) at h)
        | inr (a, o) ↦ app u l a o (rw (u, l, o, if◌then◌else◌) at h)
      ]
    ]
  ]
    where
      unsafe : is_unsafe lower max s e ≡ true → ⊥
      unsafe x = ground arith

      large : is_too_large lower max s e ≡ true → ⊥
      large x = ground arith

      passed :
          is_unsafe lower max s e ≡ false
          → is_too_large lower max s e ≡ false
          → t.keys ≡ key lower max e ∷ s.keys
          → t.expanded ≡ (s.expanded + e.size) % 2 ^ 64
          → ((app_of (split b'/' e.name) ≡ none) × (t.apps ≡ s.apps))
            ⊎ ((a : List ℕ) × (app_of (split b'/' e.name) ≡ some a)
                × (good_meta e.meta ≡ true)
                × (t.apps ≡ with_name a s.apps))
          → Passed s e t
      passed u l k x a =
          let f : s.expanded + e.size ≤ max = fits_in s e m b l in
          record {
            safe = ground arith;
            fresh = ground arith;
            no_link = ground arith;
            fits = f;
            expanded = x ∙ no_wrap s e m f;
            keys = k;
            apps = a;
          }

      plain :
          is_unsafe lower max s e ≡ false
          → is_too_large lower max s e ≡ false
          → app_of (split b'/' e.name) ≡ none
          → some (noted lower max s e) ≡ some t
          → Passed s e t
      plain u l o g =
          let same_seen : noted lower max s e ≡ t = ground arith in
          passed u l (sym (ap (λ r. r.keys) same_seen)) (sym (ap (λ r. r.expanded) same_seen))
            (inl (o, sym (ap (λ r. r.apps) same_seen)))

      app :
          is_unsafe lower max s e ≡ false
          → is_too_large lower max s e ≡ false
          → (a : List ℕ) → app_of (split b'/' e.name) ≡ some a
          → with_app lower max e (noted lower max s e) (some a) ≡ some t
          → Passed s e t
      app u l a o g = elim (Bool-cases (ltb (2 ^ 20) e.size || not (good_meta e.meta))) [
        | inl x ↦ absurd (bad x)
        | inr x ↦
            let same_seen : record (noted lower max s e) { apps = with_name a s.apps } ≡ t =
              ground arith in
            passed u l (sym (ap (λ r. r.keys) same_seen)) (sym (ap (λ r. r.expanded) same_seen))
              (inr (a, o, good x, sym (ap (λ r. r.apps) same_seen)))
      ]
        where
          bad : (ltb (2 ^ 20) e.size || not (good_meta e.meta)) ≡ true → ⊥
          bad x = ground arith

          good : (ltb (2 ^ 20) e.size || not (good_meta e.meta)) ≡ false → good_meta e.meta ≡ true
          good x = ground arith
