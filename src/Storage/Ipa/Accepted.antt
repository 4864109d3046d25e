-- ===== src/Storage/Ipa/Accepted.antt =====
-- What an archive is that `ValidateIPA` accepts (internal/storage/storage.go).
use ipa_now.Common.{
  ℕ, ◌+◌, ◌^◌, ◌≤◌, ◌<◌, ◌≡◌, refl, subst, sym, ◌⊎◌, inl, inr, arith, true, false, Option, none,
  some, List, [], ◌∷◌, nat_eq, length, if◌then◌else◌, same, among, split, All, Bool-cases,
}
use ipa_now.Storage.Ipa.{
  Entry, Archive, Seen, key, is_unsafe_name, with_name, app_of, good_meta, inspected, inspect_all,
  has_one_app, validate_ipa,
}
use ipa_now.Storage.Ipa.Passed.{Passed, inspect-Passed}

same_refl : (xs : List ℕ) → same xs xs ≡ true
unfolding same
same_refl [] = refl
same_refl (x ∷ xs) = ground (arith, same_refl xs)

with_name-among : (a : List ℕ) (xs : List (List ℕ)) → among a (with_name a xs) ≡ true
unfolding among
with_name-among a xs = elim (Bool-cases (among a xs)) [
  | inl e ↦ rw (e, if◌then◌else◌) e
  | inr e ↦ rw (e, if◌then◌else◌) (rw (same_refl a) refl)
]

among-with_name :
    (a b : List ℕ) (xs : List (List ℕ)) → among b xs ≡ true → among b (with_name a xs) ≡ true
unfolding among
among-with_name a b xs h = elim (Bool-cases (among a xs)) [
  | inl e ↦ rw (e, if◌then◌else◌) h
  | inr e ↦ rw (e, if◌then◌else◌) (ground (arith, h))
]

-- The sizes of the entries, without any bound
abbrev pub total : Archive → ℕ
total [] = 0
total (e ∷ es) = e.size + total es

-- The metadata of each application is good, and the application is one of `apps`.
abbrev pub AppsIn : List (List ℕ) → Archive → Type 0
AppsIn apps = All λ e.
    (app_of (split b'/' e.name) ≡ none)
    ⊎ ((a : List ℕ) × (app_of (split b'/' e.name) ≡ some a)
        × (good_meta e.meta ≡ true)
        × (among a apps ≡ true))

abbrev pub AreSafe : Archive → Type 0
AreSafe = All λ e. (is_unsafe_name e.name ≡ false) × (e.is_link ≡ false)

module _ (lower : List ℕ → List ℕ) (max : ℕ) where
  -- No entry has the name of an earlier one, whatever the case of its letters, nor one of `keys`.
  abbrev pub Unique : List (List ℕ) → Archive → Type 0
  Unique keys [] = Unit
  Unique keys (e ∷ es) = (among (key lower max e) keys ≡ false) × Unique (key lower max e ∷ keys) es

  record Inspected (s : Seen) (es : Archive) (t : Seen) : Type 0 where
    sizes : t.expanded ≡ s.expanded + total es
    bounded : t.expanded ≤ max
    safe : AreSafe es
    unique : Unique s.keys es
    apps : AppsIn t.apps es
    more : (a : List ℕ) → among a s.apps ≡ true → among a t.apps ≡ true

  some-inspected :
      (o : Option Seen) (k : Seen → Option Seen) (t : Seen)
      → inspected lower max o k ≡ some t
      → (s : Seen) × (o ≡ some s) × (k s ≡ some t)
  some-inspected none k t h = absurd (ground arith)
  some-inspected (some s) k t h = (s, refl, h)

  extend :
      (s : Seen) (e : Entry) (es : Archive) (u t : Seen)
      → Passed lower max s e u
      → Inspected u es t
      → Inspected s (e ∷ es) t
  extend s e es u t p i = record {
    sizes = omega (arith, p.expanded, i.sizes);
    bounded = i.bounded;
    safe = ((p.safe, p.no_link), i.safe);
    unique = (p.fresh, subst (λ k. Unique k es) p.keys i.unique);
    apps = (app p.apps, i.apps);
    more = λ a h. i.more a (kept p.apps a h);
  }
    where
      Step : Type 0
      Step =
          ((app_of (split b'/' e.name) ≡ none) × (u.apps ≡ s.apps))
          ⊎ ((a : List ℕ) × (app_of (split b'/' e.name) ≡ some a)
              × (good_meta e.meta ≡ true)
              × (u.apps ≡ with_name a s.apps))

      kept : Step → (a : List ℕ) → among a s.apps ≡ true → among a u.apps ≡ true
      kept (inl (o, q)) a h = subst (λ xs. among a xs ≡ true) (sym q) h
      kept (inr (b, o, g, q)) a h =
          subst (λ xs. among a xs ≡ true) (sym q) (among-with_name b a s.apps h)

      app :
          Step
          → (app_of (split b'/' e.name) ≡ none)
            ⊎ ((a : List ℕ) × (app_of (split b'/' e.name) ≡ some a)
                × (good_meta e.meta ≡ true)
                × (among a t.apps ≡ true))
      app (inl (o, q)) = inl o
      app (inr (b, o, g, q)) =
          inr
            (b, o, g, i.more b (subst (λ xs. among b xs ≡ true) (sym q) (with_name-among b s.apps)))

  inspect_all-Inspected :
      (s : Seen) (es : Archive) (t : Seen)
      → max < 2 ^ 64
      → s.expanded ≤ max
      → inspect_all lower max s es ≡ some t
      → Inspected s es t
  unfolding inspect_all
  inspect_all-Inspected s [] t m b h =
      let same_seen : s ≡ t = ground arith in
      subst (Inspected s []) same_seen (record {
        sizes = omega arith;
        bounded = b;
        safe = tt;
        unique = tt;
        apps = tt;
        more = λ a h. h;
      })
  inspect_all-Inspected s (e ∷ es) t m b h =
      let (u, one, rest) = some-inspected _ _ t h in
      let p = inspect-Passed lower max s e u m b one in
      extend s e es u t p
        (inspect_all-Inspected u es t m (subst (λ n. n ≤ max) (sym p.expanded) p.fits) rest)

  -- What `ValidateIPA` promises of an archive that it accepts
  pub record Accepted (es : Archive) : Type 0 where
    pub app : List ℕ
    pub few : length es ≤ 100000
    pub bounded : total es ≤ max
    pub safe : AreSafe es
    pub unique : Unique [] es
    pub one_app : AppsIn (app ∷ []) es

  one_of : (xs : List (List ℕ)) → nat_eq (length xs) 1 ≡ true → (a : List ℕ) × (xs ≡ a ∷ [])
  one_of [] h = absurd (ground arith)
  one_of (a ∷ []) h = (a, refl)
  one_of (a ∷ b ∷ xs) h = absurd (ground arith)

  -- An archive that is accepted has at most 100000 entries, which together are no larger than the
  -- limit. No entry has an unsafe name, is a link, or has the name of another. All metadata of
  -- applications is good, and is that of one application.
  pub validate_ipa-Accepted :
      (es : Archive) → max < 2 ^ 64 → validate_ipa lower max (some es) ≡ true → Accepted es
  unfolding validate_ipa
  validate_ipa-Accepted es m h = accepted (inspect_all lower max start es) refl (ground arith)
    where
      start : Seen
      start = record { keys = []; apps = []; expanded = 0 }

      accepted :
          (o : Option Seen)
          → inspect_all lower max start es ≡ o
          → has_one_app lower max o ≡ true
          → Accepted es
      accepted none e q = absurd (ground arith)
      accepted (some t) e q =
          let i = inspect_all-Inspected start es t m (omega arith) e in
          let (a, one) = one_of t.apps q in
          record {
            app = a;
            few = ground arith;
            bounded = omega (arith, i.sizes, i.bounded);
            safe = i.safe;
            unique = i.unique;
            one_app = subst (λ xs. AppsIn xs es) one i.apps;
          }
