-- ===== src/Logging/Allowed.antt =====
-- The fields of a diagnostic come from the allowlist alone.
use ipa_now.Common.{
  ℕ, ◌≡◌, refl, ap, sym, subst, ◌∙◌, Bool, true, false, List, [], ◌∷◌, map, joined, All,
  if◌then◌else◌,
}
use ipa_now.Common.Sorting.{sorted, sorted-All}
use ipa_now.Logging.{
  Entries, look_up, is_some, has_key, precedes, present, pair, detail, fields, cut, unbroken,
}
use ipa_now.Logging.Redact.{redact, replace_all}

-- The two maps have the same value at a key, or none.
abbrev pub Agree : Entries → Entries → List ℕ → Type 0
Agree fs gs k = look_up fs k ≡ look_up gs k

text : Entries → List (List ℕ) → List ℕ
text fs ks = detail (joined b' ' (map (pair fs) (sorted precedes ks)))

present-Agree :
    (fs gs : Entries) (allow : List (List ℕ))
    → All (Agree fs gs) allow
    → (present fs allow ≡ present gs allow) × All (Agree fs gs) (present fs allow)
unfolding present
present-Agree fs gs [] h = (refl, tt)
present-Agree fs gs (k ∷ ks) (h, hs) =
    subst
      (λ c.
        ((if has_key fs k then k ∷ present fs ks else present fs ks)
          ≡ (if c then k ∷ present gs ks else present gs ks))
        × All (Agree fs gs) (if has_key fs k then k ∷ present fs ks else present fs ks))
      (ap is_some h) (both (has_key fs k) (present-Agree fs gs ks hs))
  where
    both :
        (b : Bool)
        → (present fs ks ≡ present gs ks) × All (Agree fs gs) (present fs ks)
        → ((if b then k ∷ present fs ks else present fs ks)
            ≡ (if b then k ∷ present gs ks else present gs ks))
          × All (Agree fs gs) (if b then k ∷ present fs ks else present fs ks)
    both true (e, g) = (ap (λ ks'. k ∷ ks') e, (h, g))
    both false (e, g) = (e, g)

map-pair :
    (fs gs : Entries) (ks : List (List ℕ))
    → All (Agree fs gs) ks
    → map (pair fs) ks ≡ map (pair gs) ks
map-pair fs gs [] h = refl
map-pair fs gs (k ∷ ks) (h, hs) = rw (h, map-pair fs gs ks hs) refl

present-empty : (allow : List (List ℕ)) → present [] allow ≡ []
unfolding present look_up
present-empty [] = refl
present-empty (k ∷ ks) = present-empty ks

-- Nothing to say is said as nothing.
fields-text : (fs : Entries) (allow : List (List ℕ)) → fields fs allow ≡ text fs (present fs allow)
unfolding fields text detail present joined sorted redact replace_all unbroken cut
fields-text [] allow = rw (present-empty allow) refl
fields-text (f ∷ fs) [] = refl
fields-text (f ∷ fs) (k ∷ ks) = refl

-- `Fields` says the same of two maps that agree on the keys of its allowlist, whatever else they hold.
pub fields-Allowed :
    (fs gs : Entries) (allow : List (List ℕ))
    → All (Agree fs gs) allow
    → fields fs allow ≡ fields gs allow
unfolding text
fields-Allowed fs gs allow h =
    let (e, g) = present-Agree fs gs allow h in
    fields-text fs allow
    ∙ ap (λ ws. detail (joined b' ' ws))
        (map-pair fs gs (sorted precedes (present fs allow))
          (sorted-All precedes (Agree fs gs) (present fs allow) g))
    ∙ ap (text gs) e
    ∙ sym (fields-text gs allow)
