-- ===== src/Http/Guard/Passed.antt =====
-- What is known of a request that has passed the checks.
use ipa_now.Common.{
  String, ◌≡◌, refl, arith, ◌⊎◌, inl, inr, true, ◌==◌, Option, none, some, List, [], ◌∷◌, eq_iff,
  Bool-cases,
}
use ipa_now.Http.Message.{Request}
use ipa_now.Http.Guard.{
  Settings, is_listed, is_host_allowed, is_read, expected_origin, is_parsed_as, is_origin_allowed,
  guard,
}

-- The text is one of the list.
abbrev pub OneOf : String → List String → Type 0
OneOf x [] = ⊥
OneOf x (y ∷ ys) = (x ≡ y) ⊎ OneOf x ys

is_listed-OneOf : (x : String) (ys : List String) → is_listed x ys ≡ true → OneOf x ys
unfolding is_listed
is_listed-OneOf x [] h = cc
is_listed-OneOf x (y ∷ ys) h = elim (Bool-cases (x == y)) [
  | inl e ↦ inl ((eq_iff x y).0 e)
  | inr e ↦ inr (is_listed-OneOf x ys (ground arith))
]

module _ (parse : String → Option String) (s : Settings) (r : Request) where
  -- It is for an allowed host; and it only reads, or it has the marker of the user interface and comes from the
  -- expected origin, if it names one.
  pub record Passed : Type 0 where
    pub for_host : (s.allowed_hosts ≡ []) ⊎ OneOf r.host s.allowed_hosts
    pub is_marked : (is_read r.method ≡ true) ⊎ (r.marker ≡ "1")
    pub from_origin :
        (is_read r.method ≡ true)
        ⊎ ((r.origin ≡ "") ⊎ (parse r.origin ≡ some (expected_origin s r)))

  allowed_host : is_host_allowed s r ≡ true → (s.allowed_hosts ≡ []) ⊎ OneOf r.host s.allowed_hosts
  unfolding is_host_allowed
  allowed_host h = by_hosts s.allowed_hosts h
    where
      by_hosts :
          (hs : List String)
          → elim hs [ [] ↦ true | x ∷ xs ↦ is_listed r.host (x ∷ xs) ] ≡ true
          → (hs ≡ []) ⊎ OneOf r.host hs
      by_hosts [] g = inl refl
      by_hosts (x ∷ xs) g = inr (is_listed-OneOf r.host (x ∷ xs) g)

  allowed_origin :
      is_origin_allowed parse s r ≡ true
      → (r.origin ≡ "") ⊎ (parse r.origin ≡ some (expected_origin s r))
  unfolding is_origin_allowed
  allowed_origin h = elim (Bool-cases (r.origin == "")) [
    | inl e ↦ inl ((eq_iff r.origin "").0 e)
    | inr e ↦ inr (parsed (parse r.origin) (ground arith))
  ]
    where
      parsed :
          (o : Option String)
          → is_parsed_as o (expected_origin s r) ≡ true
          → o ≡ some (expected_origin s r)
      parsed none g = cc
      parsed (some u) g =
          let same : u ≡ expected_origin s r = (eq_iff u (expected_origin s r)).0 g in rw same refl

  -- A request that the guard lets pass is for an allowed host; and it only reads, or it has the marker of the user
  -- interface and comes from the expected origin, if it names an origin.
  pub guard-Passed : guard parse s r ≡ none → Passed
  unfolding guard
  guard-Passed h = elim (Bool-cases (is_read r.method)) [
    | inl e ↦ record {
      for_host = allowed_host (ground arith);
      is_marked = inl e;
      from_origin = inl e;
    }
    | inr e ↦ record {
      for_host = allowed_host (ground arith);
      is_marked = inr ((eq_iff r.marker "1").0 (ground arith));
      from_origin = inr (allowed_origin (ground arith));
    }
  ]
