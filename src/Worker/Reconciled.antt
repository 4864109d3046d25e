-- ===== src/Worker/Reconciled.antt =====
-- The files that a start leaves (internal/worker/worker.go, `Recover`).
pub mod Steady
pub mod Recovered
use ipa_now.Common.{
  ℕ, suc, String, ◌≡◌, refl, ◌⊎◌, inl, inr, arith, Bool, true, false, not, ◌&&◌, ◌||◌, ◌==◌, eq_iff,
  List, [], ◌∷◌, find, some, none, Option, if◌then◌else◌, subst, sym, ◌∙◌, All, All-mono, All-All,
  Bool-cases,
}
use ipa_now.Jobs.Model.{Job}
use ipa_now.Jobs.Tx.{storage, Result, ok, err, Done}
use ipa_now.Jobs.Rows.{has_id}
use ipa_now.Storage.{
  Files, Kind, work, inputs, artifacts, entries, tick, without, drop_entry, remove,
}
use ipa_now.Storage.Ids.{valid_id}
use ipa_now.Storage.Removal.{remove-All, remove-gone, tick-All, All-without}
use ipa_now.Worker.World.{Env, World, Work, ◌>>=◌, ◌>>◌, pure, fail, file, require}
use ipa_now.Worker.Startup.{read_dir, keeps, keeps_entry, reconcile_entries, reconcile}
use ipa_now.Worker.Ended.Rules.{
  Yields, bind-Yields, if-Yields, file-Yields, require-Yields, mono-Yields, Yields-pure,
}

-- Every entry of a directory belongs to a job that keeps it.
abbrev pub IsReconciled : List Job → Kind → Files → Type 0
IsReconciled jobs kind f = All (λ id. keeps kind (find (has_id id) jobs) ≡ true) (entries kind f)

abbrev pub In : String → List String → Type 0
In id [] = ⊥
In id (x ∷ xs) = (id ≡ x) ⊎ In id xs

pub All-In : (xs : List String) → All (λ x. In x xs) xs
All-In [] = tt
All-In (x ∷ xs) = (inl refl, All-mono _ _ (λ y h. inr h) xs (All-In xs))

module _ (jobs : List Job) (kind : Kind) (F : Files → Type 0)
    (removed : (id : String) (f : Files) → F f → F (remove kind id f).1)
    (ticked : (f : Files) → F f → F (tick f)) where
  abbrev pub Pending : List String → Files → Type 0
  Pending ids f = All (λ x. (keeps kind (find (has_id x) jobs) ≡ true) ⊎ In x ids) (entries kind f)

  keep_pending :
      (id : String) (ids : List String) (f : Files)
      → keeps kind (find (has_id id) jobs) ≡ true
      → Pending (id ∷ ids) f
      → Pending ids f
  keep_pending id ids f k = All-mono _ _ settled (entries kind f)
    where
      settled :
          (x : String)
          → (keeps kind (find (has_id x) jobs) ≡ true) ⊎ In x (id ∷ ids)
          → (keeps kind (find (has_id x) jobs) ≡ true) ⊎ In x ids
      settled x (inl h) = inl h
      settled x (inr (inl e)) = inl (rw e k)
      settled x (inr (inr h)) = inr h

  drop_pending :
      (id : String) (ids : List String) (f : Files)
      → All (λ x. (x == id) ≡ false) (entries kind f)
      → Pending (id ∷ ids) f
      → Pending ids f
  drop_pending id ids f = merge (entries kind f)
    where
      other :
          (x : String)
          → (x == id) ≡ false
          → (keeps kind (find (has_id x) jobs) ≡ true) ⊎ In x (id ∷ ids)
          → (keeps kind (find (has_id x) jobs) ≡ true) ⊎ In x ids
      other x n (inl h) = inl h
      other x n (inr (inl e)) = absurd (ground (arith, eq_iff x id))
      other x n (inr (inr h)) = inr h

      merge :
          (xs : List String)
          → All (λ x. (x == id) ≡ false) xs
          → All (λ x. (keeps kind (find (has_id x) jobs) ≡ true) ⊎ In x (id ∷ ids)) xs
          → All (λ x. (keeps kind (find (has_id x) jobs) ≡ true) ⊎ In x ids) xs
      merge [] n h = tt
      merge (x ∷ xs) (n, ns) (h, hs) = (other x n h, merge xs ns hs)

  pub reconcile_entries-Reconciled :
      (ids : List String) (w : World)
      → Pending ids w.files
      → F w.files
      → Yields (λ _ v. Pending [] v.files × F v.files) (reconcile_entries kind jobs ids w)
  unfolding reconcile_entries Yields fail
  reconcile_entries-Reconciled [] w p g = Yields-pure _ _ w (p, g)
  reconcile_entries-Reconciled (id ∷ ids) w p g =
      if-Yields _ (not (valid_id id)) (fail storage)
        (if keeps kind (find (has_id id) jobs)
          then reconcile_entries kind jobs ids
          else (file (remove kind id) >>= require >> reconcile_entries kind jobs ids))
        w (λ _. fails)
        λ _.
          if-Yields _ (keeps kind (find (has_id id) jobs)) (reconcile_entries kind jobs ids)
            (file (remove kind id) >>= require >> reconcile_entries kind jobs ids) w
            (λ k. reconcile_entries-Reconciled ids w (keep_pending id ids w.files k p) g)
            (λ _.
              bind-Yields _ (λ _ v. Pending ids v.files × F v.files) _ _ w
                (bind-Yields _ _ _ _ w (file-Yields (remove kind id) w)
                  λ b v e. mono-Yields _ _ _ (λ _ u q. dropped b v u e q) (require-Yields b v))
                λ _ v q. reconcile_entries-Reconciled ids v q.0 q.1)
    where
      fails : Yields (λ _ v. Pending [] v.files × F v.files) (fail {A = Done} storage w)
      fails = tt

      dropped :
          (b : Bool) (v u : World)
          → (b ≡ (remove kind id w.files).0)
            × (v.files ≡ (remove kind id w.files).1)
            × (v.disk ≡ w.disk)
            × (v.step ≡ suc w.step)
          → (b ≡ true) × (u ≡ v)
          → Pending ids u.files × F u.files
      dropped b v u (eb, ef, _, _) (t, same) = rw same (
          rw ef (
            drop_pending id ids (remove kind id w.files).1
                (remove-gone kind id w.files (sym eb ∙ t)) (remove-All _ kind kind id w.files p),
            removed id w.files g,
          ))
