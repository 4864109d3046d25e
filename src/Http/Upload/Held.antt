-- ===== src/Http/Upload/Held.antt =====
-- While an upload is received its input stays, whatever fails.
use ipa_now.Common.{
  ℕ, ◌≡◌, refl, ◌∙◌, arith, inl, inr, Bool, true, false, ◌||◌, ◌==◌, List, [], ◌∷◌, String, some,
  find, All, All-mono, Bool-cases, eq_refl, leb, if◌then◌else◌,
}
use ipa_now.Jobs.Model.{queued, Job}
use ipa_now.Jobs.Rows.{has_id}
use ipa_now.Jobs.Tx.{Error, not_found, conflict, queue_full, storage}
use ipa_now.Jobs.Queue.{enqueued}
use ipa_now.Jobs.Admission.{enqueued-Row}
use ipa_now.Storage.{Files, contains, flush}
use ipa_now.Worker.World.{before}
use ipa_now.Http.Message.{Sending, Response}
use ipa_now.Http.Service.{Service}
use ipa_now.Http.Handlers.{new_job}
use ipa_now.Http.Web.{Site, on_files, refuse, store_error}
use ipa_now.Http.Shows.{
  Shows, with_disk, store-Shows, bind-Shows, files-Shows, refuse-Shows, mono-Shows,
}
use ipa_now.Http.Upload.{copy, receive, accept}

-- The inputs, and which calls of the file system fail
abbrev pub Held : (ℕ → Bool) → List String → Site → Type 0
Held flags xs v = (v.world.files.inputs ≡ xs) × (v.world.files.fails ≡ flags)

abbrev pub Failed : (ℕ → Bool) → List String → Response → Site → Type 0
Failed flags xs r v = (leb 400 r.status ≡ true) × Held flags xs v

-- The job of a body that goes on
abbrev pub Kept : (ℕ → Bool) → List String → String → Job → Site → Type 0
Kept flags xs id j v =
    Held flags xs v
    × (j.state ≡ queued)
    × (j.id ≡ id)
    × (find (has_id id) v.world.disk.db.jobs ≡ some j)

pub all_contained : (xs : List String) → All (λ x. contains x xs ≡ true) xs
unfolding contains
all_contained [] = tt
all_contained (x ∷ xs) = (
  rw (eq_refl x) refl,
  All-mono (λ y. contains y xs ≡ true) (λ y. ((x == y) || contains y xs) ≡ true)
      (λ y h. ground arith) xs (all_contained xs),
)

error_status : (e : Error) → leb 400 (store_error e).status ≡ true
unfolding store_error
error_status not_found = refl
error_status conflict = refl
error_status queue_full = refl
error_status storage = refl

flush_same : (f : Files) → ((flush f).1.inputs ≡ f.inputs) × ((flush f).1.fails ≡ f.fails)
unfolding flush
flush_same f = elim (Bool-cases (f.fails f.done)) [
  | inl e ↦ rw (e, if◌then◌else◌) (refl, refl)
  | inr e ↦ rw (e, if◌then◌else◌) (refl, refl)
]

module _ (flags : ℕ → Bool) (xs : List String) where
  flush-Shows :
      (v : Site) → Held flags xs v → Shows (λ _. Held flags xs) (Failed flags xs) (on_files flush v)
  flush-Shows v h =
      files-Shows _ (λ _. Held flags xs) flush v
        (let (same, flags') = flush_same v.world.files in (same ∙ h.0, flags' ∙ h.1))

  pub checked-Shows :
      (b : Bool) (n : ℕ) (c : String) (v : Site)
      → leb 400 n ≡ true
      → Held flags xs v
      → Shows (λ _ u. Held flags xs u × (b ≡ false)) (Failed flags xs) (refuse b n c v)
  checked-Shows b n c v e h = refuse-Shows (Failed flags xs) (Held flags xs) b n c v h (e, h)

module _ (s : Service) (x : Sending) where
  copy-Shows :
      (flags : ℕ → Bool) (xs : List String) (v : Site)
      → Held flags xs v
      → Shows (λ _. Held flags xs) (Failed flags xs) (copy s x v)
  unfolding copy
  copy-Shows flags xs v h =
      bind-Shows _ _ (λ _. Held flags xs) _ _ v (flush-Shows flags xs v h)
        λ written v1 h1.
          bind-Shows _ _ (λ _ u. Held flags xs u × _) _ _ v1
            (checked-Shows flags xs _ 400 _ v1 refl h1)
            λ _ v2 h2.
              bind-Shows _ _ (λ _ u. Held flags xs u × _) _ _ v2
                (checked-Shows flags xs _ 413 _ v2 refl h2.0)
                λ _ v3 h3.
                  mono-Shows (λ _ u. Held flags xs u × _) (λ _. Held flags xs) (Failed flags xs) _
                    (λ z u g. g.0) (checked-Shows flags xs _ 400 _ v3 refl h3.0)

  receive-Shows :
      (flags : ℕ → Bool) (xs : List String) (v : Site)
      → Held flags xs v
      → Shows (λ _. Held flags xs) (Failed flags xs) (receive s x v)
  unfolding receive
  receive-Shows flags xs v h =
      bind-Shows _ _ (λ _. Held flags xs) _ _ v (copy-Shows flags xs v h)
        λ _ v3 h3.
          bind-Shows _ _ (λ _. Held flags xs) _ _ v3 (flush-Shows flags xs v3 h3)
            λ synced v4 h4.
              bind-Shows _ _ (λ _ u. Held flags xs u × _) _ _ v4
                (checked-Shows flags xs _ 500 _ v4 refl h4)
                λ _ v5 h5.
                  bind-Shows _ _ (λ _. Held flags xs) _ _ v5 (flush-Shows flags xs v5 h5.0)
                    λ closed v6 h6.
                      mono-Shows (λ _ u. Held flags xs u × _) (λ _. Held flags xs) (Failed flags xs)
                        _ (λ z u g. g.0) (checked-Shows flags xs _ 500 _ v6 refl h6)

  pub accept-Shows :
      (flags : ℕ → Bool) (xs : List String) (id : String) (v : Site)
      → Held flags xs v
      → Shows (Kept flags xs id) (Failed flags xs) (accept s id x v)
  unfolding accept
  accept-Shows flags xs id v h =
      bind-Shows _ _ (λ _. Held flags xs) _ _ v (receive-Shows flags xs v h)
        λ d v1 h1.
          bind-Shows _ _ (λ _ u. Held flags xs u × _) _ _ v1
            (checked-Shows flags xs _ 400 _ v1 refl h1)
            λ d' v2 h2.
              bind-Shows _ _ (λ _. Held flags xs) _ _ v2 (flush-Shows flags xs v2 h2.0)
                λ synced v3 h3.
                  bind-Shows _ _ (λ _ u. Held flags xs u × _) _ _ v3
                    (checked-Shows flags xs _ 500 _ v3 refl h3)
                    λ d'' v4 h4.
                      store-Shows (Kept flags xs id) (Failed flags xs) s.env store_error _ v4
                        (λ j e. kept v4 j h4.0 (
                          enqueued-Row (new_job id "Uploaded IPA" "upload") j s.settings.queue_limit
                            (before s.env v4.world) e))
                        λ e. (error_status e, h4.0)
    where
      kept :
          (u : Site) (j : Job)
          → Held flags xs u
          → (find
                (has_id id)
                (enqueued
                  (new_job id "Uploaded IPA" "upload")
                  s.settings.queue_limit
                  (before s.env u.world)).1.db.jobs
              ≡ some j)
            × (j.id ≡ id)
            × (j.state ≡ queued)
          → Kept flags xs id j (
              with_disk u
                (enqueued
                  (new_job id "Uploaded IPA" "upload")
                  s.settings.queue_limit
                  (before s.env u.world)).1)
      kept u j held (row, named, state) = (held, state, named, row)
