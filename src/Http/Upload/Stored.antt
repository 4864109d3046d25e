-- ===== src/Http/Upload/Stored.antt =====
-- What an upload leaves behind: a job with its input, or neither of them.
use ipa_now.Common.{
  ℕ, ◌≡◌, refl, ◌∙◌, sym, subst, ap, arith, inl, inr, ◌⊎◌, Bool, true, false, not, List, ◌∷◌,
  String, some, find, Option, none, All, Bool-cases, eq_refl, leb, length, if◌then◌else◌,
}
use ipa_now.Jobs.Model.{queued, Job}
use ipa_now.Jobs.Rows.{has_id}
use ipa_now.Jobs.Tx.{Done}
use ipa_now.Jobs.NewId.{new_id, new_id-valid}
use ipa_now.Storage.{Files, inputs, contains, without, create_input, remove}
use ipa_now.Storage.Ids.{valid_id}
use ipa_now.Storage.Removal.{All-without}
use ipa_now.Http.Message.{Sending, Request, Response, a_job, refusal}
use ipa_now.Http.Guard.{guard}
use ipa_now.Http.Server.{endpoint, posts_upload, serve_endpoint, guarded, response, handle}
use ipa_now.Http.Service.{Service}
use ipa_now.Http.Handlers.{answer}
use ipa_now.Http.Web.{Site, Outcome, go, stop, Web, on_files, refuse, respond}
use ipa_now.Http.Shows.{
  Shows, pure-Shows, respond-Shows, ask-Shows, bind-Shows, files-Shows, refuse-Shows,
}
use ipa_now.Http.Upload.{after_body, unless_kept, try_lock, upload}
use ipa_now.Http.Upload.Held.{Held, Failed, Kept, all_contained, accept-Shows}

-- What an upload leaves: it answers with 202 and a job, which is in the table and has its input; or it answers
-- with an error and leaves no input that was not there; or the input could not be removed.
pub data Uploading (b : Site) (r : Response) (v : Site) : Type 0 where
  accepted :
      (j : Job)
      → r ≡ answer 202 (a_job j)
      → j.state ≡ queued
      → find (has_id j.id) v.world.disk.db.jobs ≡ some j
      → contains j.id v.world.files.inputs ≡ true
      → Uploading b r v
  refused :
      leb 400 r.status ≡ true
      → All (λ x. contains x b.world.files.inputs ≡ true) v.world.files.inputs
      → Uploading b r v
  left : leb 400 r.status ≡ true → (n : ℕ) → b.world.files.fails n ≡ true → Uploading b r v

removed :
    (id : String) (old : List String) (flags : ℕ → Bool) (f : Files)
    → valid_id id ≡ true
    → f.inputs ≡ id ∷ old
    → f.fails ≡ flags
    → All (λ x. contains x old ≡ true) (remove inputs id f).1.inputs ⊎ ((n : ℕ) × (flags n ≡ true))
unfolding remove without
removed id old flags f valid same flags' = elim (Bool-cases (f.fails f.done)) [
  | inl e ↦ inr (f.done, ap (λ g. g f.done) (sym flags') ∙ e)
  | inr e ↦
      rw (valid, not, if◌then◌else◌)
        (rw (e, if◌then◌else◌)
          (inl (
            rw same (
              rw (eq_refl id, if◌then◌else◌)
                (All-without (λ x. contains x old ≡ true) id old (all_contained old))))))
]

module _ (b : Site) where
  outcome :
      (id : String) (r : Response) (v : Site)
      → valid_id id ≡ true
      → Failed b.world.files.fails (id ∷ b.world.files.inputs) r v
      → Uploading b r (on_files (remove inputs id) v).1
  unfolding on_files
  outcome id r v valid (e, (same, flags)) =
      elim (removed id b.world.files.inputs b.world.files.fails v.world.files valid same flags) [
        | inl h ↦ refused e h
        | inr (n, h) ↦ left e n h
      ]

  unless_kept-Shows :
      (id : String) (m : Web Job) (v : Site)
      → valid_id id ≡ true
      → Shows
          (Kept b.world.files.fails (id ∷ b.world.files.inputs) id)
          (Failed b.world.files.fails (id ∷ b.world.files.inputs))
          (m v)
      → Shows
          (Kept b.world.files.fails (id ∷ b.world.files.inputs) id)
          (Uploading b)
          (unless_kept id m v)
  unfolding Shows unless_kept
  unless_kept-Shows id m v valid h = ended (m v) h
    where
      ended :
          (r : Outcome Job × Site)
          → Shows
              (Kept b.world.files.fails (id ∷ b.world.files.inputs) id)
              (Failed b.world.files.fails (id ∷ b.world.files.inputs))
              r
          → Shows
              (Kept b.world.files.fails (id ∷ b.world.files.inputs) id)
              (Uploading b)
              (r.0, after_body id r.0 r.1)
      ended (go j, u) g = g
      ended (stop r, u) g = outcome id r u valid g

  -- Until the input is created nothing has changed.
  refused_early :
      (r : Response) (v : Site)
      → Failed b.world.files.fails b.world.files.inputs r v
      → Uploading b r v
  refused_early r v (e, (same, _)) = refused e (rw same (all_contained b.world.files.inputs))

  checked_early :
      (test : Bool) (n : ℕ) (c : String) (v : Site)
      → leb 400 n ≡ true
      → Held b.world.files.fails b.world.files.inputs v
      → Shows
          (λ _ u. Held b.world.files.fails b.world.files.inputs u × (test ≡ false))
          (Uploading b)
          (refuse test n c v)
  checked_early test n c v e h =
      refuse-Shows (Uploading b) (Held b.world.files.fails b.world.files.inputs) test n c v h
        (refused_early (refusal n c) v (e, h))

  -- What `create_input` leaves
  abbrev Created : String → Bool → Site → Type 0
  Created id true v = Held b.world.files.fails (id ∷ b.world.files.inputs) v
  Created id false v = Held b.world.files.fails b.world.files.inputs v

  create-Shows :
      (id : String) (v : Site)
      → Held b.world.files.fails b.world.files.inputs v
      → Shows (Created id) (Uploading b) (on_files (create_input id) v)
  unfolding create_input
  create-Shows id v (same, flags) =
      files-Shows (Uploading b) (Created id) (create_input id) v
        (elim (Bool-cases (contains id v.world.files.inputs)) [
          | inl e ↦ rw (e, if◌then◌else◌) (same, flags)
          | inr e ↦ elim (Bool-cases (v.world.files.fails v.world.files.done)) [
            | inl g ↦ rw (e, if◌then◌else◌) (rw (g, if◌then◌else◌) (same, flags))
            | inr g ↦ rw (e, if◌then◌else◌) (rw (g, if◌then◌else◌) (ap (λ xs. id ∷ xs) same, flags))
          ]
        ])

  made :
      (created : Bool) (id : String) (v : Site)
      → Created id created v
      → Shows
          (λ _. Held b.world.files.fails (id ∷ b.world.files.inputs))
          (Uploading b)
          (refuse (not created) 500 "storage_error" v)
  unfolding refuse
  made true id v h =
      pure-Shows (λ _. Held b.world.files.fails (id ∷ b.world.files.inputs)) (Uploading b) tt v h
  made false id v h =
      respond-Shows _ (Uploading b) (refusal 500 "storage_error") v (refused_early _ v (refl, h))

module _ (s : Service) (random : (n : ℕ) → length (s.fresh n) ≡ 16) where
  upload-Shows : (x : Sending) (b : Site) → Shows (λ _ _. ⊥) (Uploading b) (upload s x b)
  unfolding upload try_lock contains
  upload-Shows x b =
      bind-Shows _ _ (λ _ u. Held flags old u × _) _ _ b
        (checked_early b b.is_uploading 429 _ b refl (refl, refl))
        λ d v1 h1.
          bind-Shows _ _ (λ _ u. Held flags old u × _) _ _ v1 (checked_early b _ 400 _ v1 refl h1.0)
            λ d v2 h2.
              bind-Shows _ _ (λ _ u. Held flags old u × _) _ _ v2
                (checked_early b _ 415 _ v2 refl h2.0)
                λ d v3 h3.
                  bind-Shows _ _ (λ bytes u. Held flags old u × (valid_id (new_id bytes) ≡ true)) _
                    _ v3 (ask-Shows _ (Uploading b) s.fresh v3 (h3.0, new_id-valid _ (random _)))
                    λ bytes v4 h4.
                      bind-Shows _ _ (Created b (new_id bytes)) _ _ v4
                        (create-Shows b (new_id bytes) v4 h4.0)
                        λ created v5 h5.
                          bind-Shows _ _ (λ _. Held flags (new_id bytes ∷ old)) _ _ v5
                            (made b created (new_id bytes) v5 h5)
                            λ d v6 h6.
                              bind-Shows _ _ (Kept flags (new_id bytes ∷ old) (new_id bytes)) _ _ v6
                                (unless_kept-Shows b (new_id bytes) _ v6 h4.1 (
                                  accept-Shows s x flags (new_id bytes ∷ old) (new_id bytes) v6 h6))
                                λ j v7 h7.
                                  respond-Shows _ (Uploading b) (answer 202 (a_job j)) v7
                                    (stored j (new_id bytes) v7 h7)
    where
      flags : ℕ → Bool
      flags = b.world.files.fails

      old : List String
      old = b.world.files.inputs

      stored :
          (j : Job) (id : String) (v : Site)
          → Kept b.world.files.fails (id ∷ b.world.files.inputs) id j v
          → Uploading b (answer 202 (a_job j)) v
      stored j id v (held, state, named, row) =
          accepted j refl state
            (subst (λ i. find (has_id i) v.world.disk.db.jobs ≡ some j) (sym named) row)
            (rw (named, held.0) (rw (eq_refl id) refl))

  guard-status :
      (r : Request) (x : Response)
      → guard s.parse_origin s.settings r ≡ some x
      → leb 400 x.status ≡ true
  unfolding guard
  guard-status r x e = ground arith

  -- A request to the endpoint of the uploads ends in one of three ways: with 202 and a job, which is then queued in
  -- the table and has its input; with an error, and no input that was not there before; or with an error, when a
  -- call of the file system fails.
  pub handle-Uploading :
      (r : Request) (b : Site)
      → endpoint r.method r.path ≡ posts_upload
      → Uploading b (handle s r b).0 (handle s r b).1
  unfolding handle Shows serve_endpoint respond
  handle-Uploading r b e = through (guard s.parse_origin s.settings r) refl
    where
      answered :
          (o : Outcome Done × Site)
          → Shows (λ _ _. ⊥) (Uploading b) o
          → Uploading b (response o.0) o.1
      answered (go d, v) h = absurd h
      answered (stop x, v) h = h

      through :
          (o : Option Response)
          → guard s.parse_origin s.settings r ≡ o
          → Uploading b
              (response (guarded o (serve_endpoint s r (endpoint r.method r.path)) b).0)
              (guarded o (serve_endpoint s r (endpoint r.method r.path)) b).1
      through none g =
          rw e (answered (upload s r.payload.sending b) (upload-Shows r.payload.sending b))
      through (some x) g = refused (guard-status r x g) (all_contained b.world.files.inputs)
