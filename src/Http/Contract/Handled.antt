-- ===== src/Http/Contract/Handled.antt =====
-- The handlers make only the calls that their endpoint allows.
use ipa_now.Common.{
  ℕ, List, ◌≡◌, refl, arith, Bool, true, not, some, none, Option, String, codes, All,
}
use ipa_now.Jobs.Model.{Job}
use ipa_now.Jobs.Calls.{Call, enqueues, cancels, resolves, writes_metadata, exec}
use ipa_now.Jobs.Queue.{enqueued, cancel}
use ipa_now.Jobs.Rows.{get, device}
use ipa_now.Jobs.Listing.{list}
use ipa_now.Jobs.NewId.{new_id}
use ipa_now.Jobs.Trace.{enqueued-Trace}
use ipa_now.Storage.Ids.{valid_id}
use ipa_now.Worker.Finish.{expiry_fields}
use ipa_now.Worker.Traced.{
  Traced, Gives, Gives-any, call-Traced, read-Traced, get-Traced, exec-Traced, resolve_job-Traced,
}
use ipa_now.Worker.World.{call}
use ipa_now.Http.Message.{Content, value, Order}
use ipa_now.Http.Service.{Service}
use ipa_now.Http.Target.{validate_target}
use ipa_now.Http.Web.{store_error}
use ipa_now.Http.Handlers.{
  validated, status, list_jobs, enqueue_order, lookup, get_job, cancel_job, send_code,
  confirm_cleanup, download, open_artifact, is_retained, read_error,
}
use ipa_now.Http.Acts.{
  Acts, bind-Acts, pure-Acts, respond-Acts, or_stop-Acts, on_world-Acts, store-Acts, refuse-Acts,
  decode-Acts, on_files-Acts, on_broker-Acts, ask-Acts, mono-Acts,
}
use ipa_now.Http.Contract.{Ordered}

module _ (P : Call → Type 0) (s : Service)
    (others : (n : ℕ) → All (λ x. P x.1) (s.env.others n)) where
  validated-Acts : (o : Option (List ℕ)) → Acts P (λ t. o ≡ some t) (validated o)
  unfolding validated
  validated-Acts none = respond-Acts P _ _
  validated-Acts (some t) = pure-Acts P _ t refl

  pub enqueued-Traced :
      (j : Job) (limit : ℕ)
      → P (enqueues j limit)
      → Traced P (λ _. Unit) (call s.env (enqueued j limit))
  enqueued-Traced j limit p =
      call-Traced P s.env others (λ _. Unit) (enqueued j limit)
        λ d. (enqueued-Trace P j limit d p, Gives-any _)

  pub status-Acts : Acts P (λ _. Unit) (status s)
  unfolding status device
  status-Acts =
      bind-Acts P (λ _. Unit) (λ _. Unit) _ _
        (store-Acts P _ s.env read_error device (read-Traced P s.env others _ _ λ db. tt))
        λ d _.
          bind-Acts P (λ _. Unit) (λ _. Unit) _ _ (on_broker-Acts P _)
            λ waiting _. respond-Acts P _ _

  pub list_jobs-Acts : Acts P (λ _. Unit) (list_jobs s)
  unfolding list_jobs list
  list_jobs-Acts =
      bind-Acts P (λ _. Unit) (λ _. Unit) _ _
        (store-Acts P _ s.env read_error list (read-Traced P s.env others _ _ λ db. tt))
        λ d _. respond-Acts P _ _

  -- The job has the ID of the request.
  pub lookup-Acts : (id : String) → Acts P (λ j. j.id ≡ id) (lookup s id)
  unfolding lookup
  lookup-Acts id =
      bind-Acts P _ (λ j. j.id ≡ id) _ _ (refuse-Acts P (not (valid_id id)) _ _)
        λ u e. store-Acts P _ s.env store_error (get id) (get-Traced P s.env others id)

  pub get_job-Acts : (id : String) → Acts P (λ _. Unit) (get_job s id)
  unfolding get_job
  get_job-Acts id =
      bind-Acts P (λ j. j.id ≡ id) (λ _. Unit) _ _ (lookup-Acts id) λ j e. respond-Acts P _ _

  open_artifact-Acts : (id : String) → Acts P (λ _. Unit) (open_artifact id)
  unfolding open_artifact
  open_artifact-Acts id =
      bind-Acts P (λ _. Unit) (λ _. Unit) _ _ (on_files-Acts P _)
        λ found _.
          bind-Acts P _ (λ _. Unit) _ _ (refuse-Acts P (not found) _ _)
            λ u _.
              bind-Acts P (λ _. Unit) (λ _. Unit) _ _ (on_files-Acts P _)
                λ opened _. mono-Acts P _ (λ _. Unit) _ (λ u e. tt) (refuse-Acts P (not opened) _ _)

  pub download-Acts : (id : String) → Acts P (λ _. Unit) (download s id)
  unfolding download
  download-Acts id =
      bind-Acts P (λ j. j.id ≡ id) (λ _. Unit) _ _ (lookup-Acts id)
        λ j e.
          bind-Acts P (λ _. Unit) (λ _. Unit) _ _ (ask-Acts P s.env.time)
            λ now _.
              bind-Acts P _ (λ _. Unit) _ _ (refuse-Acts P (not (is_retained j now)) _ _)
                λ u _.
                  bind-Acts P (λ _. Unit) (λ _. Unit) _ _ (open_artifact-Acts j.id)
                    λ u _. respond-Acts P _ _

  pub send_code-Acts : (id : String) (c : Content (List ℕ)) → Acts P (λ _. Unit) (send_code s id c)
  unfolding send_code
  send_code-Acts id c =
      bind-Acts P (λ j. j.id ≡ id) (λ _. Unit) _ _ (lookup-Acts id)
        λ j e.
          bind-Acts P _ (λ _. Unit) _ _ (decode-Acts P c)
            λ code _.
              bind-Acts P (λ _. Unit) (λ _. Unit) _ _ (on_broker-Acts P _)
                λ taken _.
                  bind-Acts P _ (λ _. Unit) _ _ (refuse-Acts P (not taken) _ _)
                    λ u _. respond-Acts P _ _

  pub cancel_job-Acts :
      (id : String) (c : Content Unit)
      → ((i : String) → i ≡ id → P (cancels i))
      → Acts P (λ _. Unit) (cancel_job s id c)
  unfolding cancel_job exec
  cancel_job-Acts id c p =
      bind-Acts P _ (λ _. Unit) _ _ (decode-Acts P c)
        λ u _.
          bind-Acts P (λ j. j.id ≡ id) (λ _. Unit) _ _ (lookup-Acts id)
            λ j e.
              bind-Acts P (λ _. Unit) (λ _. Unit) _ _
                (store-Acts P (λ _. Unit) s.env store_error (cancel j.id)
                  (exec-Traced P s.env others (cancels j.id) (p j.id e)))
                λ u _. respond-Acts P _ _

  pub confirm_cleanup-Acts :
      (id : String) (c : Content Bool)
      → ((i : String) → i ≡ id → c ≡ value true → P (resolves i))
      → ((i : String) (j : Job) → c ≡ value true → P (writes_metadata i (expiry_fields j)))
      → Acts P (λ _. Unit) (confirm_cleanup s id c)
  unfolding confirm_cleanup
  confirm_cleanup-Acts id c p q =
      bind-Acts P (λ j. j.id ≡ id) (λ _. Unit) _ _ (lookup-Acts id)
        λ j e.
          bind-Acts P _ (λ _. Unit) _ _ (decode-Acts P c)
            λ b is_read.
              bind-Acts P _ (λ _. Unit) _ _ (refuse-Acts P (not b) _ _)
                λ u confirmed.
                  let sure : c ≡ value true = ground arith in
                  bind-Acts P (Gives (λ _. Unit)) (λ _. Unit) _ _
                    (on_world-Acts P (λ _. Unit) _
                      (resolve_job-Traced P s.env others (λ i k. q i k sure) j.id (p j.id e sure)))
                    λ r g.
                      bind-Acts P (λ _. Unit) (λ _. Unit) _ _
                        (or_stop-Acts P (λ _. Unit) store_error r g) λ u' _. respond-Acts P _ _

  pub enqueue_order-Acts :
      (c : Content Order)
      → ((j : Job) → Ordered s c j → P (enqueues j s.settings.queue_limit))
      → Acts P (λ _. Unit) (enqueue_order s c)
  unfolding enqueue_order
  enqueue_order-Acts c p =
      bind-Acts P _ (λ _. Unit) _ _ (decode-Acts P c)
        λ o is_read.
          bind-Acts P _ (λ _. Unit) _ _
            (validated-Acts (validate_target s.parse_target s.env.lower (codes o.target) o.source))
            λ t valid.
              bind-Acts P _ (λ _. Unit) _ _ (refuse-Acts P _ _ _)
                λ u available.
                  bind-Acts P (λ _. Unit) (λ _. Unit) _ _ (ask-Acts P s.fresh)
                    λ bytes _.
                      bind-Acts P (λ _. Unit) (λ _. Unit) _ _
                        (store-Acts P (λ _. Unit) s.env store_error _
                          (enqueued-Traced _ _ (
                            p _ (record {
                              order = o;
                              is_read = is_read;
                              id = new_id bytes;
                              target = t;
                              is_valid = valid;
                              is_available = available;
                              is_new = refl;
                            }))))
                        λ j _. respond-Acts P _ _
