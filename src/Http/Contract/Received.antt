-- ===== src/Http/Contract/Received.antt =====
-- The upload makes only the call that its endpoint allows.
use ipa_now.Common.{ℕ, ◌≡◌, refl, arith, Bool, true, false, not, String, ltb, All}
use ipa_now.Jobs.Model.{Job}
use ipa_now.Jobs.Calls.{Call, enqueues}
use ipa_now.Jobs.NewId.{new_id}
use ipa_now.Jobs.Trace.{Trace, over}
use ipa_now.Http.Message.{Sending}
use ipa_now.Http.Service.{Service}
use ipa_now.Http.Web.{Web, Site, Outcome, go, stop, on_files, refuse, store_error}
use ipa_now.Http.Upload.{upload, accept, copy, receive, unless_kept, after_body, try_lock}
use ipa_now.Http.Acts.{
  Acts, Given, bind-Acts, respond-Acts, store-Acts, refuse-Acts, on_files-Acts, ask-Acts, mono-Acts,
}
use ipa_now.Http.Contract.{Uploaded}
use ipa_now.Http.Contract.Handled.{enqueued-Traced}

module _ (P : Call → Type 0) (s : Service)
    (others : (n : ℕ) → All (λ x. P x.1) (s.env.others n)) where
  copy-Acts :
      (x : Sending)
      → Acts P (λ _. (ltb s.settings.max_upload x.size ≡ false) × (x.breaks_off ≡ false)) (copy s x)
  unfolding copy
  copy-Acts x =
      bind-Acts P (λ _. Unit) _ _ _ (on_files-Acts P _)
        λ written _. bind-Acts P _ _ _ _ (refuse-Acts P (not written) _ _) λ _ _.
          bind-Acts P _ _ _ _ (refuse-Acts P (ltb s.settings.max_upload x.size) _ _)
            λ _ fits. mono-Acts P _ _ _ (λ v e. (fits, e)) (refuse-Acts P x.breaks_off _ _)

  receive-Acts :
      (x : Sending)
      → Acts P
          (λ _. (ltb s.settings.max_upload x.size ≡ false) × (x.breaks_off ≡ false))
          (receive s x)
  unfolding receive
  receive-Acts x =
      bind-Acts P _ (λ _. (ltb s.settings.max_upload x.size ≡ false) × (x.breaks_off ≡ false)) _ _
        (copy-Acts x)
        λ u copied.
          bind-Acts P (λ _. Unit) _ _ _ (on_files-Acts P _)
            λ synced _. bind-Acts P _ _ _ _ (refuse-Acts P (not synced) _ _) λ _ _.
              bind-Acts P (λ _. Unit) _ _ _ (on_files-Acts P _)
                λ closed _. mono-Acts P _ _ _ (λ v e. copied) (refuse-Acts P (not closed) _ _)

  accept-Acts :
      (id : String) (x : Sending)
      → x.is_acknowledged ≡ true
      → ((j : Job) → Uploaded s x j → P (enqueues j s.settings.queue_limit))
      → Acts P (λ _. Unit) (accept s id x)
  unfolding accept
  accept-Acts id x acknowledged p =
      bind-Acts P _ (λ _. Unit) _ _ (receive-Acts x)
        λ u received.
          bind-Acts P _ (λ _. Unit) _ _ (refuse-Acts P _ _ _)
            λ u' valid.
              bind-Acts P (λ _. Unit) (λ _. Unit) _ _ (on_files-Acts P _)
                λ synced _.
                  bind-Acts P _ (λ _. Unit) _ _ (refuse-Acts P (not synced) _ _)
                    λ u'' _.
                      store-Acts P (λ _. Unit) s.env store_error _
                        (enqueued-Traced P s others _ _ (
                          p _ (record {
                            id = id;
                            is_acknowledged = acknowledged;
                            fits = received.0;
                            is_complete = received.1;
                            is_valid = ground arith;
                            is_new = refl;
                          })))

  unless_kept-Acts :
      {A : Type 0} (id : String) (m : Web A)
      → Acts P (λ _. Unit) m
      → Acts P (λ _. Unit) (unless_kept id m)
  unfolding Acts unless_kept on_files
  unless_kept-Acts {A} id m f site = let (t, g) = f site in after (m site).0 (m site).1 t
    where
      after :
          (o : Outcome A) (site' : Site)
          → Trace P site.world.disk.db site'.world.disk.db
          → Trace P site.world.disk.db (after_body id o site').world.disk.db × Given (λ _. Unit) o
      after (go a) site' t = (t, tt)
      after (stop r) site' t = (t, tt)

  try_lock-Acts : Acts P (λ _. Unit) try_lock
  unfolding Acts try_lock refuse
  try_lock-Acts site = locked site.is_uploading
    where
      locked :
          (b : Bool)
          → Trace P site.world.disk.db (refuse b 429 "upload_busy" site).1.world.disk.db
            × Given (λ _. Unit) (refuse b 429 "upload_busy" site).0
      locked true = (over _, tt)
      locked false = (over _, tt)

  pub upload-Acts :
      (x : Sending)
      → ((j : Job) → Uploaded s x j → P (enqueues j s.settings.queue_limit))
      → Acts P (λ _. Unit) (upload s x)
  unfolding upload
  upload-Acts x p =
      bind-Acts P (λ _. Unit) (λ _. Unit) _ _ try_lock-Acts
        λ u _.
          bind-Acts P _ (λ _. Unit) _ _ (refuse-Acts P (not x.is_acknowledged) _ _)
            λ u' acknowledged.
              bind-Acts P _ (λ _. Unit) _ _ (refuse-Acts P (not x.is_binary) _ _)
                λ u' _.
                  bind-Acts P (λ _. Unit) (λ _. Unit) _ _ (ask-Acts P s.fresh)
                    λ bytes _.
                      bind-Acts P (λ _. Unit) (λ _. Unit) _ _ (on_files-Acts P _)
                        λ created _.
                          bind-Acts P _ (λ _. Unit) _ _ (refuse-Acts P (not created) _ _)
                            λ u' _.
                              bind-Acts P (λ _. Unit) (λ _. Unit) _ _
                                (unless_kept-Acts _ _
                                  (accept-Acts (new_id bytes) x (ground arith) p))
                                λ j _. respond-Acts P _ _
