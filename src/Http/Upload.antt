-- ===== src/Http/Upload.antt =====
-- The upload of an archive (internal/httpapi/server.go).
pub mod Held
pub mod Stored
use ipa_now.Common.{ℕ, ◌*◌, ◌^◌, ◌%◌, String, Bool, true, false, not, ◌||◌, ltb, if◌then◌else◌}
use ipa_now.Jobs.Model.{Job}
use ipa_now.Jobs.NewId.{new_id}
use ipa_now.Jobs.Queue.{enqueued}
use ipa_now.Jobs.Tx.{Done}
use ipa_now.Storage.{inputs, create_input, flush, remove}
use ipa_now.Storage.Ipa.{validate_ipa}
use ipa_now.Http.Message.{Sending, a_job, Response}
use ipa_now.Http.Service.{Service}
use ipa_now.Http.Handlers.{new_job, answer}
use ipa_now.Http.Web.{
  Web, Site, Outcome, go, stop, ◌>>=◌, ◌>>◌, respond, on_files, ask, refuse, store_error,
  store_call,
}

-- Whether `keep` is set: a body that goes on has stored its job.
abbrev pub after_body : {A : Type 0} → String → Outcome A → Site → Site
after_body id (go _) site = site
after_body id (stop _) site = (on_files (remove inputs id) site).1

-- The deferred removal of an input that is not kept, whether it succeeds or not
unfoldable pub unless_kept : {A : Type 0} → String → Web A → Web A
unfolding on_files remove
unless_kept id m site = let (o, site') = m site in (o, after_body id o site')

-- `uploadMu.TryLock`
unfoldable pub try_lock : Web Done
unfolding refuse
try_lock site = refuse site.is_uploading 429 "upload_busy" site

module _ (s : Service) where
  -- `io.Copy` of at most `MaxUpload` bytes: a write fails before the limit is reached.
  unfoldable pub copy : Sending → Web Done
  unfolding flush
  copy x = do
    written ← on_files flush
    refuse (not written) 400 "upload_failed"
    refuse (ltb s.settings.max_upload x.size) 413 "upload_too_large"
    refuse x.breaks_off 400 "upload_failed"

  -- `io.Copy`, `Sync` and `Close`
  unfoldable pub receive : Sending → Web Done
  unfolding flush
  receive x = do
    copy x
    synced ← on_files flush
    refuse (not synced) 500 "storage_error"
    closed ← on_files flush
    refuse (not closed) 500 "storage_error"

  unfoldable pub accept : String → Sending → Web Job
  accept id x = do
    receive x
    refuse (not (validate_ipa s.env.lower (s.settings.max_upload * 4 % 2 ^ 64) x.archive)) 400
        "invalid_archive"
    synced ← on_files flush
    refuse (not synced) 500 "storage_error"
    store_call s.env store_error
        (enqueued (new_job id "Uploaded IPA" "upload") s.settings.queue_limit)

  unfoldable pub upload : Sending → Web Done
  unfolding create_input
  upload x = do
    try_lock
    refuse (not x.is_acknowledged) 400 "acknowledgement_required"
    refuse (not x.is_binary) 415 "invalid_type"
    bytes ← ask s.fresh
    created ← on_files (create_input (new_id bytes))
    refuse (not created) 500 "storage_error"
    j ← unless_kept (new_id bytes) (accept (new_id bytes) x)
    respond (answer 202 (a_job j))
