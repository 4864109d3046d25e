-- ===== src/Worker/Ended/Conclusion.antt =====
-- How the run of a job ends (internal/worker/worker.go, `finish` and `Run`).
use ipa_now.Common.{
  String, ◌≡◌, refl, inl, inr, arith, Bool, true, false, not, ◌==◌, List, find, some, if◌then◌else◌,
  sym, find-sat, find-update_row,
}
use ipa_now.Jobs.Model.{State, Job, Db, terminal, can_transition}
use ipa_now.Jobs.Tx.{Disk}
use ipa_now.Jobs.Rules.{
  Leaves, read_then, refuse_then, update_then, update_last, device_last, transaction-Holds,
}
use ipa_now.Jobs.Rows.{has_id, awaits_review, first_job, get, Field, set_fields}
use ipa_now.Jobs.Queue.{change}
use ipa_now.Jobs.Cleanup.{quarantine, begin_cleanup}
use ipa_now.Jobs.Cancellation.{Row, Begun, updated-Row, begin_cleanup-Holds}
use ipa_now.Jobs.Evolve.Rows.{Distinct}
use ipa_now.Jobs.Evolve.QueueCalls.{found-find, set_fields_id}
use ipa_now.Jobs.Evolve.CleanupCalls.{begin_cleanup-Keeps}
use ipa_now.Worker.World.{Env, World, before, call}
use ipa_now.Worker.Finish.{server_reason, device_reason, settle, conclude, finish}
use ipa_now.Worker.Alive.{Alive}
use ipa_now.Worker.Alive.Parts.{
  get-Keeps, expire-Alive, clear_files-Alive, drop_artifact-Alive, review_device-Alive,
}
use ipa_now.Worker.Alive.{call-Alive}
use ipa_now.Worker.Ended.{is_ended}
use ipa_now.Worker.Ended.Rules.{
  Yields, both-Yields, mono-Yields, bind-Yields, any-Yields, call-Yields, if-Yields,
}
use ipa_now.Worker.Ended.Closing.{IsClosing, Closing, before-Closing, Alive-then}

-- The row of the job is ended.
abbrev pub Over : String → Db → Type 0
Over id = Row id (λ k. is_ended k ≡ true)

quarantined_over :
    (k : Job) (reason : String)
    → (reason == "") ≡ false
    → k.cleanup_error ≡ reason
    → IsClosing k
    → is_ended k ≡ true
unfolding terminal awaits_review
quarantined_over k reason r e (inl s) = ground arith
quarantined_over k reason r e (inr t) = ground arith

quarantine-Over :
    (id reason : String) (desired : State) (d : Disk)
    → (reason == "") ≡ false
    → Closing id d.db
    → Leaves (Over id) (quarantine id reason desired d)
unfolding quarantine
quarantine-Over id reason desired d r c =
    let (k, there, closing) = c.row in
    transaction-Holds _ _ d (
      update_then _ _ _ _ _ (
        device_last _ _ _ (
          _,
          find-update_row (has_id id) _ d.db.jobs k there (find-sat (has_id id) d.db.jobs k there),
          quarantined_over _ reason r refl closing,
        )))

ended_change :
    (k : Job) (to : State) → IsClosing k → can_transition k.state to ≡ true → terminal to ≡ true
unfolding terminal can_transition
ended_change k to (inl s) h = ground arith
ended_change k to (inr t) h = ground arith

change-Over :
    (id : String) (to : State) (fields : List Field) (d : Disk)
    → Closing id d.db
    → Leaves (Over id) (change id to fields d)
unfolding change first_job
change-Over id to fields d c =
    let (k, there, closing) = c.row in
    transaction-Holds _ _ d (
      read_then _ _ _ _ λ j e. refuse_then _ _ _ _ _ λ live. update_last _ _ _ _ (
        updated-Row id d.db j (λ x. record (set_fields fields x) { state = to }) d.now _ e
          (sym (set_fields_id fields j))
          (over j (ended_change k to closing (ground (arith, found-find _ j e))))))
  where
    over :
        (j : Job)
        → terminal to ≡ true
        → is_ended (record (set_fields fields j) { state = to; updated_at = d.now }) ≡ true
    over j t = ground arith

settle-Over :
    (env : Env) (id : String) (w : World)
    → Closing id w.disk.db
    → Yields (λ _ v. Over id v.disk.db) (settle env id w)
unfolding settle
settle-Over env id w c = Alive-then id _ _ _ w (expire-Alive env) c λ _ v c'.
    Alive-then id _ _ _ v (call-Alive env (get id) (get-Keeps id)) c' λ current u c''.
      call-Yields (λ _. Over id) env _ u
        (change-Over id _ _ (before env u) (before-Closing id env u c''))

conclude-Over :
    (env : Env) (id : String) (desired : State) (cleared review : Bool) (w : World)
    → Closing id w.disk.db
    → Yields (λ _ v. Over id v.disk.db) (conclude env id desired cleared review w)
unfolding conclude
conclude-Over env id desired cleared review w c =
    if-Yields _ (not cleared) (call env (quarantine id server_reason desired))
      (if review then call env (quarantine id device_reason desired) else settle env id) w
      (λ _. quarantined server_reason refl)
      λ _.
        if-Yields _ review (call env (quarantine id device_reason desired)) (settle env id) w
          (λ _. quarantined device_reason refl) λ _. settle-Over env id w c
  where
    quarantined :
        (reason : String)
        → (reason == "") ≡ false
        → Yields (λ _ v. Over id v.disk.db) (call env (quarantine id reason desired) w)
    quarantined reason r =
        call-Yields (λ _. Over id) env _ w
          (quarantine-Over id reason desired (before env w) r (before-Closing id env w c))

-- `BeginCleanup`, as the worker calls it
begun-Closing :
    (env : Env) (id : String) (desired : State) (code message : String) (w : World)
    → Distinct w.disk.db.jobs
    → Yields (λ _ v. Closing id v.disk.db) (call env (begin_cleanup id desired code message) w)
unfolding Alive
begun-Closing env id desired code message w h =
    mono-Yields _ _ _ (λ s v p. record { distinct = p.0; row = closing s v.disk.db p.1 })
      (both-Yields _ _ _
        (any-Yields (λ v. Distinct v.disk.db.jobs) _
          (call-Alive env _ (begin_cleanup-Keeps id desired code message) w h).1)
        (call-Yields _ env _ w (begin_cleanup-Holds id desired code message (before env w))))
  where
    closing :
        (s : State) (db : Db)
        → (j : Job) × (find (has_id id) (before env w).db.jobs ≡ some j)
          × Row id (λ k. Begun j k desired code s) db
        → Row id IsClosing db
    closing s db (j, there, (k, there', begun)) = (k, there', inl begun.state)

pub finish-Over :
    (env : Env) (j : Job) (desired : State) (code : String) (review : Bool) (w : World)
    → Distinct w.disk.db.jobs
    → Yields (λ _ v. Over j.id v.disk.db) (finish env j desired code review w)
unfolding finish
finish-Over env j desired code review w h =
    bind-Yields _ _ _ _ w (begun-Closing env j.id desired code _ w h) λ s v c.
      Alive-then j.id _ _ _ v (clear_files-Alive j.id) c λ files v1 c1.
        Alive-then j.id _ _ _ v1 (drop_artifact-Alive j.id s files) c1 λ cleared v2 c2.
          Alive-then j.id _ _ _ v2 (review_device-Alive env j.id review) c2
            λ unclean v3 c3. conclude-Over env j.id s cleared unclean v3 c3
