-- ===== src/Worker/Cleared.antt =====
-- The files of a job whose run is over (internal/worker/worker.go, `finish`).
use ipa_now.Common.{
  String, ◌≡◌, refl, sym, subst, ◌∙◌, ◌⊎◌, inl, inr, arith, Bool, true, false, not, ◌&&◌, ◌==◌, All,
  if◌then◌else◌,
}
use ipa_now.Jobs.Model.{State, completed, state_eq, Job}
use ipa_now.Jobs.Tx.{Result, ok, Disk}
use ipa_now.Jobs.Rows.{get}
use ipa_now.Jobs.Cleanup.{begin_cleanup, quarantine}
use ipa_now.Jobs.Rules.{Leaves, update_then, device_last, transaction-Holds}
use ipa_now.Worker.Device.{safe_message}
use ipa_now.Storage.{Files, Kind, work, inputs, artifacts, entries, remove}
use ipa_now.Storage.Removal.{remove-All, remove-gone}
use ipa_now.Storage.Emptied.{temp_entries}
use ipa_now.Storage.Temp.{cleanup_temp}
use ipa_now.Worker.World.{Env, World, ◌>>=◌, call, file, pure, before}
use ipa_now.Worker.Finish.{
  clear_files, settle, drop_artifact, conclude, finish, server_reason, device_reason,
}
use ipa_now.Worker.Ended.Rules.{
  Yields, Yields-ok, Yields-pure, bind-Yields, call-Yields, mono-Yields, self-Yields, if-Yields,
  file-Yields,
}
use ipa_now.Worker.Reconciled.Steady.{
  Steady-Yields, call-Steady, expire-Yields, review_device-Steady,
}

-- The job has no entry of this kind.
abbrev pub Gone : Kind → String → Files → Type 0
Gone kind id f = All (λ x. (x == id) ≡ false) (entries kind f)

module _ (kind : Kind) (F : Files → Type 0) where
  removing :
      (id : String) (w : World)
      → ((f : Files) → F f → F (remove kind id f).1)
      → F w.files
      → Yields (λ b v. F v.files × (b ≡ true → Gone kind id v.files)) (file (remove kind id) w)
  removing id w removed h =
      mono-Yields _ _ _
        (λ b v e. (
          subst F (sym e.1) (removed w.files h),
          λ t. subst (Gone kind id) (sym e.1) (remove-gone kind id w.files (sym e.0 ∙ t)),
        ))
        (file-Yields (remove kind id) w)

module _ (id : String) where
  Gone-remove : (kind k : Kind) (f : Files) → Gone k id f → Gone k id (remove kind id f).1
  Gone-remove kind k f h = remove-All _ kind k id f h

  clear_files-Gone :
      (w : World)
      → Yields (λ b v. b ≡ true → Gone work id v.files × Gone inputs id v.files) (clear_files id w)
  unfolding clear_files
  clear_files-Gone w =
      bind-Yields _ _ _ _ w (removing work (λ _. Unit) id w (λ f h. tt) tt) λ a v p.
        bind-Yields _ _ _ _ v
          (removing inputs (λ f. a ≡ true → Gone work id f) id v
            (λ f h t. Gone-remove inputs work f (h t)) p.1)
          λ b u q.
            bind-Yields _
              (λ _ t. (a ≡ true → Gone work id t.files) × (b ≡ true → Gone inputs id t.files)) _ _ u
              (mono-Yields _ _ _
                (λ _ t e. (λ x. emptied u t e.1 work (q.0 x), λ x. emptied u t e.1 inputs (q.1 x)))
                (file-Yields cleanup_temp u))
              λ c t r. Yields-pure _ _ t (λ x. (r.0 (ground (arith, x)), r.1 (ground (arith, x))))
    where
      emptied :
          (u t : World)
          → t.files ≡ (cleanup_temp u.files).1
          → (k : Kind) → Gone k id u.files
          → Gone k id t.files
      emptied u t e k h =
          subst (Gone k id) (sym e)
            (subst (All (λ x. (x == id) ≡ false)) (sym (temp_entries u.files k)) h)

  -- What a run that ends as `s` leaves of the files of its job
  pub record Cleared (s : State) (f : Files) : Type 0 where
    pub no_work : Gone work id f
    pub no_input : Gone inputs id f
    pub no_artifact : (s ≡ completed) ⊎ Gone artifacts id f

  drop_artifact-Cleared :
      (s : State) (b : Bool) (w : World)
      → (b ≡ true → Gone work id w.files × Gone inputs id w.files)
      → Yields (λ c v. c ≡ true → Cleared s v.files) (drop_artifact id s b w)
  unfolding drop_artifact
  drop_artifact-Cleared s b w h =
      if-Yields _ (state_eq s completed) (pure b)
        (file (remove artifacts id) >>= λ removed. pure (b && removed)) w
        (λ e.
          Yields-pure _ _ w
            λ t. record { no_work = (h t).0; no_input = (h t).1; no_artifact = inl (done s e) })
        λ _.
          bind-Yields _ _ _ _ w
            (removing artifacts (λ f. b ≡ true → Gone work id f × Gone inputs id f) id w
              (λ f g t.
                (Gone-remove artifacts work f (g t).0, Gone-remove artifacts inputs f (g t).1))
              h)
            λ c v p. Yields-pure _ _ v λ t. record {
              no_work = (p.0 (ground (arith, t))).0;
              no_input = (p.0 (ground (arith, t))).1;
              no_artifact = inr (p.1 (ground (arith, t)));
            }
    where
      done : (s : State) → state_eq s completed ≡ true → s ≡ completed
      done s e = ground arith

  quarantine-Leaves :
      (reason : String) (desired : State) (d : Disk)
      → Leaves (λ db. db.device.quarantined ≡ true) (quarantine id reason desired d)
  unfolding quarantine
  quarantine-Leaves reason desired d =
      transaction-Holds _ _ d (update_then _ _ _ _ _ (device_last _ _ _ refl))

  settle-Cleared :
      (env : Env) (s : State) (w : World)
      → Cleared s w.files
      → Yields (λ _ v. Cleared s v.files) (settle env id w)
  unfolding settle
  settle-Cleared env s w h =
      bind-Yields _ _ _ _ w
        (expire-Yields (Cleared s)
          (λ i f g. record {
            no_work = remove-All _ artifacts work i f g.no_work;
            no_input = remove-All _ artifacts inputs i f g.no_input;
            no_artifact = still i f g.no_artifact;
          })
          env w h)
        λ _ v g.
          bind-Yields _ (λ _ u. Cleared s u.files) _ _ v
            (Steady-Yields (Cleared s) _ v (call-Steady env (get id)) g)
            λ current u k. Steady-Yields (Cleared s) _ u (call-Steady env _) k
    where
      still :
          (i : String) (f : Files)
          → (s ≡ completed) ⊎ Gone artifacts id f
          → (s ≡ completed) ⊎ Gone artifacts id (remove artifacts i f).1
      still i f (inl e) = inl e
      still i f (inr g) = inr (remove-All _ artifacts artifacts i f g)

  conclude-Cleared :
      (env : Env) (s : State) (cleared review : Bool) (w : World)
      → (cleared ≡ true → Cleared s w.files)
      → Yields
          (λ _ v. Cleared s v.files ⊎ (v.disk.db.device.quarantined ≡ true))
          (conclude env id s cleared review w)
  unfolding conclude
  conclude-Cleared env s cleared review w h =
      if-Yields _ (not cleared) (call env (quarantine id server_reason s))
        (if review then call env (quarantine id device_reason s) else settle env id) w
        (λ _. held server_reason)
        λ c.
          if-Yields _ review (call env (quarantine id device_reason s)) (settle env id) w
            (λ _. held device_reason)
            λ _. mono-Yields _ _ _ (λ _ v g. inl g) (settle-Cleared env s w (h (ground (arith, c))))
    where
      held :
          (reason : String)
          → Yields
              (λ _ v. Cleared s v.files ⊎ (v.disk.db.device.quarantined ≡ true))
              (call env (quarantine id reason s) w)
      held reason =
          mono-Yields _ _ _ (λ _ v q. inr q)
            (call-Yields (λ _ db. db.device.quarantined ≡ true) env _ w
              (quarantine-Leaves reason s (before env w)))

-- The state that `finish` saves as the outcome of the job, when its cleanup begins
abbrev pub begins : Env → Job → State → String → World → Result State × World
begins env j wanted code =
    call env (begin_cleanup j.id wanted code (if code == "" then "" else safe_message code))

-- A `finish` that succeeds leaves no workspace and no input of the job, and no artifact unless the
-- saved outcome is `completed`; or else the device is quarantined.
pub finish-Cleared :
    (env : Env) (j : Job) (wanted : State) (code : String) (review : Bool) (w : World)
    → (finish env j wanted code review w).0 ≡ ok tt
    → (s : State) × ((begins env j wanted code w).0 ≡ ok s)
      × (Cleared j.id s (finish env j wanted code review w).1.files
          ⊎ ((finish env j wanted code review w).1.disk.db.device.quarantined ≡ true))
unfolding finish
finish-Cleared env j wanted code review w h =
    Yields-ok
      (λ _ v.
        (s : State) × ((begins env j wanted code w).0 ≡ ok s)
        × (Cleared j.id s v.files ⊎ (v.disk.db.device.quarantined ≡ true)))
      (finish env j wanted code review w) tt finished h
  where
    finished :
        Yields
          (λ _ v.
            (s : State) × ((begins env j wanted code w).0 ≡ ok s)
            × (Cleared j.id s v.files ⊎ (v.disk.db.device.quarantined ≡ true)))
          (finish env j wanted code review w)
    finished = bind-Yields _ _ _ _ w (self-Yields (begins env j wanted code w)) λ s v e.
        bind-Yields _ _ _ _ v (clear_files-Gone j.id v) λ files v1 g1.
          bind-Yields _ _ _ _ v1 (drop_artifact-Cleared j.id s files v1 g1) λ cleared v2 g2.
            bind-Yields _ (λ _ v3. cleared ≡ true → Cleared j.id s v3.files) _ _ v2
              (Steady-Yields (λ f. cleared ≡ true → Cleared j.id s f) _ v2
                (review_device-Steady env j.id review) g2)
              λ unclean v3 g3.
                mono-Yields _ _ _ (λ _ u r. (s, e, r))
                  (conclude-Cleared j.id env s cleared unclean v3 g3)
