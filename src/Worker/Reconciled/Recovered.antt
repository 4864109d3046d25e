-- ===== src/Worker/Reconciled/Recovered.antt =====
-- The whole recovery: what is left of the private directory when the service starts
-- (internal/worker/worker.go, `Recover`).
use ipa_now.Common.{
  suc, String, ◌≡◌, refl, ◌∙◌, ◌⊎◌, inl, inr, Bool, true, List, [], find, if◌then◌else◌, All,
  All-mono, Bool-cases, subst, sym, ap,
}
use ipa_now.Jobs.Model.{Job}
use ipa_now.Jobs.Tx.{Disk, ok, read, statement}
use ipa_now.Jobs.Rules.{Holds}
use ipa_now.Jobs.Rows.{has_id, all}
use ipa_now.Jobs.Cleanup.{recover}
use ipa_now.Storage.{Files, Kind, work, inputs, artifacts, entries, tick, remove}
use ipa_now.Storage.Removal.{remove-All, tick-All, same_tmp}
use ipa_now.Storage.Emptied.{temp_entries, temp_empty}
use ipa_now.Storage.Temp.{cleanup_temp}
use ipa_now.Worker.World.{Env, World, ◌>>=◌, before, call, file, require}
use ipa_now.Worker.Startup.{read_dir, keeps, reconcile, recover_files, recover_service}
use ipa_now.Worker.Ended.Rules.{
  Yields, Yields-ok, bind-Yields, any-Yields, call-Yields, file-Yields, require-Yields, mono-Yields,
}
use ipa_now.Worker.Reconciled.{IsReconciled, In, All-In, reconcile_entries-Reconciled}
use ipa_now.Worker.Reconciled.Steady.{Steady-Yields, resolve_each-Steady, expire-Yields}

module _ (jobs : List Job) (kind : Kind) (F : Files → Type 0)
    (removed : (id : String) (f : Files) → F f → F (remove kind id f).1)
    (ticked : (f : Files) → F f → F (tick f)) where
  settled :
      (f : Files)
      → All (λ x. (keeps kind (find (has_id x) jobs) ≡ true) ⊎ In x []) (entries kind f)
      → IsReconciled jobs kind f
  settled f = All-mono _ _ kept (entries kind f)
    where
      kept :
          (x : String)
          → (keeps kind (find (has_id x) jobs) ≡ true) ⊎ In x []
          → keeps kind (find (has_id x) jobs) ≡ true
      kept x (inl h) = h
      kept x (inr h) = elim h [ ]

  dir-Yields :
      (w : World)
      → Yields (λ ids v. (ids ≡ entries kind w.files) × (v.files ≡ tick w.files)) (read_dir kind w)
  unfolding read_dir Yields
  dir-Yields w = elim (Bool-cases (w.files.fails w.files.done)) [
    | inl e ↦ rw (e, if◌then◌else◌) tt
    | inr e ↦ rw (e, if◌then◌else◌) (refl, refl)
  ]

  reconcile-Reconciled :
      (w : World)
      → F w.files
      → Yields (λ _ v. IsReconciled jobs kind v.files × F v.files) (reconcile kind jobs w)
  unfolding reconcile
  reconcile-Reconciled w h = bind-Yields _ _ _ _ w (dir-Yields w) λ ids v (same, ticks).
      mono-Yields _ _ _ (λ _ u p. (settled u.files p.0, p.1))
        (reconcile_entries-Reconciled jobs kind F removed ticked ids v
          (subst
            (λ f. All (λ x. (keeps kind (find (has_id x) jobs) ≡ true) ⊎ In x ids) (entries kind f))
            (sym ticks)
            (tick-All _ kind w.files (
              subst
                (λ xs.
                  All (λ x. (keeps kind (find (has_id x) jobs) ≡ true) ⊎ In x xs)
                    (entries kind w.files))
                (sym same)
                (All-mono _ _ (λ x i. inr i) (entries kind w.files)
                  (All-In (entries kind w.files))))))
          (subst F (sym ticks) (ticked w.files h)))

-- Every entry belongs to a job that keeps it, by the rows `jobs`, and no temporary file is left.
pub record Restored (jobs : List Job) (f : Files) : Type 0 where
  pub in_work : IsReconciled jobs work f
  pub in_inputs : IsReconciled jobs inputs f
  pub in_artifacts : IsReconciled jobs artifacts f
  pub no_temporary : f.tmp ≡ []

module _ (jobs : List Job) where
  abbrev AreReconciled : Files → Type 0
  AreReconciled f =
      IsReconciled jobs artifacts f × IsReconciled jobs inputs f × IsReconciled jobs work f

  temp-Restored :
      (w : World)
      → AreReconciled w.files
      → Yields (λ _ v. Restored jobs v.files) ((file cleanup_temp >>= require) w)
  temp-Restored w (a, i, k) =
      bind-Yields _ _ _ _ w (file-Yields cleanup_temp w)
        λ b v e. mono-Yields _ _ _ (λ _ u q. restored b v u e q) (require-Yields b v)
    where
      still :
          (k : Kind) → IsReconciled jobs k w.files → IsReconciled jobs k (cleanup_temp w.files).1
      still k =
          subst (All (λ id. keeps k (find (has_id id) jobs) ≡ true)) (sym (temp_entries w.files k))

      restored :
          (b : Bool) (v u : World)
          → (b ≡ (cleanup_temp w.files).0)
            × (v.files ≡ (cleanup_temp w.files).1)
            × (v.disk ≡ w.disk)
            × (v.step ≡ suc w.step)
          → (b ≡ true) × (u ≡ v)
          → Restored jobs u.files
      restored b v u (eb, ef, _, _) (t, same) = rw same (
          rw ef (record {
            in_work = still work k;
            in_inputs = still inputs i;
            in_artifacts = still artifacts a;
            no_temporary = temp_empty w.files (sym eb ∙ t);
          }))

  recover_files-Restored :
      (env : Env) (w : World) → Yields (λ _ v. Restored jobs v.files) (recover_files env jobs w)
  unfolding recover_files
  recover_files-Restored env w =
      bind-Yields _ _ _ _ w
        (reconcile-Reconciled jobs work (λ _. Unit) (λ id f h. tt) (λ f h. tt) w tt)
        λ _ w1 p.
          bind-Yields _ _ _ _ w1
            (reconcile-Reconciled jobs inputs (IsReconciled jobs work)
              (λ id f h. remove-All _ inputs work id f h) (λ f h. h) w1 p.0)
            λ _ w2 q.
              bind-Yields _ _ _ _ w2
                (reconcile-Reconciled jobs artifacts
                  (λ f. IsReconciled jobs inputs f × IsReconciled jobs work f)
                  (λ id f h.
                    (remove-All _ artifacts inputs id f h.0, remove-All _ artifacts work id f h.1))
                  (λ f h. h) w2 q)
                λ _ w3 r. temp-Restored w3 (r.0, r.1.0, r.1.1)

  -- An expiry removes artifacts only.
  removed-Restored :
      (id : String) (f : Files) → Restored jobs f → Restored jobs (remove artifacts id f).1
  removed-Restored id f r = record {
    in_work = remove-All _ artifacts work id f r.in_work;
    in_inputs = remove-All _ artifacts inputs id f r.in_inputs;
    in_artifacts = remove-All _ artifacts artifacts id f r.in_artifacts;
    no_temporary = same_tmp id f ∙ r.no_temporary;
  }

all-Holds : (d : Disk) → Holds (λ jobs db. jobs ≡ d.db.jobs) (all d)
unfolding all read statement Holds
all-Holds d = elim (Bool-cases (d.fails d.done)) [
  | inl e ↦ rw (e, if◌then◌else◌) tt
  | inr e ↦ rw (e, if◌then◌else◌) refl
]

-- The rows that `Recover` of the worker reads, after that of the store
abbrev pub recovered_jobs : Env → World → List Job
recovered_jobs env w = (before env (call env recover w).1).db.jobs

recover_service-Restored :
    (env : Env) (w : World)
    → Yields (λ _ v. Restored (recovered_jobs env w) v.files) (recover_service env w)
unfolding recover_service
recover_service-Restored env w =
    bind-Yields _ _ _ _ w (any-Yields (λ v. v ≡ (call env recover w).1) (call env recover w) refl)
      λ _ w1 same.
        bind-Yields _ _ _ _ w1 (call-Yields _ env all w1 (all-Holds (before env w1))) λ jobs w2 e.
          mono-Yields (λ _ v. Restored jobs v.files) _ _
            (λ _ v. subst (λ js. Restored js v.files) (e ∙ ap (λ x. (before env x).db.jobs) same))
            (bind-Yields _ _ _ _ w2 (recover_files-Restored jobs env w2) λ _ w3 r.
              bind-Yields _ _ _ _ w3
                (expire-Yields (Restored jobs) (removed-Restored jobs) env w3 r)
                λ _ w4 r'. Steady-Yields (Restored jobs) _ w4 (resolve_each-Steady env jobs) r')

-- After a recovery that succeeds, each entry of `work`, `inputs` and `artifacts` belongs to a job that
-- the recovered rows say keeps it: none in `work`, a queued job in `inputs`, and one that is completed, or
-- cleaning and about to be, in `artifacts`. No temporary file is left.
pub recover-Restored :
    (env : Env) (w : World)
    → (recover_service env w).0 ≡ ok tt
    → Restored (recovered_jobs env w) (recover_service env w).1.files
recover-Restored env w h = Yields-ok _ (recover_service env w) tt (recover_service-Restored env w) h
