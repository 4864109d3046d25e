-- ===== src/Scheduler/Rounds.antt =====
-- After each round of the scheduler every job is queued, terminal or under review.
use ipa_now.Common.{
  ℕ, zero, suc, String, ◌≡◌, ◌≢◌, refl, sym, ap, subst, ◌∙◌, inl, inr, Bool, true, false, arith,
  Option, none, some, List, [], ◌∷◌, All, All-mono, All-update_row, find, if◌then◌else◌, Bool-cases,
  eq_iff,
}
use ipa_now.Jobs.Model.{Job, Db}
use ipa_now.Jobs.Tx.{not_found, conflict, queue_full, storage, Result, ok, err, Disk}
use ipa_now.Jobs.Atomic.{transaction_atomic}
use ipa_now.Jobs.Rules.{Holds}
use ipa_now.Jobs.Rows.{has_id}
use ipa_now.Jobs.Queue.{claim, claim_tx, unless_not_found}
use ipa_now.Jobs.Claim.{Claimed, claim-Claimed}
use ipa_now.Jobs.Calls.{Call}
use ipa_now.Jobs.Evolve.Rows.{Distinct}
use ipa_now.Jobs.Evolve.CleanupCalls.{claim-Keeps}
use ipa_now.Worker.World.{Env, World, ◌>>=◌, ◌>>◌, pure, ask, before, call}
use ipa_now.Worker.Finish.{expire}
use ipa_now.Worker.Run.{run_job}
use ipa_now.Worker.Alive.{Alive, call-Alive}
use ipa_now.Worker.Alive.Parts.{expire-Alive}
use ipa_now.Worker.Alive.Serve.{run_job-Alive}
use ipa_now.Worker.Course.{Costs}
use ipa_now.Worker.Course.Parts.{expire-Costs}
use ipa_now.Worker.Course.Run.{run_job-Course}
use ipa_now.Worker.Ended.{IsBeside, AreBeside, is_ended}
use ipa_now.Worker.Ended.Run.{run_job-Over}
use ipa_now.Worker.Ended.Rules.{
  Yields, bind-Yields, any-Yields, both-Yields, call-Yields, if-Yields, Yields-ok, Yields-pure,
}
use ipa_now.Scheduler.{Context, dispatch, round, serve}
use ipa_now.Scheduler.Idle.{is_idle, IsIdleBut, Idle, Course-Idle, run-Idle}

-- Every job is idle.
abbrev pub AreIdle : List Job → Type 0
AreIdle = All (λ k. is_idle k ≡ true)

abbrev Ready : World → Type 0
Ready w = Distinct w.disk.db.jobs × AreIdle w.disk.db.jobs

AreIdle-but : (id : String) (xs : List Job) → AreIdle xs → All (IsIdleBut id) xs
AreIdle-but id xs h = All-mono (λ k. is_idle k ≡ true) (IsIdleBut id) (λ k e. inr e) xs h

-- What leaves all but one job idle, whichever it is, leaves all of them idle.
but_any :
    (a b : String)
    → a ≢ b
    → (xs : List Job) → All (IsIdleBut a) xs
    → All (IsIdleBut b) xs
    → AreIdle xs
but_any a b n [] h g = tt
but_any a b n (x ∷ xs) (h, hs) (g, gs) = (one h g, but_any a b n xs hs gs)
  where
    one : IsIdleBut a x → IsIdleBut b x → is_idle x ≡ true
    one (inr e) q = e
    one (inl e) (inr q) = q
    one (inl e) (inl q) = absurd (n (sym e ∙ q))

two : ◌≢◌ {A = String} "a" "b"
two e = ground (arith, (eq_iff "a" "b").1 e)

-- The one job is found ended, and is found under its ID only.
others_idle :
    (id : String) (xs : List Job)
    → All (λ k. has_id id k ≡ false) xs
    → All (IsIdleBut id) xs
    → AreIdle xs
others_idle id [] f h = tt
others_idle id (x ∷ xs) (f, fs) (inl e, hs) = absurd (cc (f, (eq_iff x.id id).1 e))
others_idle id (x ∷ xs) (f, fs) (inr e, hs) = (e, others_idle id xs fs hs)

over_idle :
    (id : String) (xs : List Job) (k : Job)
    → Distinct xs
    → find (has_id id) xs ≡ some k
    → is_ended k ≡ true
    → All (IsIdleBut id) xs
    → AreIdle xs
unfolding find
over_idle id [] k u e t h = tt
over_idle id (x ∷ xs) k (new, u) e t (h, hs) = elim (Bool-cases (has_id id x)) [
  | inl y ↦ it_is y (ground (arith, e, y))
  | inr n ↦ (other n h, over_idle id xs k u (rw (n, if◌then◌else◌) at e) t hs)
]
  where
    it_is : has_id id x ≡ true → x ≡ k → AreIdle (x ∷ xs)
    it_is y same = (
      ground (arith, same, t),
      others_idle id xs (subst (λ i. All (λ k'. has_id i k' ≡ false) xs) ((eq_iff x.id id).0 y) new)
          hs,
    )

    other : has_id id x ≡ false → IsIdleBut id x → is_idle x ≡ true
    other n (inl q) = absurd (cc (n, (eq_iff x.id id).1 q))
    other n (inr q) = q

of_ok :
    {A : Type 0} (Q : A → World → Type 0) (r : Result A × World)
    → ((a : A) → r.0 ≡ ok a → Q a r.1)
    → Yields Q r
unfolding Yields
of_ok Q (ok a, w) h = h a refl
of_ok Q (err e, w) h = tt

-- What `Claim` leaves: all jobs idle, or all but the one that it returns
abbrev Left : Option Job → Db → Type 0
Left none db = AreIdle db.jobs
Left (some j) db = Idle j.id db

claim-Left : (d : Disk) → AreIdle d.db.jobs → Holds Left (claim d)
unfolding claim Holds claim_tx
claim-Left d h = left (claim_tx d) refl
  where
    saved : (j : Job) (db : Db) → Claimed d j db → Idle j.id db
    saved j db c = subst (All (IsIdleBut j.id)) (sym c.saved) (
        All-update_row (IsIdleBut j.id) (has_id j.id) (λ _. j) d.db.jobs (λ a e g. inl refl)
          (AreIdle-but j.id d.db.jobs h))

    left : (r : Result Job × Disk) → claim_tx d ≡ r → Holds Left (unless_not_found r)
    left (ok j, d') e =
        let c : Claimed d j (claim d).1.db =
          claim-Claimed d j (ap (λ r. (unless_not_found r).0) e) in
        subst (λ r. Idle j.id (unless_not_found r).1.db) e (saved j (claim d).1.db c)
    left (err not_found, d') e =
        rw (ap (λ r. r.1.db) (sym e) ∙ transaction_atomic _ d not_found (ap (λ r. r.0) e)) h
    left (err conflict, d') e = tt
    left (err queue_full, d') e = tt
    left (err storage, d') e = tt

module _ (env : Env) (others : (n : ℕ) → AreBeside (env.others n)) where
  -- The same hypothesis, as the course of a run has it
  All-IsBeside : (cs : List (ℕ × Call)) → AreBeside cs → All (λ x. IsBeside x.1) cs
  All-IsBeside [] h = tt
  All-IsBeside (c ∷ cs) (h, hs) = (h, All-IsBeside cs hs)

  expire-Ready : (w : World) → Ready w → Ready (expire env w).1
  unfolding Alive Costs
  expire-Ready w (u, h) =
      let left : (i : String) → Idle i (expire env w).1.disk.db = λ i.
        Course-Idle i 0 _ _ (expire-Costs IsBeside i env (λ n. All-IsBeside _ (others n)) w)
          (AreIdle-but i _ h) in
      ((expire-Alive env w u).1, but_any "a" "b" two _ (left "a") (left "b"))

  before-Ready : (w : World) → AreIdle w.disk.db.jobs → AreIdle (before env w).db.jobs
  before-Ready w h =
      let left : (i : String) → Idle i (before env w).db =
        λ i. run-Idle i w.disk (env.others w.step) (others w.step) (AreIdle-but i _ h) in
      but_any "a" "b" two _ (left "a") (left "b")

  claim-Yields :
      (w : World)
      → Ready w
      → Yields (λ o v. Distinct v.disk.db.jobs × Left o v.disk.db) (call env claim w)
  unfolding Alive
  claim-Yields w (u, h) =
      both-Yields _ _ _
        (any-Yields (λ v. Distinct v.disk.db.jobs) _ (call-Alive env _ claim-Keeps w u).1)
        (call-Yields Left env claim w (claim-Left (before env w) (before-Ready w h)))

  run_job-Yields :
      (j : Job) (w : World)
      → Distinct w.disk.db.jobs
      → Idle j.id w.disk.db
      → Yields (λ _. Ready) (run_job env j w)
  unfolding Alive
  run_job-Yields j w u h =
      of_ok (λ _. Ready) (run_job env j w)
        λ a e.
          let distinct : Distinct (run_job env j w).1.disk.db.jobs = (run_job-Alive env j w u).1 in
          let (k, there, over) = run_job-Over env j w others u e in
          (
            distinct,
            over_idle j.id _ k distinct there over (
                Course-Idle j.id _ _ _
                  (run_job-Course IsBeside env (λ n. All-IsBeside _ (others n)) j w) h),
          )

  ask-Yields : {A : Type 0} (f : ℕ → A) (w : World) → Ready w → Yields (λ _. Ready) (ask f w)
  unfolding ask Yields
  ask-Yields f w h = h

  dispatch-Yields :
      (c : Context) (o : Option Job) (w : World)
      → Distinct w.disk.db.jobs
      → Left o w.disk.db
      → Yields (λ _. Ready) (dispatch env c o w)
  unfolding dispatch
  dispatch-Yields c none w u h =
      bind-Yields (λ _. Ready) (λ _. Ready) (ask c) _ w (ask-Yields c w (u, h))
        λ stop v r. Yields-pure (λ _. Ready) _ v r
  dispatch-Yields c (some j) w u h =
      bind-Yields (λ _. Ready) (λ _. Ready) (run_job env j) _ w (run_job-Yields j w u h)
        λ _ v r. Yields-pure (λ _. Ready) _ v r

  round-Yields : (c : Context) (w : World) → Ready w → Yields (λ _. Ready) (round env c w)
  unfolding round
  round-Yields c w h =
      bind-Yields (λ _. Ready) (λ _. Ready) (ask c) _ w (ask-Yields c w h)
        λ stop v r.
          if-Yields (λ _. Ready) stop (pure false) (expire env >> call env claim >>= dispatch env c)
            v (λ _. Yields-pure (λ _. Ready) false v r)
            λ _.
              bind-Yields (λ _. Ready) (λ o x. Distinct x.disk.db.jobs × Left o x.disk.db)
                (expire env >> call env claim) (dispatch env c) v
                (bind-Yields (λ o x. Distinct x.disk.db.jobs × Left o x.disk.db) (λ _. Ready)
                  (expire env) _ v (any-Yields Ready _ (expire-Ready v r))
                  λ _ x q. claim-Yields x q)
                λ o x q. dispatch-Yields c o x q.0 q.1

  serve-Yields : (c : Context) (n : ℕ) (w : World) → Ready w → Yields (λ _. Ready) (serve env c n w)
  unfolding serve
  serve-Yields c zero w h = Yields-pure (λ _. Ready) _ w h
  serve-Yields c (suc n) w h =
      bind-Yields (λ _. Ready) (λ _. Ready) (round env c) _ w (round-Yields c w h)
        λ more v r.
          if-Yields (λ _. Ready) more (serve env c n) (pure false) v (λ _. serve-Yields c n v r)
            λ _. Yields-pure (λ _. Ready) false v r

  -- If every job is queued, completed, failed or cancelled, or cleaning and under review then, after any
  -- number of rounds that succeed, whatever the callers beside the worker called meanwhile and whatever
  -- the engine answered, every job is again: no claimed job is left running or verifying, nor cleaning
  -- without a review.
  pub serve-AreIdle :
      (c : Context) (n : ℕ) (more : Bool) (w : World)
      → Distinct w.disk.db.jobs
      → AreIdle w.disk.db.jobs
      → (serve env c n w).0 ≡ ok more
      → AreIdle (serve env c n w).1.disk.db.jobs
  serve-AreIdle c n more w u h e =
      (Yields-ok (λ _. Ready) (serve env c n w) more (serve-Yields c n w (u, h)) e).1
