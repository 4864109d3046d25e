-- ===== src/Jobs/Offered.antt =====
-- A free device is given a job that is due, if nothing fails.
use ipa_now.Common.{
  ℕ, ◌≡◌, true, false, List, Option, none, some, Option-cases, inl, inr, if◌then◌else◌,
}
use ipa_now.Jobs.Model.{Job}
use ipa_now.Jobs.Tx.{
  Disk, ok, ◌>>=◌, pure, fail, clock, refuse, transaction, read, write, statement,
}
use ipa_now.Jobs.Rows.{update_jobs, update_device}
use ipa_now.Jobs.Queue.{oldest, is_claimable, claimed, claim, claim_tx}
use ipa_now.Jobs.Claim.{Bound, oldest-Bound}
use ipa_now.Jobs.Evolve.Elem.{Elem, All-Elem}

some_due :
    (t : ℕ) (xs : List Job) (k : Job)
    → Elem k xs
    → is_claimable t k ≡ true
    → (j : Job) × (oldest (is_claimable t) xs ≡ some j)
some_due t xs k there due = elim (Option-cases (oldest (is_claimable t) xs)) [
  | inr h ↦ h
  | inl e ↦ absurd (none_due (oldest (is_claimable t) xs) e (oldest-Bound (is_claimable t) xs))
]
  where
    none_due : (o : Option Job) → o ≡ none → Bound (is_claimable t) xs o → ⊥
    none_due none e h =
        let no : is_claimable t k ≡ false = All-Elem (λ x. is_claimable t x ≡ false) xs k h there in
        cc (no, due)
    none_due (some j) e h = cc

-- If no statement fails, and the device is free and not quarantined, then as long as some queued job is due a claim
-- returns a job.
pub claim-some :
    (d : Disk) (k : Job)
    → ((n : ℕ) → d.fails n ≡ false)
    → d.db.device.quarantined ≡ false
    → d.db.device.owner ≡ ""
    → Elem k d.db.jobs
    → is_claimable d.now k ≡ true
    → (out : Job) × ((claim d).0 ≡ ok (some out))
unfolding claim claim_tx transaction ◌>>=◌ read write statement clock refuse pure fail update_jobs
    update_device
claim-some d k works calm free there due =
    let (j, e) = some_due d.now d.db.jobs k there due in
    (record (claimed j) { updated_at = d.now }, simp (works, calm, free, e, if◌then◌else◌))
