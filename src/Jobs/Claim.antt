-- ===== src/Jobs/Claim.antt =====
-- What `Claim` and `BeginCleanup` promise when they succeed, and what `Claim` never does.
use ipa_now.Common.{
  ◌≤◌, ◌≡◌, refl, Bool, true, false, not, ◌||◌, ◌==◌, arith, List, [], ◌∷◌, Option, none, some,
  update_row, All, All-mono, le_trans, subst, Bool-cases, inl, inr, if◌then◌else◌, eq_iff,
}
use ipa_now.Jobs.Model.{queued, Job, Db, Device}
use ipa_now.Jobs.Tx.{Disk, Result, ok, err, not_found, conflict, queue_full, storage}
use ipa_now.Jobs.Rules.{
  Holds, read_then, clock_then, refuse_then, update_then, device_then, Holds-pure,
  transaction-Holds, Holds-ok,
}
use ipa_now.Jobs.Rows.{has_id, found, with_device, with_update}
use ipa_now.Jobs.Queue.{
  is_earlier, earlier_of, oldest, is_claimable, claimed, claim, claim_tx, unless_not_found,
}
use ipa_now.Jobs.Evolve.Elem.{Elem, oldest-Elem}
use ipa_now.Jobs.Evolve.QueueCalls.{found-find}

abbrev pub Bound : (Job → Bool) → List Job → Option Job → Type 0
Bound p xs none = All (λ k. p k ≡ false) xs
Bound p xs (some j) = All (λ k. p k ≡ true → j.created_at ≤ k.created_at) xs

is_earlier_le : (a b : Job) → is_earlier a b ≡ true → a.created_at ≤ b.created_at
is_earlier_le a b h = ground arith

not_earlier_le : (a b : Job) → is_earlier a b ≡ false → b.created_at ≤ a.created_at
not_earlier_le a b h = ground arith

Bound-earlier_of :
    (p : Job → Bool) (x : Job) (xs : List Job) (o : Option Job)
    → Bound p xs o
    → Bound p (x ∷ xs) (earlier_of x o)
Bound-earlier_of p x xs none h =
    ((λ _. omega arith), All-mono _ _ (λ k f t. absurd (no k f t)) xs h)
  where
    no : (k : Job) → p k ≡ false → p k ≡ true → ⊥
    no k f t = cc (f, t)
Bound-earlier_of p x xs (some k) h = elim (Bool-cases (is_earlier k x)) [
  | inl e ↦ rw (e, if◌then◌else◌) ((λ _. is_earlier_le k x e), h)
  | inr e ↦
      let le : x.created_at ≤ k.created_at = not_earlier_le k x e in
      rw (e, if◌then◌else◌) ((λ _. omega arith), All-mono _ _ (λ i f t. le_trans le (f t)) xs h)
]

Bound-skip :
    (p : Job → Bool) (x : Job) (xs : List Job) (o : Option Job)
    → p x ≡ false
    → Bound p xs o
    → Bound p (x ∷ xs) o
Bound-skip p x xs none f h = (f, h)
Bound-skip p x xs (some j) f h = ((λ t. absurd (no t)), h)
  where
    no : p x ≡ true → ⊥
    no t = cc (f, t)

pub oldest-Bound : (p : Job → Bool) (xs : List Job) → Bound p xs (oldest p xs)
unfolding oldest
oldest-Bound p [] = tt
oldest-Bound p (x ∷ xs) = elim (Bool-cases (p x)) [
  | inl t ↦ rw (t, if◌then◌else◌) (Bound-earlier_of p x xs (oldest p xs) (oldest-Bound p xs))
  | inr f ↦ rw (f, if◌then◌else◌) (Bound-skip p x xs (oldest p xs) f (oldest-Bound p xs))
]

-- No claimable job was created earlier.
oldest_first :
    (p : Job → Bool) (xs : List Job) (j : Job)
    → oldest p xs ≡ some j
    → All (λ k. p k ≡ true → j.created_at ≤ k.created_at) xs
oldest_first p xs j e = subst (Bound p xs) e (oldest-Bound p xs)

pub record Claimed (d : Disk) (out : Job) (db : Db) : Type 0 where
  pub not_quarantined : d.db.device.quarantined ≡ false
  pub unowned : d.db.device.owner ≡ ""
  pub row : Job
  pub was_there : Elem row d.db.jobs
  pub was_queued : row.state ≡ queued
  pub was_due : row.available_at ≤ d.now
  pub was_first : All (λ k. is_claimable d.now k ≡ true → row.created_at ≤ k.created_at) d.db.jobs
  pub result : out ≡ record (claimed row) { updated_at = d.now }
  pub saved : db.jobs ≡ update_row (has_id out.id) (λ _. out) d.db.jobs
  pub owned : db.device ≡ record d.db.device { owner = out.id }

claimed-Claimed :
    (d : Disk) (out : Job) (dev : Device)
    → ◌≡◌ {A = Result Device} (ok d.db.device) (ok dev)
    → dev.quarantined || not (dev.owner == "") ≡ false
    → found (oldest (is_claimable d.now) d.db.jobs) ≡ ok out
    → Claimed d
        (record (claimed out) { updated_at = d.now })
        (with_device
          (λ x. record x { owner = out.id })
          (with_update (has_id out.id) (λ _. claimed out) d.now d.db))
unfolding is_claimable
claimed-Claimed d out dev e free p =
    let q : oldest (is_claimable d.now) d.db.jobs ≡ some out = found-find _ out p in
    let (there, due) = oldest-Elem (is_claimable d.now) d.db.jobs out q in
    record {
      not_quarantined = ground arith;
      unowned = (eq_iff d.db.device.owner "").0 (ground arith);
      row = out;
      was_there = there;
      was_queued = ground arith;
      was_due = ground arith;
      was_first = oldest_first (is_claimable d.now) d.db.jobs out q;
      result = refl;
      saved = refl;
      owned = refl;
    }

claim_tx-Claimed : (d : Disk) → Holds (Claimed d) (claim_tx d)
unfolding claim_tx
claim_tx-Claimed d = transaction-Holds (Claimed d) _ d (
    read_then _ _ _ _ λ dev e. refuse_then _ _ _ _ _ λ free. clock_then _ _ _ (
      read_then _ _ _ _ λ out p.
        update_then _ _ _ _ _
          (device_then _ _ _ _ (Holds-pure _ _ _ (claimed-Claimed d out dev e free p)))))

unless_not_found-some :
    (r : Result Job × Disk) (out : Job)
    → (unless_not_found r).0 ≡ ok (some out)
    → (r.0 ≡ ok out) × ((unless_not_found r).1 ≡ r.1)
unless_not_found-some (ok j, d) out e = (cc, refl)
unless_not_found-some (err not_found, d) out e = cc
unless_not_found-some (err conflict, d) out e = cc
unless_not_found-some (err queue_full, d) out e = cc
unless_not_found-some (err storage, d) out e = cc

-- `Claim` returns a job only from a device that is neither quarantined nor owned. The job was queued
-- and due, and no due job was created before it. It is returned, and saved, as running with one
-- attempt more, no other row changes, and the device is owned by it.
pub claim-Claimed :
    (d : Disk) (out : Job) → (claim d).0 ≡ ok (some out) → Claimed d out (claim d).1.db
unfolding claim
claim-Claimed d out e =
    let (done, same) = unless_not_found-some (claim_tx d) out e in
    rw same (Holds-ok (Claimed d) (claim_tx d) out (claim_tx-Claimed d) done)
