-- ===== src/Requeue/Accounts.antt =====
-- What a whole pass reports, and which jobs it changes (`_plan` of tools/saipal_analyst/requeue.py).
use saipal.Base.{
  ℕ, ◌+◌, ◌≤◌, ◌≡◌, refl, ◌∙◌, sym, ◌⊎◌, inl, inr, true, none, some, [], ◌∷◌, String, ◌==◌,
  string_eq, length, if◌then◌else◌, Result, ok, arith, Bool-cases, Option-cases, eq_iff,
}
use saipal.Base.Dict.{Dict, lookup, insert, NodupKeys, lookup-insert}
use saipal.Jobs.Stage.{blocked}
use saipal.Jobs.Job.{Job}
use saipal.Requeue.Apply.{apply}
use saipal.Requeue.Plan.{Request, plan_all, plan, sorted_jobs, place, comes_before, write_back}
use saipal.Requeue.Report.{Report, empty_report}
use saipal.Requeue.Passes.{total, Touched, plan_all-IsRun}

length-place :
    (id : String) (job : Job) (d : Dict String Job) → length (place (id, job) d) ≡ length d + 1
length-place id job [] = refl
length-place id job ((other, j) ∷ rest) = elim (Bool-cases (comes_before id other)) [
  | inl first ↦ rw first (omega arith)
  | inr later ↦ rw later (omega (arith, length-place id job rest))
]

length-sorted_jobs : (d : Dict String Job) → length (sorted_jobs d) ≡ length d
unfolding sorted_jobs
length-sorted_jobs [] = refl
length-sorted_jobs ((id, job) ∷ rest) =
    omega (arith, length-place id job (sorted_jobs rest), length-sorted_jobs rest)

-- A pass never fails. It scans every job of the journal, puts each in exactly one place of the
-- report (requeued, refused, not applicable, remaining), and requeues no more than the limit.
pub plan_accounts :
    (q : Request) (journal : Dict String Job)
    → (r : Report) × (after : Dict String Job) × (plan q journal ≡ ok (r, after))
      × (r.scanned ≡ length journal)
      × (length r.requeued_rows
            + length r.refused_rows
            + total r.not_applicable_counts
            + r.remaining
          ≡ length journal)
      × ((limit : ℕ) → q.limit ≡ some limit → length r.requeued_rows ≤ limit)
unfolding plan
plan_accounts q journal =
    let (r, jobs, planned, run, _) = plan_all-IsRun q empty_report (sorted_jobs journal) in
    (
      r,
      write_back jobs journal,
      rw planned refl,
      omega (arith, run.scanned, length-sorted_jobs journal),
      omega (arith, run.weighed, length-sorted_jobs journal),
      λ limit e. run.within limit e (omega arith),
    )

lookup-place :
    (x id : String) (job : Job) (d : Dict String Job)
    → lookup id d ≡ none
    → lookup x (place (id, job) d) ≡ (if x == id then some job else lookup x d)
lookup-place x id job [] fresh = refl
lookup-place x id job ((other, j) ∷ rest) fresh = elim (Bool-cases (comes_before id other)) [
  | inl first ↦ rw first refl
  | inr later ↦
      rw later
        (ground (arith, eq_iff x id, eq_iff id other, eq_iff x other, lookup-place x id job rest))
]

place-NodupKeys :
    (id : String) (job : Job) (d : Dict String Job)
    → lookup id d ≡ none
    → NodupKeys d
    → NodupKeys (place (id, job) d)
place-NodupKeys id job [] fresh u = (refl, tt)
place-NodupKeys id job ((other, j) ∷ rest) fresh u = elim (Bool-cases (comes_before id other)) [
  | inl first ↦ rw first (fresh, u)
  | inr later ↦ rw later (
      ground (
        arith,
        eq_iff id other,
        eq_iff other id,
        lookup-place other id job rest,
        place-NodupKeys id job rest,
      ))
]

lookup-sorted_jobs :
    (x : String) (d : Dict String Job) → NodupKeys d → lookup x (sorted_jobs d) ≡ lookup x d
unfolding sorted_jobs
lookup-sorted_jobs x [] u = refl
lookup-sorted_jobs x ((id, job) ∷ rest) (fresh, u) =
    lookup-place x id job (sorted_jobs rest) (lookup-sorted_jobs id rest u ∙ fresh)
    ∙ rw (lookup-sorted_jobs x rest u) refl

sorted_jobs-NodupKeys : (d : Dict String Job) → NodupKeys d → NodupKeys (sorted_jobs d)
unfolding sorted_jobs
sorted_jobs-NodupKeys [] u = tt
sorted_jobs-NodupKeys ((id, job) ∷ rest) (fresh, u) =
    place-NodupKeys id job (sorted_jobs rest) (lookup-sorted_jobs id rest u ∙ fresh)
      (sorted_jobs-NodupKeys rest u)

-- What is found after writing back is a written job, or an old one under a key that was not
-- written.
lookup-write_back :
    (x : String) (jobs d : Dict String Job) {job : Job}
    → lookup x (write_back jobs d) ≡ some job
    → NodupKeys jobs
    → (lookup x jobs ≡ some job) ⊎ (lookup x d ≡ some job)
lookup-write_back x [] d h u = inr h
lookup-write_back x ((id, j) ∷ rest) d h (fresh, u) =
    elim (lookup-write_back x rest (insert id j d) h u) [
      | inl late ↦ inl (ground (arith, eq_iff x id))
      | inr old ↦ elim (Bool-cases (x == id)) [
        | inl same ↦ inl (rw same (rw same at (sym (lookup-insert x id j d) ∙ old)))
        | inr other ↦ inr (rw other at (sym (lookup-insert x id j d) ∙ old))
      ]
    ]

-- The requeue of a job, by a pass that applies.
abbrev pub Requeued : Request → Job → Job → Type 0
Requeued q before after =
    (q.applies ≡ true) × (before.stage ≡ blocked) × (apply q.clock q.order before ≡ ok after)

Touched-lookup :
    (q : Request) (x : String) (jobs jobs' : Dict String Job) {after : Job}
    → Touched q jobs jobs'
    → lookup x jobs' ≡ some after
    → (before : Job) × (lookup x jobs ≡ some before) × ((after ≡ before) ⊎ Requeued q before after)
Touched-lookup q x [] [] t h = absurd (none_ne h)
  where
    none_ne : {j : Job} → none ≡ some j → ⊥
    none_ne e = cc
Touched-lookup q x [] (_ ∷ jobs') t h = elim t [ ]
Touched-lookup q x (_ ∷ jobs) [] t h = elim t [ ]
Touched-lookup q x ((id, job) ∷ jobs) ((id', job') ∷ jobs') (same_id, kept, t) h =
    elim (Bool-cases (x == id)) [
      | inl same ↦ let e = value (rw (same_id, same) at h) in (job, rw same refl, rw e at kept)
      | inr other ↦ rw other (Touched-lookup q x jobs jobs' t (rw (same_id, other) at h))
    ]
  where
    value : {a b : Job} → some a ≡ some b → a ≡ b
    value e = cc

Touched-NodupKeys :
    (q : Request) (jobs jobs' : Dict String Job)
    → Touched q jobs jobs'
    → NodupKeys jobs
    → NodupKeys jobs'
Touched-NodupKeys q [] [] t u = tt
Touched-NodupKeys q [] (_ ∷ jobs') t u = elim t [ ]
Touched-NodupKeys q (_ ∷ jobs) [] t u = elim t [ ]
Touched-NodupKeys q ((id, job) ∷ jobs) ((id', job') ∷ jobs') (same_id, kept, t) (fresh, u) =
    (still_fresh, Touched-NodupKeys q jobs jobs' t u)
  where
    still_fresh : lookup id' jobs' ≡ none
    still_fresh = elim (Option-cases (lookup id' jobs')) [
      | inl absent ↦ absent
      | inr (a, found) ↦
          let (before, here, _) = Touched-lookup q id' jobs jobs' t found in
          absurd (some_ne (sym here ∙ rw same_id fresh))
    ]
      where
        some_ne : {j : Job} → some j ≡ none → ⊥
        some_ne e = cc

-- A pass over a journal with no id twice adds no job to it, and changes none but blocked ones, by
-- the requeue, and only if it applies.
pub plan_touches :
    (q : Request) (journal : Dict String Job) (x : String) {r : Report} {saved : Dict String Job}
    {after : Job}
    → NodupKeys journal
    → plan q journal ≡ ok (r, saved)
    → lookup x saved ≡ some after
    → (before : Job) × (lookup x journal ≡ some before)
      × ((after ≡ before) ⊎ Requeued q before after)
unfolding plan
plan_touches q journal x {saved = saved} {after = after} u planned found =
    let (r, jobs, ran, _, touched) = plan_all-IsRun q empty_report (sorted_jobs journal) in
    let nodup =
      Touched-NodupKeys q (sorted_jobs journal) jobs touched (sorted_jobs-NodupKeys journal u) in
    elim (lookup-write_back x jobs journal (saved_is (ran_to ran) planned found) nodup) [
      | inl written ↦
          let (before, here, kept) =
            Touched-lookup q x (sorted_jobs journal) jobs touched written in
          (before, sym (lookup-sorted_jobs x journal u) ∙ here, kept)
      | inr old ↦ (after, old, inl refl)
    ]
  where
    ran_to :
        {r : Report} {jobs : Dict String Job}
        → plan_all q empty_report (sorted_jobs journal) ≡ ok (r, jobs)
        → plan q journal ≡ ok (r, write_back jobs journal)
    ran_to e = rw e refl

    saved_is :
        {m : Result (Report × Dict String Job)} {r r' : Report} {written : Dict String Job}
        → m ≡ ok (r, written)
        → m ≡ ok (r', saved)
        → lookup x saved ≡ some after
        → lookup x written ≡ some after
    saved_is e f h = cc
