-- ===== src/Jobs/Restart.antt =====
-- Where a restarted worker resumes, and what it makes of a paid attempt
-- (tools/saipal_analyst/jobs.py).
use saipal.Base.{
  ℕ, ◌≡◌, refl, sym, ◌≢◌, ◌↔◌, Bool, true, false, some, List, [], ◌∷◌, ◌++◌, String, arith,
  string_eq, if◌then◌else◌, beq_refl, Bool-cases, inl, inr, ◌⊎◌, ok, eq_iff,
}
use mathlib.Core.Path.{subst}
use saipal.Base.Dict.{lookup-insert_self}
use saipal.Jobs.Stage.{retry_wait, blocked_binding, stage_eq, may_go}
use saipal.Jobs.Job.{Job, has_text, has_payload, Hashing}
use saipal.Jobs.Advance.{advance}
use saipal.Jobs.Resume.{
  Action, ambiguous, call, validate, critic, finalize, submit, resume_stage, next_action,
  next_attempt_id, has_attempt, listed, mark_ambiguous_attempt, Role, investigator, critic_role,
  finalizer, role_name, calling_stage, role_response,
}

-- What a restarted worker does next, by the evidence of the job: a stored candidate `p`, the
-- finalizer's digest `f`, the critic's payload `c`, and the investigator's response `t`.
pub record IsNext (p f c t : Bool) (a : Action) : Type 0 where
  pub calls : (a ≡ call) ↔ ((p ≡ false) × (t ≡ false))
  pub validates : (a ≡ validate) ↔ ((p ≡ false) × (t ≡ true))
  pub criticises : (a ≡ critic) ↔ ((p ≡ true) × ((f ≡ false) × (c ≡ false)))
  pub finalizes : (a ≡ finalize) ↔ ((p ≡ true) × ((f ≡ false) × (c ≡ true)))
  pub submits : (a ≡ submit) ↔ ((p ≡ true) × (f ≡ true))

by_evidence :
    (p f c t : Bool)
    → IsNext p f c t (
        if p
        then (if f then submit else if c then finalize else critic)
        else if t
        then validate
        else call)
by_evidence true true c t = record {
  calls = ((λ e. cc), (λ h. cc));
  validates = ((λ e. cc), (λ h. cc));
  criticises = ((λ e. cc), (λ h. cc));
  finalizes = ((λ e. cc), (λ h. cc));
  submits = ((λ _. (refl, refl)), (λ _. refl));
}
by_evidence true false true t = record {
  calls = ((λ e. cc), (λ h. cc));
  validates = ((λ e. cc), (λ h. cc));
  criticises = ((λ e. cc), (λ h. cc));
  finalizes = ((λ _. (refl, (refl, refl))), (λ _. refl));
  submits = ((λ e. cc), (λ h. cc));
}
by_evidence true false false t = record {
  calls = ((λ e. cc), (λ h. cc));
  validates = ((λ e. cc), (λ h. cc));
  criticises = ((λ _. (refl, (refl, refl))), (λ _. refl));
  finalizes = ((λ e. cc), (λ h. cc));
  submits = ((λ e. cc), (λ h. cc));
}
by_evidence false f c true = record {
  calls = ((λ e. cc), (λ h. cc));
  validates = ((λ _. (refl, refl)), (λ _. refl));
  criticises = ((λ e. cc), (λ h. cc));
  finalizes = ((λ e. cc), (λ h. cc));
  submits = ((λ e. cc), (λ h. cc));
}
by_evidence false f c false = record {
  calls = ((λ _. (refl, refl)), (λ _. refl));
  validates = ((λ e. cc), (λ h. cc));
  criticises = ((λ e. cc), (λ h. cc));
  finalizes = ((λ e. cc), (λ h. cc));
  submits = ((λ e. cc), (λ h. cc));
}

resume_allowed :
    (at : String) (job : Job)
    → (job.stage ≡ retry_wait) ⊎ (job.stage ≡ blocked_binding)
    → advance at job (resume_stage job)
      ≡ ok (record job { stage = resume_stage job; updated_at = at })
unfolding advance resume_stage may_go
resume_allowed at job (inl e) = rw e (ground arith)
resume_allowed at job (inr e) = rw e (ground arith)

next_resumed :
    (now : ℕ) (at : String) (job : Job)
    → (job.stage ≡ retry_wait) ⊎ (job.stage ≡ blocked_binding)
    → next_action now (record job { stage = resume_stage job; updated_at = at }) ≡ (
        if has_payload job.candidate
        then (if has_text job.finalizer_digest
            then submit
            else if has_payload job.critic_payload
            then finalize
            else critic)
        else if has_text job.response_text
        then validate
        else call)
unfolding resume_stage next_action
next_resumed now at job (inl e) = rw e (ground arith)
next_resumed now at job (inr e) = rw e (ground arith)

-- A waiting job resumes at a stage that the table allows, and what the worker does there is what
-- the stored evidence asks for, and nothing that it has paid for already: it calls the investigator
-- exactly if neither a candidate nor a response is stored, validates exactly if only the response
-- is, goes to the critic exactly if a candidate is stored with no verdict of the critic and no
-- answer of the finalizer, decides on the critic's verdict exactly if that is stored and the
-- finalizer's answer is not, and submits exactly if the finalizer has answered, all for a stored
-- candidate.
pub resume_from :
    (now : ℕ) (at : String) (job : Job)
    → (job.stage ≡ retry_wait) ⊎ (job.stage ≡ blocked_binding)
    → (advance at job (resume_stage job)
        ≡ ok (record job { stage = resume_stage job; updated_at = at }))
      × IsNext
          (has_payload job.candidate)
          (has_text job.finalizer_digest)
          (has_payload job.critic_payload)
          (has_text job.response_text)
          (next_action now (record job { stage = resume_stage job; updated_at = at }))
resume_from now at job waits = (
  resume_allowed at job waits,
  subst (IsNext _ _ _ _) (sym (next_resumed now at job waits)) (
      by_evidence (has_payload job.candidate) (has_text job.finalizer_digest)
        (has_payload job.critic_payload) (has_text job.response_text)),
)

listed-append_self :
    (r a : String) (l : List (String × String)) → listed (r, a) (l ++ ((r, a) ∷ [])) ≡ true
listed-append_self r a [] = ground (arith, beq_refl r, beq_refl a)
listed-append_self r a ((r', a') ∷ l) = ground (arith, listed-append_self r a l)

-- A calling stage with a recorded attempt and no answer is never called again.
pub next_action-ambiguous :
    (now : ℕ) (r : Role) (job : Job)
    → job.stage ≡ calling_stage r
    → has_text (role_response r job) ≡ false
    → has_attempt (role_name r) job ≡ true
    → next_action now job ≡ ambiguous
unfolding next_action
next_action-ambiguous now investigator job e silent recorded = rw e (ground arith)
next_action-ambiguous now critic_role job e silent recorded = rw e (ground arith)
next_action-ambiguous now finalizer job e silent recorded = rw e (ground arith)

listed-mark :
    (r a : String) (l : List (String × String))
    → listed (r, a) (if listed (r, a) l then l else l ++ ((r, a) ∷ [])) ≡ true
listed-mark r a l = elim (Bool-cases (listed (r, a) l)) [
  | inl old ↦ rw old old
  | inr new ↦ rw new (listed-append_self r a l)
]

has_text-some : (s : String) → s ≢ "" → has_text (some s) ≡ true
has_text-some s h = ground (arith, eq_iff s "")

module _ (h : Hashing) where
  -- What the worker writes before a transport for the role: the identity, marked.
  abbrev pub name_attempt : Role → String → Job → Job
  name_attempt r payload_digest job =
      let (attempt_id, named) = next_attempt_id h job (role_name r) payload_digest in
      mark_ambiguous_attempt named (role_name r) attempt_id

  role_response-name_attempt :
      (r : Role) (d : String) (job : Job)
      → role_response r (name_attempt r d job) ≡ role_response r job
  unfolding next_attempt_id mark_ambiguous_attempt
  role_response-name_attempt investigator d job = refl
  role_response-name_attempt critic_role d job = refl
  role_response-name_attempt finalizer d job = refl

  -- The record that is written before the transport makes a crash visible: with no answer stored,
  -- the restarted worker reports the attempt, by name, and does not call.
  pub attempt_survives_crash :
      (now : ℕ) (r : Role) (job : Job) (payload_digest : String)
      → ((s : String) → h.sha256_32 s ≢ "")
      → job.stage ≡ calling_stage r
      → has_text (role_response r job) ≡ false
      → let job' = name_attempt r payload_digest job in
        (next_action now job' ≡ ambiguous)
        × (listed
              (role_name r, (next_attempt_id h job (role_name r) payload_digest).0)
              job'.ambiguous_attempt_ids
            ≡ true)
  unfolding next_attempt_id mark_ambiguous_attempt
  attempt_survives_crash now r job payload_digest nonempty e silent = (
    next_action-ambiguous now r (name_attempt r payload_digest job) e
        (rw (role_response-name_attempt r payload_digest job) silent)
        (rw (lookup-insert_self (role_name r)) (has_text-some _ (nonempty _))),
    listed-mark (role_name r) _ job.ambiguous_attempt_ids,
  )
