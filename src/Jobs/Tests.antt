-- ===== src/Jobs/Tests.antt =====
-- Runs of the job journal and its theorems at concrete jobs.
use saipal.Base.{
  ◌≡◌, refl, ◌≢◌, none, some, [], ◌∷◌, String, ok, err, validation_failed, arith, inl, eq_iff,
}
use saipal.Jobs.Stage.{
  Stage, critic_calling, submitting, done, retry_wait, parse_stage, Stage-discrete, may_go,
}
use saipal.Jobs.Job.{Job, WorkUnit, Hashing, new_job, has_payload, has_text}
use saipal.Jobs.Advance.{advance}
use saipal.Base.{string_eq}
use saipal.Jobs.Compaction.{compact_done_jobs}
use saipal.Jobs.Resume.{resume_stage, next_action}
use saipal.Jobs.Restart.{IsNext, resume_from}

-- A stand-in for SHA-256 and the decimal text.
abbrev tag : Hashing
tag = record { decimal = λ n. "1"; sha256_32 = λ s. "c0ffee" }

tag_nonempty : (s : String) → tag.sha256_32 s ≢ ""
tag_nonempty s = ground (arith, eq_iff "c0ffee" "")

abbrev unit : WorkUnit
unit = record {
  session_id = "ses";
  episode_index = 1;
  slice_index = 0;
  unit_digest = "d1";
  finality = "FINAL";
  backend_type = "openai_compatible";
  model = "m";
  run_id = "run";
}

job : Job
unfolding new_job
job = new_job tag "t0" unit

at_stage : Stage → Job
unfolding job
at_stage s = record job { stage = s }

-- The kernel's refusal of a submission is to be retried, and the table has no such move.
submitting_cannot_wait : advance "t1" (at_stage submitting) retry_wait ≡ err validation_failed
unfolding advance may_go at_stage Stage-discrete
submitting_cannot_wait = refl

read_back : parse_stage "CRITIC_CALLING" ≡ some critic_calling
unfolding parse_stage
read_back = refl

legacy_calling : parse_stage "CALLING" ≡ none
unfolding parse_stage
legacy_calling = refl

answered : Job
unfolding at_stage
answered = record (at_stage retry_wait) { response_text = some "{}" }

resume_from_example :
    (advance "t1" answered (resume_stage answered)
      ≡ ok (record answered { stage = resume_stage answered; updated_at = "t1" }))
    × IsNext
        (has_payload answered.candidate)
        (has_text answered.finalizer_digest)
        (has_payload answered.critic_payload)
        (has_text answered.response_text)
        (next_action 7 (record answered { stage = resume_stage answered; updated_at = "t1" }))
resume_from_example = resume_from 7 "t1" answered (inl (unfold answered in refl))

settled_job : Job
unfolding job
settled_job = record job { stage = done; response_text = some "{}"; receipt_id = some "r1" }

one_compacted : (compact_done_jobs "t1" (some ("r1" ∷ [])) (("j", settled_job) ∷ [])).1 ≡ 1
unfolding compact_done_jobs settled_job
one_compacted = refl
