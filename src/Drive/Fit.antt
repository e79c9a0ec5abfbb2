-- ===== src/Drive/Fit.antt =====
-- Jobs that hold what their stage needs, and the moves from them (`_drive_unit` of
-- tools/saipal_analyst/worker.py, `advance` and `resume_stage` of jobs.py).
use saipal.Base.{
  ◌≡◌, refl, ◌≢◌, ◌∙◌, sym, ◌⊎◌, inl, inr, true, false, Option, String, ok, ◌==◌, Bool-cases,
  beq_ne,
}
use mathlib.Core.Path.{subst}
use saipal.Jobs.Stage.{
  Stage, ready, investigator_calling, investigator_response, candidate_ready, critic_calling,
  critic_ready, finalizer_calling, final_ready, submitting, retry_wait, blocked_binding,
  remote_outcome_unknown, Stage-discrete, stage_eq, may_go,
}
use saipal.Jobs.Job.{Job, Payload, has_text, has_payload}
use saipal.Jobs.Advance.{advance}
use saipal.Jobs.Resume.{resume_stage}

-- What a stage needs: before the investigator has answered no answer, and from CANDIDATE_READY on
-- a candidate.
abbrev pub Fits : Stage → Option String → Option Payload → Type 0
Fits ready response candidate = has_text response ≡ false
Fits investigator_calling response candidate = has_text response ≡ false
Fits candidate_ready response candidate = has_payload candidate ≡ true
Fits critic_calling response candidate = has_payload candidate ≡ true
Fits critic_ready response candidate = has_payload candidate ≡ true
Fits finalizer_calling response candidate = has_payload candidate ≡ true
Fits final_ready response candidate = has_payload candidate ≡ true
Fits submitting response candidate = has_payload candidate ≡ true
Fits _ response candidate = Unit

abbrev pub IsFit : Job → Type 0
IsFit j = Fits j.stage j.response_text j.candidate

pub IsFit-at : (j : Job) (s : Stage) → j.stage ≡ s → Fits s j.response_text j.candidate → IsFit j
IsFit-at j s e f = subst (λ t. Fits t j.response_text j.candidate) (sym e) f

pub Fits-at : (j : Job) (s : Stage) → j.stage ≡ s → IsFit j → Fits s j.response_text j.candidate
Fits-at j s e f = subst (λ t. Fits t j.response_text j.candidate) e f

abbrev pub arrive : String → Stage → Job → Job
arrive now to j = record j { stage = to; updated_at = now }

may_go_self : (s : Stage) → may_go s s ≡ false
unfolding may_go
may_go_self ready = refl
may_go_self _ = refl

pub advance_legal :
    (now : String) (j : Job) (s to : Stage)
    → j.stage ≡ s
    → may_go s to ≡ true
    → advance now j to ≡ ok (arrive now to j)
unfolding advance
advance_legal now j s to e legal = rw (apart, subst (λ t. may_go t to ≡ true) (sym e) legal) refl
  where
    apart : (j.stage == to) ≡ false
    apart =
        beq_ne j.stage to
          (λ f. cc (may_go_self to, subst (λ t. may_go t to ≡ true) (sym e ∙ f) legal))

pub advance_stay : (now : String) (j : Job) (to : Stage) → j.stage ≡ to → advance now j to ≡ ok j
unfolding advance
advance_stay now j to e = rw ((stage_eq.beq_iff j.stage to).1 e) refl

-- The two stages that wait for something outside.
abbrev pub Waits : Stage → Type 0
Waits s = (s ≡ retry_wait) ⊎ (s ≡ blocked_binding)

-- Where a waiting job resumes.
pub record Resumes (now : String) (j : Job) : Type 0 where
  pub moves : advance now j (resume_stage j) ≡ ok (arrive now (resume_stage j) j)
  pub fits : Fits (resume_stage j) j.response_text j.candidate
  pub calls_no_critic : resume_stage j ≢ critic_calling

Waits-go :
    (s to : Stage)
    → Waits s
    → (to ≡ ready)
      ⊎ ((to ≡ investigator_response)
          ⊎ ((to ≡ candidate_ready) ⊎ ((to ≡ critic_ready) ⊎ (to ≡ final_ready))))
    → may_go s to ≡ true
unfolding may_go
Waits-go s to (inl e) (inl f) = rw (e, f) refl
Waits-go s to (inl e) (inr (inl f)) = rw (e, f) refl
Waits-go s to (inl e) (inr (inr (inl f))) = rw (e, f) refl
Waits-go s to (inl e) (inr (inr (inr (inl f)))) = rw (e, f) refl
Waits-go s to (inl e) (inr (inr (inr (inr f)))) = rw (e, f) refl
Waits-go s to (inr e) (inl f) = rw (e, f) refl
Waits-go s to (inr e) (inr (inl f)) = rw (e, f) refl
Waits-go s to (inr e) (inr (inr (inl f))) = rw (e, f) refl
Waits-go s to (inr e) (inr (inr (inr (inl f)))) = rw (e, f) refl
Waits-go s to (inr e) (inr (inr (inr (inr f)))) = rw (e, f) refl

Waits-known : (s : Stage) → Waits s → (s == remote_outcome_unknown) ≡ false
unfolding Stage-discrete
Waits-known s (inl e) = rw e refl
Waits-known s (inr e) = rw e refl

module _ (now : String) (j : Job) (w : Waits j.stage) where
  Resumes-at :
      (to : Stage)
      → resume_stage j ≡ to
      → (to ≡ ready)
        ⊎ ((to ≡ investigator_response)
            ⊎ ((to ≡ candidate_ready) ⊎ ((to ≡ critic_ready) ⊎ (to ≡ final_ready))))
      → Fits to j.response_text j.candidate
      → to ≢ critic_calling
      → Resumes now j
  Resumes-at to e k f n = record {
    moves =
        advance_legal now j j.stage (resume_stage j) refl
          (Waits-go j.stage (resume_stage j) w (rw e k));
    fits = subst (λ t. Fits t j.response_text j.candidate) (sym e) f;
    calls_no_critic = λ h. n (sym e ∙ h);
  }

  pub resume_stage-Resumes : Resumes now j
  unfolding resume_stage
  resume_stage-Resumes = elim (Bool-cases (has_payload j.candidate)) [
    | inl c ↦ elim (Bool-cases (has_text j.finalizer_digest)) [
      | inl f ↦ Resumes-at final_ready (rw (c, f) refl) (inr (inr (inr (inr refl)))) c (λ e. cc)
      | inr f ↦ elim (Bool-cases (has_payload j.critic_payload)) [
        | inl p ↦
            Resumes-at critic_ready (rw (c, f, p) refl) (inr (inr (inr (inl refl)))) c (λ e. cc)
        | inr p ↦ Resumes-at candidate_ready (rw (c, f, p) refl) (inr (inr (inl refl))) c (λ e. cc)
      ]
    ]
    | inr c ↦ elim (Bool-cases (has_text j.response_text)) [
      | inl t ↦ Resumes-at investigator_response (rw (c, t) refl) (inr (inl refl)) tt (λ e. cc)
      | inr t ↦ Resumes-at ready (rw (c, t, Waits-known j.stage w) refl) (inl refl) t (λ e. cc)
    ]
  ]
