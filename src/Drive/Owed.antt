-- ===== src/Drive/Owed.antt =====
-- The answers that a job still lacks, and what each step of a drive pays for
-- (`call_role`, `validate_with_repair` and `_transport_failure` of tools/saipal_analyst/worker.py).
use saipal.Base.{ℕ, ◌+◌, ◌-◌, ◌≡◌, refl, ap, Bool, true, false, some, String, if◌then◌else◌, arith}
use saipal.Jobs.Job.{Job, Payload, has_text}
use saipal.Jobs.Resume.{Role, investigator, critic_role, finalizer, role_response}
use saipal.Worker.Call.{World, replied}
use saipal.Drive.State.{Env}
use saipal.Drive.Steps.{repair_text, repairs_of, keep_repair, max_repairs, adopt}
use saipal.Drive.Roles.{keep_raw, keep_response, source_digest, keep_critic, keep_finalizer}
use saipal.Drive.Unit.{seal, due_later, count_refusal}
use saipal.Drive.Frame.{strip}
use saipal.Drive.Answered.{core}

-- A role owes its answer until one is stored, and one repair until that is stored.
abbrev pub due_call : Role → Job → ℕ
due_call role j = if has_text (role_response role j) then 0 else 1

abbrev pub due_repair : Role → Job → ℕ
due_repair role j = if has_text (repair_text role j) then 0 else max_repairs - repairs_of role j

abbrev pub owed_by : Role → Job → ℕ
owed_by role j = due_call role j + due_repair role j

unfoldable pub owed : Job → ℕ
owed j = owed_by investigator j + owed_by critic_role j + owed_by finalizer j

pub owed-core : (j k : Job) → core j ≡ core k → owed j ≡ owed k
unfolding owed
owed-core j k e = ap owed e

pub owed-strip : (j k : Job) → strip j ≡ strip k → owed j ≡ owed k
unfolding owed
owed-strip j k e = ap owed e

-- A repair that was missing is paid for.
paid_repair : (b : Bool) (n : ℕ) → (if b then 0 else max_repairs - (n + 1)) ≡ 0
paid_repair b n = ground arith

missing_repair : (b : Bool) (n : ℕ) → b ≡ false → n ≡ 0 → (if b then 0 else max_repairs - n) ≡ 1
missing_repair b n h e = ground arith

missing_call : (b : Bool) → b ≡ false → (if b then 0 else 1) ≡ ◌+◌ 0 1
missing_call b h = ground arith

paid_call : (b : Bool) → b ≡ true → (if b then 0 else 1) ≡ ◌+◌ 0 0
paid_call b h = ground arith

pub keep_repair-owed :
    (role : Role) (text : String) (j : Job)
    → has_text (repair_text role j) ≡ false
    → repairs_of role j ≡ 0
    → owed (keep_repair role text j) + 1 ≡ owed j
unfolding owed
keep_repair-owed investigator text j h n =
    omega (arith, paid_repair (has_text (some text)) j.investigator_repairs, missing_repair _ _ h n)
keep_repair-owed critic_role text j h n =
    omega (arith, paid_repair (has_text (some text)) j.critic_repairs, missing_repair _ _ h n)
keep_repair-owed finalizer text j h n =
    omega (arith, paid_repair (has_text (some text)) j.finalizer_repairs, missing_repair _ _ h n)

-- An answer that was missing is paid for.
pub keep_raw-owed :
    (role : Role) (text : String) (j : Job)
    → has_text (role_response role j) ≡ false
    → has_text (some text) ≡ true
    → owed (keep_raw role text j) + 1 ≡ owed j
unfolding owed
keep_raw-owed investigator text j h t =
    omega (arith, paid_call (has_text (some text)) t, missing_call (has_text j.response_text) h)
keep_raw-owed critic_role text j h t =
    omega
      (arith, paid_call (has_text (some text)) t, missing_call (has_text j.critic_response_text) h)
keep_raw-owed finalizer text j h t =
    omega (
      arith,
      paid_call (has_text (some text)) t,
      missing_call (has_text j.finalizer_response_text) h,
    )

-- A provider that does not answer with an empty text.
abbrev pub Speaks : World → Type 0
Speaks w = (text : String) (i o : ℕ) → w.reply ≡ replied text i o → has_text (some text) ≡ true

-- What a call's notes leave of a role's answers.
pub role-strip :
    (role : Role) (j k : Job)
    → strip j ≡ strip k
    → (role_response role j ≡ role_response role k)
      × (repair_text role j ≡ repair_text role k)
      × (repairs_of role j ≡ repairs_of role k)
role-strip investigator j k e = (
  ap (λ (x : Job). x.response_text) e,
  ap (λ (x : Job). x.investigator_repair_text) e,
  ap (λ (x : Job). x.investigator_repairs) e,
)
role-strip critic_role j k e = (
  ap (λ (x : Job). x.critic_response_text) e,
  ap (λ (x : Job). x.critic_repair_text) e,
  ap (λ (x : Job). x.critic_repairs) e,
)
role-strip finalizer j k e = (
  ap (λ (x : Job). x.finalizer_response_text) e,
  ap (λ (x : Job). x.finalizer_repair_text) e,
  ap (λ (x : Job). x.finalizer_repairs) e,
)

pub keep_repair-stage :
    (role : Role) (text : String) (j : Job) → (keep_repair role text j).stage ≡ j.stage
keep_repair-stage investigator text j = refl
keep_repair-stage critic_role text j = refl
keep_repair-stage finalizer text j = refl

pub keep_raw-stage :
    (role : Role) (text : String) (j : Job) → (keep_raw role text j).stage ≡ j.stage
keep_raw-stage investigator text j = refl
keep_raw-stage critic_role text j = refl
keep_raw-stage finalizer text j = refl

-- What a drive writes beside the answers changes no debt.
module _ (env : Env) (j : Job) where
  pub keep_response-owed :
      (text : String) → owed (keep_response env text j) ≡ owed (keep_raw investigator text j)
  unfolding owed
  keep_response-owed text = refl

  pub adopt-owed : (v : Payload) → owed (adopt env v j) ≡ owed j
  unfolding owed
  adopt-owed v = refl

  pub source_digest-owed : owed (source_digest env j) ≡ owed j
  unfolding owed
  source_digest-owed = refl

  pub keep_critic-owed : (v : Payload) → owed (keep_critic env v j) ≡ owed j
  unfolding owed
  keep_critic-owed v = refl

  pub keep_finalizer-owed : owed (keep_finalizer env j) ≡ owed j
  unfolding owed
  keep_finalizer-owed = refl

  pub seal-owed : owed (seal env j) ≡ owed j
  unfolding owed
  seal-owed = refl

  pub due_later-owed : owed (due_later env (count_refusal j)) ≡ owed j
  unfolding owed
  due_later-owed = refl

  pub count_refusal-owed : owed (count_refusal j) ≡ owed j
  unfolding owed
  count_refusal-owed = refl
