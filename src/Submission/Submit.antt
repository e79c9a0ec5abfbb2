-- ===== src/Submission/Submit.antt =====
-- One candidate validated and absorbed, with the states that are durable on the way
-- (`submit_candidate` and `_submit_candidate_locked` of tools/saipal_engine/submit.py).
use saipal.Base.{
  ℕ, zero, suc, Bool, true, false, not, ◌&&◌, ◌||◌, Option, none, some, List, [], ◌∷◌, ◌++◌, String,
  ◌==◌, string_eq, if◌then◌else◌, keep_if, Result, ok, err, candidate_inadmissible,
  candidate_out_of_scope, evidence_not_found, session_conflict,
}
use saipal.Analysis.Event.{Event}
use saipal.Analysis.Episodes.{Episode}
use saipal.Analysis.Session.{Digests, Finality, Session, episode_finality, find_unit}
use saipal.Analysis.Advance.{Receipt, verdict_drift, verdict_insufficient, advance_semantic}
use saipal.Submission.Candidate.{
  Candidate, receipt_id, Carrier, build_carrier, in_scope, slice_index_of, slice_count_of,
}

-- An intention: the unit and the candidate that a submission was admitted with.
pub record Operation : Type 0 where
  pub receipt_id : String
  pub session_id : String
  pub episode_index : ℕ
  pub slice_index : ℕ
  pub verdict : String
  pub unit_digest : String

-- What the lifecycle of findings does with a verdict, on its own state.
pub record Lifecycle (L : Type 0) : Type 0 where
  pub absorb_drift : Candidate → Session → Finality → String → L → (Option String × Option ℕ) × L
  pub record_negative : Session → String → L → L
  pub link_finding_audit : Option String → ℕ → L → L

-- The files that a submission reads and writes.
pub record Home (L : Type 0) : Type 0 where
  pub receipts : List Receipt
  pub operations : List Operation
  pub index : List Session
  pub lifecycle : L

-- An accepted submission: its receipt, and every state that was durable, the last one apart.
pub record Submitted (L : Type 0) : Type 0 where
  pub receipt : Receipt
  pub duplicate : Bool
  pub saved : List (Home L)
  pub home : Home L

abbrev pub existing_operation : List Operation → String → Option Operation
existing_operation [] key = none
existing_operation (op ∷ ops) key =
    if op.receipt_id == key then some op else existing_operation ops key

abbrev pub existing_receipt : List Receipt → String → Option Receipt
existing_receipt [] key = none
existing_receipt (r ∷ rs) key = if r.receipt_id == key then some r else existing_receipt rs key

-- An intention with this key admits the unit that it was opened for; without one, the scope does.
abbrev pub admits : Option Operation → Candidate → Carrier → Bool
admits none c unit = in_scope c unit
admits (some op) c unit = unit.unit_digest == op.unit_digest

abbrev pub no_rules : List String → Bool
no_rules [] = true
no_rules (_ ∷ _) = false

-- A drift that names no rule, or whose unit has no bound protocol, is no drift.
abbrev pub is_downgraded : Candidate → Carrier → Bool
is_downgraded c unit =
    c.verdict == verdict_drift && (no_rules c.rule_ids || not (unit.binding_status == "BOUND"))

abbrev pub verdict_of : Candidate → Carrier → String
verdict_of c unit = if is_downgraded c unit then verdict_insufficient else c.verdict

abbrev pub set_nth {ℓ} : {A : Type ℓ} → ℕ → A → List A → List A
set_nth n y [] = []
set_nth zero y (x ∷ xs) = y ∷ xs
set_nth (suc n) y (x ∷ xs) = x ∷ set_nth n y xs

abbrev pub is_given_op : Option Operation → Bool
is_given_op none = false
is_given_op (some _) = true

module _ {L : Type 0} (life : Lifecycle L) (d : Digests) (limit : ℕ) where
  -- The index with the position moved by a receipt: the same for a fresh one and a duplicate.
  unfoldable pub reconcile : Home L → ℕ → Session → Episode → Receipt → Home L
  reconcile home n s e entry = record home {
    index =
        set_nth n
          (advance_semantic d s e entry.finality home.receipts entry.slice_index entry.slice_count)
          home.index;
  }

  -- The link of an emitted audit is repaired before a duplicate counts as converged.
  abbrev pub relink : Receipt → L → L
  relink r l = elim r.audit [ none ↦ l | some audit ↦ life.link_finding_audit r.finding_id audit l ]

  unfoldable pub settle_duplicate : Home L → ℕ → Session → Episode → Receipt → Submitted L
  settle_duplicate home n s e r =
      let linked = record home { lifecycle = relink r home.lifecycle } in
      record { receipt = r; duplicate = true; saved = linked ∷ []; home = reconcile linked n s e r }

  abbrev pub operation_of : Candidate → Carrier → Operation
  operation_of c unit = record {
    receipt_id = receipt_id d c;
    session_id = c.session_id;
    episode_index = c.episode_index;
    slice_index = slice_index_of unit.slice;
    verdict = verdict_of c unit;
    unit_digest = c.unit_digest;
  }

  -- The intention is durable before the effects that it protects.
  abbrev pub open_operation : Home L → Candidate → Carrier → Option Operation → Home L
  open_operation home c unit (some op) = home
  open_operation home c unit none = record home {
    operations = home.operations ++ (operation_of c unit ∷ []);
  }

  -- What the lifecycle makes of the verdict.
  abbrev pub effects_of :
      Candidate → Session → Episode → Carrier → L → (Option String × Option ℕ) × L
  effects_of c s e unit l =
      if verdict_of c unit == verdict_drift
      then life.absorb_drift c s (episode_finality s e) (receipt_id d c) l
      else ((none, none), life.record_negative s (receipt_id d c) l)

  abbrev pub receipt_of :
      Candidate → Session → Episode → Carrier → Bool → Option String × Option ℕ → Receipt
  receipt_of c s e unit recovered (finding_id, audit) = record {
    receipt_id = receipt_id d c;
    verdict = verdict_of c unit;
    session_id = c.session_id;
    episode_index = c.episode_index;
    slice_index = slice_index_of unit.slice;
    slice_count = slice_count_of unit.slice;
    finality = episode_finality s e;
    finding_id = finding_id;
    audit = audit;
    recovered = recovered;
    attempted_verdict = if is_downgraded c unit then some verdict_drift else none;
  }

  -- The receipt is the completion: it retires the intention in the same write.
  abbrev pub close_operation : Home L → Receipt → Home L
  close_operation home r = record home {
    receipts = home.receipts ++ (r ∷ []);
    operations = keep_if (λ op. not (op.receipt_id == r.receipt_id)) home.operations;
  }

  unfoldable pub commit :
      Home L → Candidate → ℕ → Session → Episode → Carrier → Option Operation → Submitted L
  commit home c n s e unit op =
      let opened = open_operation home c unit op in
      let (named, after) = effects_of c s e unit opened.lifecycle in
      let effected = record opened { lifecycle = after } in
      let r = receipt_of c s e unit (is_given_op op) named in
      let closed = close_operation effected r in
      record {
        receipt = r;
        duplicate = false;
        saved = opened ∷ effected ∷ closed ∷ [];
        home = reconcile closed n s e r;
      }

  module _ (bundle : String → Option (List Event)) (admissible : Candidate → Bool) where
    unfoldable pub submit_unit : Home L → Candidate → ℕ → Session → Episode → Result (Submitted L)
    submit_unit home c n s e =
        let unit = build_carrier d limit (bundle s.bundle_sha256) s e c.slice_index in
        let key = receipt_id d c in
        let op = existing_operation home.operations key in
        if admits op c unit
        then elim (existing_receipt home.receipts key) [
          | none ↦ ok (commit home c n s e unit op)
          | some r ↦ ok (settle_duplicate home n s e r)
        ]
        else err candidate_out_of_scope

    abbrev pub submit_found :
        Home L → Candidate → Option (ℕ × Session × Option Episode) → Result (Submitted L)
    submit_found home c none = err evidence_not_found
    submit_found home c (some (n, s, none)) = err evidence_not_found
    submit_found home c (some (n, s, some e)) =
        if s.status == "IMPORTED" then submit_unit home c n s e else err session_conflict

    unfoldable pub submit_candidate : Home L → Candidate → Result (Submitted L)
    submit_candidate home c =
        if admissible c
        then submit_found home c (find_unit home.index c.session_id c.episode_index)
        else err candidate_inadmissible
