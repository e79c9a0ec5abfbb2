-- ===== src/Submission/Send.antt =====
-- When a candidate is accepted, and by which path (`_submit_candidate_locked` of tools/saipal_engine/submit.py).
use saipal.Base.{
  ℕ, ◌≡◌, ◌≢◌, refl, sym, ap, ◌∙◌, inl, inr, Bool, true, false, Option, none, some, List, [], ◌∷◌,
  ◌++◌, String, ◌==◌, string_eq, arith, Bool-cases, Result, ok, err, PalError, eq_iff,
}
use saipal.Analysis.Event.{Event}
use saipal.Analysis.Episodes.{Episode}
use saipal.Analysis.Session.{Digests, Finality, Session, Semantic, find_unit, unit_digest}
use saipal.Analysis.Advance.{Receipt, advance_semantic, verdict_drift, verdict_insufficient}
use saipal.Submission.Defence.{unaddressed}
use saipal.Submission.Candidate.{
  Candidate, receipt_id, Carrier, build_carrier, in_scope, in_scope-digest, is_empty,
}
use saipal.Submission.Submit.{
  Operation, Lifecycle, Home, Submitted, existing_operation, existing_receipt, admits,
  settle_duplicate, commit, submit_unit, submit_found, submit_candidate, verdict_of, is_downgraded,
  no_rules,
}
use saipal.Submission.Address.{at_position, tallies-recovered}

pub advance-recovered :
    (d : Digests) (s : Session) (e : Episode) (f : Finality) (rs : List Receipt) (r : Receipt)
    (b : Bool) (slice_index count : ℕ)
    → advance_semantic d s e f (rs ++ (record r { recovered = b } ∷ [])) slice_index count
      ≡ advance_semantic d s e f (rs ++ (r ∷ [])) slice_index count
unfolding advance_semantic
advance-recovered d s e f rs r b slice_index count = rw (tallies-recovered rs r b s.session_id) refl

-- A verdict that stays a drift was one, and nothing downgraded it.
kept_drift :
    (c : Candidate) (unit : Carrier)
    → verdict_of c unit ≡ verdict_drift
    → ((c.verdict == verdict_drift) ≡ true) × (is_downgraded c unit ≡ false)
kept_drift c unit h = elim (Bool-cases (is_downgraded c unit)) [
  | inl down ↦ let wrong = (eq_iff verdict_insufficient verdict_drift).1 (rw down at h) in cc
  | inr kept ↦ let same = rw kept at h in ((eq_iff c.verdict verdict_drift).1 same, kept)
]

grounds :
    (c : Candidate) (unit : Carrier)
    → in_scope c unit ≡ true
    → (c.verdict == verdict_drift) ≡ true
    → is_downgraded c unit ≡ false
    → (c.rule_ids ≢ [])
      × (unit.binding_status ≡ "BOUND")
      × (unaddressed c.addressed_defences unit.defences ≡ [])
unfolding in_scope
grounds c unit scope drift kept =
    let named : no_rules c.rule_ids ≡ false = ground arith in
    let bound : (unit.binding_status == "BOUND") ≡ true = ground arith in
    let missing = unaddressed c.addressed_defences unit.defences in
    let answered : is_empty missing ≡ true = ground arith in
    (
      some_rule c.rule_ids named,
      (eq_iff unit.binding_status "BOUND").0 bound,
      none_missing missing answered,
    )
  where
    some_rule : (xs : List String) → no_rules xs ≡ false → xs ≢ []
    some_rule [] h = cc
    some_rule (x ∷ xs) h = λ e. cc

    none_missing : (xs : List String) → is_empty xs ≡ true → xs ≡ []
    none_missing [] h = refl
    none_missing (x ∷ xs) h = cc

-- The carrier does not depend on the position.
pub carrier-at :
    (d : Digests) (limit : ℕ) (events : Option (List Event)) (s : Session) (e : Episode)
    (slice_index : Option ℕ) (x : Option Semantic)
    → build_carrier d limit events (at_position s x) e slice_index
      ≡ build_carrier d limit events s e slice_index
unfolding build_carrier unit_digest
carrier-at d limit none s e slice_index x = refl
carrier-at d limit (some events) s e slice_index x = refl

module _ {L : Type 0} (life : Lifecycle L) (d : Digests) (limit : ℕ)
    (bundle : String → Option (List Event)) (admissible : Candidate → Bool) where
  -- The unit of a candidate, in the index of a home.
  pub record IsAddressed (home : Home L) (c : Candidate) (n : ℕ) (s : Session) (e : Episode)
      : Type 0 where
    pub shape : admissible c ≡ true
    pub found : find_unit home.index c.session_id c.episode_index ≡ some (n, s, some e)
    pub imported : (s.status == "IMPORTED") ≡ true

  abbrev pub carrier_of : Candidate → Session → Episode → Carrier
  carrier_of c s e = build_carrier d limit (bundle s.bundle_sha256) s e c.slice_index

  -- A candidate of a unit in scope, that nothing was recorded for.
  pub record IsNew (home : Home L) (c : Candidate) (s : Session) (e : Episode) : Type 0 where
    pub scope : in_scope c (carrier_of c s e) ≡ true
    pub no_operation : existing_operation home.operations (receipt_id d c) ≡ none
    pub no_receipt : existing_receipt home.receipts (receipt_id d c) ≡ none

  abbrev pub send : Home L → Candidate → Result (Submitted L)
  send home c = submit_candidate life d limit bundle admissible home c

  pub send_addressed :
      (home : Home L) (c : Candidate) (n : ℕ) (s : Session) (e : Episode)
      → IsAddressed home c n s e
      → send home c ≡ submit_unit life d limit bundle admissible home c n s e
  unfolding submit_candidate
  send_addressed home c n s e a = rw (a.shape, a.found, a.imported) refl

  pub send_fresh :
      (home : Home L) (c : Candidate) (n : ℕ) (s : Session) (e : Episode) (op : Option Operation)
      → IsAddressed home c n s e
      → existing_operation home.operations (receipt_id d c) ≡ op
      → existing_receipt home.receipts (receipt_id d c) ≡ none
      → admits op c (carrier_of c s e) ≡ true
      → send home c ≡ ok (commit life d limit home c n s e (carrier_of c s e) op)
  send_fresh home c n s e op a o r admitted = send_addressed home c n s e a ∙ fresh
    where
      fresh :
          submit_unit life d limit bundle admissible home c n s e
          ≡ ok (commit life d limit home c n s e (carrier_of c s e) op)
      fresh = unfold submit_unit in rw (r, o, admitted) refl

  pub send_duplicate :
      (home : Home L) (c : Candidate) (n : ℕ) (s : Session) (e : Episode) (op : Option Operation)
      (r : Receipt)
      → IsAddressed home c n s e
      → existing_operation home.operations (receipt_id d c) ≡ op
      → existing_receipt home.receipts (receipt_id d c) ≡ some r
      → admits op c (carrier_of c s e) ≡ true
      → send home c ≡ ok (settle_duplicate life d limit home n s e r)
  send_duplicate home c n s e op r a o q admitted = send_addressed home c n s e a ∙ duplicate
    where
      duplicate :
          submit_unit life d limit bundle admissible home c n s e
          ≡ ok (settle_duplicate life d limit home n s e r)
      duplicate = unfold submit_unit in rw (q, o, admitted) refl

  -- What a recorded drift stands on: the unit that it names, and its grounds.
  pub record IsGrounded (home : Home L) (c : Candidate) : Type 0 where
    pub place : ℕ
    pub session : Session
    pub episode : Episode
    pub found :
        find_unit home.index c.session_id c.episode_index ≡ some (place, session, some episode)
    pub imported : (session.status == "IMPORTED") ≡ true
    pub shape : admissible c ≡ true
    pub of_the_unit : c.unit_digest ≡ (carrier_of c session episode).unit_digest
    pub rules : c.rule_ids ≢ []
    pub bound : (carrier_of c session episode).binding_status ≡ "BOUND"
    pub answered : unaddressed c.addressed_defences (carrier_of c session episode).defences ≡ []

  module _ (home : Home L) (c : Candidate) (sub : Submitted L)
      (intended : existing_operation home.operations (receipt_id d c) ≡ none)
      (fresh : sub.duplicate ≡ false) (drift : sub.receipt.verdict ≡ verdict_drift) where
    accepted_unit :
        (n : ℕ) (s : Session) (e : Episode)
        → submit_unit life d limit bundle admissible home c n s e ≡ ok sub
        → (in_scope c (carrier_of c s e) ≡ true)
          × ((verdict_of c (carrier_of c s e)) ≡ verdict_drift)
    unfolding submit_unit commit settle_duplicate
    accepted_unit n s e r = elim (Bool-cases (in_scope c (carrier_of c s e))) [
      | inl scope ↦ (
        scope,
        decided (existing_receipt home.receipts (receipt_id d c)) (rw (intended, scope) at r),
      )
      | inr out ↦ absurd (refuses (rw (intended, out) at r))
    ]
      where
        refuses : {x : PalError} → err x ≡ ok sub → ⊥
        refuses k = cc

        same : {x : Submitted L} → ok x ≡ ok sub → x ≡ sub
        same k = cc

        decided :
            (q : Option Receipt)
            → elim q [
              | none ↦ ok (
                  commit life d limit home c n s e
                    (carrier_of c s e)
                    (existing_operation home.operations (receipt_id d c)))
              | some x ↦ ok (settle_duplicate life d limit home n s e x)
            ]
              ≡ ok sub
            → verdict_of c (carrier_of c s e) ≡ verdict_drift
        decided none k = ap (λ (x : Submitted L). x.receipt.verdict) (same k) ∙ drift
        decided (some x) k = absurd (old (ap (λ (y : Submitted L). y.duplicate) (same k) ∙ fresh))
          where
            old : true ≡ false → ⊥
            old f = cc

    accepted_found :
        (o : Option (ℕ × Session × Option Episode))
        → admissible c ≡ true
        → find_unit home.index c.session_id c.episode_index ≡ o
        → submit_found life d limit bundle admissible home c o ≡ ok sub
        → IsGrounded home c
    accepted_found none shape f r = absurd (refuses r)
      where
        refuses : {x : PalError} → err x ≡ ok sub → ⊥
        refuses k = cc
    accepted_found (some (n, s, none)) shape f r = absurd (refuses r)
      where
        refuses : {x : PalError} → err x ≡ ok sub → ⊥
        refuses k = cc
    accepted_found (some (n, s, some e)) shape f r = elim (Bool-cases (s.status == "IMPORTED")) [
      | inr away ↦ absurd (refuses (rw away at r))
      | inl imported ↦
          let (scope, kept) = accepted_unit n s e (rw imported at r) in
          let (drifts, whole) = kept_drift c (carrier_of c s e) kept in
          let (named, bound, answered) = grounds c (carrier_of c s e) scope drifts whole in
          record {
            place = n;
            session = s;
            episode = e;
            found = f;
            imported = imported;
            shape = shape;
            of_the_unit = sym (
                (eq_iff (carrier_of c s e).unit_digest c.unit_digest).0
                  (in_scope-digest c (carrier_of c s e) scope));
            rules = named;
            bound = bound;
            answered = answered;
          }
    ]
      where
        refuses : {x : PalError} → err x ≡ ok sub → ⊥
        refuses k = cc

  -- An accepted submission that is no repetition (its receipt was not there, and no earlier
  -- submission had left an intention with its key, which would be admitted by that) and whose
  -- receipt says drift has grounds: the candidate is well-formed and of the unit that the index has
  -- under its name, in an imported session; it names a rule; the unit stands on a bound protocol;
  -- and every mitigation that the evidence raises is answered.
  pub drift_has_grounds :
      (home : Home L) (c : Candidate) (sub : Submitted L)
      → existing_operation home.operations (receipt_id d c) ≡ none
      → send home c ≡ ok sub
      → sub.duplicate ≡ false
      → sub.receipt.verdict ≡ verdict_drift
      → IsGrounded home c
  unfolding submit_candidate
  drift_has_grounds home c sub intended r fresh drift = elim (Bool-cases (admissible c)) [
    | inl shape ↦
        accepted_found home c sub intended fresh drift
          (find_unit home.index c.session_id c.episode_index) shape refl (rw shape at r)
    | inr loose ↦ cc (rw loose at r)
  ]
