-- ===== src/Submission/Retry.antt =====
-- A submission that is cut off at any durable state, and then sent again
-- (`_submit_candidate_locked` of tools/saipal_engine/submit.py).
use saipal.Base.{
  ℕ, ◌≡◌, refl, ap, ◌∙◌, Bool, true, false, Option, none, some, List, [], ◌∷◌, ◌++◌, String, ◌==◌,
  string_eq, All, beq_refl, ok,
}
use saipal.Analysis.Event.{Event}
use saipal.Analysis.Episodes.{Episode}
use saipal.Analysis.Session.{Digests, Session, episode_finality}
use saipal.Analysis.Advance.{advance_semantic}
use saipal.Analysis.Forward.{advance_semantic_idem}
use saipal.Submission.Candidate.{
  Candidate, receipt_id, Carrier, in_scope, in_scope-digest, slice_index_of, slice_count_of,
}
use saipal.Submission.Submit.{
  Lifecycle, Home, Submitted, set_nth, reconcile, settle_duplicate, operation_of, open_operation,
  effects_of, receipt_of, close_operation, commit,
}
use saipal.Submission.Address.{
  find_unit-set_nth, set_nth_twice, existing_operation-snoc, existing_operation-retired,
  existing_receipt-snoc,
}
use saipal.Submission.Send.{
  carrier-at, advance-recovered, IsAddressed, carrier_of, IsNew, send, send_fresh, send_duplicate,
}

module _ {L : Type 0} (life : Lifecycle L) (d : Digests) (limit : ℕ)
    (bundle : String → Option (List Event)) (admissible : Candidate → Bool) where
  -- A submission that was sent again: what the files then hold is what they would have held.
  pub record IsConverged (first : Submitted L) (home : Home L) (again : Home L) : Type 0 where
    pub index : again.index ≡ first.home.index
    pub operations : again.operations ≡ first.home.operations
    pub one_receipt :
        (recovered : Bool) × (again.receipts
          ≡ home.receipts ++ (record first.receipt { recovered = recovered } ∷ []))

  -- Sent again from this state, it is accepted and converges.
  abbrev pub Converges : Home L → Candidate → Submitted L → Home L → Type 0
  Converges home c first crashed =
      (again : Submitted L) × (send life d limit bundle admissible crashed c ≡ ok again)
      × IsConverged first home again.home

  module _ (home : Home L) (c : Candidate) (n : ℕ) (s : Session) (e : Episode)
      (a : IsAddressed life d limit bundle admissible home c n s e)
      (f : IsNew life d limit bundle admissible home c s e) where
    abbrev pub unit : Carrier
    unit = carrier_of life d limit bundle admissible c s e

    abbrev key : String
    key = receipt_id d c

    abbrev pub first : Submitted L
    first = commit life d limit home c n s e unit none

    accepted : send life d limit bundle admissible home c ≡ ok first
    accepted =
        send_fresh life d limit bundle admissible home c n s e none a f.no_operation f.no_receipt
          f.scope

    -- The state with the intention, and any state of the lifecycle.
    abbrev intended : L → Home L
    intended l = record (open_operation life d limit home c unit none) { lifecycle = l }

    own_key : (key == key) ≡ true
    own_key = beq_refl key

    same_digest : (unit.unit_digest == c.unit_digest) ≡ true
    same_digest = in_scope-digest c unit f.scope

    resumed :
        (l : L)
        → send life d limit bundle admissible (intended l) c
          ≡ ok (
              commit life d limit
                (intended l)
                c
                n
                s
                e
                unit
                (some (operation_of life d limit c unit)))
    resumed l =
        send_fresh life d limit bundle admissible (intended l) c n s e
          (some (operation_of life d limit c unit))
          (record { shape = a.shape; found = a.found; imported = a.imported })
          (existing_operation-snoc home.operations (operation_of life d limit c unit) key
            f.no_operation own_key)
          f.no_receipt same_digest

    -- The lifecycle names the same finding and audit when it is given a verdict again.
    abbrev Steady : L → Type 0
    Steady l =
        (effects_of life d limit c s e unit l).0
        ≡ (effects_of life d limit c s e unit home.lifecycle).0

    resume-Converges : (l : L) → Steady l → Converges home c first (intended l)
    unfolding commit reconcile
    resume-Converges l steady = (
      _,
      resumed l,
      record {
        index =
            ap
              (λ p.
                set_nth n
                  (advance_semantic d s e (episode_finality s e)
                    (home.receipts ++ (receipt_of life d limit c s e unit true p ∷ []))
                    (slice_index_of unit.slice) (slice_count_of unit.slice))
                  home.index)
              steady
            ∙ ap (λ t. set_nth n t home.index)
                (advance-recovered d s e (episode_finality s e) home.receipts first.receipt true
                  (slice_index_of unit.slice) (slice_count_of unit.slice));
        operations = refl;
        one_receipt = (
          true,
          ap (λ p. home.receipts ++ (receipt_of life d limit c s e unit true p ∷ [])) steady,
        );
      },
    )

    -- The state with the receipt, before the position is saved.
    abbrev closed : Home L
    closed =
        let (named, after) = effects_of life d limit c s e unit home.lifecycle in
        close_operation life d limit
          (record (open_operation life d limit home c unit none) { lifecycle = after })
          (receipt_of life d limit c s e unit false named)

    closed-Converges : Converges home c first closed
    unfolding settle_duplicate reconcile commit
    closed-Converges = (
      _,
      send_duplicate life d limit bundle admissible closed c n s e none first.receipt
          (record { shape = a.shape; found = a.found; imported = a.imported })
          (existing_operation-retired (home.operations ++ (operation_of life d limit c unit ∷ []))
            key)
          (existing_receipt-snoc home.receipts first.receipt key f.no_receipt own_key) f.scope,
      record { index = refl; operations = refl; one_receipt = (false, refl) },
    )

    done-Converges : Converges home c first first.home
    unfolding settle_duplicate reconcile commit advance_semantic
    done-Converges =
        let r = first.receipt in
        let moved = advance_semantic d s e r.finality closed.receipts r.slice_index r.slice_count in
        (
          _,
          send_duplicate life d limit bundle admissible first.home c n moved e none r
              (record {
                shape = a.shape;
                found =
                    find_unit-set_nth home.index c.session_id c.episode_index n s (some e)
                      moved.semantic a.found;
                imported = a.imported;
              })
              (existing_operation-retired
                (home.operations ++ (operation_of life d limit c unit ∷ [])) key)
              (existing_receipt-snoc home.receipts r key f.no_receipt own_key)
              (ap (in_scope c)
                  (carrier-at d limit (bundle s.bundle_sha256) s e c.slice_index moved.semantic)
                ∙ f.scope),
          record {
            index =
                set_nth_twice n moved _ home.index
                ∙ ap (λ t. set_nth n t home.index)
                    (advance_semantic_idem d s e r.finality closed.receipts r.slice_index
                      r.slice_count);
            operations = refl;
            one_receipt = (false, refl);
          },
        )

    -- A candidate of a unit in scope, for which no receipt and no intention is recorded, is accepted.
    -- Cut off at any durable state on the way, or after the last, and sent again, it is accepted
    -- again, and the files then hold what they would have held: the same positions, the same open
    -- intentions, and the one receipt, which may be marked as recovered. The lifecycle is assumed
    -- to name the same finding and audit for a verdict that it was given before.
    pub submit-Converges :
        ((l : L)
          → (effects_of life d limit c s e unit (effects_of life d limit c s e unit l).1).0
            ≡ (effects_of life d limit c s e unit l).0)
        → (send life d limit bundle admissible home c ≡ ok first)
          × All (Converges home c first) (first.saved ++ (first.home ∷ []))
    unfolding commit
    submit-Converges again = (
      accepted,
      (
        resume-Converges home.lifecycle refl,
        (
          resume-Converges (effects_of life d limit c s e unit home.lifecycle).1
              (again home.lifecycle),
          (closed-Converges, (done-Converges, tt)),
        ),
      ),
    )
