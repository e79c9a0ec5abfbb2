-- ===== src/Fairness/Claims.antt =====
-- What one session's claim is after each operation (tools/saipal_analyst/fairness.py).
use saipal.Base.{
  ◌≡◌, refl, ◌∙◌, ◌≢◌, sym, Bool, true, false, Option, none, some, [], ◌∷◌, String, ◌==◌, string_eq,
  nat_eq, Option-cases, Bool-cases, inl, inr, eq_iff, ne_of_beq, ◌⊎◌,
}
use saipal.Base.Dict.{Dict, lookup, NodupKeys, lookup-insert_ne, lookup-insert_self}
use saipal.Fairness.Queue.{
  Claim, Sessions, Scan, mint, scan_claim, scan_one, scan_all, is_eligible, clear_claim, retire,
  no_claim,
}

-- What `retire` makes of the claim that is found.
abbrev pub retired : Bool → Option Claim → Option Claim
retired true found = found
retired false none = none
retired false (some c) = some (clear_claim c)

pub lookup-retire :
    (eligible : Dict String String) (x : String) (sessions : Sessions)
    → lookup x (retire eligible sessions) ≡ retired (is_eligible eligible x) (lookup x sessions)
unfolding retire
lookup-retire eligible x [] = elim (Bool-cases (is_eligible eligible x)) [
  | inl e ↦ rw e refl
  | inr e ↦ rw e refl
]
lookup-retire eligible x ((k, c) ∷ rest) = elim (Bool-cases (x == k)) [
  | inl same ↦
      rw (same, (eq_iff x k).0 same)
        (elim (Bool-cases (is_eligible eligible k)) [ inl e ↦ rw e refl | inr e ↦ rw e refl ])
  | inr other ↦ rw other (lookup-retire eligible x rest)
]

-- A scan step leaves a session that waits for this unit, and mints for any other.
pub scan_one_view :
    (s : Scan) (a digest : String)
    → ((c : Claim) × (scan_one s a digest ≡ s)
        × (lookup a s.sessions ≡ some c)
        × (c.current_unit_digest ≡ digest))
      ⊎ ((c : Claim) × (scan_one s a digest ≡ mint s a digest c))
unfolding scan_one
scan_one_view s a digest = elim (Option-cases (lookup a s.sessions)) [
  | inl absent ↦ inr (no_claim, rw (absent, scan_claim) refl)
  | inr (c, found) ↦ elim (Bool-cases (c.current_unit_digest == digest)) [
    | inl same ↦ inl (c, rw (found, scan_claim) (rw same refl), found, (eq_iff _ digest).0 same)
    | inr new ↦ inr (c, rw (found, scan_claim) (rw new refl))
  ]
]

pub scan_one_elsewhere :
    (s : Scan) (a digest x : String)
    → x ≢ a
    → lookup x (scan_one s a digest).sessions ≡ lookup x s.sessions
unfolding mint
scan_one_elsewhere s a digest x ne = elim (scan_one_view s a digest) [
  | inl (c, e, _, _) ↦ rw e refl
  | inr (c, e) ↦ rw e (lookup-insert_ne x a _ s.sessions ne)
]

-- The session that a step looks at ends up with a claim for the unit.
pub scan_one_hit :
    (s : Scan) (a digest : String)
    → (c : Claim) × (lookup a (scan_one s a digest).sessions ≡ some c)
      × (c.current_unit_digest ≡ digest)
unfolding mint
scan_one_hit s a digest = elim (scan_one_view s a digest) [
  | inl (c, e, found, same) ↦ (c, rw e found, same)
  | inr (c, e) ↦ (
    record c { ticket = s.next_ticket; current_unit_digest = digest },
    rw e (lookup-insert_self a _ s.sessions),
    refl,
  )
]

pub scan_all_elsewhere :
    (eligible : Dict String String) (s : Scan) (x : String)
    → lookup x eligible ≡ none
    → lookup x (scan_all eligible s).sessions ≡ lookup x s.sessions
unfolding scan_all
scan_all_elsewhere [] s x h = refl
scan_all_elsewhere ((a, digest) ∷ rest) s x h = elim (Bool-cases (x == a)) [
  | inl same ↦ absurd (some_ne (rw same at h))
  | inr other ↦
      scan_all_elsewhere rest (scan_one s a digest) x (rw other at h)
      ∙ scan_one_elsewhere s a digest x (ne_of_beq x a other)
]
  where
    some_ne : some digest ≡ none → ⊥
    some_ne e = cc

-- Every eligible session has a claim for its unit after the scan.
pub scan_all_hit :
    (eligible : Dict String String) (s : Scan) (x digest : String)
    → NodupKeys eligible
    → lookup x eligible ≡ some digest
    → (c : Claim) × (lookup x (scan_all eligible s).sessions ≡ some c)
      × (c.current_unit_digest ≡ digest)
unfolding scan_all
scan_all_hit [] s x digest u e = absurd (none_ne e)
  where
    none_ne : none ≡ some digest → ⊥
    none_ne f = cc
scan_all_hit ((a, d) ∷ rest) s x digest (fresh, u) e = elim (Bool-cases (x == a)) [
  | inl same ↦
      let (c, found, unit) = scan_one_hit s a d in
      let xa = (eq_iff x a).0 same in
      (
        c,
        rw xa (scan_all_elsewhere rest (scan_one s a d) a fresh ∙ found),
        unit ∙ value (rw same at e),
      )
  | inr other ↦ scan_all_hit rest (scan_one s a d) x digest u (rw other at e)
]
  where
    value : some d ≡ some digest → d ≡ digest
    value f = cc

-- A session that already waits for its unit keeps its claim through the scan.
pub scan_all_keeps :
    (eligible : Dict String String) (s : Scan) (x digest : String) (c : Claim)
    → NodupKeys eligible
    → lookup x eligible ≡ some digest
    → lookup x s.sessions ≡ some c
    → c.current_unit_digest ≡ digest
    → lookup x (scan_all eligible s).sessions ≡ some c
unfolding scan_all
scan_all_keeps [] s x digest c u e h same = h
scan_all_keeps ((a, d) ∷ rest) s x digest c (fresh, u) e h unit = elim (Bool-cases (x == a)) [
  | inl same ↦
      let xa = (eq_iff x a).0 same in
      rw xa (
        scan_all_elsewhere rest (scan_one s a d) a fresh
        ∙ kept (rw xa at h) (unit ∙ sym (value (rw same at e))))
  | inr other ↦
      scan_all_keeps rest (scan_one s a d) x digest c u (rw other at e)
        (scan_one_elsewhere s a d x (ne_of_beq x a other) ∙ h) unit
]
  where
    value : some d ≡ some digest → d ≡ digest
    value f = cc

    kept :
        lookup a s.sessions ≡ some c
        → c.current_unit_digest ≡ d
        → lookup a (scan_one s a d).sessions ≡ some c
    kept found waits =
        unfold scan_one in
        rw (found, scan_claim) (rw ((eq_iff c.current_unit_digest d).1 waits) found)
