-- ===== src/Mcp/Audit/Chain/Settled.antt =====
-- codex_preflight_mcp/trust_mutation_audit.py: a verified chain is settled, and stays so.
use codex_preflight.Base.{
  ◌≡◌, inl, inr, refl, ◌∙◌, true, Option, none, some, String, List, arith, Bool-cases,
}
use codex_preflight.Mcp.Audit.Record.{SignedRecord}
use codex_preflight.Mcp.Audit.Segments.{Anchor, anchor_matches}
use codex_preflight.Mcp.Audit.Chain.{
  Limits, Keyed, ok, AuditState, mac_or_zero, is_within_limits, observe, settle, settle_pending,
  verified_at, verify_observed, verify_chain, all_records, snapshot,
}

module _ (keyed : Keyed) (limits : Limits) where
  -- The anchor of the key file is that of the files, whose chain ends in the code; nothing is pending.
  pub record IsSettled (mac : Option String) (st : AuditState) : Type 0 where
    pub limited : is_within_limits limits ≡ true
    pub observed : observe keyed limits st ≡ some mac
    pub anchored :
        anchor_matches (snapshot keyed limits st.disk (mac_or_zero mac)) st.committed ≡ true
    pub quiet : st.pending ≡ none

  -- A settled state is verified as it is.
  pub verify_chain-settled :
      (mac : Option String) (st : AuditState)
      → IsSettled mac st
      → verify_chain keyed limits st ≡ (ok (all_records keyed limits st.disk, mac_or_zero mac), st)
  unfolding verify_chain settle
  verify_chain-settled mac st s = rw (s.limited, s.observed, s.quiet, s.anchored) refl

  settle_pending-settles :
      (a : Anchor) (p : Option Anchor) (st settled : AuditState)
      → settle_pending keyed limits a p st ≡ some settled
      → st.pending ≡ p
      → (anchor_matches a settled.committed ≡ true)
        × (settled.pending ≡ none)
        × (settled.disk ≡ st.disk)
        × (settled.has_stray ≡ st.has_stray)
  settle_pending-settles a none st settled e h = ground (arith, e, h)
  settle_pending-settles a (some p) st settled e h = ground (arith, e, h)

  pub observe-files :
      (st after : AuditState)
      → after.disk ≡ st.disk
      → after.has_stray ≡ st.has_stray
      → observe keyed limits after ≡ observe keyed limits st
  unfolding observe
  observe-files st after d f = rw (d, f) refl

  settle-IsSettled :
      (mac : Option String) (st after : AuditState)
      → is_within_limits limits ≡ true
      → observe keyed limits st ≡ some mac
      → settle keyed limits (mac_or_zero mac) st ≡ some after
      → IsSettled mac after
  unfolding settle
  settle-IsSettled mac st after l o e =
      let (a, q, d, f) =
        settle_pending-settles (snapshot keyed limits st.disk (mac_or_zero mac)) st.pending st after
          e refl in
      record {
        limited = l;
        observed = observe-files st after d f ∙ o;
        anchored = rw (d) a;
        quiet = q;
      }

  -- What a successful verification of the chain says.
  pub record IsVerified (rs : List SignedRecord) (m : String) (st after : AuditState) : Type 0 where
    pub mac : Option String
    pub settled : IsSettled mac after
    pub records : rs ≡ all_records keyed limits st.disk
    pub code : m ≡ mac_or_zero mac
    pub files : after.disk ≡ st.disk

  settle-disk :
      (mac : String) (st after : AuditState)
      → settle keyed limits mac st ≡ some after
      → after.disk ≡ st.disk
  unfolding settle
  settle-disk mac st after e =
      (settle_pending-settles (snapshot keyed limits st.disk mac) st.pending st after e refl).2

  verified_at-IsVerified :
      (mac : Option String) (settled : Option AuditState) (st after : AuditState)
      (rs : List SignedRecord) (m : String)
      → is_within_limits limits ≡ true
      → observe keyed limits st ≡ some mac
      → settle keyed limits (mac_or_zero mac) st ≡ settled
      → verified_at keyed limits (mac_or_zero mac) settled st ≡ (ok (rs, m), after)
      → IsVerified rs m st after
  verified_at-IsVerified mac none st after rs m l o e h = ground (arith, h)
  verified_at-IsVerified mac (some settled) st after rs m l o e h =
      let same : settled ≡ after = cc h in
      let e' : settle keyed limits (mac_or_zero mac) st ≡ some after = cc (e, same) in
      record {
        mac = mac;
        settled = settle-IsSettled mac st after l o e';
        records = cc h;
        code = cc h;
        files = settle-disk (mac_or_zero mac) st after e';
      }

  verify_observed-IsVerified :
      (o : Option (Option String)) (st after : AuditState) (rs : List SignedRecord) (m : String)
      → is_within_limits limits ≡ true
      → observe keyed limits st ≡ o
      → verify_observed keyed limits o st ≡ (ok (rs, m), after)
      → IsVerified rs m st after
  verify_observed-IsVerified none st after rs m l o h = ground (arith, h)
  verify_observed-IsVerified (some mac) st after rs m l o h =
      verified_at-IsVerified mac (settle keyed limits (mac_or_zero mac) st) st after rs m l o refl h

  pub verify_chain-IsVerified :
      (st after : AuditState) (rs : List SignedRecord) (m : String)
      → verify_chain keyed limits st ≡ (ok (rs, m), after)
      → IsVerified rs m st after
  unfolding verify_chain
  verify_chain-IsVerified st after rs m h = elim (Bool-cases (is_within_limits limits)) [
    | inl l ↦
        verify_observed-IsVerified (observe keyed limits st) st after rs m l refl
          (ground (arith, h, l))
    | inr l ↦ ground (arith, h, l)
  ]

  -- A chain that is verified is verified again with the same records and code, and the second
  -- verification changes nothing.
  pub verify_chain-verify_chain :
      (st after : AuditState) (rs : List SignedRecord) (m : String)
      → verify_chain keyed limits st ≡ (ok (rs, m), after)
      → verify_chain keyed limits after ≡ (ok (rs, m), after)
  verify_chain-verify_chain st after rs m h =
      let v = verify_chain-IsVerified st after rs m h in
      rw (verify_chain-settled v.mac after v.settled, v.files, v.records, v.code) refl
