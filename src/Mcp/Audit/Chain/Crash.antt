-- ===== src/Mcp/Audit/Chain/Crash.antt =====
-- codex_preflight_mcp/trust_mutation_audit.py: an append that stops after any of its writes.
use codex_preflight.Base.{
  ℕ, zero, suc, ◌≡◌, inl, inr, refl, ◌∙◌, true, false, ◌||◌, Option, none, some, String, List, [],
  ◌∷◌, ◌++◌, arith, nat_eq, string_eq, take, Bool-cases, if◌then◌else◌, leb, ltb,
}
use codex_preflight.Mcp.Audit.Record.{AuditRecord, SignedRecord}
use codex_preflight.Mcp.Audit.Segments.{
  Disk, Anchor, anchor_matches, segments_match, put, with_line, total_size, project_segment_data,
}
use codex_preflight.Mcp.Audit.Chain.{
  Limits, Keyed, ok, AuditState, mac_or_zero, is_within_limits, observe, settle, verify_chain,
  all_records, snapshot, signed_record, set_anchors, append_line, write_all, append_writes,
  append_verified, append_record, expected_anchor,
}
use codex_preflight.Mcp.Audit.Chain.Settled.{IsSettled, observe-files, verify_chain-settled}
use codex_preflight.Mcp.Audit.Chain.Appended.{IsInPlace, observe-append_line, records_down-put}

segments_match_refl : (xs : List (ℕ × ℕ × String)) → segments_match xs xs ≡ true
unfolding segments_match
segments_match_refl [] = refl
segments_match_refl ((i, n, a) ∷ xs) = ground (arith, segments_match_refl xs, string_eq.beq_iff a a)

anchor_matches_refl : (a : Anchor) → anchor_matches a a ≡ true
unfolding anchor_matches
anchor_matches_refl a =
    ground (arith, segments_match_refl a.segments, string_eq.beq_iff a.terminal_mac a.terminal_mac)

later : (k : ℕ) → leb (suc (suc (suc k))) 1 ≡ false
later k = ground arith

ltb_of_leb : (a b : ℕ) → leb a b ≡ true → ltb b a ≡ false
ltb_of_leb a b h = ground (arith, h)

project_segment_data-in_place :
    (n : ℕ) (r : SignedRecord) (d : Disk)
    → project_segment_data n r false d ≡ put 0 (with_line r (d 0)) d
unfolding project_segment_data
project_segment_data-in_place n r d = refl

module _ (keyed : Keyed) (limits : Limits) where
  -- Whichever anchor the files match, the verification answers with their records.
  verify_chain-pending :
      (mac : Option String) (st : AuditState) (p : Anchor)
      → is_within_limits limits ≡ true
      → observe keyed limits st ≡ some mac
      → st.pending ≡ some p
      → (anchor_matches (snapshot keyed limits st.disk (mac_or_zero mac)) p
          || anchor_matches (snapshot keyed limits st.disk (mac_or_zero mac)) st.committed)
        ≡ true
      → (verify_chain keyed limits st).0 ≡ ok (all_records keyed limits st.disk, mac_or_zero mac)
  unfolding verify_chain settle
  verify_chain-pending mac st p l o e h =
      elim (Bool-cases (anchor_matches (snapshot keyed limits st.disk (mac_or_zero mac)) p)) [
        | inl m ↦ rw (l, o, e, m) refl
        | inr m ↦
            let c : anchor_matches (snapshot keyed limits st.disk (mac_or_zero mac)) st.committed
                ≡ true =
              ground (arith, h, m) in
            rw (l, o, e, m, c) refl
      ]

  abbrev pub new_line : Option String → AuditRecord → SignedRecord
  new_line mac body = signed_record keyed limits body (mac_or_zero mac)

  -- The writes of an append in place, one by one.
  append_writes-in_place :
      (mac : Option String) (body : AuditRecord) (st : AuditState)
      → IsInPlace keyed limits mac body st
      → append_writes keyed limits (new_line mac body) st
        ≡ set_anchors st.committed (some (expected_anchor keyed limits (new_line mac body) st.disk))
          ∷ append_line (new_line mac body)
          ∷ set_anchors (expected_anchor keyed limits (new_line mac body) st.disk) none
          ∷ []
  append_writes-in_place mac body st p = rw (p.stays) refl

  expected_anchor-in_place :
      (mac : Option String) (body : AuditRecord) (st : AuditState)
      → IsInPlace keyed limits mac body st
      → expected_anchor keyed limits (new_line mac body) st.disk
        ≡ snapshot keyed limits
            (put 0 (with_line (new_line mac body) (st.disk 0)) st.disk)
            (new_line mac body).record_mac
  unfolding project_segment_data
  expected_anchor-in_place mac body st p = rw (p.stays) refl

  -- The state after the first k writes.
  abbrev pub crashed : ℕ → Option String → AuditRecord → AuditState → AuditState
  crashed k mac body st =
      write_all keyed limits (take k (append_writes keyed limits (new_line mac body) st)) st

  -- The records and the code that a verification finds after the first k writes.
  abbrev pub found : ℕ → Option String → AuditRecord → AuditState → List SignedRecord × String
  found k mac body st = if leb k 1 then (all_records keyed limits st.disk, mac_or_zero mac) else (
    all_records keyed limits st.disk ++ (new_line mac body ∷ []),
    (new_line mac body).record_mac,
  )

  -- Before the key file is written, the chain is the old one.
  crashed_before :
      (mac : Option String) (body : AuditRecord) (st : AuditState)
      → IsSettled keyed limits mac st
      → (verify_chain keyed limits (crashed 0 mac body st)).0 ≡ ok (found 0 mac body st)
  crashed_before mac body st s = rw (verify_chain-settled keyed limits mac st s) refl

  -- With the coming anchor written and the line not, it is the old one too.
  crashed_announced :
      (mac : Option String) (body : AuditRecord) (st : AuditState)
      → IsSettled keyed limits mac st
      → (verify_chain keyed limits (crashed 1 mac body st)).0 ≡ ok (found 1 mac body st)
  crashed_announced mac body st s =
      let a = expected_anchor keyed limits (new_line mac body) st.disk in
      let after : AuditState = record st { committed = st.committed; pending = some a } in
      verify_chain-pending mac after a s.limited
        (observe-files keyed limits st after refl refl ∙ s.observed) refl
        (ground (arith, s.anchored))

  abbrev pub in_place : Option String → AuditRecord → Disk → Disk
  in_place mac body d = put 0 (with_line (new_line mac body) (d 0)) d

  abbrev pub new_anchor : Option String → AuditRecord → Disk → Anchor
  new_anchor mac body d = snapshot keyed limits (in_place mac body d) (new_line mac body).record_mac

  -- The state with the line written and the key file as it was announced.
  abbrev written : Option String → AuditRecord → AuditState → AuditState
  written mac body st = record st {
    disk = in_place mac body st.disk;
    pending = some (new_anchor mac body st.disk);
  }

  crashed-written :
      (mac : Option String) (body : AuditRecord) (st : AuditState)
      → IsInPlace keyed limits mac body st
      → crashed 2 mac body st ≡ written mac body st
  unfolding project_segment_data
  crashed-written mac body st p = rw (p.stays) refl

  abbrev pub finished : Option String → AuditRecord → AuditState → AuditState
  finished mac body st = record st {
    disk = in_place mac body st.disk;
    committed = new_anchor mac body st.disk;
    pending = none;
  }

  crashed-finished :
      (k : ℕ) (mac : Option String) (body : AuditRecord) (st : AuditState)
      → IsInPlace keyed limits mac body st
      → crashed (suc (suc (suc k))) mac body st ≡ finished mac body st
  unfolding project_segment_data
  crashed-finished zero mac body st p = rw (p.stays) refl
  crashed-finished (suc k) mac body st p = rw (p.stays) refl

  -- With the line written, the files match the coming anchor.
  crashed_written :
      (mac : Option String) (body : AuditRecord) (st : AuditState)
      → IsSettled keyed limits mac st
      → IsInPlace keyed limits mac body st
      → (verify_chain keyed limits (crashed 2 mac body st)).0 ≡ ok (found 2 mac body st)
  crashed_written mac body st s p =
      let a = new_anchor mac body st.disk in
      rw
        (
          crashed-written mac body st p,
          verify_chain-pending (some (new_line mac body).record_mac) (written mac body st) a
              s.limited
              (observe-append_line keyed limits mac body st (written mac body st) s p refl refl)
              refl (ground (arith, anchor_matches_refl a)),
          records_down-put keyed limits limits.max_rotated_segments (new_line mac body) st.disk,
        )
        refl

  -- With the key file written again, the chain is settled.
  finished-IsSettled :
      (mac : Option String) (body : AuditRecord) (st : AuditState)
      → IsSettled keyed limits mac st
      → IsInPlace keyed limits mac body st
      → IsSettled keyed limits (some (new_line mac body).record_mac) (finished mac body st)
  finished-IsSettled mac body st s p = record {
    limited = s.limited;
    observed = observe-append_line keyed limits mac body st (finished mac body st) s p refl refl;
    anchored = anchor_matches_refl (new_anchor mac body st.disk);
    quiet = refl;
  }

  crashed_finished :
      (k : ℕ) (mac : Option String) (body : AuditRecord) (st : AuditState)
      → IsSettled keyed limits mac st
      → IsInPlace keyed limits mac body st
      → (verify_chain keyed limits (crashed (suc (suc (suc k))) mac body st)).0
        ≡ ok (found (suc (suc (suc k))) mac body st)
  crashed_finished k mac body st s p =
      rw
        (
          crashed-finished k mac body st p,
          verify_chain-settled keyed limits (some (new_line mac body).record_mac)
              (finished mac body st) (finished-IsSettled mac body st s p),
          records_down-put keyed limits limits.max_rotated_segments (new_line mac body) st.disk,
          later k,
        )
        refl

  -- From a settled chain an append whose line fits the open segment and the limits may stop after any
  -- number k of its writes: the next verification succeeds, with the old records and code where k is
  -- at most 1, and with the new record behind them and its code otherwise.
  pub verify_chain-append_writes :
      (k : ℕ) (mac : Option String) (body : AuditRecord) (st : AuditState)
      → IsSettled keyed limits mac st
      → IsInPlace keyed limits mac body st
      → (verify_chain keyed limits (crashed k mac body st)).0 ≡ ok (found k mac body st)
  verify_chain-append_writes zero mac body st s p = crashed_before mac body st s
  verify_chain-append_writes (suc zero) mac body st s p = crashed_announced mac body st s
  verify_chain-append_writes (suc (suc zero)) mac body st s p = crashed_written mac body st s p
  verify_chain-append_writes (suc (suc (suc k))) mac body st s p =
      crashed_finished k mac body st s p

  -- On a settled chain an append whose line fits the open segment and the limits answers with the
  -- record signed behind the last code, and leaves a settled chain that ends in its code, with the
  -- record behind the old ones.
  pub append_record-IsSettled :
      (mac : Option String) (body : AuditRecord) (st : AuditState)
      → IsSettled keyed limits mac st
      → IsInPlace keyed limits mac body st
      → (append_record keyed limits body st ≡ (ok (new_line mac body), finished mac body st))
        × IsSettled keyed limits (some (new_line mac body).record_mac) (finished mac body st)
        × (all_records keyed limits (finished mac body st).disk
            ≡ all_records keyed limits st.disk ++ (new_line mac body ∷ []))
  unfolding append_record append_verified
  append_record-IsSettled mac body st s p = (
    rw
        (
          verify_chain-settled keyed limits mac st s,
          p.short,
          p.stays,
          project_segment_data-in_place limits.max_rotated_segments (new_line mac body) st.disk,
          ltb_of_leb
              (total_size keyed.line_size keyed.segment_mac limits.max_rotated_segments
                (in_place mac body st.disk))
              limits.max_total_bytes p.fits,
          s.quiet,
        )
        refl,
    finished-IsSettled mac body st s p,
    records_down-put keyed limits limits.max_rotated_segments (new_line mac body) st.disk,
  )
