-- ===== src/Mcp/Audit/Chain.antt =====
-- codex_preflight_mcp/trust_mutation_audit.py: verifying the chain and appending a record to it. The
-- key is made once and is fixed here; its file holds the anchor of the last settled chain and, during
-- an append, the anchor of the chain to come.
pub mod Settled
pub mod Appended
pub mod Crash
pub mod Rotated
use codex_preflight.Base.{
  ℕ, zero, suc, ◌+◌, Bool, true, false, ◌&&◌, ◌||◌, not, Option, none, some, String, List, [], ◌∷◌,
  ◌++◌, ◌==◌, nat_eq, string_eq, ltb, leb, is_some, map_option, if◌then◌else◌, sum_by, length,
}
use codex_preflight.Mcp.Audit.Record.{AuditRecord, SignedRecord, is_stored_valid}
use codex_preflight.Mcp.Audit.Segments.{
  Segment, Disk, Anchor, anchor_matches, put, segment_or, with_line, rotate, project_segment_data,
  segment_size, total_size, anchor_snapshot, anchor_entries,
}

-- The limits of the log.
pub record Limits : Type 0 where
  pub max_record_bytes : ℕ
  pub max_segment_bytes : ℕ
  pub max_rotated_segments : ℕ
  pub max_total_bytes : ℕ

-- `_validate_limits`
unfoldable pub is_within_limits : Limits → Bool
is_within_limits l =
    leb 1 l.max_record_bytes
    && leb l.max_record_bytes 4096
    && leb 1 l.max_segment_bytes
    && leb l.max_segment_bytes 1_048_576
    && leb l.max_rotated_segments 3
    && leb 1 l.max_total_bytes
    && leb l.max_total_bytes 4_194_304

-- What is taken from Python's `hmac`, `json` and `uuid` under the key: the code of a record behind
-- another, the code of a segment, the length of a record's line and the reading of ids.
pub record Keyed : Type 0 where
  pub record_mac : AuditRecord → String → String
  pub segment_mac : ℕ → Segment → String
  pub line_size : SignedRecord → ℕ
  pub is_uuid4 : String → Bool

pub data AuditError : Type 0 where
  failed corrupt recovery_required : AuditError

pub data Checked {ℓ} (A : Type ℓ) : Type ℓ where
  ok : A → Checked A
  err : AuditError → Checked A

-- The files: the segments, whether a file with an unknown name stands beside them, and the anchors.
pub record AuditState : Type 0 where
  pub disk : Disk
  pub has_stray : Bool
  pub committed : Anchor
  pub pending : Option Anchor

-- `_ZERO_MAC`
abbrev pub zero_mac : String
zero_mac = "0000000000000000000000000000000000000000000000000000000000000000"

abbrev pub mac_or_zero : Option String → String
mac_or_zero none = zero_mac
mac_or_zero (some mac) = mac

abbrev pub is_linked : Option String → String → Bool
is_linked none previous = true
is_linked (some mac) previous = previous == mac

abbrev pub lines_of : Option Segment → List SignedRecord
lines_of s = (segment_or s).lines

module _ (keyed : Keyed) (limits : Limits) where
  open keyed use {record_mac, segment_mac, line_size, is_uuid4}

  -- The body of the loop over the lines.
  abbrev pub is_line_valid : Option String → SignedRecord → Bool
  is_line_valid previous r =
      leb (line_size r) limits.max_record_bytes
      && is_stored_valid is_uuid4 r
      && is_linked previous r.previous_mac
      && r.record_mac == record_mac r.body r.previous_mac

  -- The loop over the lines; `none` is the integrity error, else the last code.
  unfoldable pub check_lines : Option String → List SignedRecord → Option (Option String)
  check_lines previous [] = some previous
  check_lines previous (r ∷ rs) =
      let rest = check_lines (some r.record_mac) rs in
      if is_line_valid previous r then rest else none

  -- The records of the segments n to 0.
  unfoldable pub records_down : ℕ → Disk → List SignedRecord
  records_down zero d = lines_of (d 0)
  records_down (suc n) d = lines_of (d (suc n)) ++ records_down n d

  abbrev pub is_segment_whole : Option Segment → Bool
  is_segment_whole s =
      leb (segment_size line_size segment_mac (segment_or s)) limits.max_segment_bytes
      && (segment_or s).torn == 0

  unfoldable pub segments_whole : ℕ → Disk → Bool
  segments_whole zero d = is_segment_whole (d 0)
  segments_whole (suc n) d = is_segment_whole (d (suc n)) && segments_whole n d

  abbrev pub max_segments : ℕ
  max_segments = limits.max_rotated_segments

  abbrev pub all_records : Disk → List SignedRecord
  all_records d = records_down max_segments d

  abbrev pub snapshot : Disk → String → Anchor
  snapshot d mac = anchor_snapshot line_size segment_mac max_segments d mac

  -- The records and the last code, `none` where a file, a line or a link is refused.
  unfoldable pub observe : AuditState → Option (Option String)
  observe st =
      if not st.has_stray
        && leb (total_size line_size segment_mac max_segments st.disk) limits.max_total_bytes
        && segments_whole max_segments st.disk
      then check_lines none (all_records st.disk)
      else none

  -- The comparison of the observed anchor with those of the key file, which it settles.
  abbrev pub settle_pending : Anchor → Option Anchor → AuditState → Option AuditState
  settle_pending observed none st = if anchor_matches observed st.committed then some st else none
  settle_pending observed (some p) st =
      if anchor_matches observed p
      then some (record st { committed = p; pending = none })
      else if anchor_matches observed st.committed
      then some (record st { pending = none })
      else none

  unfoldable pub settle : String → AuditState → Option AuditState
  settle mac st = settle_pending (snapshot st.disk mac) st.pending st

  abbrev pub verified_at :
      String → Option AuditState → AuditState → Checked (List SignedRecord × String) × AuditState
  verified_at mac none st = (err corrupt, st)
  verified_at mac (some settled) st = (ok (all_records st.disk, mac), settled)

  abbrev pub verify_observed :
      Option (Option String) → AuditState → Checked (List SignedRecord × String) × AuditState
  verify_observed none st = (err corrupt, st)
  verify_observed (some mac) st = verified_at (mac_or_zero mac) (settle (mac_or_zero mac) st) st

  -- `_verify_chain_unlocked`
  unfoldable pub verify_chain : AuditState → Checked (List SignedRecord × String) × AuditState
  verify_chain st =
      if is_within_limits limits then verify_observed (observe st) st else (err failed, st)

  abbrev pub signed_record : AuditRecord → String → SignedRecord
  signed_record body previous = record {
    body = body;
    previous_mac = previous;
    record_mac = record_mac body previous;
  }

  -- The durable writes of an append: the key file, the rotation, the line.
  pub data Write : Type 0 where
    set_anchors : Anchor → Option Anchor → Write
    rotate_segments : Write
    append_line : SignedRecord → Write

  abbrev pub write : Write → AuditState → AuditState
  write (set_anchors committed pending) st = record st { committed = committed; pending = pending }
  write rotate_segments st = record st { disk = rotate max_segments st.disk }
  write (append_line r) st = record st { disk = put 0 (with_line r (st.disk 0)) st.disk }

  abbrev pub write_all : List Write → AuditState → AuditState
  write_all [] st = st
  write_all (w ∷ ws) st = write_all ws (write w st)

  abbrev pub is_rotating : SignedRecord → Disk → Bool
  is_rotating r d =
      ltb limits.max_segment_bytes
        (segment_size line_size segment_mac (segment_or (d 0)) + line_size r)

  abbrev pub projected : SignedRecord → Disk → Disk
  projected r d = project_segment_data max_segments r (is_rotating r d) d

  abbrev pub expected_anchor : SignedRecord → Disk → Anchor
  expected_anchor r d = snapshot (projected r d) r.record_mac

  -- The writes of `_append_record_unlocked` in their order.
  abbrev pub append_writes : SignedRecord → AuditState → List Write
  append_writes r st =
      set_anchors st.committed (some (expected_anchor r st.disk))
      ∷ ((if is_rotating r st.disk then rotate_segments ∷ [] else [])
          ++ (append_line r ∷ set_anchors (expected_anchor r st.disk) none ∷ []))

  abbrev pub is_too_long : SignedRecord → Bool
  is_too_long r =
      ltb limits.max_record_bytes (line_size r) || ltb limits.max_segment_bytes (line_size r)

  -- The rest of `_append_record_unlocked`, on the state that verifying the chain left.
  unfoldable pub append_verified : SignedRecord → AuditState → Checked SignedRecord × AuditState
  append_verified r st =
      if is_too_long r
        || ltb limits.max_total_bytes
            (total_size line_size segment_mac max_segments (projected r st.disk))
      then (err failed, st)
      else if is_some st.pending
      then (err corrupt, st)
      else (ok r, write_all (append_writes r st) st)

  abbrev pub append_checked :
      AuditRecord
      → Checked (List SignedRecord × String) × AuditState
      → Checked SignedRecord × AuditState
  append_checked body (ok (records, previous), st) =
      append_verified (signed_record body previous) st
  append_checked body (err e, st) = (err e, st)

  -- `_append_record_unlocked`
  unfoldable pub append_record : AuditRecord → AuditState → Checked SignedRecord × AuditState
  unfolding append_verified
  append_record body st = append_checked body (verify_chain st)
