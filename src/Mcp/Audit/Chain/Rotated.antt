-- ===== src/Mcp/Audit/Chain/Rotated.antt =====
-- codex_preflight_mcp/trust_mutation_audit.py: an append that stops between the rotation of the
-- segments and the write of its line.
use codex_preflight.Base.{
  ℕ, zero, suc, ◌≡◌, inl, inr, refl, sym, ◌∙◌, Bool, true, false, Option, none, some, String, List,
  [], ◌∷◌, arith, ◌==◌, nat_eq, string_eq, any, any-append, take, Bool-cases, Option-cases,
}
use codex_preflight.Mcp.Audit.Record.{SignedRecord}
use codex_preflight.Mcp.Audit.Segments.{
  Segment, Disk, Anchor, anchor_entries, anchor_entry, anchor_matches, anchor_snapshot,
  segments_match, rotate, project_segment_data,
}
use codex_preflight.Mcp.Audit.Segments.Rotation.{rotate_shifts}
use codex_preflight.Mcp.Audit.Chain.{
  Limits, Keyed, err, corrupt, AuditState, mac_or_zero, observe, settle, verify_chain, write_all,
  append_writes, is_within_limits, is_rotating, snapshot, expected_anchor,
}
use codex_preflight.Mcp.Audit.Chain.Settled.{IsSettled}

abbrev is_active : ℕ × ℕ × String → Bool
is_active (i, n, a) = i == 0

-- The anchor has an entry for the active file.
abbrev has_active : Anchor → Bool
has_active a = any is_active a.segments

segments_match-has_active :
    (xs ys : List (ℕ × ℕ × String))
    → segments_match xs ys ≡ true
    → any is_active xs ≡ any is_active ys
unfolding segments_match
segments_match-has_active [] [] h = refl
segments_match-has_active ((i, m, a) ∷ xs) [] h = cc h
segments_match-has_active [] ((j, n, b) ∷ ys) h = cc h
segments_match-has_active ((i, m, a) ∷ xs) ((j, n, b) ∷ ys) h =
    ground (arith, h, segments_match-has_active xs ys)

anchor_matches-has_active : (a b : Anchor) → anchor_matches a b ≡ true → has_active a ≡ has_active b
unfolding anchor_matches
anchor_matches-has_active a b h =
    segments_match-has_active a.segments b.segments (ground (arith, h))

module _ (keyed : Keyed) (limits : Limits) where
  open keyed use {line_size, segment_mac}

  anchor_entry-inactive :
      (n : ℕ) (s : Option Segment)
      → any is_active (anchor_entry line_size segment_mac (suc n) s) ≡ false
  anchor_entry-inactive n none = refl
  anchor_entry-inactive n (some s) = ground arith

  anchor_entries-none :
      (n : ℕ) (d : Disk)
      → d 0 ≡ none
      → any is_active (anchor_entries line_size segment_mac n d) ≡ false
  unfolding anchor_entries
  anchor_entries-none zero d h = rw (h) refl
  anchor_entries-none (suc n) d h =
      rw
        (
          any-append is_active (anchor_entry line_size segment_mac (suc n) (d (suc n)))
              (anchor_entries line_size segment_mac n d),
          anchor_entry-inactive n (d (suc n)),
        )
        (anchor_entries-none n d h)

  anchor_entries-some :
      (n : ℕ) (d : Disk) (s : Segment)
      → d 0 ≡ some s
      → any is_active (anchor_entries line_size segment_mac n d) ≡ true
  unfolding anchor_entries
  anchor_entries-some zero d s h = rw (h) refl
  anchor_entries-some (suc n) d s h =
      rw
        (
          any-append is_active (anchor_entry line_size segment_mac (suc n) (d (suc n)))
              (anchor_entries line_size segment_mac n d),
          anchor_entry-inactive n (d (suc n)),
        )
        (anchor_entries-some n d s h)

  anchor_matches-absent :
      (d : Disk) (mac : String) (a : Anchor)
      → d 0 ≡ none
      → has_active a ≡ true
      → anchor_matches (snapshot keyed limits d mac) a ≡ false
  unfolding anchor_snapshot
  anchor_matches-absent d mac a h k =
      elim (Bool-cases (anchor_matches (snapshot keyed limits d mac) a)) [
        | inl m ↦ cc (
          anchor_matches-has_active (snapshot keyed limits d mac) a m,
          anchor_entries-none limits.max_rotated_segments d h,
          k,
        )
        | inr m ↦ m
      ]

  settle-absent :
      (mac : String) (st : AuditState) (p : Anchor)
      → st.pending ≡ some p
      → st.disk 0 ≡ none
      → has_active st.committed ≡ true
      → has_active p ≡ true
      → settle keyed limits mac st ≡ none
  unfolding settle
  settle-absent mac st p e h hc hp =
      rw
        (
          e,
          anchor_matches-absent st.disk mac p h hp,
          anchor_matches-absent st.disk mac st.committed h hc,
        )
        refl

  -- Without the active file, which both anchors name, no verification succeeds.
  verify_chain-absent :
      (st : AuditState) (p : Anchor)
      → is_within_limits limits ≡ true
      → st.pending ≡ some p
      → st.disk 0 ≡ none
      → has_active st.committed ≡ true
      → has_active p ≡ true
      → verify_chain keyed limits st ≡ (err corrupt, st)
  unfolding verify_chain
  verify_chain-absent st p l e h hc hp = elim (Option-cases (observe keyed limits st)) [
    | inl o ↦ rw (l, o) refl
    | inr (mac, o) ↦ rw (l, o, settle-absent (mac_or_zero mac) st p e h hc hp) refl
  ]

  -- The files after the key file was written and the segments were renamed.
  abbrev pub rotated : SignedRecord → AuditState → AuditState
  rotated r st = record st {
    disk = rotate limits.max_rotated_segments st.disk;
    pending = some (expected_anchor keyed limits r st.disk);
  }

  append_writes-rotated :
      (r : SignedRecord) (st : AuditState)
      → is_rotating keyed limits r st.disk ≡ true
      → write_all keyed limits (take 2 (append_writes keyed limits r st)) st ≡ rotated r st
  append_writes-rotated r st h = rw (h) refl

  expected_anchor-has_active :
      (r : SignedRecord) (st : AuditState)
      → is_rotating keyed limits r st.disk ≡ true
      → has_active (expected_anchor keyed limits r st.disk) ≡ true
  unfolding anchor_snapshot project_segment_data
  expected_anchor-has_active r st h = rw (h) (
      anchor_entries-some limits.max_rotated_segments
        (project_segment_data limits.max_rotated_segments r true st.disk)
        (record { lines = r ∷ []; torn = 0 }) refl)

  committed-has_active :
      (mac : Option String) (st : AuditState) (s : Segment)
      → IsSettled keyed limits mac st
      → st.disk 0 ≡ some s
      → has_active st.committed ≡ true
  unfolding anchor_snapshot
  committed-has_active mac st s i h =
      sym (
        anchor_matches-has_active (snapshot keyed limits st.disk (mac_or_zero mac)) st.committed
          i.anchored)
      ∙ anchor_entries-some limits.max_rotated_segments st.disk s h

  -- From a settled chain, an append that rotates the segments and stops after the renames, before it
  -- writes its line, leaves files that match neither anchor of the key file: every later verification
  -- answers that the log is corrupt, and changes nothing.
  pub verify_chain-rotate_segments :
      (mac : Option String) (r : SignedRecord) (st : AuditState) (s : Segment)
      → IsSettled keyed limits mac st
      → st.disk 0 ≡ some s
      → is_rotating keyed limits r st.disk ≡ true
      → verify_chain keyed limits
          (write_all keyed limits (take 2 (append_writes keyed limits r st)) st)
        ≡ (err corrupt, write_all keyed limits (take 2 (append_writes keyed limits r st)) st)
  verify_chain-rotate_segments mac r st s i a h = rw (append_writes-rotated r st h) (
      verify_chain-absent (rotated r st) (expected_anchor keyed limits r st.disk) i.limited refl
        (rotate_shifts limits.max_rotated_segments 0 st.disk (ground arith))
        (committed-has_active mac st s i a) (expected_anchor-has_active r st h))
