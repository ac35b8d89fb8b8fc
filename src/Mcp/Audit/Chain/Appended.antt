-- ===== src/Mcp/Audit/Chain/Appended.antt =====
-- codex_preflight_mcp/trust_mutation_audit.py: the files after a line was written.
use mathlib.Core.List.{append_assoc}
use codex_preflight.Base.{
  ℕ, zero, suc, ◌+◌, ◌≡◌, refl, sym, true, false, Option, none, some, String, List, [], ◌∷◌, ◌++◌,
  arith, nat_eq, string_eq, leb, sum_by-append,
}
use codex_preflight.Mcp.Audit.Record.{AuditRecord, SignedRecord, is_stored_valid}
use codex_preflight.Mcp.Audit.Segments.{
  Segment, Disk, put, segment_or, with_line, segment_size, total_size,
}
use codex_preflight.Mcp.Audit.Chain.Settled.{IsSettled}
use codex_preflight.Mcp.Audit.Chain.{
  Limits, Keyed, AuditState, mac_or_zero, zero_mac, is_line_valid, check_lines, lines_of,
  records_down, segments_whole, all_records, observe, signed_record, is_rotating, is_too_long,
}

with_line-lines :
    (r : SignedRecord) (s : Option Segment) → lines_of (with_line r s) ≡ lines_of s ++ (r ∷ [])
with_line-lines r none = refl
with_line-lines r (some s) = refl

with_line-torn :
    (r : SignedRecord) (s : Option Segment)
    → (segment_or (with_line r s)).torn ≡ (segment_or s).torn
with_line-torn r none = refl
with_line-torn r (some s) = refl

-- A write at name 0 is not seen above it.
put_above : (n : ℕ) (s : Option Segment) (d : Disk) → put 0 s d (suc n) ≡ d (suc n)
put_above n s d = ground arith

module _ (keyed : Keyed) (limits : Limits) where
  open keyed use {record_mac, segment_mac, line_size, is_uuid4}

  abbrev size : Segment → ℕ
  size s = segment_size line_size segment_mac s

  with_line-size :
      (r : SignedRecord) (s : Option Segment)
      → size (segment_or (with_line r s)) ≡ size (segment_or s) + line_size r
  with_line-size r none = omega arith
  with_line-size r (some s) = omega (arith, sum_by-append line_size s.lines (r ∷ []))

  total_size-put :
      (n : ℕ) (r : SignedRecord) (d : Disk)
      → total_size line_size segment_mac n (put 0 (with_line r (d 0)) d)
        ≡ total_size line_size segment_mac n d + line_size r
  unfolding total_size
  total_size-put zero r d = with_line-size r (d 0)
  total_size-put (suc n) r d =
      rw (put_above n (with_line r (d 0)) d) (omega (arith, total_size-put n r d))

  pub records_down-put :
      (n : ℕ) (r : SignedRecord) (d : Disk)
      → records_down keyed limits n (put 0 (with_line r (d 0)) d)
        ≡ records_down keyed limits n d ++ (r ∷ [])
  unfolding records_down
  records_down-put zero r d = with_line-lines r (d 0)
  records_down-put (suc n) r d =
      rw (put_above n (with_line r (d 0)) d, records_down-put n r d)
        (sym (append_assoc (lines_of (d (suc n))) (records_down keyed limits n d) (r ∷ [])))

  segments_whole-put :
      (n : ℕ) (r : SignedRecord) (d : Disk)
      → is_rotating keyed limits r d ≡ false
      → segments_whole keyed limits n d ≡ true
      → segments_whole keyed limits n (put 0 (with_line r (d 0)) d) ≡ true
  unfolding segments_whole
  segments_whole-put zero r d f w =
      ground (arith, f, w, with_line-size r (d 0), with_line-torn r (d 0))
  segments_whole-put (suc n) r d f w =
      rw (put_above n (with_line r (d 0)) d) (ground (arith, w, segments_whole-put n r d f))

  check_lines-append :
      (previous mac : Option String) (rs : List SignedRecord) (r : SignedRecord)
      → check_lines keyed limits previous rs ≡ some mac
      → is_line_valid keyed limits mac r ≡ true
      → check_lines keyed limits previous (rs ++ (r ∷ [])) ≡ some (some r.record_mac)
  unfolding check_lines
  check_lines-append previous mac [] r h v = let e : previous ≡ mac = cc h in rw (e, v) refl
  check_lines-append previous mac (x ∷ rs) r h v =
      ground (arith, h, check_lines-append (some x.record_mac) mac rs r)

  -- A signed record behind the last code is a valid line, if it is short enough and well formed.
  signed_record-is_line_valid :
      (body : AuditRecord) (mac : Option String)
      → is_stored_valid is_uuid4 (signed_record keyed limits body (mac_or_zero mac)) ≡ true
      → is_too_long keyed limits (signed_record keyed limits body (mac_or_zero mac)) ≡ false
      → is_line_valid keyed limits mac (signed_record keyed limits body (mac_or_zero mac)) ≡ true
  signed_record-is_line_valid body none v l =
      ground (arith, v, l, string_eq.beq_iff (record_mac body zero_mac) (record_mac body zero_mac))
  signed_record-is_line_valid body (some m) v l = ground (
    arith,
    v,
    l,
    string_eq.beq_iff (record_mac body m) (record_mac body m),
    string_eq.beq_iff m m,
  )

  -- A record that may be appended in place: well formed, short, and the log keeps within its limits.
  pub record IsInPlace (mac : Option String) (body : AuditRecord) (st : AuditState) : Type 0 where
    pub formed : is_stored_valid is_uuid4 (signed_record keyed limits body (mac_or_zero mac)) ≡ true
    pub short : is_too_long keyed limits (signed_record keyed limits body (mac_or_zero mac)) ≡ false
    pub stays :
        is_rotating keyed limits (signed_record keyed limits body (mac_or_zero mac)) st.disk ≡ false
    pub fits :
        leb
          (total_size line_size segment_mac limits.max_rotated_segments (
            put 0
              (with_line (signed_record keyed limits body (mac_or_zero mac)) (st.disk 0))
              st.disk))
          limits.max_total_bytes
        ≡ true

  observe-parts :
      (st : AuditState) (mac : Option String)
      → observe keyed limits st ≡ some mac
      → (st.has_stray ≡ false)
        × (segments_whole keyed limits limits.max_rotated_segments st.disk ≡ true)
        × (check_lines keyed limits none (all_records keyed limits st.disk) ≡ some mac)
  unfolding observe
  observe-parts st mac h = (ground (arith, h), ground (arith, h), ground (arith, h))

  -- Any state with the files of a settled one and the line behind them ends in the line's code.
  pub observe-append_line :
      (mac : Option String) (body : AuditRecord) (st after : AuditState)
      → IsSettled keyed limits mac st
      → IsInPlace mac body st
      → after.has_stray ≡ st.has_stray
      → after.disk
        ≡ put 0 (with_line (signed_record keyed limits body (mac_or_zero mac)) (st.disk 0)) st.disk
      → observe keyed limits after ≡ some (some (record_mac body (mac_or_zero mac)))
  unfolding observe
  observe-append_line mac body st after s p f d =
      let r = signed_record keyed limits body (mac_or_zero mac) in
      let (stray, whole, checked) = observe-parts st mac s.observed in
      rw
        (
          f,
          d,
          stray,
          p.fits,
          segments_whole-put limits.max_rotated_segments r st.disk p.stays whole,
          records_down-put limits.max_rotated_segments r st.disk,
        )
        (check_lines-append none mac (all_records keyed limits st.disk) r checked
          (signed_record-is_line_valid body mac p.formed p.short))
