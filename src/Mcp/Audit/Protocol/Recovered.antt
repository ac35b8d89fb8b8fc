-- ===== src/Mcp/Audit/Protocol/Recovered.antt =====
-- codex_preflight_mcp/trust_mutation_audit.py: what the recovery does with one open prepare record.
use codex_preflight.Base.{
  ◌≡◌, refl, ◌∙◌, Bool, true, false, Option, some, String, List, [], ◌∷◌, ◌++◌, arith, ◌==◌, nat_eq,
  string_eq, contains,
}
use codex_preflight.Mcp.Audit.Record.{AuditContext, AuditRecord, SignedRecord, build_record}
use codex_preflight.Mcp.Audit.Chain.{Limits, Keyed, ok, AuditState, all_records}
use codex_preflight.Mcp.Audit.Chain.Settled.{IsSettled, verify_chain-settled}
use codex_preflight.Mcp.Audit.Chain.Appended.{IsInPlace}
use codex_preflight.Mcp.Audit.Chain.Crash.{finished, append_record-IsSettled}
use codex_preflight.Mcp.Audit.Protocol.{
  Journal, Fresh, recovered, unmatched_prepares, completed_prepares, recovery_event,
  context_from_record, recover_prepared, digest_text, verify_and_recover, build,
}
use codex_preflight.Mcp.Audit.Protocol.Unmatched.{
  is_prepare, unmatched_prepares-prepare, is_last-append, require_unmatched_tail-prepare,
  same_record_refl,
}

-- A built record has the fields that it was built from.
pub build_record-fields :
    (is_uuid4 : String → Bool) (event_id timestamp event : String) (c : AuditContext)
    (before after prepared : Option String) (body : AuditRecord)
    → build_record is_uuid4 event_id timestamp event c before after prepared ≡ some body
    → body ≡ record {
      event = event;
      event_id = event_id;
      timestamp = timestamp;
      context = c;
      before_digest = before;
      after_digest = after;
      prepared_event_id = prepared;
    }
unfolding build_record
build_record-fields is_uuid4 event_id timestamp event c before after prepared body h =
    ground (arith, h)

module _ (keyed : Keyed) (limits : Limits) (state_digest : Option String → String) where
  -- A log that ends in its one open prepare record p.
  pub record IsOpen (mac : Option String) (rs : List SignedRecord) (p : SignedRecord) (j : Journal)
      : Type 0 where
    pub settled : IsSettled keyed limits mac j.audit
    pub records : all_records keyed limits j.audit.disk ≡ rs ++ (p ∷ [])
    pub closed : unmatched_prepares rs ≡ []
    pub prepare : is_prepare p ≡ true
    pub new : contains (completed_prepares rs) p.body.event_id ≡ false

  verify_and_recover-recover_prepared :
      (between : AuditState → AuditState) (f : Fresh) (store : Option String) (mac : Option String)
      (rs : List SignedRecord) (p : SignedRecord) (j : Journal)
      → IsOpen mac rs p j
      → verify_and_recover keyed limits state_digest between f (some store) j
        ≡ recover_prepared keyed limits state_digest between f p (some store) j
  unfolding verify_and_recover
  verify_and_recover-recover_prepared between f store mac rs p j o =
      rw
        (
          verify_chain-settled keyed limits mac j.audit o.settled,
          o.records,
          unmatched_prepares-prepare rs p o.closed o.prepare o.new,
          is_last-append rs p,
        )
        refl

  -- The digest of the store decides, and the record is appended where nothing else writes meanwhile.
  pub verify_and_recover-open :
      (between : AuditState → AuditState) (f : Fresh) (store : Option String) (mac : Option String)
      (rs : List SignedRecord) (p : SignedRecord) (j : Journal) (before after event : String)
      (body : AuditRecord)
      → IsOpen mac rs p j
      → digest_text p.body.before_digest ≡ before
      → digest_text p.body.after_digest ≡ after
      → (before == after) ≡ false
      → recovery_event before after (state_digest store) ≡ some event
      → build keyed limits state_digest f event
          (context_from_record p event)
          (some before)
          (some after)
          (some p.body.event_id)
        ≡ some body
      → between j.audit ≡ j.audit
      → IsInPlace keyed limits mac body j.audit
      → verify_and_recover keyed limits state_digest between f (some store) j ≡ (
        ok (recovered event body.event_id p.body.event_id),
        record { audit = finished keyed limits mac body j.audit; has_marker = false },
      )
  verify_and_recover-open between f store mac rs p j before after event body o hb ha ne d b s i =
      verify_and_recover-recover_prepared between f store mac rs p j o
      ∙ (rw
          (
            hb,
            ha,
            ne,
            d,
            hb,
            ha,
            b,
            s,
            verify_chain-settled keyed limits mac j.audit o.settled,
            o.records,
            (require_unmatched_tail-prepare rs p o.closed o.prepare o.new).1,
            same_record_refl p,
            (append_record-IsSettled keyed limits mac body j.audit o.settled i).0,
          )
          refl)
