-- ===== src/Mcp/Audit/Protocol/Prepared.antt =====
-- codex_preflight_mcp/trust_mutation_audit.py: a mutation from its prepare record to the record that
-- closes it, by a commit or, after a crash, by the recovery.
use codex_preflight.Base.{
  ◌≡◌, refl, sym, ap, Bool, true, false, ◌&&◌, Option, none, some, String, [], ◌∷◌, arith, ◌==◌,
  nat_eq, string_eq, option_eq, option_eqb_iff, contains, eqb_refl, if◌then◌else◌,
}
use codex_preflight.Mcp.Audit.Record.{AuditContext, AuditRecord, SignedRecord}
use codex_preflight.Mcp.Audit.Chain.{Limits, Keyed, ok, all_records}
use codex_preflight.Mcp.Audit.Chain.Settled.{IsSettled, verify_chain-settled}
use codex_preflight.Mcp.Audit.Chain.Appended.{IsInPlace}
use codex_preflight.Mcp.Audit.Chain.Crash.{new_line, finished, append_record-IsSettled}
use codex_preflight.Mcp.Audit.Protocol.{
  Journal, Fresh, Reservation, PreparedMutation, recovered, unmatched_prepares, completed_prepares,
  is_operation, recovery_event, context_from_record, prepare_mutation, verify_and_recover, build,
  digest_text, commit_mutation, is_prepared_valid, is_bound, same_binding, finish_reservation,
}
use codex_preflight.Mcp.Audit.Protocol.Unmatched.{
  unmatched_prepares-completion, require_unmatched_tail-prepare,
}
use codex_preflight.Mcp.Audit.Protocol.Recovered.{
  build_record-fields, IsOpen, verify_and_recover-open,
}

-- The fields of a built record that its readers go by.
record IsBuilt (event : String) (c : AuditContext) (before after prepared : Option String)
    (body : AuditRecord) : Type 0 where
  pub of_event : body.event ≡ event
  pub of_context : body.context ≡ c
  pub of_before : body.before_digest ≡ before
  pub of_after : body.after_digest ≡ after
  pub of_prepared : body.prepared_event_id ≡ prepared

same_binding_refl :
    (c : AuditContext) (outcome : String) → same_binding c (record c { outcome = outcome }) ≡ true
same_binding_refl c outcome =
    rw
      (
        eqb_refl c.tool,
        eqb_refl c.operation_id,
        eqb_refl c.operation,
        eqb_refl c.target_hash,
        eqb_refl c.entry_id,
        eqb_refl c.scope,
        eqb_refl c.policy_version,
        eqb_refl c.ruleset_version,
        eqb_refl c.challenge_id,
        eqb_refl c.entry_version,
        eqb_refl c.error_code,
      )
      refl

module _ (keyed : Keyed) (limits : Limits) (state_digest : Option String → String) where
  abbrev digests : Option String → Option String → Option String × Option String
  digests before after = (some (state_digest before), some (state_digest after))

  build-IsBuilt :
      (f : Fresh) (event : String) (c : AuditContext) (before after prepared : Option String)
      (body : AuditRecord)
      → build keyed limits state_digest f event c before after prepared ≡ some body
      → IsBuilt event c before after prepared body × (body.event_id ≡ f.event_id)
  build-IsBuilt f event c before after prepared body h =
      let e =
        build_record-fields keyed.is_uuid4 f.event_id f.timestamp event c before after prepared body
          h in
      (
        record {
          of_event = ap (λ (b : AuditRecord). b.event) e;
          of_context = ap (λ (b : AuditRecord). b.context) e;
          of_before = ap (λ (b : AuditRecord). b.before_digest) e;
          of_after = ap (λ (b : AuditRecord). b.after_digest) e;
          of_prepared = ap (λ (b : AuditRecord). b.prepared_event_id) e;
        },
        ap (λ (b : AuditRecord). b.event_id) e,
      )

  -- What makes a prepare record possible: a settled log with none open, inside a transaction, a
  -- mutation that changes the store, and a record that fits.
  pub record IsPreparable (f : Fresh) (operation : String) (before after : Option String)
      (entry_id : String) (c : AuditContext) (mac : Option String) (body : AuditRecord)
      (j : Journal) : Type 0 where
    pub settled : IsSettled keyed limits mac j.audit
    pub closed : unmatched_prepares (all_records keyed limits j.audit.disk) ≡ []
    pub new :
        contains (completed_prepares (all_records keyed limits j.audit.disk)) f.event_id ≡ false
    pub marked : j.has_marker ≡ true
    pub bound :
        (is_operation operation
          && keyed.is_uuid4 entry_id
          && operation == c.operation
          && some entry_id == c.entry_id)
        ≡ true
    pub changes : (state_digest before == state_digest after) ≡ false
    pub built :
        build keyed limits state_digest f "mutation_prepared" c
          (some (state_digest before))
          (some (state_digest after))
          none
        ≡ some body
    pub in_place : IsInPlace keyed limits mac body j.audit

  module _ (f : Fresh) (operation : String) (before after : Option String) (entry_id : String)
      (c : AuditContext) (mac : Option String) (body : AuditRecord) (j : Journal)
      (h : IsPreparable f operation before after entry_id c mac body j) where
    -- The log with the prepare record.
    abbrev prepared_journal : Journal
    prepared_journal = record j { audit = finished keyed limits mac body j.audit }

    abbrev prepared_line : SignedRecord
    prepared_line = new_line keyed limits mac body

    abbrev prepared_mutation : PreparedMutation
    prepared_mutation = record {
      event_id = body.event_id;
      operation = operation;
      entry_id = entry_id;
      before_digest = state_digest before;
      after_digest = state_digest after;
      record_mac = prepared_line.record_mac;
    }

    prepare_mutation-reserved :
        (r : Reservation)
        → r.active ≡ true
        → prepare_mutation keyed limits state_digest f operation before after entry_id c (some r) j
          ≡ (
            ok prepared_mutation,
            some (record r { prepare_attempted = true; prepared_event_id = some body.event_id }),
            prepared_journal,
          )
    unfolding prepare_mutation
    prepare_mutation-reserved r a =
        rw
          (
            a,
            h.marked,
            h.bound,
            h.changes,
            h.built,
            (append_record-IsSettled keyed limits mac body j.audit h.settled h.in_place).0,
          )
          refl

    prepared-IsOpen :
        IsOpen keyed limits state_digest
          (some prepared_line.record_mac)
          (all_records keyed limits j.audit.disk)
          prepared_line
          prepared_journal
    prepared-IsOpen =
        let b =
          build-IsBuilt f "mutation_prepared" c (some (state_digest before))
            (some (state_digest after)) none body h.built in
        let (answer, settled, records) =
          append_record-IsSettled keyed limits mac body j.audit h.settled h.in_place in
        record {
          settled = settled;
          records = records;
          closed = h.closed;
          prepare = rw (b.0.of_event) refl;
          new = rw (b.1) h.new;
        }

    -- The record that closes the prepare record, behind it in the log.
    closing :
        (event : String) (ce : AuditContext) (f2 : Fresh) (body2 : AuditRecord)
        → contains ("mutation_committed" ∷ "recovery_committed" ∷ "recovery_aborted" ∷ []) event
          ≡ true
        → build keyed limits state_digest f2 event ce
            (some (state_digest before))
            (some (state_digest after))
            (some body.event_id)
          ≡ some body2
        → IsInPlace keyed limits (some prepared_line.record_mac) body2 prepared_journal.audit
        → unmatched_prepares (
            all_records keyed limits
              (finished keyed limits
                (some prepared_line.record_mac)
                body2
                prepared_journal.audit).disk)
          ≡ []
    closing event ce f2 body2 k b i =
        let o = prepared-IsOpen in
        let built =
          build-IsBuilt f2 event ce (some (state_digest before)) (some (state_digest after))
            (some body.event_id) body2 b in
        let (answer, settled, records) =
          append_record-IsSettled keyed limits (some prepared_line.record_mac) body2
            prepared_journal.audit o.settled i in
        rw (records, o.records)
          (unmatched_prepares-completion (all_records keyed limits j.audit.disk) prepared_line
            (new_line keyed limits (some prepared_line.record_mac) body2) h.closed o.prepare
            (rw (built.0.of_event) k) built.0.of_prepared)

    abbrev closed_journal : AuditRecord → Journal
    closed_journal body2 = record {
      audit = finished keyed limits (some prepared_line.record_mac) body2 prepared_journal.audit;
      has_marker = false;
    }

    abbrev closing_line : AuditRecord → SignedRecord
    closing_line body2 = new_line keyed limits (some prepared_line.record_mac) body2

    -- The event and the store of a crash, by whether the store was written.
    abbrev pub crash_event : Bool → String
    crash_event wrote = if wrote then "recovery_committed" else "recovery_aborted"

    abbrev pub crash_store : Bool → Option String
    crash_store wrote = if wrote then after else before

    recovery_event-crash :
        (wrote : Bool)
        → recovery_event
            (state_digest before)
            (state_digest after)
            (state_digest (crash_store wrote))
          ≡ some (crash_event wrote)
    unfolding recovery_event
    recovery_event-crash true = rw (eqb_refl (state_digest after)) refl
    recovery_event-crash false = rw (h.changes, eqb_refl (state_digest before)) refl

    crash_event-closes :
        (wrote : Bool)
        → contains
            ("mutation_committed" ∷ "recovery_committed" ∷ "recovery_aborted" ∷ [])
            (crash_event wrote)
          ≡ true
    crash_event-closes true = refl
    crash_event-closes false = refl

    -- A mutation is prepared inside a transaction and its process stops, the store written or not, when
    -- the digests of the two stores differ. The recovery then answers "recovery_committed" where the
    -- store was written and "recovery_aborted" otherwise, closes the prepare record with a record of
    -- that event, clears the marker, and leaves a settled log with no prepare record open. Nothing else
    -- writes to the log meanwhile, and both records fit the open segment and the limits.
    pub verify_and_recover-prepare_mutation :
        (r : Reservation) (wrote : Bool) (f2 : Fresh) (body2 : AuditRecord)
        → r.active ≡ true
        → build keyed limits state_digest f2
            (crash_event wrote)
            (context_from_record prepared_line (crash_event wrote))
            (some (state_digest before))
            (some (state_digest after))
            (some body.event_id)
          ≡ some body2
        → IsInPlace keyed limits (some prepared_line.record_mac) body2 prepared_journal.audit
        → let prepared =
            prepare_mutation keyed limits state_digest f operation before after entry_id c
              (some r)
              j in
          (prepared.0 ≡ ok prepared_mutation)
          × (verify_and_recover keyed limits state_digest
                (λ st. st)
                f2
                (some (crash_store wrote))
                prepared.2
              ≡ (
                ok (recovered (crash_event wrote) body2.event_id body.event_id),
                closed_journal body2,
              ))
          × IsSettled keyed limits
              (some (closing_line body2).record_mac)
              (closed_journal body2).audit
          × (unmatched_prepares (all_records keyed limits (closed_journal body2).audit.disk) ≡ [])
    verify_and_recover-prepare_mutation r wrote f2 body2 a b i =
        let o = prepared-IsOpen in
        let built =
          (build-IsBuilt f "mutation_prepared" c (some (state_digest before))
            (some (state_digest after)) none body h.built).0 in
        rw (prepare_mutation-reserved r a) (
          refl,
          verify_and_recover-open keyed limits state_digest (λ st. st) f2 (crash_store wrote)
              (some prepared_line.record_mac) (all_records keyed limits j.audit.disk) prepared_line
              prepared_journal (state_digest before) (state_digest after) (crash_event wrote) body2
              o (ap digest_text built.of_before) (ap digest_text built.of_after) h.changes
              (recovery_event-crash wrote) b refl i,
          (append_record-IsSettled keyed limits (some prepared_line.record_mac) body2
              prepared_journal.audit o.settled i).1,
          closing (crash_event wrote) (context_from_record prepared_line (crash_event wrote)) f2
              body2 (crash_event-closes wrote) b i,
        )

    abbrev reserved_now : Reservation → Bool → Reservation
    reserved_now r done = record r {
      prepare_attempted = true;
      prepared_event_id = some body.event_id;
      completed = done;
    }

    -- The line holds what the prepared mutation and the context say.
    is_bound-prepared :
        (outcome : String)
        → is_bound prepared_line prepared_mutation (record c { outcome = outcome }) ≡ true
    unfolding is_bound
    is_bound-prepared outcome =
        let b =
          (build-IsBuilt f "mutation_prepared" c (some (state_digest before))
            (some (state_digest after)) none body h.built).0 in
        let o : operation ≡ c.operation =
          (string_eq.beq_iff operation c.operation).0 (ground (arith, h.bound)) in
        let e : some entry_id ≡ c.entry_id =
          (option_eqb_iff (some entry_id) c.entry_id).0 (ground (arith, h.bound)) in
        rw
          (
            eqb_refl prepared_line.record_mac,
            eqb_refl body.event_id,
            b.of_context,
            b.of_before,
            b.of_after,
            same_binding_refl c outcome,
            sym o,
            sym e,
            eqb_refl operation,
            eqb_refl entry_id,
            eqb_refl (state_digest before),
            eqb_refl (state_digest after),
          )
          refl

    -- A mutation that is prepared and committed inside one transaction, its digests different and both
    -- records within the open segment and the limits: the commit succeeds, the end of the transaction
    -- clears the marker, and the log is settled with no prepare record open.
    pub commit_mutation-prepare_mutation :
        (r : Reservation) (outcome : String) (f2 : Fresh) (body2 : AuditRecord)
        → r.active ≡ true
        → is_prepared_valid keyed limits state_digest prepared_mutation
            (record c { outcome = outcome })
          ≡ true
        → build keyed limits state_digest f2 "mutation_committed"
            (record c { outcome = outcome })
            (some (state_digest before))
            (some (state_digest after))
            (some body.event_id)
          ≡ some body2
        → IsInPlace keyed limits (some prepared_line.record_mac) body2 prepared_journal.audit
        → let prepared =
            prepare_mutation keyed limits state_digest f operation before after entry_id c
              (some r)
              j in
          let committed =
            commit_mutation keyed limits state_digest f2 prepared_mutation
              (record c { outcome = outcome })
              prepared.1
              prepared.2 in
          (prepared.0 ≡ ok prepared_mutation)
          × (committed ≡ (
            ok body2.event_id,
            some (reserved_now r true),
            record (closed_journal body2) { has_marker = true },
          ))
          × (finish_reservation keyed limits state_digest (reserved_now r true) committed.2
              ≡ closed_journal body2)
          × (unmatched_prepares (all_records keyed limits (closed_journal body2).audit.disk) ≡ [])
    unfolding commit_mutation finish_reservation
    commit_mutation-prepare_mutation r outcome f2 body2 a v b i =
        let o = prepared-IsOpen in
        let appended =
          append_record-IsSettled keyed limits (some prepared_line.record_mac) body2
            prepared_journal.audit o.settled i in
        let tail =
          (require_unmatched_tail-prepare (all_records keyed limits j.audit.disk) prepared_line
            o.closed o.prepare o.new).1 in
        rw
          (
            prepare_mutation-reserved r a,
            a,
            h.marked,
            v,
            eqb_refl body.event_id,
            b,
            verify_chain-settled keyed limits (some prepared_line.record_mac) prepared_journal.audit
                o.settled,
            o.records,
            tail,
            is_bound-prepared outcome,
            appended.0,
          )
          (
            refl,
            refl,
            refl,
            closing "mutation_committed" (record c { outcome = outcome }) f2 body2 refl b i,
          )
