-- ===== src/Mcp/Audit/Protocol.antt =====
-- codex_preflight_mcp/trust_mutation_audit.py: the mutation protocol on the log. A mutation is
-- announced by a prepare record, made on the trust store, and closed by a commit record; a marker file
-- stands while a reservation is held, and recovery closes what a crash left open. One process holds
-- the reservation lock; what other writers do to the log between two holds of the inner lock is an
-- argument of the recovery.
pub mod Unmatched
pub mod Prepared
pub mod Recovered
use codex_preflight.Base.{
  Bool, true, false, ◌&&◌, ◌||◌, not, Option, none, some, String, List, [], ◌∷◌, ◌==◌, nat_eq,
  string_eq, option_eq, contains, keep, map_option, if◌then◌else◌,
}
use codex_preflight.Mcp.Audit.Record.{
  AuditContext, AuditRecord, SignedRecord, build_record, is_hash, is_mac,
}
use codex_preflight.Mcp.Audit.Chain.{
  Limits, Keyed, AuditError, Checked, ok, err, failed, corrupt, recovery_required, AuditState,
  verify_chain, append_record,
}

pub record PreparedMutation : Type 0 where
  pub event_id : String
  pub operation : String
  pub entry_id : String
  pub before_digest : String
  pub after_digest : String
  pub record_mac : String

-- `_MutationReservation` of this log.
pub record Reservation : Type 0 where
  pub active : Bool
  pub prepare_attempted : Bool
  pub prepared_event_id : Option String
  pub completed : Bool

pub data RecoveryResult : Type 0 where
  clean : RecoveryResult
  recovered : String → String → String → RecoveryResult

-- The log's files, the marker `mutation.reserve` among them.
pub record Journal : Type 0 where
  pub audit : AuditState
  pub has_marker : Bool

-- The id and the time of a new record.
pub record Fresh : Type 0 where
  pub event_id : String
  pub timestamp : String

-- `_COMPLETION_EVENTS`
abbrev pub completion_events : List String
completion_events = "mutation_committed" ∷ "recovery_committed" ∷ "recovery_aborted" ∷ []

abbrev pub add_some : Option String → List String → List String
add_some none ids = ids
add_some (some a) ids = a ∷ ids

-- The ids of the prepare records that a later record closes.
unfoldable pub completed_prepares : List SignedRecord → List String
completed_prepares [] = []
completed_prepares (r ∷ rs) =
    let rest = completed_prepares rs in
    if contains completion_events r.body.event then add_some r.body.prepared_event_id rest else rest

abbrev pub is_open : List String → SignedRecord → Bool
is_open completed r =
    r.body.event == "mutation_prepared" && not (contains completed r.body.event_id)

-- `_unmatched_prepares`
unfoldable pub unmatched_prepares : List SignedRecord → List SignedRecord
unmatched_prepares records = keep (is_open (completed_prepares records)) records

unfoldable pub is_last : List SignedRecord → String → Bool
is_last [] id = false
is_last (r ∷ []) id = r.body.event_id == id
is_last (r ∷ s ∷ rs) id = is_last (s ∷ rs) id

abbrev pub single_tail : List SignedRecord → List SignedRecord → Option SignedRecord
single_tail (p ∷ []) records = if is_last records p.body.event_id then some p else none
single_tail _ records = none

-- The one open prepare record, where it is the last record.
abbrev pub unmatched_tail : List SignedRecord → Option SignedRecord
unmatched_tail records = single_tail (unmatched_prepares records) records

abbrev pub with_id : String → Option SignedRecord → Option SignedRecord
with_id id none = none
with_id id (some p) = if p.body.event_id == id then some p else none

-- `_require_unmatched_tail`
abbrev pub require_unmatched_tail : List SignedRecord → String → Option SignedRecord
require_unmatched_tail records id = with_id id (unmatched_tail records)

abbrev pub same_binding : AuditContext → AuditContext → Bool
same_binding a c =
    a.tool == c.tool
    && a.operation_id == c.operation_id
    && a.operation == c.operation
    && a.target_hash == c.target_hash
    && a.entry_id == c.entry_id
    && a.scope == c.scope
    && a.policy_version == c.policy_version
    && a.ruleset_version == c.ruleset_version
    && a.challenge_id == c.challenge_id
    && a.entry_version == c.entry_version
    && a.error_code == c.error_code

-- `_require_complete_prepare_binding`
unfoldable pub is_bound : SignedRecord → PreparedMutation → AuditContext → Bool
is_bound actual p c =
    same_binding actual.body.context c
    && actual.body.event_id == p.event_id
    && actual.record_mac == p.record_mac
    && actual.body.context.operation == p.operation
    && actual.body.context.entry_id == some p.entry_id
    && actual.body.before_digest == some p.before_digest
    && actual.body.after_digest == some p.after_digest

-- `actual != prepared`, negated
unfoldable pub same_record : SignedRecord → SignedRecord → Bool
same_record a b =
    a.body.event == b.body.event
    && a.body.event_id == b.body.event_id
    && a.body.timestamp == b.body.timestamp
    && same_binding a.body.context b.body.context
    && a.body.context.outcome == b.body.context.outcome
    && a.body.before_digest == b.body.before_digest
    && a.body.after_digest == b.body.after_digest
    && a.body.prepared_event_id == b.body.prepared_event_id
    && a.previous_mac == b.previous_mac
    && a.record_mac == b.record_mac

-- `_context_from_record`
unfoldable pub context_from_record : SignedRecord → String → AuditContext
context_from_record r outcome = record r.body.context { outcome = outcome; error_code = none }

-- `str(value)` of a digest that may be missing
abbrev pub digest_text : Option String → String
digest_text none = "None"
digest_text (some s) = s

abbrev pub is_operation : String → Bool
is_operation s = s == "approve" || s == "revoke"

-- The event that the digest of the store, read anew, decides on; it is the status too.
unfoldable pub recovery_event : String → String → String → Option String
recovery_event before after current =
    if current == after
    then some "recovery_committed"
    else if current == before
    then some "recovery_aborted"
    else none

module _ (keyed : Keyed) (limits : Limits) (state_digest : Option String → String) where
  open keyed use {is_uuid4}

  -- `_validate_prepared`
  unfoldable pub is_prepared_valid : PreparedMutation → AuditContext → Bool
  is_prepared_valid p c =
      is_uuid4 p.event_id
      && is_uuid4 p.entry_id
      && is_operation p.operation
      && is_hash p.before_digest
      && is_hash p.after_digest
      && is_mac p.record_mac
      && not (p.before_digest == p.after_digest)
      && p.operation == c.operation
      && some p.entry_id == c.entry_id

  -- What the public operations make of an exception: all but the marker's are one error.
  abbrev pub public_error : AuditError → AuditError
  public_error recovery_required = recovery_required
  public_error other = failed

  -- The reservation an operation runs under, `none` for one of its own.
  abbrev pub reserved : Option Reservation → Bool → Option AuditError
  reserved none has_marker = if has_marker then some recovery_required else none
  reserved (some r) has_marker = if r.active && has_marker then none else some failed

  abbrev pub attempted : Option Reservation → Option Reservation
  attempted none = none
  attempted (some r) = some (record r { prepare_attempted = true })

  abbrev pub prepared_as : String → Option Reservation → Option Reservation
  prepared_as id none = none
  prepared_as id (some r) = some (record r { prepared_event_id = some id })

  abbrev pub completed_now : Option Reservation → Option Reservation
  completed_now none = none
  completed_now (some r) = some (record r { completed = true })

  -- The record appended, or the error, as the public operations give it.
  abbrev pub append_built : Option AuditRecord → AuditState → Checked SignedRecord × AuditState
  append_built none st = (err failed, st)
  append_built (some body) st = append_record keyed limits body st

  abbrev pub build :
      Fresh
      → String
      → AuditContext
      → Option String
      → Option String
      → Option String
      → Option AuditRecord
  build f event c before after prepared =
      build_record is_uuid4 f.event_id f.timestamp event c before after prepared

  -- The operations below answer with the reservation and the files they leave.
  abbrev pub Answer : Type 0 → Type 0
  Answer A = Checked A × Option Reservation × Journal

  abbrev pub recorded : Checked SignedRecord × AuditState → Journal → Checked String × Journal
  recorded (ok r, st) j = (ok r.body.event_id, record j { audit = st })
  recorded (err e, st) j = (err (public_error e), record j { audit = st })

  -- `record`
  unfoldable pub record_event : Fresh → String → AuditContext → Journal → Checked String × Journal
  record_event f event c j =
      if j.has_marker
      then (err recovery_required, j)
      else recorded (append_built (build f event c none none none) j.audit) j

  -- The entry into `mutation_transaction`.
  unfoldable pub begin_transaction : Journal → Checked Reservation × Journal
  begin_transaction j = if j.has_marker then (err recovery_required, j) else (
    ok (record {
      active = true;
      prepare_attempted = false;
      prepared_event_id = none;
      completed = false;
    }),
    record j { has_marker = true },
  )

  -- `_finish_reservation`, at the end of the transaction
  unfoldable pub finish_reservation : Reservation → Journal → Journal
  finish_reservation r j =
      if not r.prepare_attempted || r.completed then record j { has_marker = false } else j

  abbrev pub prepared_of :
      String
      → String
      → String
      → String
      → Option Reservation
      → Checked SignedRecord × AuditState
      → Journal
      → Answer PreparedMutation
  prepared_of operation entry_id before after r (err e, st) j =
      (err (public_error e), r, record j { audit = st })
  prepared_of operation entry_id before after r (ok signed, st) j = (
    ok (record {
      event_id = signed.body.event_id;
      operation = operation;
      entry_id = entry_id;
      before_digest = before;
      after_digest = after;
      record_mac = signed.record_mac;
    }),
    prepared_as signed.body.event_id r,
    record j { audit = st },
  )

  abbrev pub prepare_digests :
      Fresh
      → String
      → String
      → AuditContext
      → String
      → String
      → Option Reservation
      → Journal
      → Answer PreparedMutation
  prepare_digests f operation entry_id c before after r j =
      if before == after
      then (err failed, r, j)
      else prepared_of operation entry_id before after r
          (append_built (build f "mutation_prepared" c (some before) (some after) none) j.audit) j

  abbrev pub prepare_reserved :
      Fresh
      → String
      → Option String
      → Option String
      → String
      → AuditContext
      → Option Reservation
      → Journal
      → Option AuditError
      → Answer PreparedMutation
  prepare_reserved f operation before after entry_id c r j (some e) = (err e, r, j)
  prepare_reserved f operation before after entry_id c r j none =
      if is_operation operation
        && is_uuid4 entry_id
        && operation == c.operation
        && some entry_id == c.entry_id
      then prepare_digests f operation entry_id c (state_digest before) (state_digest after)
          (attempted r) j
      else (err failed, r, j)

  -- `prepare_mutation`, with `_prepare_mutation`
  unfoldable pub prepare_mutation :
      Fresh
      → String
      → Option String
      → Option String
      → String
      → AuditContext
      → Option Reservation
      → Journal
      → Answer PreparedMutation
  prepare_mutation f operation before after entry_id c r j =
      prepare_reserved f operation before after entry_id c r j (reserved r j.has_marker)

  abbrev pub committed_of :
      Option Reservation → Checked SignedRecord × AuditState → Journal → Answer String
  committed_of r (err e, st) j = (err (public_error e), r, record j { audit = st })
  committed_of r (ok signed, st) j =
      (ok signed.body.event_id, completed_now r, record j { audit = st })

  abbrev pub commit_bound :
      PreparedMutation
      → AuditContext
      → AuditRecord
      → Option Reservation
      → Journal
      → Option SignedRecord
      → AuditState
      → Answer String
  commit_bound p c body r j none st = (err failed, r, record j { audit = st })
  commit_bound p c body r j (some actual) st =
      if is_bound actual p c
      then committed_of r (append_record keyed limits body st) j
      else (err failed, r, record j { audit = st })

  abbrev pub commit_verified :
      PreparedMutation
      → AuditContext
      → AuditRecord
      → Option Reservation
      → Journal
      → Checked (List SignedRecord × String) × AuditState
      → Answer String
  commit_verified p c body r j (err e, st) = (err (public_error e), r, record j { audit = st })
  commit_verified p c body r j (ok (records, mac), st) =
      commit_bound p c body r j (require_unmatched_tail records p.event_id) st

  abbrev pub commit_built :
      PreparedMutation
      → AuditContext
      → Option AuditRecord
      → Option Reservation
      → Journal
      → Answer String
  commit_built p c none r j = (err failed, r, j)
  commit_built p c (some body) r j =
      commit_verified p c body r j (verify_chain keyed limits j.audit)

  abbrev pub is_prepared_by : PreparedMutation → Option Reservation → Bool
  is_prepared_by p none = true
  is_prepared_by p (some r) = r.prepared_event_id == some p.event_id

  abbrev pub commit_reserved :
      Fresh
      → PreparedMutation
      → AuditContext
      → Option Reservation
      → Journal
      → Option AuditError
      → Answer String
  commit_reserved f p c r j (some e) = (err e, r, j)
  commit_reserved f p c r j none =
      if is_prepared_valid p c && is_prepared_by p r
      then commit_built p c
          (build f "mutation_committed" c (some p.before_digest) (some p.after_digest)
            (some p.event_id))
          r j
      else (err failed, r, j)

  -- `commit_mutation`, with `_commit_mutation`
  unfoldable pub commit_mutation :
      Fresh → PreparedMutation → AuditContext → Option Reservation → Journal → Answer String
  commit_mutation f p c r j = commit_reserved f p c r j (reserved r j.has_marker)

  abbrev pub Recovery : Type 0
  Recovery = Checked RecoveryResult × Journal

  abbrev pub recovery_appended :
      String → String → Checked SignedRecord × AuditState → Journal → Recovery
  recovery_appended status prepared_id (ok r, st) j =
      (ok (recovered status r.body.event_id prepared_id), record { audit = st; has_marker = false })
  recovery_appended status prepared_id (err e, st) j =
      (err recovery_required, record j { audit = st })

  abbrev pub recovery_tail :
      String → SignedRecord → AuditRecord → Option SignedRecord → AuditState → Journal → Recovery
  recovery_tail status p body none st j = (err recovery_required, record j { audit = st })
  recovery_tail status p body (some actual) st j =
      if same_record actual p
      then recovery_appended status p.body.event_id (append_record keyed limits body st) j
      else (err recovery_required, record j { audit = st })

  -- The second hold of the inner lock.
  abbrev pub recovery_verified :
      String
      → SignedRecord
      → AuditRecord
      → Checked (List SignedRecord × String) × AuditState
      → Journal
      → Recovery
  recovery_verified status p body (err e, st) j = (err recovery_required, record j { audit = st })
  recovery_verified status p body (ok (records, mac), st) j =
      recovery_tail status p body (require_unmatched_tail records p.body.event_id) st j

  abbrev pub recovery_built :
      (AuditState → AuditState) → String → SignedRecord → Option AuditRecord → Journal → Recovery
  recovery_built between status p none j = (err failed, j)
  recovery_built between status p (some body) j =
      recovery_verified status p body (verify_chain keyed limits (between j.audit)) j

  abbrev pub recover_by :
      (AuditState → AuditState) → Fresh → SignedRecord → Option String → Journal → Recovery
  recover_by between f p none j = (err recovery_required, j)
  recover_by between f p (some event) j =
      recovery_built between event p
        (build f event (context_from_record p event) (some (digest_text p.body.before_digest))
          (some (digest_text p.body.after_digest)) (some p.body.event_id))
        j

  -- The store is what its reader gives, `none` where that fails.
  abbrev pub recover_prepared :
      (AuditState → AuditState) → Fresh → SignedRecord → Option (Option String) → Journal → Recovery
  recover_prepared between f p none j = (err recovery_required, j)
  recover_prepared between f p (some store) j =
      if digest_text p.body.before_digest == digest_text p.body.after_digest
      then (err recovery_required, j)
      else recover_by between f p
          (recovery_event (digest_text p.body.before_digest) (digest_text p.body.after_digest)
            (state_digest store))
          j

  abbrev pub recover_tail :
      (AuditState → AuditState)
      → Fresh
      → Option SignedRecord
      → Option (Option String)
      → Journal
      → Recovery
  recover_tail between f none store j = (err recovery_required, j)
  recover_tail between f (some p) store j = recover_prepared between f p store j

  abbrev pub recover_unmatched :
      (AuditState → AuditState)
      → Fresh
      → List SignedRecord
      → List SignedRecord
      → Option (Option String)
      → Journal
      → Recovery
  recover_unmatched between f [] records store j = (ok clean, record j { has_marker = false })
  recover_unmatched between f (p ∷ ps) records store j =
      recover_tail between f (single_tail (p ∷ ps) records) store j

  abbrev pub recover_verified :
      (AuditState → AuditState)
      → Fresh
      → Option (Option String)
      → Journal
      → Checked (List SignedRecord × String) × AuditState
      → Recovery
  recover_verified between f store j (err e, st) = (err e, record j { audit = st })
  recover_verified between f store j (ok (records, mac), st) =
      recover_unmatched between f (unmatched_prepares records) records store
        (record j { audit = st })

  -- `verify_and_recover`
  unfoldable pub verify_and_recover :
      (AuditState → AuditState) → Fresh → Option (Option String) → Journal → Recovery
  verify_and_recover between f store j =
      recover_verified between f store j (verify_chain keyed limits j.audit)
