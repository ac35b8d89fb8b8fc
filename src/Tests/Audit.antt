-- ===== src/Tests/Audit.antt =====
-- The audit log with a toy key, whose codes are constants and whose lines have 100 bytes.
use codex_preflight.Base.{
  ◌≡◌, refl, arith, true, false, Option, none, some, String, [], ◌∷◌, ◌++◌, take, starts_with,
  nat_eq, string_eq,
}
use codex_preflight.Mcp.Audit.Record.{
  AuditContext, AuditRecord, SignedRecord, build_record, is_stored_valid, is_hash, is_mac, is_safe,
  has_outcome, event_outcomes, stable_error_codes,
}
use codex_preflight.Mcp.Audit.Segments.{
  Segment, put, with_line, rotate, project_segment_data, total_size, anchor_snapshot,
  anchor_entries, anchor_matches, segments_match,
}
use codex_preflight.Mcp.Audit.Segments.Rotation.{rotate-project_segment_data}
use codex_preflight.Mcp.Audit.Chain.{
  Limits, Keyed, AuditState, ok, err, corrupt, zero_mac, is_within_limits, observe, check_lines,
  records_down, segments_whole, verify_chain, append_record, write_all, append_writes, all_records,
}
use codex_preflight.Mcp.Audit.Chain.Settled.{IsSettled}
use codex_preflight.Mcp.Audit.Chain.Appended.{IsInPlace}
use codex_preflight.Mcp.Audit.Chain.Crash.{
  new_line, finished, crashed, found, verify_chain-append_writes, append_record-IsSettled,
}
use codex_preflight.Mcp.Audit.Chain.Rotated.{verify_chain-rotate_segments}
use codex_preflight.Mcp.Audit.Protocol.{
  Answer, Journal, Fresh, Reservation, unmatched_prepares, completed_prepares, prepare_mutation,
  verify_and_recover, commit_mutation, recovered, context_from_record, build, PreparedMutation,
  finish_reservation, is_prepared_valid,
}
use codex_preflight.Mcp.Audit.Protocol.Prepared.{
  IsPreparable, verify_and_recover-prepare_mutation, commit_mutation-prepare_mutation,
}

abbrev pub mac_a : String
mac_a = "aaaaaaaaaaaaaaaaaaaaaaaaaaaaaaaaaaaaaaaaaaaaaaaaaaaaaaaaaaaaaaaa"

abbrev pub hash_a : String
hash_a = "hmac-sha256:aaaaaaaaaaaaaaaaaaaaaaaaaaaaaaaaaaaaaaaaaaaaaaaaaaaaaaaaaaaaaaaa"

abbrev pub hash_b : String
hash_b = "hmac-sha256:bbbbbbbbbbbbbbbbbbbbbbbbbbbbbbbbbbbbbbbbbbbbbbbbbbbbbbbbbbbbbbbb"

abbrev pub toy : Keyed
toy = record {
  record_mac = λ r previous. mac_a;
  segment_mac = λ i s. "s";
  line_size = λ r. 100;
  is_uuid4 = λ s. true;
}

-- One record fills a segment.
abbrev pub small : Limits
small = record {
  max_record_bytes = 120;
  max_segment_bytes = 150;
  max_rotated_segments = 3;
  max_total_bytes = 600;
}

abbrev pub roomy : Limits
roomy = record small { max_segment_bytes = 1000 }

abbrev pub no_files : AuditState
no_files = record {
  disk = λ i. none;
  has_stray = false;
  committed = record { segments = []; terminal_mac = zero_mac };
  pending = none;
}

abbrev approving : AuditContext
approving = record {
  tool = "trust_approve";
  operation_id = "o1";
  operation = "approve";
  target_hash = none;
  entry_id = some "e1";
  scope = some "build";
  policy_version = none;
  ruleset_version = none;
  challenge_id = none;
  outcome = "prepared";
  error_code = none;
  entry_version = some 1;
}

abbrev prepare_body : AuditRecord
prepare_body = record {
  event = "mutation_prepared";
  event_id = "p1";
  timestamp = "t1";
  context = approving;
  before_digest = some hash_a;
  after_digest = some hash_b;
  prepared_event_id = none;
}

small-no_files : IsSettled toy small none no_files
unfolding is_within_limits observe check_lines records_down segments_whole total_size
    anchor_snapshot anchor_entries anchor_matches segments_match
small-no_files = record { limited = refl; observed = refl; anchored = refl; quiet = refl }

roomy-no_files : IsSettled toy roomy none no_files
unfolding is_within_limits observe check_lines records_down segments_whole total_size
    anchor_snapshot anchor_entries anchor_matches segments_match
roomy-no_files = record { limited = refl; observed = refl; anchored = refl; quiet = refl }

small-prepare : IsInPlace toy small none prepare_body no_files
unfolding is_stored_valid total_size is_hash is_mac has_outcome event_outcomes starts_with
    stable_error_codes
small-prepare = record { formed = refl; short = refl; stays = refl; fits = refl }

roomy-prepare : IsInPlace toy roomy none prepare_body no_files
unfolding is_stored_valid total_size is_hash is_mac has_outcome event_outcomes starts_with
    stable_error_codes
roomy-prepare = record { formed = refl; short = refl; stays = refl; fits = refl }

abbrev prepare_line : SignedRecord
prepare_line = new_line toy small none prepare_body

abbrev one_record : AuditState
one_record = finished toy small none prepare_body no_files

one_record-IsSettled : IsSettled toy small (some mac_a) one_record
one_record-IsSettled =
    (append_record-IsSettled toy small none prepare_body no_files small-no_files small-prepare).1

abbrev one_segment : Segment
one_segment = record { lines = prepare_line ∷ []; torn = 0 }

-- A file's segment 1 is where segment 0 was.
rotation_example :
    put 0 (with_line prepare_line (rotate 3 one_record.disk 0)) (rotate 3 one_record.disk) 1
    ≡ project_segment_data 3 prepare_line true one_record.disk 1
rotation_example = rotate-project_segment_data 3 1 prepare_line one_record.disk (omega arith)

crash_example :
    (verify_chain toy small (crashed toy small 2 none prepare_body no_files)).0
    ≡ ok (found toy small 2 none prepare_body no_files)
crash_example =
    verify_chain-append_writes toy small 2 none prepare_body no_files small-no_files small-prepare

append_example :
    (append_record toy small prepare_body no_files ≡ (ok prepare_line, one_record))
    × IsSettled toy small (some mac_a) one_record
    × (all_records toy small one_record.disk
        ≡ all_records toy small no_files.disk ++ (prepare_line ∷ []))
append_example =
    append_record-IsSettled toy small none prepare_body no_files small-no_files small-prepare

rotated_example :
    verify_chain toy small
      (write_all toy small (take 2 (append_writes toy small prepare_line one_record)) one_record)
    ≡ (
      err corrupt,
      write_all toy small (take 2 (append_writes toy small prepare_line one_record)) one_record,
    )
rotated_example =
    verify_chain-rotate_segments toy small (some mac_a) prepare_line one_record one_segment
      one_record-IsSettled refl refl

-- The bytes that the store holds before and after.
abbrev pub toy_digest : Option String → String
toy_digest none = hash_a
toy_digest (some s) = hash_b

abbrev first : Fresh
first = record { event_id = "p1"; timestamp = "t1" }

abbrev second : Fresh
second = record { event_id = "r1"; timestamp = "t2" }

abbrev in_transaction : Journal
in_transaction = record { audit = no_files; has_marker = true }

abbrev held : Reservation
held = record {
  active = true;
  prepare_attempted = false;
  prepared_event_id = none;
  completed = false;
}

preparable :
    IsPreparable toy roomy toy_digest first "approve" none
      (some "x")
      "e1"
      approving
      none
      prepare_body
      in_transaction
unfolding unmatched_prepares completed_prepares records_down build_record is_hash is_safe
    has_outcome event_outcomes starts_with stable_error_codes
preparable = record {
  settled = roomy-no_files;
  closed = refl;
  new = refl;
  marked = refl;
  bound = refl;
  changes = refl;
  built = refl;
  in_place = roomy-prepare;
}

-- A record that closes the prepare record.
abbrev closing_body : String → AuditRecord
closing_body event = record {
  event = event;
  event_id = "r1";
  timestamp = "t2";
  context = record approving { outcome = event };
  before_digest = some hash_a;
  after_digest = some hash_b;
  prepared_event_id = some "p1";
}

abbrev prepared_state : AuditState
prepared_state = finished toy roomy none prepare_body no_files

recovery_built :
    build toy roomy toy_digest second "recovery_committed"
      (context_from_record (new_line toy roomy none prepare_body) "recovery_committed")
      (some hash_a)
      (some hash_b)
      (some "p1")
    ≡ some (closing_body "recovery_committed")
unfolding build_record is_hash is_safe has_outcome event_outcomes starts_with stable_error_codes
    context_from_record
recovery_built = refl

commit_built :
    build toy roomy toy_digest second "mutation_committed"
      (record approving { outcome = "committed" })
      (some hash_a)
      (some hash_b)
      (some "p1")
    ≡ some (record (closing_body "mutation_committed") {
      context = record approving { outcome = "committed" };
    })
unfolding build_record is_hash is_safe has_outcome event_outcomes starts_with stable_error_codes
commit_built = refl

abbrev commit_body : AuditRecord
commit_body = record (closing_body "mutation_committed") {
  context = record approving { outcome = "committed" };
}

recovery_fits : IsInPlace toy roomy (some mac_a) (closing_body "recovery_committed") prepared_state
unfolding is_stored_valid is_hash is_mac has_outcome event_outcomes starts_with stable_error_codes
    total_size
recovery_fits = record { formed = refl; short = refl; stays = refl; fits = refl }

commit_fits : IsInPlace toy roomy (some mac_a) commit_body prepared_state
unfolding is_stored_valid is_hash is_mac has_outcome event_outcomes starts_with stable_error_codes
    total_size
commit_fits = record { formed = refl; short = refl; stays = refl; fits = refl }

abbrev prepared_answer : Answer toy roomy toy_digest PreparedMutation
prepared_answer =
    prepare_mutation toy roomy toy_digest first "approve" none (some "x") "e1" approving (some held)
      in_transaction

abbrev prepared_sample : PreparedMutation
prepared_sample = record {
  event_id = "p1";
  operation = "approve";
  entry_id = "e1";
  before_digest = hash_a;
  after_digest = hash_b;
  record_mac = mac_a;
}

abbrev final_journal : AuditRecord → Journal
final_journal body = record {
  audit = finished toy roomy (some mac_a) body prepared_state;
  has_marker = false;
}

recovery_example :
    (prepared_answer.0 ≡ ok prepared_sample)
    × (verify_and_recover toy roomy toy_digest (λ st. st) second (some (some "x")) prepared_answer.2
        ≡ (
          ok (recovered "recovery_committed" "r1" "p1"),
          final_journal (closing_body "recovery_committed"),
        ))
    × IsSettled toy roomy (some mac_a) (final_journal (closing_body "recovery_committed")).audit
    × (unmatched_prepares
          (all_records toy roomy (final_journal (closing_body "recovery_committed")).audit.disk)
        ≡ [])
recovery_example =
    verify_and_recover-prepare_mutation toy roomy toy_digest first "approve" none (some "x") "e1"
      approving none prepare_body in_transaction preparable held true second
      (closing_body "recovery_committed") refl recovery_built recovery_fits

abbrev commit_answer : Answer toy roomy toy_digest String
commit_answer =
    commit_mutation toy roomy toy_digest second prepared_sample
      (record approving { outcome = "committed" }) prepared_answer.1 prepared_answer.2

abbrev held_after : Reservation
held_after = record {
  active = true;
  prepare_attempted = true;
  prepared_event_id = some "p1";
  completed = true;
}

commit_valid :
    is_prepared_valid toy roomy toy_digest prepared_sample
      (record approving { outcome = "committed" })
    ≡ true
unfolding is_prepared_valid is_hash is_mac starts_with
commit_valid = refl

commit_example :
    (prepared_answer.0 ≡ ok prepared_sample)
    × (commit_answer
        ≡ (ok "r1", some held_after, record (final_journal commit_body) { has_marker = true }))
    × (finish_reservation toy roomy toy_digest held_after commit_answer.2
        ≡ final_journal commit_body)
    × (unmatched_prepares (all_records toy roomy (final_journal commit_body).audit.disk) ≡ [])
commit_example =
    commit_mutation-prepare_mutation toy roomy toy_digest first "approve" none (some "x") "e1"
      approving none prepare_body in_transaction preparable held "committed" second commit_body refl
      commit_valid commit_built commit_fits
