-- ===== src/Tests/Service.antt =====
-- The service, with an approval that its token confirms.
use codex_preflight.Base.{
  ◌≡◌, ◌≢◌, ◌⊎◌, refl, true, false, Option, none, some, String, List, [], ◌∷◌, Text, codes, ◌==◌, ℕ,
  nat_eq, list_eq, length, if◌then◌else◌, arith, ends_with, one_of, strip, has_infix,
}
use codex_preflight.Cache.TrustEntry.{TrustEntry, validate_entry}
use codex_preflight.Mcp.Action.{◌>>◌, Outcome, returned, ◌>>=◌, on_error}
use codex_preflight.Mcp.Audit.Chain.{
  Limits, is_within_limits, check_lines, records_down, segments_whole, observe, settle,
  verify_chain, append_record,
}
use codex_preflight.Mcp.Audit.Protocol.{
  Fresh, completed_prepares, unmatched_prepares, is_last, is_bound, is_prepared_valid, record_event,
  begin_transaction, prepare_mutation, commit_mutation,
}
use codex_preflight.Mcp.MutationConfirmation.{sign, verify, authenticate_and_consume}
use codex_preflight.Mcp.TrustMutation.Codes.{MutationError}
use codex_preflight.Mcp.TrustMutation.Service.{
  Parts, Service, Binding, ensure_active, audit_context, record_audit,
}
use codex_preflight.Mcp.TrustMutation.Request.{
  ArgumentReader, ApprovalArguments, ApprovalRequest, validate_approval_request,
}
use codex_preflight.Mcp.TrustMutation.Target.{Reading, Tick, Target, derive_approval_target}
use codex_preflight.Mcp.TrustMutation.Bound.{approval_binding, same_binding_values}
use codex_preflight.Mcp.TrustMutation.Confirm.{issue_approval, issue_revoke, IssueDraws}
use codex_preflight.Mcp.TrustMutation.Consume.{ConfirmDraws, consume_challenge, consume}
use codex_preflight.Mcp.TrustMutation.Approve.{
  approve_call, ApprovalReply, approval_entry, approval_hooks, approval_result, approve_agreed,
  agree, confirm_approval,
}
use codex_preflight.Tests.Audit as Audit
use codex_preflight.Tests.Challenges as Challenges
use codex_preflight.Tests.Approvals as Approvals
use codex_preflight.Tests.Approvals.{toy_library}
use codex_preflight.Cache.TrustCache.{stored, matching_entry, mutate}
use codex_preflight.Cache.TrustCache.Operations.{approve_mcp}
use codex_preflight.Command.Java.{parse_java_invocation}
use codex_preflight.Command.Classifier.{
  ruby_rake_task, classify_build, classify_tool, is_remote_pipe, is_mcp_start, classify_words,
  classify_single, classify_segments, classify_command,
}
use codex_preflight.Command.Words.{split_command_words}
use codex_preflight.Command.Segments.{split_shell_segments}
use codex_preflight.Mcp.TrustMutation.Mutation.{prepare_audit, commit_audit, transact, run_mutation}
use codex_preflight.Mcp.Audit.Record.{
  event_outcomes, has_outcome, is_hash, is_mac, is_safe, build_record, is_stored_valid,
}
use codex_preflight.Mcp.Audit.Segments.{
  segments_match, anchor_matches, project_segment_data, total_size, anchor_entries, anchor_snapshot,
}
use codex_preflight.Mcp.TrustMutation.Revoke.{RevokeReply, revoke_call}
use codex_preflight.Mcp.TrustMutation.Request.{RevokeArguments}
use codex_preflight.Mcp.TrustMutation.Bound.{revoke_binding}
use codex_preflight.Mcp.TrustMutation.Calls.{approving, registering, call, serve}
use codex_preflight.Mcp.TrustMutation.Authorized.{
  IsConfirmedApproval, approve_call-IsConfirmedApproval,
}
use codex_preflight.Mcp.TrustMutation.AuthorizedRevoke.{
  IsConfirmedRevocation, revoke_call-IsConfirmedRevocation,
}
use codex_preflight.Mcp.TrustMutation.Uses.{WasApproved, call-serve}
use codex_preflight.Mcp.TrustMutation.Origins.{serve-WasApproved}
use codex_preflight.Mcp.TrustMutation.Unconfirmed.{IsRaisedBy, approve_call-revoke_call}
use codex_preflight.Mcp.MutationConfirmation.{new_record}
use codex_preflight.Base.{IsIn, here, ap}

abbrev spacious : Limits
spacious = record Audit.small { max_segment_bytes = 100000; max_total_bytes = 1000000 }

abbrev toy_str : Text → String
toy_str t =
    if t == codes "hash"
    then Audit.hash_a
    else if t == codes "e1"
    then "e1"
    else if t == codes "p1"
    then "p1"
    else if t == codes "o1"
    then "o1"
    else if t == codes "build"
    then "build"
    else "v1"

abbrev toy_fresh : ℕ → Fresh
toy_fresh n = record {
  event_id = if n == 0 then "r0" else if n == 1 then "r1" else if n == 2 then "r2" else "r3";
  timestamp = "t";
}

abbrev toy_bytes : List TrustEntry → Option String
toy_bytes [] = none
toy_bytes (e ∷ entries) = some "x"

abbrev toy_store_digest : List TrustEntry → Text
toy_store_digest [] = codes "s0"
toy_store_digest (e ∷ entries) = codes "s1"

-- A binding has one text, which is read as the given one.
abbrev parts_with : Option Binding → Parts
parts_with b = record {
  keyed = Audit.toy;
  limits = spacious;
  state_digest = Audit.toy_digest;
  crypto = Challenges.toy;
  library = toy_library;
  max_bytes = 9;
  str = toy_str;
  store_bytes = toy_bytes;
  store_digest = toy_store_digest;
  value_digest = λ t. codes "v";
  entry_digest = λ e. codes "w";
  privacy_hash = λ t. codes "hash";
  utc_timestamp = λ n. codes "1Z";
  canonical_challenge_id = λ id. id;
  binding_mapping = λ c. Challenges.binding;
  read_binding = λ t. b;
  fresh = toy_fresh;
}

abbrev reader : ArgumentReader
reader = record {
  is_nonlocal_windows_path = λ t. false;
  resolve_directory = λ t. some t;
  instant_z = λ t. some 1000;
}

abbrev arguments : ApprovalArguments
arguments = record {
  cwd = some (codes "/repo");
  command = some (codes "make build");
  expires_at = some (codes "99999Z");
  reason = some (codes "why");
  has_extras = false;
}

abbrev request : ApprovalRequest
request = record {
  cwd = codes "/repo";
  command = codes "make build";
  expires_at = codes "99999Z";
  reason = codes "why";
}

abbrev fingerprint : Text
fingerprint = codes "sha256:0123456789abcdef0123456789abcdef0123456789abcdef0123456789abcdef"

abbrev tick : Tick
tick = record { cancelled = some false; clock = some 5 }

abbrev reading : Reading
reading = record {
  first = tick;
  storage_safe = true;
  identity = returned (record {
    root = some (codes "/repo");
    repo_id = codes "repo";
    remote_url = none;
    head_commit = none;
  });
  second = tick;
  fingerprint = returned fingerprint;
  third = tick;
  policy_version = some (codes "p");
  ruleset_version = some (codes "r");
  fourth = tick;
  snapshot_error = none;
  fifth = tick;
  now = some 3;
}

abbrev target : Target
target = record {
  cwd = codes "/repo";
  root = codes "/repo";
  repo_id = codes "repo";
  remote_url = none;
  head_commit = none;
  critical_fingerprint = fingerprint;
  command_scope = codes "build";
  policy_version = codes "p";
  ruleset_version = codes "r";
  target_hash = codes "hash";
  store_digest = codes "s0";
}

abbrev parts : Parts
parts = parts_with (
    some (approval_binding (parts_with none) request target (codes "o1") (codes "e1") (codes "p1")))

abbrev confirming : ConfirmDraws
confirming = record {
  now = 100;
  monotonic = some 0;
  reading = reading;
  second_reading = reading;
  lock = none;
  store_now = 3;
  write = λ entries. stored;
}

abbrev issuing : IssueDraws parts reader
issuing = record {
  operation_id = codes "o1";
  entry_id = codes "e1";
  prepared_event_id = codes "p1";
  wall_time = some 10;
  monotonic = some 0;
  reading = reading;
  now = 10;
  challenge_id = "c2";
  nonce = "n1";
  display = Challenges.binding;
}

abbrev service : Service
service = record {
  enabled = true;
  healthy = true;
  manager = Challenges.issued_manager;
  journal = record { audit = Audit.no_files; has_marker = false };
  store = [];
  drawn = 0;
}

abbrev token : Text
token = Challenges.challenge.token

abbrev confirmed : Outcome MutationError ApprovalReply × Service
confirmed = approve_call parts reader issuing confirming arguments (some token) service

abbrev approved_entry : TrustEntry
approved_entry = record Approvals.approval {
  approved_command = codes "make build";
  critical_fingerprint = fingerprint;
  entry_id = codes "e1";
  provenance = record Approvals.approval.provenance { mutation_audit_event_id = some (codes "p1") };
}

confirmed-store : confirmed.1.store ≡ approved_entry ∷ []
unfolding one_of strip has_infix ends_with matching_entry mutate validate_entry approve_mcp
    parse_java_invocation ruby_rake_task classify_build classify_tool is_remote_pipe is_mcp_start
    classify_words classify_single classify_segments classify_command split_command_words
    split_shell_segments on_error ◌>>=◌ sign verify authenticate_and_consume ensure_active
    audit_context record_audit derive_approval_target approval_binding same_binding_values
    validate_approval_request consume_challenge consume prepare_audit commit_audit transact
    run_mutation approval_entry approval_hooks approval_result approve_agreed agree confirm_approval
    approve_call completed_prepares unmatched_prepares is_last is_bound is_prepared_valid
    record_event begin_transaction prepare_mutation commit_mutation is_within_limits check_lines
    records_down segments_whole observe settle verify_chain append_record event_outcomes has_outcome
    is_hash is_mac is_safe build_record is_stored_valid segments_match anchor_matches
    project_segment_data total_size anchor_entries anchor_snapshot
confirmed-store = refl

approve_call_example :
    (confirmed.1.store ≡ service.store)
    ⊎ IsConfirmedApproval parts reader confirming arguments (some token) service confirmed
approve_call_example =
    approve_call-IsConfirmedApproval parts reader issuing confirming arguments (some token) service

changed : confirmed.1.store ≢ service.store
changed e = ground (arith, ap length e, ap length confirmed-store)

call-serve_example :
    let u = serve parts reader (registering (codes "o2") ∷ []) confirmed.1 in
    (call parts reader (approving issuing confirming arguments (some token)) u).store ≡ u.store
call-serve_example =
    call-serve parts reader (approving issuing confirming arguments (some token))
      (approving issuing confirming arguments (some token)) (registering (codes "o2") ∷ []) token
      service refl refl changed (λ p v. (tt, tt))

serve-WasApproved_example :
    IsIn approved_entry service.store
    ⊎ WasApproved parts reader
        (approving issuing confirming arguments (some token) ∷ [])
        service
        approved_entry
serve-WasApproved_example =
    serve-WasApproved parts reader (approving issuing confirming arguments (some token) ∷ [])
      service approved_entry (rw (confirmed-store) (here refl))

abbrev revoke_arguments : RevokeArguments
revoke_arguments = record {
  trust_entry_id = some (codes "e1");
  expected_version = some 1;
  reason = some (codes "why");
  has_extras = false;
}

abbrev revoke_parts : Parts
revoke_parts = parts_with (
    some (
      revoke_binding (parts_with none) (record { entry_id = codes "e1"; reason = codes "why" })
        (record {
          entry = approved_entry;
          entry_digest = codes "w";
          store_digest = codes "s1";
          target_hash = codes "hash";
        })
        (codes "o1")))

abbrev revoke_service : Service
revoke_service = record service {
  store = approved_entry ∷ [];
  manager = record Challenges.issued_manager {
    records =
        (
          "c1",
          new_record Challenges.toy 10 (codes "revoke") Challenges.binding Challenges.binding
              (codes "e1"),
        )
        ∷ [];
  };
}

abbrev revoke_issuing : IssueDraws revoke_parts reader
revoke_issuing = record {
  operation_id = codes "o1";
  entry_id = codes "e1";
  prepared_event_id = codes "p1";
  wall_time = some 10;
  monotonic = some 0;
  reading = reading;
  now = 10;
  challenge_id = "c2";
  nonce = "n1";
  display = Challenges.binding;
}

abbrev revoked_call : Outcome MutationError RevokeReply × Service
revoked_call =
    revoke_call revoke_parts reader revoke_issuing confirming revoke_arguments (some token)
      revoke_service

revoke_call_example :
    (revoked_call.1.store ≡ revoke_service.store)
    ⊎ IsConfirmedRevocation revoke_parts reader confirming revoke_arguments
        (some token)
        revoke_service
        revoked_call
revoke_call_example =
    revoke_call-IsConfirmedRevocation revoke_parts reader revoke_issuing confirming revoke_arguments
      (some token) revoke_service

without_token_example :
    IsRaisedBy
      (ensure_active >> issue_approval parts reader issuing arguments)
      service
      (approve_call parts reader issuing confirming arguments none service)
    × IsRaisedBy
        (ensure_active >> issue_revoke parts reader issuing revoke_arguments)
        service
        (revoke_call parts reader issuing confirming revoke_arguments none service)
without_token_example =
    approve_call-revoke_call parts reader issuing confirming arguments revoke_arguments service
