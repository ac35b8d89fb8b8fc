-- ===== src/Tests/Approvals.antt =====
-- The trust store, with a toy reading of times and ids.
use codex_preflight.Base.{
  ◌≡◌, refl, Bool, true, none, some, [], ◌∷◌, ◌++◌, codes, length, if◌then◌else◌, list_eq,
  starts_with, ends_with,
}
use codex_preflight.Cache.TrustEntry.{
  TrustEntry, Library, validate_entry, timestamp, trust_schema, mcp_mutation_version,
  mcp_trust_approve, same_entry,
}
use codex_preflight.Cache.TrustCache.{
  Hooks, done, stored, is_live, live_entries, matching_entry, match_entry, mutate, write_and_commit,
}
use codex_preflight.Cache.TrustCache.Operations.{
  key_of, approve_mcp, revoke_identity, revoke_entry_id, find_live, without_live,
}
use codex_preflight.Cache.TrustCache.Approval.{
  is_applied, is_stored, approve_mcp-Stored, approve_mcp-match, match_entry-matching_entry,
}
use codex_preflight.Cache.TrustCache.Revocation.{revoke_identity-match, revoke_entry_id-find_live}

-- A time is read as its length.
abbrev pub toy_library : Library
toy_library = record {
  matches_rfc3339 = λ s. true;
  fromisoformat = λ s. some (length s);
  is_uuid4 = λ s. true;
  utf8_length = λ s. some (length s);
  json_size = λ entries. length entries;
}

abbrev toy_hooks : Hooks Bool Bool
toy_hooks = record {
  revalidate = λ entries s. (none, s);
  prepare = λ plan s. (done (codes "event"), s);
  write = λ entries. stored;
  commit = λ event s. (some event, s);
}

abbrev pub approval : TrustEntry
approval = record {
  repo_id = codes "repo";
  path = codes "/repo";
  remote_url = none;
  head_commit = none;
  critical_fingerprint =
      codes "sha256:0123456789abcdef0123456789abcdef0123456789abcdef0123456789abcdef";
  command_scope = codes "build";
  approved_command = codes "make";
  decision = codes "USER_APPROVED";
  approved_at = codes "1Z";
  expires_at = codes "99999Z";
  approved_by = codes "local-user";
  policy_version = codes "p";
  ruleset_version = codes "r";
  entry_id = codes "id";
  entry_version = 1;
  provenance = record {
    schema = trust_schema;
    source = mcp_trust_approve;
    migration_version = mcp_mutation_version;
    timestamp = codes "1Z";
    approval_reason = some (codes "why");
    mutation_audit_event_id = some (codes "event");
  };
}

approve_mcp-Stored_example :
    let o = approve_mcp toy_library 9 toy_hooks 3 approval [] true in
    o.1 ≡ (if is_stored stored o.0 then [] ++ (approval ∷ []) else [])
approve_mcp-Stored_example = approve_mcp-Stored toy_library 9 toy_hooks 3 approval [] true

approval-is_applied : is_applied (approve_mcp toy_library 9 toy_hooks 3 approval [] true).0 ≡ true
unfolding approve_mcp validate_entry timestamp mutate write_and_commit matching_entry starts_with
    ends_with
approval-is_applied = refl

approve_mcp-match_example :
    match_entry toy_library 9 3
      (key_of approval)
      (approve_mcp toy_library 9 toy_hooks 3 approval [] true).1
    ≡ some approval
unfolding is_live timestamp
approve_mcp-match_example =
    approve_mcp-match toy_library 9 toy_hooks 3 approval [] true approval-is_applied refl

matching_entry_example :
    match_entry toy_library 9 3 (key_of approval) (approval ∷ [])
    ≡ matching_entry toy_library 9 3 (key_of approval) (approval ∷ [])
matching_entry_example =
    match_entry-matching_entry toy_library 9 3 (key_of approval) (approval ∷ [])

revoke_identity-match_example :
    match_entry toy_library 9 4
      (key_of approval)
      (revoke_identity toy_library 9 3 (codes "repo") (some (codes "build")) (approval ∷ [])).1
    ≡ none
unfolding revoke_identity live_entries is_live timestamp
revoke_identity-match_example =
    revoke_identity-match toy_library 9 3 4 (codes "repo") (some (codes "build")) (key_of approval)
      (approval ∷ []) refl (refl, refl)

revocation-is_applied :
    is_applied
      (revoke_entry_id toy_library 9 toy_hooks 3 (codes "id") 1 approval (approval ∷ []) true).0
    ≡ true
unfolding revoke_entry_id find_live without_live is_live validate_entry timestamp same_entry mutate
    write_and_commit starts_with ends_with
revocation-is_applied = refl

revoke_entry_id_example :
    find_live toy_library 9 3
      (codes "id")
      (revoke_entry_id toy_library 9 toy_hooks 3 (codes "id") 1 approval (approval ∷ []) true).1
    ≡ none
revoke_entry_id_example =
    revoke_entry_id-find_live toy_library 9 toy_hooks 3 (codes "id") 1 approval (approval ∷ []) true
      refl revocation-is_applied
