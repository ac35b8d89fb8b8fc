-- ===== src/Cache/TrustEntry.antt =====
-- codex_preflight_core/cache/trust_cache.py: the entries of the trust store and their validation.
-- An entry has its fields by type; what JSON could hold in their place is an error of the reader.
use codex_preflight.Base.{
  ℕ, Bool, true, false, ◌&&◌, ◌||◌, not, Option, none, some, List, [], ◌∷◌, Text, codes, ◌==◌,
  nat_eq, list_eq, option_eq, leb, all, any, length, starts_with, ends_with, drop, contains,
  is_some, if◌then◌else◌,
}

-- the codes of `TrustCacheError`
pub data StoreCode : Type 0 where
  corrupt unsupported_schema unavailable : StoreCode

pub data Source : Type 0 where
  legacy_migration cli_trust_approve mcp_trust_approve : Source

-- `timestamp` is `createdAt`, for a migrated entry `migratedAt`; the last two are there by `source`.
pub record Provenance : Type 0 where
  pub schema : Text
  pub source : Source
  pub migration_version : Text
  pub timestamp : Text
  pub approval_reason : Option Text
  pub mutation_audit_event_id : Option Text

pub record TrustEntry : Type 0 where
  pub repo_id : Text
  pub path : Text
  pub remote_url : Option Text
  pub head_commit : Option Text
  pub critical_fingerprint : Text
  pub command_scope : Text
  pub approved_command : Text
  pub decision : Text
  pub approved_at : Text
  pub expires_at : Text
  pub approved_by : Text
  pub policy_version : Text
  pub ruleset_version : Text
  pub entry_id : Text
  pub entry_version : ℕ
  pub provenance : Provenance

-- What Python's library decides: a match of the pattern `_RFC3339`, the instant of an ISO 8601 text
-- (`none` where the text is refused or has no zone), whether `UUID` reads a text as the canonical
-- form of version 4, the length in UTF-8 (`none` where the text has no encoding), and the size of
-- the entries as JSON.
pub record Library : Type 0 where
  pub matches_rfc3339 : Text → Bool
  pub fromisoformat : Text → Option ℕ
  pub is_uuid4 : Text → Bool
  pub utf8_length : Text → Option ℕ
  pub json_size : List TrustEntry → ℕ

abbrev pub source_number : Source → ℕ
source_number legacy_migration = 0
source_number cli_trust_approve = 1
source_number mcp_trust_approve = 2

abbrev pub same_provenance : Provenance → Provenance → Bool
same_provenance p q =
    p.schema == q.schema
    && (source_number p.source == source_number q.source
        && (p.migration_version == q.migration_version
            && (p.timestamp == q.timestamp
                && (p.approval_reason == q.approval_reason
                    && p.mutation_audit_event_id == q.mutation_audit_event_id))))

-- `==` on entries
unfoldable pub same_entry : TrustEntry → TrustEntry → Bool
same_entry a b =
    a.repo_id == b.repo_id
    && (a.path == b.path
        && (a.remote_url == b.remote_url
            && (a.head_commit == b.head_commit
                && (a.critical_fingerprint == b.critical_fingerprint
                    && (a.command_scope == b.command_scope
                        && (a.approved_command == b.approved_command
                            && (a.decision == b.decision
                                && (a.approved_at == b.approved_at
                                    && (a.expires_at == b.expires_at
                                        && (a.approved_by == b.approved_by
                                            && (a.policy_version == b.policy_version
                                                && (a.ruleset_version == b.ruleset_version
                                                    && (a.entry_id == b.entry_id
                                                        && (a.entry_version == b.entry_version
                                                            && same_provenance a.provenance
                                                            b.provenance))))))))))))))

abbrev pub entry_version_one : ℕ
entry_version_one = 1

abbrev pub trust_schema : Text
trust_schema = codes "trust-cache-array-v2"

abbrev pub migration_version_text : Text
migration_version_text = codes "v0.3.3-trust-read-foundation"

abbrev pub mcp_mutation_version : Text
mcp_mutation_version = codes "v0.3.4-trust-mutation"

abbrev pub command_scopes : List Text
command_scopes =
    codes "dependency_install"
    ∷ codes "script_execution"
    ∷ codes "build"
    ∷ codes "test"
    ∷ codes "docker"
    ∷ codes "network_shell"
    ∷ codes "mcp_server_start"
    ∷ codes "unknown_shell"
    ∷ []

-- `_CONTROL`
abbrev pub is_control : ℕ → Bool
is_control c = leb c 0x1f || leb 0x7f c && leb c 0x9f

abbrev pub is_hex : ℕ → Bool
is_hex c = leb b'0' c && leb c b'9' || leb b'a' c && leb c b'f'

-- `_COMMIT`
abbrev pub is_commit : Option Text → Bool
is_commit none = true
is_commit (some s) = length s == 40 && all is_hex s

-- `_FINGERPRINT`
abbrev pub is_fingerprint : Text → Bool
is_fingerprint s = starts_with s (codes "sha256:") && length s == 71 && all is_hex (drop 7 s)

-- `raise TrustCacheError(code)` unless the test holds
abbrev pub require : Bool → StoreCode → Option StoreCode → Option StoreCode
require true code rest = rest
require false code rest = some code

module _ (library : Library) where
  open library use {matches_rfc3339, fromisoformat, is_uuid4, utf8_length}

  abbrev pub fits : Option ℕ → ℕ → Bool
  fits none limit = false
  fits (some n) limit = leb n limit

  -- `_bounded_string`, and `_approval_reason` with its limit
  abbrev pub is_bounded_string : ℕ → Text → Bool
  is_bounded_string limit s =
      not (s == []) && (fits (utf8_length s) limit && not (any is_control s))

  abbrev pub is_bounded_option : ℕ → Option Text → Bool
  is_bounded_option limit none = true
  is_bounded_option limit (some s) = is_bounded_string limit s

  -- `_timestamp`; `none` is the error
  unfoldable pub timestamp : Text → Option ℕ
  timestamp s =
      if fits (utf8_length s) 4096 && (not (any is_control s) && matches_rfc3339 s)
      then fromisoformat s
      else none

  -- `_utc_z_timestamp`
  abbrev pub is_utc_z : Text → Bool
  is_utc_z s = is_some (timestamp s) && ends_with s (codes "Z")

  -- The fields that the provenance has by its source, and its version.
  abbrev pub has_fields : Provenance → Bool
  has_fields p = elim p.source [
    | mcp_trust_approve ↦ is_some p.approval_reason && is_some p.mutation_audit_event_id
    | _ ↦ not (is_some p.approval_reason) && not (is_some p.mutation_audit_event_id)
  ]

  abbrev pub expected_version : Source → Text
  expected_version legacy_migration = migration_version_text
  expected_version cli_trust_approve = migration_version_text
  expected_version mcp_trust_approve = mcp_mutation_version

  abbrev pub is_given : (Text → Bool) → Option Text → Bool
  is_given p none = false
  is_given p (some s) = p s

  abbrev pub validate_source : TrustEntry → Option StoreCode
  validate_source e = elim e.provenance.source [
    | mcp_trust_approve ↦
        require
          (is_utc_z e.approved_at && (is_utc_z e.expires_at && is_utc_z e.provenance.timestamp))
          corrupt
          (require (is_given (is_bounded_string 512) e.provenance.approval_reason) corrupt
            (require (is_given is_uuid4 e.provenance.mutation_audit_event_id) corrupt none))
    | _ ↦ none
  ]

  abbrev pub validate_metadata : TrustEntry → Option StoreCode
  validate_metadata e = require (e.entry_version == entry_version_one) unsupported_schema (
      require (is_uuid4 e.entry_id) corrupt (
        require (has_fields e.provenance) corrupt (
          require
            (e.provenance.schema == trust_schema
              && e.provenance.migration_version == expected_version e.provenance.source)
            unsupported_schema
            (require (is_some (timestamp e.provenance.timestamp)) corrupt (validate_source e)))))

  -- `_validate_entry(entry, migrated=False)`; `none` is no error
  unfoldable pub validate_entry : TrustEntry → Option StoreCode
  unfolding timestamp
  validate_entry e =
      require
        (all (is_bounded_string 4096) (
          e.repo_id ∷ e.path ∷ e.approved_command ∷ e.decision ∷ e.approved_by ∷ e.policy_version
          ∷ e.ruleset_version ∷ []))
        corrupt
        (require (is_bounded_option 4096 e.remote_url) corrupt (
          require (e.decision == codes "USER_APPROVED" && e.approved_by == codes "local-user")
            corrupt
            (require (is_commit e.head_commit) corrupt (
              require (is_fingerprint e.critical_fingerprint) corrupt (
                require (contains command_scopes e.command_scope) corrupt (
                  require (is_some (timestamp e.approved_at)) corrupt
                    (require (is_some (timestamp e.expires_at)) corrupt (validate_metadata e))))))))
