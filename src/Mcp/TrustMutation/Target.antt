-- ===== src/Mcp/TrustMutation/Target.antt =====
-- codex_preflight_mcp/trust_mutation.py: what an approval or a revocation is about, read anew from the
-- repository and the store at every step.
use codex_preflight.Base.{
  ℕ, ◌+◌, Bool, true, false, ◌&&◌, not, Option, none, some, List, [], ◌∷◌, Text, codes, ◌==◌,
  nat_eq, list_eq, option_eq, leb, any, is_some, if◌then◌else◌,
}
use codex_preflight.Cache.TrustEntry.{
  TrustEntry, is_bounded_string, is_control, is_commit, is_fingerprint,
}
use codex_preflight.Command.Scope.{
  CommandScope, dependency_install, script_execution, build, test, docker, network_shell,
  mcp_server_start, unknown_shell, safe_readonly,
}
use codex_preflight.Command.Classifier.{classify_command}
use codex_preflight.Mcp.Action.{Outcome, returned, thrown}
use codex_preflight.Mcp.TrustMutation.Codes.{
  ErrorCode, MutationError, plain, identity_unresolved, limit_exceeded, timed_out, was_cancelled,
  unsafe_storage, invalid_argument, internal_error, entry_not_found,
}
use codex_preflight.Mcp.TrustMutation.Service.{Parts}
use codex_preflight.Mcp.TrustMutation.Request.{ApprovalRequest, RevokeRequest}

-- How the readers of the identity and of the fingerprint fail.
pub data ReadError : Type 0 where
  read_timeout read_cancelled read_limit read_failed : ReadError

-- `_identity_error`
abbrev pub identity_error : ReadError → ErrorCode
identity_error read_timeout = timed_out
identity_error read_cancelled = was_cancelled
identity_error _ = identity_unresolved

-- `_fingerprint_error`
abbrev pub fingerprint_error : ReadError → ErrorCode
fingerprint_error read_timeout = timed_out
fingerprint_error read_cancelled = was_cancelled
fingerprint_error read_limit = limit_exceeded
fingerprint_error read_failed = identity_unresolved

-- `RepoIdentity`; `root` is there where its path is a directory behind no reparse point.
pub record Identity : Type 0 where
  pub root : Option Text
  pub repo_id : Text
  pub remote_url : Option Text
  pub head_commit : Option Text

-- What one check meets: `none` is an exception.
pub record Tick : Type 0 where
  pub cancelled : Option Bool
  pub clock : Option ℕ

-- What one derivation of a target reads, in its order.
pub record Reading : Type 0 where
  pub first : Tick
  pub storage_safe : Bool
  pub identity : Outcome ReadError Identity
  pub second : Tick
  pub fingerprint : Outcome ReadError Text
  pub third : Tick
  pub policy_version : Option Text
  pub ruleset_version : Option Text
  pub fourth : Tick
  pub snapshot_error : Option ErrorCode
  pub fifth : Tick
  pub now : Option ℕ

pub record Target : Type 0 where
  pub cwd : Text
  pub root : Text
  pub repo_id : Text
  pub remote_url : Option Text
  pub head_commit : Option Text
  pub critical_fingerprint : Text
  pub command_scope : Text
  pub policy_version : Text
  pub ruleset_version : Text
  pub target_hash : Text
  pub store_digest : Text

pub record RevokeTarget : Type 0 where
  pub entry : TrustEntry
  pub entry_digest : Text
  pub store_digest : Text
  pub target_hash : Text

abbrev pub timeout_seconds : ℕ
timeout_seconds = 30

-- `_deadline`, for a reading of the clock
abbrev pub deadline_of : Option ℕ → Outcome MutationError ℕ
deadline_of none = thrown (plain timed_out)
deadline_of (some t) = returned (t + timeout_seconds)

abbrev pub check_clock : ℕ → Option ℕ → Option ErrorCode
check_clock deadline none = some timed_out
check_clock deadline (some t) = if leb deadline t then some timed_out else none

abbrev pub check_cancelled : ℕ → Option Bool → Option ℕ → Option ErrorCode
check_cancelled deadline (some false) clock = check_clock deadline clock
check_cancelled deadline _ clock = some was_cancelled

-- `_check_target`
abbrev pub check_target : ℕ → Tick → Option ErrorCode
check_target deadline t = check_cancelled deadline t.cancelled t.clock

abbrev pub after_check :
    {A : Type 0} → Option ErrorCode → Outcome MutationError A → Outcome MutationError A
after_check none rest = rest
after_check (some c) rest = thrown (plain c)

abbrev pub unless_holds : Bool → ErrorCode → Option ErrorCode
unless_holds true c = none
unless_holds false c = some c

-- `CommandScope` as its value, where it is in `_SUPPORTED_SCOPES`
abbrev pub supported_scope : CommandScope → Option Text
supported_scope dependency_install = some (codes "dependency_install")
supported_scope script_execution = some (codes "script_execution")
supported_scope build = some (codes "build")
supported_scope test = some (codes "test")
supported_scope docker = some (codes "docker")
supported_scope network_shell = some (codes "network_shell")
supported_scope mcp_server_start = some (codes "mcp_server_start")
supported_scope unknown_shell = some (codes "unknown_shell")
supported_scope safe_readonly = none

module _ (parts : Parts) where
  open parts use {library, store_digest, value_digest, entry_digest, privacy_hash}

  abbrev pub is_clean : Text → Bool
  is_clean s = is_some (library.utf8_length s) && not (any is_control s)

  abbrev pub is_clean_option : Option Text → Bool
  is_clean_option none = true
  is_clean_option (some s) = is_clean s

  -- `_read_snapshot`, and the digest of what it reads
  abbrev pub with_snapshot :
      ℕ → Reading → Target → Bool → List TrustEntry → Outcome MutationError Target
  with_snapshot deadline r t false entries = returned t
  with_snapshot deadline r t true entries = after_check (check_target deadline r.fourth) (
      after_check r.snapshot_error (
        after_check (check_target deadline r.fifth)
          (returned (record t { store_digest = store_digest entries }))))

  -- `_current_version`
  abbrev pub version_text : Option Text → Option Text
  version_text none = none
  version_text (some s) = if is_bounded_string library 128 s then some s else none

  abbrev pub derive_versions :
      ℕ
      → Reading
      → ApprovalRequest
      → Identity
      → Text
      → Text
      → Text
      → Bool
      → List TrustEntry
      → Option Text
      → Option Text
      → Outcome MutationError Target
  derive_versions deadline r q i root fingerprint scope include_store entries (some policy)
        (some rules) =
      with_snapshot deadline r
        (record {
          cwd = q.cwd;
          root = root;
          repo_id = i.repo_id;
          remote_url = i.remote_url;
          head_commit = i.head_commit;
          critical_fingerprint = fingerprint;
          command_scope = scope;
          policy_version = policy;
          ruleset_version = rules;
          target_hash = privacy_hash i.repo_id;
          store_digest = [];
        })
        include_store entries
  derive_versions deadline r q i root fingerprint scope include_store entries _ _ =
      thrown (plain internal_error)

  abbrev pub derive_scope :
      ℕ
      → Reading
      → ApprovalRequest
      → Identity
      → Text
      → Text
      → Bool
      → List TrustEntry
      → Option Text
      → Outcome MutationError Target
  derive_scope deadline r q i root fingerprint include_store entries none =
      thrown (plain invalid_argument)
  derive_scope deadline r q i root fingerprint include_store entries (some scope) =
      derive_versions deadline r q i root fingerprint scope include_store entries
        (version_text r.policy_version) (version_text r.ruleset_version)

  abbrev pub derive_fingerprinted :
      ℕ
      → Reading
      → ApprovalRequest
      → Identity
      → Text
      → Bool
      → List TrustEntry
      → Outcome ReadError Text
      → Outcome MutationError Target
  derive_fingerprinted deadline r q i root include_store entries (thrown e) =
      thrown (plain (fingerprint_error e))
  derive_fingerprinted deadline r q i root include_store entries (returned f) =
      after_check (check_target deadline r.third) (
        after_check (unless_holds (is_fingerprint f) identity_unresolved) (
          derive_scope deadline r q i root f include_store entries
            (supported_scope (classify_command q.command).scope)))

  abbrev pub derive_rooted :
      ℕ
      → Reading
      → ApprovalRequest
      → Identity
      → Bool
      → List TrustEntry
      → Option Text
      → Outcome MutationError Target
  derive_rooted deadline r q i include_store entries none = thrown (plain identity_unresolved)
  derive_rooted deadline r q i include_store entries (some root) =
      after_check
        (unless_holds
          (is_clean i.repo_id && is_clean_option i.remote_url && is_commit i.head_commit)
          identity_unresolved)
        (derive_fingerprinted deadline r q i root include_store entries r.fingerprint)

  abbrev pub derive_identified :
      ℕ
      → Reading
      → ApprovalRequest
      → Bool
      → List TrustEntry
      → Outcome ReadError Identity
      → Outcome MutationError Target
  derive_identified deadline r q include_store entries (thrown e) =
      thrown (plain (identity_error e))
  derive_identified deadline r q include_store entries (returned i) =
      after_check (check_target deadline r.second)
        (derive_rooted deadline r q i include_store entries i.root)

  -- `_derive_approval_target`
  unfoldable pub derive_approval_target :
      ℕ → Reading → ApprovalRequest → Bool → List TrustEntry → Outcome MutationError Target
  derive_approval_target deadline r q include_store entries =
      after_check (check_target deadline r.first) (
        after_check (unless_holds r.storage_safe unsafe_storage)
          (derive_identified deadline r q include_store entries r.identity))

  -- `_entry_is_live`, for the instant that Python reads
  abbrev pub expires_after : ℕ → Option ℕ → Bool
  expires_after now none = false
  expires_after now (some t) = not (leb t now)

  abbrev pub live_with_id : ℕ → Text → List TrustEntry → Option TrustEntry
  live_with_id now id [] = none
  live_with_id now id (e ∷ entries) =
      let rest = live_with_id now id entries in
      if e.entry_id == id && expires_after now (library.fromisoformat e.expires_at)
      then some e
      else rest

  abbrev pub revoke_target : Text → Option TrustEntry → Outcome MutationError RevokeTarget
  revoke_target digest none = thrown (plain entry_not_found)
  revoke_target digest (some e) = returned (record {
    entry = e;
    entry_digest = entry_digest e;
    store_digest = digest;
    target_hash = privacy_hash e.repo_id;
  })

  abbrev pub revoke_target_at :
      Option ℕ → RevokeRequest → List TrustEntry → Outcome MutationError RevokeTarget
  revoke_target_at none q entries = thrown (plain internal_error)
  revoke_target_at (some now) q entries =
      revoke_target (store_digest entries) (live_with_id now q.entry_id entries)

  -- `_derive_revoke_target`
  unfoldable pub derive_revoke_target :
      ℕ → Reading → RevokeRequest → List TrustEntry → Outcome MutationError RevokeTarget
  derive_revoke_target deadline r q entries = after_check (check_target deadline r.first) (
      after_check (unless_holds r.storage_safe unsafe_storage) (
        after_check (check_target deadline r.fourth) (
          after_check r.snapshot_error
            (after_check (check_target deadline r.fifth) (revoke_target_at r.now q entries)))))
