-- ===== src/Mcp/TrustMutation/Request.antt =====
-- codex_preflight_mcp/trust_mutation.py: the arguments of the two tools. An argument that is missing
-- or no text is `none`; every refusal is the code invalid_argument.
use codex_preflight.Base.{
  ℕ, ◌+◌, Bool, true, false, ◌&&◌, ◌||◌, Option, none, some, Text, codes, ◌==◌, nat_eq, list_eq,
  option_eq, leb, ltb, has_infix, starts_with, lower, if◌then◌else◌,
}
use codex_preflight.Cache.TrustEntry.{Library, is_bounded_string}

-- What the file system and Python say of the arguments: whether Windows finds a path elsewhere, the
-- directory that a path resolves to, and the instant of a timestamp of the form `_RFC3339_Z`.
pub record ArgumentReader : Type 0 where
  pub is_nonlocal_windows_path : Text → Bool
  pub resolve_directory : Text → Option Text
  pub instant_z : Text → Option ℕ

pub record ApprovalArguments : Type 0 where
  pub cwd : Option Text
  pub command : Option Text
  pub expires_at : Option Text
  pub reason : Option Text
  pub has_extras : Bool

pub record RevokeArguments : Type 0 where
  pub trust_entry_id : Option Text
  pub expected_version : Option ℕ
  pub reason : Option Text
  pub has_extras : Bool

pub record ApprovalRequest : Type 0 where
  pub cwd : Text
  pub command : Text
  pub expires_at : Text
  pub reason : Text

pub record RevokeRequest : Type 0 where
  pub entry_id : Text
  pub reason : Text

-- `timedelta(days=30)`
abbrev pub longest_approval_seconds : ℕ
longest_approval_seconds = 2_592_000

module _ (library : Library) (reader : ArgumentReader) where
  open reader use {is_nonlocal_windows_path, resolve_directory, instant_z}

  -- `_bounded_text`
  unfoldable pub bounded_text : ℕ → Option Text → Option Text
  bounded_text maximum none = none
  bounded_text maximum (some s) = if is_bounded_string library maximum s then some s else none

  abbrev pub is_remote_text : Text → Bool
  is_remote_text s =
      has_infix (codes "://") s
      || starts_with s (codes "git@")
      || starts_with (lower s) (codes "git clone")
      || is_nonlocal_windows_path s

  abbrev pub resolve_local : Option Text → Option Text
  resolve_local none = none
  resolve_local (some s) = if is_remote_text s then none else resolve_directory s

  -- `_validate_cwd`
  unfoldable pub validate_cwd : Option Text → Option Text
  validate_cwd cwd = resolve_local (bounded_text 4096 cwd)

  abbrev pub is_in_month : ℕ → Option ℕ → Bool
  is_in_month issued none = false
  is_in_month issued (some t) = ltb issued t && leb t (issued + longest_approval_seconds)

  abbrev pub approval_request :
      ℕ → Option Text → Option Text → Option Text → Option Text → Option ApprovalRequest
  approval_request issued (some cwd) (some command) (some reason) (some expires) =
      if is_in_month issued (instant_z expires)
      then some (record { cwd = cwd; command = command; expires_at = expires; reason = reason })
      else none
  approval_request issued _ _ _ _ = none

  -- `_validate_approval_request`
  unfoldable pub validate_approval_request : ApprovalArguments → ℕ → Option ApprovalRequest
  unfolding validate_cwd bounded_text
  validate_approval_request a issued =
      if a.has_extras
      then none
      else approval_request issued (validate_cwd a.cwd) (bounded_text 4096 a.command)
          (bounded_text 512 a.reason) (bounded_text 4096 a.expires_at)

  abbrev pub canonical_uuid : Option Text → Option Text
  canonical_uuid none = none
  canonical_uuid (some s) = if library.is_uuid4 s then some s else none

  abbrev pub revoke_request : Option Text → Bool → Option Text → Option RevokeRequest
  revoke_request (some id) true (some reason) = some (record { entry_id = id; reason = reason })
  revoke_request _ _ _ = none

  -- `_validate_revoke_request`
  unfoldable pub validate_revoke_request : RevokeArguments → Option RevokeRequest
  unfolding bounded_text
  validate_revoke_request a =
      if a.has_extras
      then none
      else revoke_request (canonical_uuid a.trust_entry_id) (a.expected_version == some 1)
          (bounded_text 512 a.reason)
