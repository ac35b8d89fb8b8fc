-- ===== src/Cache/TrustCache.antt =====
-- codex_preflight_core/cache/trust_cache.py: the operations of the trust store under its lock, on
-- the entries that the file holds after the reader has accepted them.
pub mod Operations
pub mod Approval
pub mod Applied
pub mod Revocation
use codex_preflight.Base.{
  ℕ, ◌+◌, ◌-◌, Bool, true, false, ◌&&◌, ◌||◌, not, Option, none, some, List, [], ◌∷◌, ◌++◌, map,
  Text, codes, ◌==◌, list_eq, option_eq, nat_eq, ltb, leb, length, keep, contains, is_some,
  if◌then◌else◌,
}
use codex_preflight.Cache.TrustEntry.{
  StoreCode, corrupt, unsupported_schema, unavailable, Provenance, TrustEntry, Library, timestamp,
  validate_entry, cli_trust_approve, mcp_trust_approve, trust_schema, migration_version_text,
  mcp_mutation_version, entry_version_one,
}

-- What an approval is looked up by.
pub record Key : Type 0 where
  pub repo_id : Text
  pub head_commit : Option Text
  pub critical_fingerprint : Text
  pub command_scope : Text
  pub policy_version : Text
  pub ruleset_version : Text

pub data Operation : Type 0 where
  approving revoking : Operation

-- `TrustCacheMutationPlan`, with the entries in place of their bytes
pub record MutationPlan : Type 0 where
  pub operation : Operation
  pub entry_id : Text
  pub before : List TrustEntry
  pub after : List TrustEntry
  pub planned_event_id : Option Text

pub data MutationOutcome : Type 0 where
  approved already_approved revoked not_found version_conflict : MutationOutcome

-- `TrustCacheMutationResult`
pub record MutationResult : Type 0 where
  pub outcome : MutationOutcome
  pub applied : Bool
  pub entry : Option TrustEntry
  pub prepared_event_id : Option Text
  pub final_event_id : Option Text

-- How a mutation ends: a result, an error of the store, a `ValueError`, an exception of a hook, or
-- the errors of the write and of the audit's commit.
pub data Answer (E : Type 0) : Type 0 where
  result : MutationResult → Answer E
  store_error : StoreCode → Answer E
  value_error write_error : Answer E
  hook_error : E → Answer E
  commit_error : MutationResult → Answer E

-- What a hook returns or raises.
pub data Hooked (E A : Type 0) : Type 0 where
  done : A → Hooked E A
  raised : E → Hooked E A

-- `_write_encoded_unlocked` and the validation of the storage behind it: the file is replaced and
-- stands in private storage, is replaced and does not, is replaced before the write raises (the
-- directory is synchronised after the replacement), or is as before where the write raises.
pub data WriteOutcome : Type 0 where
  stored unsafe_stored stored_raised unstored : WriteOutcome

-- What the caller and the file system do during a mutation, on the caller's state: `revalidate`
-- passes or raises, `prepare` gives its event id, the write has its outcome, and `commit` gives its
-- event id, `none` where it raises.
pub record Hooks (E S : Type 0) : Type 0 where
  pub revalidate : List TrustEntry → S → Option E × S
  pub prepare : MutationPlan → S → Hooked E Text × S
  pub write : List TrustEntry → WriteOutcome
  pub commit : Text → S → Option Text × S

-- The answer, the store and the caller's state after a mutation.
abbrev pub Mutated : Type 0 → Type 0 → Type 0
Mutated E S = Answer E × List TrustEntry × S

abbrev pub without_change : {E : Type 0} → MutationOutcome → Option TrustEntry → Answer E
without_change outcome entry = result (record {
  outcome = outcome;
  applied = false;
  entry = entry;
  prepared_event_id = none;
  final_event_id = none;
})

abbrev pub applied_result : MutationOutcome → TrustEntry → Text → Option Text → MutationResult
applied_result outcome entry prepared final = record {
  outcome = outcome;
  applied = true;
  entry = some entry;
  prepared_event_id = some prepared;
  final_event_id = final;
}

abbrev pub matches : Key → TrustEntry → Bool
matches k e =
    e.repo_id == k.repo_id
    && (e.head_commit == k.head_commit
        && (e.critical_fingerprint == k.critical_fingerprint
            && (e.command_scope == k.command_scope
                && (e.policy_version == k.policy_version
                    && e.ruleset_version == k.ruleset_version))))

-- `len(entry_ids) != len(set(entry_ids))`
abbrev pub has_repeats : List Text → Bool
has_repeats [] = false
has_repeats (x ∷ xs) = contains xs x || has_repeats xs

module _ (library : Library) (max_bytes : ℕ) where
  open library use {is_uuid4, json_size}

  abbrev pub is_after : ℕ → Option ℕ → Bool
  is_after now none = false
  is_after now (some t) = ltb now t

  -- `_timestamp(entry["expiresAt"]) > now`
  unfoldable pub is_live : ℕ → TrustEntry → Bool
  is_live now e = is_after now (timestamp library e.expires_at)

  -- `list`
  unfoldable pub live_entries : ℕ → List TrustEntry → List TrustEntry
  live_entries now entries = keep (is_live now) entries

  -- `_matching_entry`
  unfoldable pub matching_entry : ℕ → Key → List TrustEntry → Option TrustEntry
  matching_entry now k [] = none
  matching_entry now k (e ∷ entries) =
      if is_live now e && matches k e then some e else matching_entry now k entries

  -- `match`: the first of the live entries with the key
  abbrev pub first_match : Key → List TrustEntry → Option TrustEntry
  first_match k [] = none
  first_match k (e ∷ entries) = if matches k e then some e else first_match k entries

  unfoldable pub match_entry : ℕ → Key → List TrustEntry → Option TrustEntry
  match_entry now k entries = first_match k (live_entries now entries)

  abbrev pub entry_ids : List TrustEntry → List Text
  entry_ids entries = map (λ e. e.entry_id) entries

  -- The write of the prepared entries and the commit of the audit event.
  abbrev pub commit_result :
      {E : Type 0} → MutationOutcome → TrustEntry → Text → Option Text → Answer E
  commit_result outcome entry prepared none =
      commit_error (applied_result outcome entry prepared none)
  commit_result outcome entry prepared (some event) =
      if is_uuid4 event
      then result (applied_result outcome entry prepared (some event))
      else commit_error (applied_result outcome entry prepared none)

  abbrev pub committed :
      {E S : Type 0}
      → MutationOutcome
      → TrustEntry
      → Text
      → List TrustEntry
      → Option Text × S
      → Mutated E S
  committed outcome entry prepared after (final, s) =
      (commit_result outcome entry prepared final, after, s)

  abbrev pub written :
      {E S : Type 0}
      → Hooks E S
      → WriteOutcome
      → MutationOutcome
      → TrustEntry
      → Text
      → List TrustEntry
      → List TrustEntry
      → S
      → Mutated E S
  written hooks stored outcome entry prepared after entries s =
      committed outcome entry prepared after (hooks.commit prepared s)
  written hooks unsafe_stored outcome entry prepared after entries s =
      committed outcome entry prepared after (none, s)
  written hooks stored_raised outcome entry prepared after entries s = (write_error, after, s)
  written hooks unstored outcome entry prepared after entries s = (write_error, entries, s)

  unfoldable pub write_and_commit :
      {E S : Type 0}
      → Hooks E S
      → MutationOutcome
      → TrustEntry
      → Text
      → List TrustEntry
      → List TrustEntry
      → S
      → Mutated E S
  write_and_commit hooks outcome entry prepared after entries s =
      written hooks (hooks.write after) outcome entry prepared after entries s

  -- `_validate_prepared`
  abbrev pub is_planned : Option Text → Text → Bool
  is_planned none prepared = true
  is_planned (some planned) prepared = is_uuid4 planned && prepared == planned

  abbrev pub continue_prepared :
      {E S : Type 0}
      → Hooks E S
      → MutationOutcome
      → TrustEntry
      → Option Text
      → List TrustEntry
      → List TrustEntry
      → Hooked E Text × S
      → Mutated E S
  continue_prepared hooks outcome entry planned after entries (raised e, s) =
      (hook_error e, entries, s)
  continue_prepared hooks outcome entry planned after entries (done prepared, s) =
      if is_uuid4 prepared && is_planned planned prepared
      then write_and_commit hooks outcome entry prepared after entries s
      else (value_error, entries, s)

  abbrev pub plan_of :
      Operation → Text → List TrustEntry → List TrustEntry → Option Text → MutationPlan
  plan_of operation entry_id before after planned = record {
    operation = operation;
    entry_id = entry_id;
    before = before;
    after = after;
    planned_event_id = planned;
  }

  -- `_serialize_entries` and what follows
  unfoldable pub mutate :
      {E S : Type 0}
      → Hooks E S
      → Operation
      → MutationOutcome
      → TrustEntry
      → Option Text
      → List TrustEntry
      → List TrustEntry
      → S
      → Mutated E S
  unfolding write_and_commit
  mutate hooks operation outcome entry planned after entries s =
      if ltb max_bytes (json_size after)
      then (store_error unavailable, entries, s)
      else continue_prepared hooks outcome entry planned after entries
          (hooks.prepare (plan_of operation entry.entry_id entries after planned) s)
