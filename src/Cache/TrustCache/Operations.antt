-- ===== src/Cache/TrustCache/Operations.antt =====
-- codex_preflight_core/cache/trust_cache.py: approve, approve_mcp, revoke_entry_id and
-- revoke_identity. A write by the command line fails or succeeds by its size.
use codex_preflight.Base.{
  ℕ, ◌-◌, Bool, true, false, ◌&&◌, not, Option, none, some, List, [], ◌∷◌, ◌++◌, Text, ◌==◌,
  list_eq, nat_eq, ltb, length, keep, if◌then◌else◌,
}
use codex_preflight.Cache.TrustEntry.{
  StoreCode, corrupt, unavailable, TrustEntry, Library, validate_entry, entry_version_one,
  same_entry,
}
use codex_preflight.Cache.TrustCache.{
  Key, Hooks, Mutated, store_error, value_error, hook_error, approving, revoking, approved,
  already_approved, revoked, not_found, version_conflict, without_change, is_live, live_entries,
  matching_entry, entry_ids, has_repeats, mutate,
}

-- What a lookup needs of an entry that is to be stored.
abbrev pub key_of : TrustEntry → Key
key_of e = record {
  repo_id = e.repo_id;
  head_commit = e.head_commit;
  critical_fingerprint = e.critical_fingerprint;
  command_scope = e.command_scope;
  policy_version = e.policy_version;
  ruleset_version = e.ruleset_version;
}

module _ (library : Library) (max_bytes : ℕ) where
  open library use {json_size, is_uuid4}

  -- `_write_unlocked`
  abbrev pub write_entries : List TrustEntry → List TrustEntry → Option StoreCode × List TrustEntry
  write_entries after entries =
      if ltb max_bytes (json_size after) then (some unavailable, entries) else (none, after)

  abbrev pub approve_valid :
      Option StoreCode → ℕ → TrustEntry → List TrustEntry → Option StoreCode × List TrustEntry
  approve_valid (some code) now entry entries = (some code, entries)
  approve_valid none now entry entries =
      write_entries (live_entries library max_bytes now entries ++ (entry ∷ [])) entries

  -- `approve`, for the entry that it builds
  unfoldable pub approve : ℕ → TrustEntry → List TrustEntry → Option StoreCode × List TrustEntry
  approve now entry entries = approve_valid (validate_entry library entry) now entry entries

  abbrev pub approve_unmatched :
      {E S : Type 0}
      → Hooks E S
      → Option TrustEntry
      → TrustEntry
      → Option Text
      → List TrustEntry
      → S
      → Mutated E S
  approve_unmatched hooks (some existing) entry planned entries s =
      (without_change already_approved (some existing), entries, s)
  approve_unmatched hooks none entry planned entries s =
      if has_repeats (entry_ids library max_bytes (entries ++ (entry ∷ [])))
      then (store_error corrupt, entries, s)
      else mutate library max_bytes hooks approving approved entry planned (entries ++ (entry ∷ []))
          entries s

  abbrev pub approve_revalidated :
      {E S : Type 0}
      → Hooks E S
      → ℕ
      → TrustEntry
      → Option Text
      → List TrustEntry
      → Option E × S
      → Mutated E S
  approve_revalidated hooks now entry planned entries (some e, s) = (hook_error e, entries, s)
  approve_revalidated hooks now entry planned entries (none, s) =
      approve_unmatched hooks (matching_entry library max_bytes now (key_of entry) entries) entry
        planned entries s

  abbrev pub approve_mcp_valid :
      {E S : Type 0}
      → Hooks E S
      → Option StoreCode
      → ℕ
      → TrustEntry
      → Option Text
      → List TrustEntry
      → S
      → Mutated E S
  approve_mcp_valid hooks (some code) now entry planned entries s = (store_error code, entries, s)
  approve_mcp_valid hooks none now entry planned entries s =
      approve_revalidated hooks now entry planned entries (hooks.revalidate entries s)

  -- `approve_mcp`, for the entry that it builds; its audit event is the planned one
  unfoldable pub approve_mcp :
      {E S : Type 0} → Hooks E S → ℕ → TrustEntry → List TrustEntry → S → Mutated E S
  approve_mcp hooks now entry entries s =
      approve_mcp_valid hooks (validate_entry library entry) now entry
        entry.provenance.mutation_audit_event_id entries s

  -- The live entry of an id, and the entries without the first such.
  unfoldable pub find_live : ℕ → Text → List TrustEntry → Option TrustEntry
  find_live now id [] = none
  find_live now id (e ∷ entries) =
      if e.entry_id == id && is_live library max_bytes now e
      then some e
      else find_live now id entries

  unfoldable pub without_live : ℕ → Text → List TrustEntry → List TrustEntry
  without_live now id [] = []
  without_live now id (e ∷ entries) =
      let rest = without_live now id entries in
      if e.entry_id == id && is_live library max_bytes now e then entries else e ∷ rest

  abbrev pub revoke_found :
      {E S : Type 0}
      → Hooks E S
      → Option TrustEntry
      → Bool
      → ℕ
      → Text
      → List TrustEntry
      → S
      → Mutated E S
  revoke_found hooks none expected now id entries s = (without_change not_found none, entries, s)
  revoke_found hooks (some e) false now id entries s =
      (without_change version_conflict (some e), entries, s)
  revoke_found hooks (some e) true now id entries s =
      mutate library max_bytes hooks revoking revoked e none (without_live now id entries) entries s

  abbrev pub holds : (TrustEntry → Bool) → Option TrustEntry → Bool
  holds p none = false
  holds p (some e) = p e

  -- `_validate_expected_entry`
  abbrev pub is_expected : Option StoreCode → Text → ℕ → TrustEntry → Bool
  is_expected (some code) id version expected = false
  is_expected none id version expected =
      expected.entry_id == id && expected.entry_version == version

  -- `revoke_entry_id`
  unfoldable pub revoke_entry_id :
      {E S : Type 0} → Hooks E S → ℕ → Text → ℕ → TrustEntry → List TrustEntry → S → Mutated E S
  revoke_entry_id hooks now id version expected entries s =
      let found = find_live now id entries in
      if is_uuid4 id
        && (version == entry_version_one
            && is_expected (validate_entry library expected) id version expected)
      then revoke_found hooks found (holds (λ e. same_entry e expected) found) now id entries s
      else (value_error, entries, s)

  abbrev pub is_in_scope : Option Text → TrustEntry → Bool
  is_in_scope none e = true
  is_in_scope (some scope) e = e.command_scope == scope

  abbrev pub is_of_identity : Text → Option Text → TrustEntry → Bool
  is_of_identity repo_id scope e = e.repo_id == repo_id && is_in_scope scope e

  abbrev pub kept_entries : ℕ → Text → Option Text → List TrustEntry → List TrustEntry
  kept_entries now repo_id scope entries =
      keep (λ e. not (is_of_identity repo_id scope e)) (live_entries library max_bytes now entries)

  -- `revoke_identity`, on the error or the number removed, and the store after it
  unfoldable pub revoke_identity :
      ℕ → Text → Option Text → List TrustEntry → (Option StoreCode × ℕ) × List TrustEntry
  revoke_identity now repo_id scope entries =
      let kept = kept_entries now repo_id scope entries in
      let removed = length (live_entries library max_bytes now entries) - length kept in
      let (code, after) = write_entries kept entries in ((code, removed), after)
