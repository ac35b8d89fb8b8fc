-- ===== src/Cache/TrustCache/Approval.antt =====
-- codex_preflight_core/cache/trust_cache.py: what an approval does to the store.
use codex_preflight.Base.{
  ℕ, ◌≡◌, refl, Bool, true, false, ◌&&◌, Option, none, some, List, [], ◌∷◌, ◌++◌, arith, Text,
  list_eq, option_eq, if◌then◌else◌, eqb_refl,
}
use codex_preflight.Cache.TrustEntry.{StoreCode, TrustEntry, Library, validate_entry}
use codex_preflight.Cache.TrustCache.{
  Key, Hooks, WriteOutcome, stored, unsafe_stored, stored_raised, unstored, written, write_error,
  store_error, value_error, hook_error, Hooked, Mutated, Answer, Operation, done, raised,
  MutationOutcome, approving, approved, result, commit_error, commit_result, committed, matches,
  is_live, live_entries, matching_entry, match_entry, mutate, plan_of, continue_prepared,
  write_and_commit,
}
use codex_preflight.Cache.TrustCache.Operations.{
  key_of, approve_mcp, approve_mcp_valid, approve_revalidated, approve_unmatched,
}

-- The answer is of a mutation whose write took place.
abbrev pub is_applied : {E : Type 0} → Answer E → Bool
is_applied (result r) = r.applied
is_applied (commit_error r) = true
is_applied _ = false

abbrev pub is_replaced : WriteOutcome → Bool
is_replaced stored_raised = true
is_replaced _ = false

-- The file holds the new entries, for the outcome of their write: the mutation was applied, or the
-- write raised behind the replacement of the file.
abbrev pub is_stored : {E : Type 0} → WriteOutcome → Answer E → Bool
is_stored w (result r) = r.applied
is_stored w (commit_error r) = true
is_stored w write_error = is_replaced w
is_stored w _ = false

pub is_applied-is_stored :
    {E : Type 0} (w : WriteOutcome) (a : Answer E) → is_applied a ≡ true → is_stored w a ≡ true
is_applied-is_stored w (result r) h = h
is_applied-is_stored w (commit_error r) h = refl
is_applied-is_stored w (store_error c) h = absurd (ground (arith, h))
is_applied-is_stored w value_error h = absurd (ground (arith, h))
is_applied-is_stored w write_error h = absurd (ground (arith, h))
is_applied-is_stored w (hook_error e) h = absurd (ground (arith, h))

module _ (library : Library) (max_bytes : ℕ) where
  commit_result-is_stored :
      (E : Type 0) (w : WriteOutcome) (outcome : MutationOutcome) (entry : TrustEntry)
      (prepared : Text) (final : Option Text)
      → is_stored w (commit_result library max_bytes {E = E} outcome entry prepared final) ≡ true
  commit_result-is_stored E w outcome entry prepared none = refl
  commit_result-is_stored E w outcome entry prepared (some event) = ground arith

  -- The store after a mutation, by the outcome of its write and its answer.
  abbrev pub Stored :
      {E S : Type 0} → WriteOutcome → Mutated E S → List TrustEntry → List TrustEntry → Type 0
  Stored w o after entries = o.1 ≡ (if is_stored w o.0 then after else entries)

  committed-Stored :
      (E S : Type 0) (w : WriteOutcome) (outcome : MutationOutcome) (entry : TrustEntry)
      (prepared : Text) (after entries : List TrustEntry) (final : Option Text × S)
      → Stored w
          (committed library max_bytes {E = E} outcome entry prepared after final)
          after
          entries
  committed-Stored E S w outcome entry prepared after entries (final, s) =
      rw (commit_result-is_stored E w outcome entry prepared final) refl

  written-Stored :
      {E S : Type 0} (hooks : Hooks E S) (w : WriteOutcome) (outcome : MutationOutcome)
      (entry : TrustEntry) (prepared : Text) (after entries : List TrustEntry) (s : S)
      → Stored w
          (written library max_bytes hooks w outcome entry prepared after entries s)
          after
          entries
  written-Stored hooks stored outcome entry prepared after entries s =
      committed-Stored _ _ stored outcome entry prepared after entries (hooks.commit prepared s)
  written-Stored {E = E} {S = S} hooks unsafe_stored outcome entry prepared after entries s =
      committed-Stored E S unsafe_stored outcome entry prepared after entries (none, s)
  written-Stored hooks stored_raised outcome entry prepared after entries s = refl
  written-Stored hooks unstored outcome entry prepared after entries s = refl

  write_and_commit-Stored :
      {E S : Type 0} (hooks : Hooks E S) (outcome : MutationOutcome) (entry : TrustEntry)
      (prepared : Text) (after entries : List TrustEntry) (s : S)
      → Stored
          (hooks.write after)
          (write_and_commit library max_bytes hooks outcome entry prepared after entries s)
          after
          entries
  unfolding write_and_commit
  write_and_commit-Stored hooks outcome entry prepared after entries s =
      written-Stored hooks (hooks.write after) outcome entry prepared after entries s

  continue_prepared-Stored :
      {E S : Type 0} (hooks : Hooks E S) (outcome : MutationOutcome) (entry : TrustEntry)
      (planned : Option Text) (after entries : List TrustEntry) (prepared : Hooked E Text × S)
      → Stored
          (hooks.write after)
          (continue_prepared library max_bytes hooks outcome entry planned after entries prepared)
          after
          entries
  continue_prepared-Stored hooks outcome entry planned after entries (raised e, s) = refl
  continue_prepared-Stored hooks outcome entry planned after entries (done prepared, s) =
      ground (arith, write_and_commit-Stored hooks outcome entry prepared after entries s)

  pub mutate-Stored :
      {E S : Type 0} (hooks : Hooks E S) (operation : Operation) (outcome : MutationOutcome)
      (entry : TrustEntry) (planned : Option Text) (after entries : List TrustEntry) (s : S)
      → Stored
          (hooks.write after)
          (mutate library max_bytes hooks operation outcome entry planned after entries s)
          after
          entries
  unfolding mutate
  mutate-Stored hooks operation outcome entry planned after entries s = ground (
    arith,
    continue_prepared-Stored hooks outcome entry planned after entries (
        hooks.prepare (plan_of library max_bytes operation entry.entry_id entries after planned) s),
  )

  -- The store after `approve_mcp`, and what its lookup had found before.
  abbrev pub Approves :
      {E S : Type 0} → WriteOutcome → ℕ → TrustEntry → List TrustEntry → Mutated E S → Type 0
  Approves w now entry entries o =
      Stored w o (entries ++ (entry ∷ [])) entries
      × (is_applied o.0 ≡ true → matching_entry library max_bytes now (key_of entry) entries ≡ none)

  approve_unmatched-Approves :
      {E S : Type 0} (hooks : Hooks E S) (now : ℕ) (found : Option TrustEntry) (entry : TrustEntry)
      (planned : Option Text) (entries : List TrustEntry) (s : S)
      → matching_entry library max_bytes now (key_of entry) entries ≡ found
      → Approves
          (hooks.write (entries ++ (entry ∷ [])))
          now
          entry
          entries
          (approve_unmatched library max_bytes hooks found entry planned entries s)
  approve_unmatched-Approves hooks now (some e) entry planned entries s h =
      (refl, λ k. ground (arith, k))
  approve_unmatched-Approves hooks now none entry planned entries s h = (
    ground (
      arith,
      mutate-Stored hooks approving approved entry planned (entries ++ (entry ∷ [])) entries s,
    ),
    λ k. h,
  )

  approve_revalidated-Approves :
      {E S : Type 0} (hooks : Hooks E S) (now : ℕ) (entry : TrustEntry) (planned : Option Text)
      (entries : List TrustEntry) (checked : Option E × S)
      → Approves
          (hooks.write (entries ++ (entry ∷ [])))
          now
          entry
          entries
          (approve_revalidated library max_bytes hooks now entry planned entries checked)
  approve_revalidated-Approves hooks now entry planned entries (some e, s) =
      (refl, λ k. ground (arith, k))
  approve_revalidated-Approves hooks now entry planned entries (none, s) =
      approve_unmatched-Approves hooks now
        (matching_entry library max_bytes now (key_of entry) entries) entry planned entries s refl

  approve_mcp_valid-Approves :
      {E S : Type 0} (hooks : Hooks E S) (code : Option StoreCode) (now : ℕ) (entry : TrustEntry)
      (planned : Option Text) (entries : List TrustEntry) (s : S)
      → Approves
          (hooks.write (entries ++ (entry ∷ [])))
          now
          entry
          entries
          (approve_mcp_valid library max_bytes hooks code now entry planned entries s)
  approve_mcp_valid-Approves hooks (some code) now entry planned entries s =
      (refl, λ k. ground (arith, k))
  approve_mcp_valid-Approves hooks none now entry planned entries s =
      approve_revalidated-Approves hooks now entry planned entries (hooks.revalidate entries s)

  approve_mcp-Approves :
      {E S : Type 0} (hooks : Hooks E S) (now : ℕ) (entry : TrustEntry) (entries : List TrustEntry)
      (s : S)
      → Approves
          (hooks.write (entries ++ (entry ∷ [])))
          now
          entry
          entries
          (approve_mcp library max_bytes hooks now entry entries s)
  unfolding approve_mcp
  approve_mcp-Approves hooks now entry entries s =
      approve_mcp_valid-Approves hooks (validate_entry library entry) now entry
        entry.provenance.mutation_audit_event_id entries s

  -- The entry stands at the end of the store after approve_mcp where the answer says that the approval
  -- was applied, be it by a result or by a failed commit of the audit, and where the write raised behind
  -- the replacement of the file; on every other answer, a write that raised before it included, the store
  -- is unchanged.
  pub approve_mcp-Stored :
      {E S : Type 0} (hooks : Hooks E S) (now : ℕ) (entry : TrustEntry) (entries : List TrustEntry)
      (s : S)
      → let o = approve_mcp library max_bytes hooks now entry entries s in
        o.1 ≡ (
          if is_stored (hooks.write (entries ++ (entry ∷ []))) o.0
          then entries ++ (entry ∷ [])
          else entries)
  approve_mcp-Stored hooks now entry entries s = (approve_mcp-Approves hooks now entry entries s).0

  -- `match` on the live entries is the lookup `_matching_entry` on all.
  pub match_entry-matching_entry :
      (now : ℕ) (k : Key) (entries : List TrustEntry)
      → match_entry library max_bytes now k entries ≡ matching_entry library max_bytes now k entries
  unfolding match_entry matching_entry live_entries
  match_entry-matching_entry now k [] = refl
  match_entry-matching_entry now k (e ∷ entries) =
      ground (arith, match_entry-matching_entry now k entries)

  matches-key_of : (e : TrustEntry) → matches (key_of e) e ≡ true
  matches-key_of e =
      rw
        (
          eqb_refl e.repo_id,
          eqb_refl e.head_commit,
          eqb_refl e.critical_fingerprint,
          eqb_refl e.command_scope,
          eqb_refl e.policy_version,
          eqb_refl e.ruleset_version,
        )
        refl

  matching_entry-append :
      (now : ℕ) (k : Key) (entry : TrustEntry) (entries : List TrustEntry)
      → matching_entry library max_bytes now k entries ≡ none
      → (is_live library max_bytes now entry && matches k entry) ≡ true
      → matching_entry library max_bytes now k (entries ++ (entry ∷ [])) ≡ some entry
  unfolding matching_entry
  matching_entry-append now k entry [] h m = ground (arith, m)
  matching_entry-append now k entry (e ∷ entries) h m =
      ground (arith, h, m, matching_entry-append now k entry entries)

  -- An applied approval that is live is the entry that `match` finds for its own key afterwards.
  pub approve_mcp-match :
      {E S : Type 0} (hooks : Hooks E S) (now : ℕ) (entry : TrustEntry) (entries : List TrustEntry)
      (s : S)
      → is_applied (approve_mcp library max_bytes hooks now entry entries s).0 ≡ true
      → is_live library max_bytes now entry ≡ true
      → match_entry library max_bytes now
          (key_of entry)
          (approve_mcp library max_bytes hooks now entry entries s).1
        ≡ some entry
  approve_mcp-match hooks now entry entries s a l =
      let approves = approve_mcp-Approves hooks now entry entries s in
      rw
        (
          match_entry-matching_entry now (key_of entry)
              (approve_mcp library max_bytes hooks now entry entries s).1,
          approves.0,
          is_applied-is_stored (hooks.write (entries ++ (entry ∷ [])))
              (approve_mcp library max_bytes hooks now entry entries s).0 a,
        )
        (matching_entry-append now (key_of entry) entry entries (approves.1 a)
          (rw (l, matches-key_of entry) refl))
