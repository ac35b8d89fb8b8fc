-- ===== src/Cache/TrustCache/Applied.antt =====
-- codex_preflight_core/cache/trust_cache.py: a mutation leaves the store as it was, or has gone through
-- every step of the protocol.
use codex_preflight.Base.{
  ℕ, ◌≡◌, ◌⊎◌, inl, inr, refl, true, ◌&&◌, ◌==◌, nat_eq, Option, none, some, List, [], ◌∷◌, ◌++◌,
  Text, list_eq, Bool-cases, ltb,
}
use codex_preflight.Cache.TrustEntry.{
  StoreCode, TrustEntry, Library, validate_entry, same_entry, entry_version_one,
}
use codex_preflight.Cache.TrustCache.{
  WriteOutcome, stored, unsafe_stored, stored_raised, unstored, written, write_error, Hooks, Hooked,
  Mutated, Answer, Operation, done, raised, MutationOutcome, MutationPlan, approving, approved,
  revoking, revoked, result, commit_error, applied_result, committed, matching_entry, mutate,
  plan_of, continue_prepared, is_planned, write_and_commit, entry_ids, has_repeats,
}
use codex_preflight.Cache.TrustCache.Operations.{
  key_of, approve_mcp, approve_mcp_valid, approve_revalidated, approve_unmatched, find_live,
  without_live, revoke_found, revoke_entry_id, holds, is_expected,
}

-- The answer of a mutation that replaced the store: a result with the event of the commit, the error
-- of the commit, or the error of the write.
abbrev pub AnsweredBy : (E : Type 0) → MutationOutcome → TrustEntry → Text → Answer E → Type 0
AnsweredBy E outcome entry event answer =
    ((final : Text) × (answer ≡ result (applied_result outcome entry event (some final))))
    ⊎ ((answer ≡ commit_error (applied_result outcome entry event none)) ⊎ (answer ≡ write_error))

module _ (library : Library) (max_bytes : ℕ) {E S : Type 0} (hooks : Hooks E S) where
  -- The caller's hook gave the event for the plan.
  abbrev pub WasPrepared : MutationPlan → Text → Type 0
  WasPrepared plan event = (s : S) × (t : S) × hooks.prepare plan s ≡ (done event, t)

  -- The store is as it was, or holds the planned entries behind a prepared event.
  abbrev pub Mutates : MutationOutcome → TrustEntry → MutationPlan → Mutated E S → Type 0
  Mutates outcome entry plan o =
      (o.1 ≡ plan.before)
      ⊎ ((o.1 ≡ plan.after)
          × (event : Text) × WasPrepared plan event
          × AnsweredBy E outcome entry event o.0)

  committed-AnsweredBy :
      (outcome : MutationOutcome) (entry : TrustEntry) (event : Text) (after : List TrustEntry)
      (final : Option Text) (s : S)
      → AnsweredBy E outcome entry event
          (committed library max_bytes {E = E} outcome entry event after (final, s)).0
  committed-AnsweredBy outcome entry event after none s = inr (inl refl)
  committed-AnsweredBy outcome entry event after (some final) s =
      elim (Bool-cases (library.is_uuid4 final)) [
        | inl u ↦ inl (final, rw (u) refl)
        | inr u ↦ inr (inl (rw (u) refl))
      ]

  committed-1 :
      (outcome : MutationOutcome) (entry : TrustEntry) (event : Text) (after : List TrustEntry)
      (final : Option Text × S)
      → (committed library max_bytes {E = E} outcome entry event after final).1 ≡ after
  committed-1 outcome entry event after (final, s) = refl

  written-Mutates :
      (w : WriteOutcome) (outcome : MutationOutcome) (entry : TrustEntry) (plan : MutationPlan)
      (event : Text) (s : S)
      → WasPrepared plan event
      → Mutates outcome entry plan
          (written library max_bytes hooks w outcome entry event plan.after plan.before s)
  written-Mutates stored outcome entry plan event s p = inr (
    committed-1 outcome entry event plan.after (hooks.commit event s),
    event,
    p,
    committed-AnsweredBy outcome entry event plan.after (hooks.commit event s).0
        (hooks.commit event s).1,
  )
  written-Mutates unsafe_stored outcome entry plan event s p = inr (refl, event, p, inr (inl refl))
  written-Mutates stored_raised outcome entry plan event s p = inr (refl, event, p, inr (inr refl))
  written-Mutates unstored outcome entry plan event s p = inl refl

  write_and_commit-Mutates :
      (outcome : MutationOutcome) (entry : TrustEntry) (plan : MutationPlan) (event : Text) (s : S)
      → WasPrepared plan event
      → Mutates outcome entry plan
          (write_and_commit library max_bytes hooks outcome entry event plan.after plan.before s)
  unfolding write_and_commit
  write_and_commit-Mutates outcome entry plan event s p =
      written-Mutates (hooks.write plan.after) outcome entry plan event s p

  continue_prepared-Mutates :
      (outcome : MutationOutcome) (entry : TrustEntry) (plan : MutationPlan) (s : S)
      (prepared : Hooked E Text × S)
      → hooks.prepare plan s ≡ prepared
      → Mutates outcome entry plan (
          continue_prepared library max_bytes hooks outcome entry plan.planned_event_id plan.after
            plan.before prepared)
  continue_prepared-Mutates outcome entry plan s (raised e, t) h = inl refl
  continue_prepared-Mutates outcome entry plan s (done event, t) h =
      elim (Bool-cases
        (library.is_uuid4 event && is_planned library max_bytes plan.planned_event_id event)) [
          | inl u ↦ rw (u) (write_and_commit-Mutates outcome entry plan event t (s, t, h))
          | inr u ↦ rw (u) (inl refl)
        ]

  mutate-Mutates :
      (operation : Operation) (outcome : MutationOutcome) (entry : TrustEntry)
      (planned : Option Text) (after entries : List TrustEntry) (s : S)
      → Mutates outcome entry
          (plan_of library max_bytes operation entry.entry_id entries after planned)
          (mutate library max_bytes hooks operation outcome entry planned after entries s)
  unfolding mutate
  mutate-Mutates operation outcome entry planned after entries s =
      let plan = plan_of library max_bytes operation entry.entry_id entries after planned in
      elim (Bool-cases (ltb max_bytes (library.json_size after))) [
        | inl b ↦ rw (b) (inl refl)
        | inr b ↦
            rw (b) (continue_prepared-Mutates outcome entry plan s (hooks.prepare plan s) refl)
      ]

  abbrev pub approval_plan : TrustEntry → List TrustEntry → MutationPlan
  approval_plan entry entries =
      plan_of library max_bytes approving entry.entry_id entries (entries ++ (entry ∷ []))
        entry.provenance.mutation_audit_event_id

  approve_unmatched-Mutates :
      (found : Option TrustEntry) (entry : TrustEntry) (entries : List TrustEntry) (s : S)
      → Mutates approved entry (approval_plan entry entries) (
          approve_unmatched library max_bytes hooks found entry
            entry.provenance.mutation_audit_event_id entries s)
  approve_unmatched-Mutates (some e) entry entries s = inl refl
  approve_unmatched-Mutates none entry entries s =
      elim (Bool-cases (has_repeats (entry_ids library max_bytes (entries ++ (entry ∷ []))))) [
        | inl b ↦ rw (b) (inl refl)
        | inr b ↦ rw (b) (
            mutate-Mutates approving approved entry entry.provenance.mutation_audit_event_id
              (entries ++ (entry ∷ [])) entries s)
      ]

  approve_revalidated-Mutates :
      (now : ℕ) (entry : TrustEntry) (entries : List TrustEntry) (checked : Option E × S)
      → Mutates approved entry (approval_plan entry entries) (
          approve_revalidated library max_bytes hooks now entry
            entry.provenance.mutation_audit_event_id entries checked)
  approve_revalidated-Mutates now entry entries (some e, s) = inl refl
  approve_revalidated-Mutates now entry entries (none, s) =
      approve_unmatched-Mutates (matching_entry library max_bytes now (key_of entry) entries) entry
        entries s

  approve_mcp_valid-Mutates :
      (code : Option StoreCode) (now : ℕ) (entry : TrustEntry) (entries : List TrustEntry) (s : S)
      → Mutates approved entry (approval_plan entry entries) (
          approve_mcp_valid library max_bytes hooks code now entry
            entry.provenance.mutation_audit_event_id entries s)
  approve_mcp_valid-Mutates (some code) now entry entries s = inl refl
  approve_mcp_valid-Mutates none now entry entries s =
      approve_revalidated-Mutates now entry entries (hooks.revalidate entries s)

  pub approve_mcp-Mutates :
      (now : ℕ) (entry : TrustEntry) (entries : List TrustEntry) (s : S)
      → Mutates approved entry
          (approval_plan entry entries)
          (approve_mcp library max_bytes hooks now entry entries s)
  unfolding approve_mcp
  approve_mcp-Mutates now entry entries s =
      approve_mcp_valid-Mutates (validate_entry library entry) now entry entries s

  abbrev pub revoke_plan : ℕ → Text → TrustEntry → List TrustEntry → MutationPlan
  revoke_plan now id entry entries =
      plan_of library max_bytes revoking entry.entry_id entries
        (without_live library max_bytes now id entries) none

  -- The store is as it was, or lost the live entry of the id, which is the expected one.
  abbrev pub Revokes : ℕ → Text → TrustEntry → List TrustEntry → Mutated E S → Type 0
  Revokes now id expected entries o =
      (o.1 ≡ entries)
      ⊎ ((e : TrustEntry) × (find_live library max_bytes now id entries ≡ some e)
          × (same_entry e expected ≡ true)
          × Mutates revoked e (revoke_plan now id e entries) o)

  revoke_found-Revokes :
      (found : Option TrustEntry) (now : ℕ) (id : Text) (expected : TrustEntry)
      (entries : List TrustEntry) (s : S)
      → find_live library max_bytes now id entries ≡ found
      → Revokes now id expected entries (
          revoke_found library max_bytes hooks found
            (holds library max_bytes (λ e. same_entry e expected) found)
            now
            id
            entries
            s)
  revoke_found-Revokes none now id expected entries s h = inl refl
  revoke_found-Revokes (some e) now id expected entries s h =
      elim (Bool-cases (same_entry e expected)) [
        | inl b ↦ inr (
          e,
          h,
          b,
          rw (b) (
              mutate-Mutates revoking revoked e none (without_live library max_bytes now id entries)
                entries s),
        )
        | inr b ↦ rw (b) (inl refl)
      ]

  pub revoke_entry_id-Revokes :
      (now : ℕ) (id : Text) (version : ℕ) (expected : TrustEntry) (entries : List TrustEntry)
      (s : S)
      → Revokes now id expected entries
          (revoke_entry_id library max_bytes hooks now id version expected entries s)
  unfolding revoke_entry_id
  revoke_entry_id-Revokes now id version expected entries s =
      elim (Bool-cases (
        library.is_uuid4 id
        && (version == entry_version_one
            && is_expected library max_bytes (validate_entry library expected) id version
                expected))) [
                  | inl b ↦ rw (b) (
                      revoke_found-Revokes (find_live library max_bytes now id entries) now id
                        expected entries s refl)
                  | inr b ↦ rw (b) (inl refl)
                ]
