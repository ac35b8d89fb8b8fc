-- ===== src/Mcp/TrustMutation/Bindings.antt =====
-- codex_preflight_core/cache/trust_cache.py and codex_preflight_mcp/trust_mutation.py: entries and bindings
-- that compare as equal are equal.
use codex_preflight.Base.{
  ◌≡◌, refl, Bool, true, ◌&&◌, Option, none, some, arith, ◌==◌, Eq, nat_eq, list_eq, option_eq,
}
use codex_preflight.Cache.TrustEntry.{
  TrustEntry, Provenance, Source, legacy_migration, cli_trust_approve, mcp_trust_approve,
  source_number, same_provenance, same_entry,
}
use codex_preflight.Mcp.TrustMutation.Service.{AuditTarget, Binding}
use codex_preflight.Mcp.TrustMutation.Bound.{same_audit_target, same_entries, same_binding_values}

and_split : (a b : Bool) → (a && b) ≡ true → (a ≡ true) × (b ≡ true)
and_split a b h = (ground (arith, h), ground (arith, h))

-- The first field is equal, and the test of the others holds.
field_split :
    {A : Type 0} ⦃e : Eq A⦄ (x y : A) (rest : Bool)
    → (x == y && rest) ≡ true
    → (x ≡ y) × (rest ≡ true)
field_split ⦃e⦄ x y rest h =
    let both = and_split (x == y) rest h in ((e.beq_iff x y).0 both.0, both.1)

source_number-equal : (a b : Source) → source_number a ≡ source_number b → a ≡ b
source_number-equal legacy_migration legacy_migration h = refl
source_number-equal cli_trust_approve cli_trust_approve h = refl
source_number-equal mcp_trust_approve mcp_trust_approve h = refl
source_number-equal legacy_migration cli_trust_approve h = absurd (omega (arith, h))
source_number-equal legacy_migration mcp_trust_approve h = absurd (omega (arith, h))
source_number-equal cli_trust_approve legacy_migration h = absurd (omega (arith, h))
source_number-equal cli_trust_approve mcp_trust_approve h = absurd (omega (arith, h))
source_number-equal mcp_trust_approve legacy_migration h = absurd (omega (arith, h))
source_number-equal mcp_trust_approve cli_trust_approve h = absurd (omega (arith, h))

same_provenance-equal : (a b : Provenance) → same_provenance a b ≡ true → a ≡ b
same_provenance-equal a b h =
    let p0 = field_split a.schema b.schema _ h in
    let p1 = field_split (source_number a.source) (source_number b.source) _ p0.1 in
    let p2 = field_split a.migration_version b.migration_version _ p1.1 in
    let p3 = field_split a.timestamp b.timestamp _ p2.1 in
    let p4 = field_split a.approval_reason b.approval_reason _ p3.1 in
    let p5 = (option_eq.beq_iff a.mutation_audit_event_id b.mutation_audit_event_id).0 p4.1 in
    let source = source_number-equal a.source b.source p1.0 in
    λ i. record {
      schema = p0.0 i;
      source = source i;
      migration_version = p2.0 i;
      timestamp = p3.0 i;
      approval_reason = p4.0 i;
      mutation_audit_event_id = p5 i;
    }

pub same_entry-equal : (a b : TrustEntry) → same_entry a b ≡ true → a ≡ b
unfolding same_entry
same_entry-equal a b h =
    let p0 = field_split a.repo_id b.repo_id _ h in
    let p1 = field_split a.path b.path _ p0.1 in
    let p2 = field_split a.remote_url b.remote_url _ p1.1 in
    let p3 = field_split a.head_commit b.head_commit _ p2.1 in
    let p4 = field_split a.critical_fingerprint b.critical_fingerprint _ p3.1 in
    let p5 = field_split a.command_scope b.command_scope _ p4.1 in
    let p6 = field_split a.approved_command b.approved_command _ p5.1 in
    let p7 = field_split a.decision b.decision _ p6.1 in
    let p8 = field_split a.approved_at b.approved_at _ p7.1 in
    let p9 = field_split a.expires_at b.expires_at _ p8.1 in
    let p10 = field_split a.approved_by b.approved_by _ p9.1 in
    let p11 = field_split a.policy_version b.policy_version _ p10.1 in
    let p12 = field_split a.ruleset_version b.ruleset_version _ p11.1 in
    let p13 = field_split a.entry_id b.entry_id _ p12.1 in
    let p14 = field_split a.entry_version b.entry_version _ p13.1 in
    let q = same_provenance-equal a.provenance b.provenance p14.1 in
    λ i. record {
      repo_id = p0.0 i;
      path = p1.0 i;
      remote_url = p2.0 i;
      head_commit = p3.0 i;
      critical_fingerprint = p4.0 i;
      command_scope = p5.0 i;
      approved_command = p6.0 i;
      decision = p7.0 i;
      approved_at = p8.0 i;
      expires_at = p9.0 i;
      approved_by = p10.0 i;
      policy_version = p11.0 i;
      ruleset_version = p12.0 i;
      entry_id = p13.0 i;
      entry_version = p14.0 i;
      provenance = q i;
    }

-- The last field is equal, and the test of the others holds.
last_split :
    {A : Type 0} ⦃e : Eq A⦄ (x y : A) (rest : Bool)
    → (rest && x == y) ≡ true
    → (x ≡ y) × (rest ≡ true)
last_split ⦃e⦄ x y rest h =
    let both = and_split rest (x == y) h in ((e.beq_iff x y).0 both.1, both.0)

same_audit_target-equal : (a b : AuditTarget) → same_audit_target a b ≡ true → a ≡ b
same_audit_target-equal a b h =
    let p3 = last_split a.ruleset_version b.ruleset_version _ h in
    let p2 = last_split a.policy_version b.policy_version _ p3.1 in
    let p1 = last_split a.scope b.scope _ p2.1 in
    let p0 = (option_eq.beq_iff a.target_hash b.target_hash).0 p1.1 in
    λ i. record {
      target_hash = p0 i;
      scope = p1.0 i;
      policy_version = p2.0 i;
      ruleset_version = p3.0 i;
    }

same_entries-equal : (a b : Option TrustEntry) → same_entries a b ≡ true → a ≡ b
same_entries-equal none none h = refl
same_entries-equal (some a) (some b) h = rw (same_entry-equal a b h) refl
same_entries-equal none (some b) h = absurd (ground (arith, h))
same_entries-equal (some a) none h = absurd (ground (arith, h))

-- `_same_binding` accepts nothing but the same binding.
pub same_binding_values-equal : (a b : Binding) → same_binding_values a b ≡ true → a ≡ b
unfolding same_binding_values
same_binding_values-equal a b h =
    let p9 = and_split _ _ h in
    let p8 = last_split a.store_digest b.store_digest _ p9.0 in
    let p7 = last_split a.details b.details _ p8.1 in
    let p6 = and_split _ _ p7.1 in
    let p5 = last_split a.request b.request _ p6.0 in
    let p4 = last_split a.prepared_event_id b.prepared_event_id _ p5.1 in
    let p3 = last_split a.entry_id b.entry_id _ p4.1 in
    let p2 = last_split a.operation_id b.operation_id _ p3.1 in
    let p1 = last_split a.operation b.operation _ p2.1 in
    let p0 = (list_eq.beq_iff a.tool b.tool).0 p1.1 in
    let target = same_audit_target-equal a.target b.target p6.1 in
    let entry = same_entries-equal a.expected_entry b.expected_entry p9.1 in
    λ i. record {
      tool = p0 i;
      operation = p1.0 i;
      operation_id = p2.0 i;
      entry_id = p3.0 i;
      prepared_event_id = p4.0 i;
      request = p5.0 i;
      target = target i;
      details = p7.0 i;
      store_digest = p8.0 i;
      expected_entry = entry i;
    }
