-- ===== src/Mcp/TrustMutation/Recorded.antt =====
-- codex_preflight_mcp/trust_mutation.py: where the hook of a mutation gives an event, prepare_mutation gave
-- it.
use codex_preflight.Base.{
  ◌≡◌, refl, Option, none, some, String, Text, codes, List, arith, string_eq, nat_eq, list_eq,
  option_eq,
}
use codex_preflight.Cache.TrustEntry.{TrustEntry}
use codex_preflight.Cache.TrustCache.{MutationPlan, done}
use codex_preflight.Mcp.Audit.Record.{AuditContext}
use codex_preflight.Mcp.Audit.Chain.{ok, err}
use codex_preflight.Mcp.Audit.Protocol.{
  Journal, Fresh, Reservation, PreparedMutation, prepare_mutation,
}
use codex_preflight.Mcp.Audit.Protocol as Protocol
use codex_preflight.Mcp.TrustMutation.Service.{Parts}
use codex_preflight.Mcp.TrustMutation.Mutation.{
  HookState, prepare_audit, prepared_by, reserved_event,
}

-- prepare_mutation accepted the change of the store, at some state of the log, and gave the event.
pub record WasRecorded (parts : Parts) (operation : String) (entry_id : Text)
    (context : AuditContext) (before after : List TrustEntry) (event : Text) : Type 0 where
  pub fresh : Fresh
  pub reservation : Option Reservation
  pub journal : Journal
  pub prepared : PreparedMutation
  pub prepares :
      (prepare_mutation parts.keyed parts.limits parts.state_digest fresh operation
        (parts.store_bytes before)
        (parts.store_bytes after)
        (parts.str entry_id)
        context
        reservation
        journal).0
      ≡ ok prepared
  pub is_event : codes prepared.event_id ≡ event

module _ (parts : Parts) where
  open parts use {keyed, limits, state_digest, str, store_bytes, fresh}

  prepared_by-done :
      (expected : Option Text) (h t : HookState)
      (o : Protocol.Answer keyed limits state_digest PreparedMutation) (event : Text)
      → prepared_by parts expected h o ≡ (done event, t)
      → (p : PreparedMutation) × (o.0 ≡ ok p) × (codes p.event_id ≡ event)
  prepared_by-done none h t (ok p, r, j) event e = (p, refl, ground (arith, e))
  prepared_by-done none h t (err x, r, j) event e = absurd (ground (arith, e))
  prepared_by-done (some id) h t (err x, r, j) event e = absurd (ground (arith, e))
  prepared_by-done (some id) h t (ok p, r, j) event e = (p, refl, ground (arith, e))

  pub prepare_audit-WasRecorded :
      (operation : String) (entry_id : Text) (context : AuditContext) (expected : Option Text)
      (plan : MutationPlan) (h t : HookState) (event : Text)
      → prepare_audit parts operation entry_id context expected plan h ≡ (done event, t)
      → WasRecorded parts operation entry_id context plan.before plan.after event
  unfolding prepare_audit
  prepare_audit-WasRecorded operation entry_id context expected plan h t event e =
      let p =
        prepared_by-done expected h t
          (prepare_mutation keyed limits state_digest
            (reserved_event parts expected (fresh h.drawn)) operation (store_bytes plan.before)
            (store_bytes plan.after) (str entry_id) context h.reservation h.journal)
          event e in
      record {
        fresh = reserved_event parts expected (fresh h.drawn);
        reservation = h.reservation;
        journal = h.journal;
        prepared = p.0;
        prepares = p.1;
        is_event = p.2;
      }
