-- ===== src/Mcp/TrustMutation/Revoked.antt =====
-- codex_preflight_mcp/trust_mutation.py: the store changes by revoke as the consumed challenge says.
use codex_preflight.Base.{
  ℕ, ◌≡◌, ◌⊎◌, inl, inr, refl, ◌∙◌, false, none, some, Text, codes, List, Bool-cases, arith, ◌==◌,
  nat_eq, list_eq,
}
use codex_preflight.Cache.TrustEntry.{TrustEntry}
use codex_preflight.Cache.TrustCache.{
  MutationPlan, MutationResult, MutationOutcome, approved, already_approved, revoked, not_found,
  version_conflict, done,
}
use codex_preflight.Cache.TrustCache.Operations.{find_live, without_live}
use codex_preflight.Cache.TrustCache.Applied.{revoke_plan, revoke_entry_id-Revokes}
use codex_preflight.Mcp.Action.{Outcome, returned, thrown, continue, ◌>>=◌}
use codex_preflight.Mcp.Audit.Record.{AuditContext}
use codex_preflight.Mcp.TrustMutation.Codes.{
  plain, persistence_failed, MutationError, audit_pending,
}
use codex_preflight.Mcp.TrustMutation.Service.{Parts, Service}
use codex_preflight.Mcp.TrustMutation.Request.{
  ArgumentReader, RevokeArguments, RevokeRequest, validate_revoke_request,
}
use codex_preflight.Mcp.TrustMutation.Target.{RevokeTarget, derive_revoke_target}
use codex_preflight.Mcp.TrustMutation.Bound.{revoke_binding, revoke_audit_target}
use codex_preflight.Mcp.TrustMutation.Consume.{ConfirmDraws, Confirmed, terminal}
use codex_preflight.Mcp.TrustMutation.Mutation.{HookState, run_mutation}
use codex_preflight.Mcp.TrustMutation.Revoke.{
  RevokeReply, RevokeAgreed, revoke_context, prepare_unchanged, revoke_hooks, revoke_operation,
  revoke_reply, revoke_outcome, revoke_result,
}
use codex_preflight.Mcp.TrustMutation.Quiet.{
  EndsOr, IsQuiet, fail_after-IsQuiet, lift-IsQuiet, record_audit-IsQuiet,
}
use codex_preflight.Mcp.TrustMutation.Recorded.{WasRecorded, prepare_audit-WasRecorded}
use codex_preflight.Mcp.TrustMutation.Consumed.{IsConfirmed}
use codex_preflight.Mcp.TrustMutation.Changed.{
  Changes, Ended, Operates, Ends-store, run_mutation-EndsOr,
}
use codex_preflight.Mcp.TrustMutation.Bindings.{same_entry-equal}

module _ (parts : Parts) (reader : ArgumentReader) (d : ConfirmDraws) (a : RevokeArguments)
    (token : Text) where
  -- The request and the live entry that the call derived from its arguments and from the store, which
  -- agree with the consumed challenge.
  pub record IsAuthorizedRevoke (s : Service) (c : Confirmed) (q : RevokeRequest) (g : RevokeAgreed)
      : Type 0 where
    pub deadline : ℕ
    pub confirms : IsConfirmed parts d.now (codes "revoke") token s.manager c
    pub validates : validate_revoke_request parts.library reader a ≡ some q
    pub derives : derive_revoke_target parts deadline d.reading q s.store ≡ returned g.target
    pub binds : c.binding ≡ revoke_binding parts q g.target c.binding.operation_id
    pub expects : g.expected ≡ g.target.entry

  abbrev pub revoked_store : Service → Confirmed → List TrustEntry
  revoked_store s c =
      without_live parts.library parts.max_bytes d.store_now c.binding.entry_id s.store

  -- The answer is the entry's, or that its audit is pending or the write failed, where the service is
  -- unhealthy.
  abbrev pub IsRevokeAnswered :
      RevokeAgreed → Text → Outcome MutationError RevokeReply × Service → Type 0
  IsRevokeAnswered g event o =
      ((reply : RevokeReply) × (o.0 ≡ returned reply) × (reply.entry_id ≡ g.expected.entry_id))
      ⊎ (((o.0 ≡ thrown (audit_pending g.expected.entry_id event))
            ⊎ (o.0 ≡ thrown (plain persistence_failed)))
          × (o.1.healthy ≡ false))

  abbrev pub RevokesAs :
      Service
      → Confirmed
      → RevokeRequest
      → RevokeAgreed
      → Text
      → Outcome MutationError RevokeReply × Service
      → Type 0
  RevokesAs s c q g event o =
      IsAuthorizedRevoke s c q g
      × (find_live parts.library parts.max_bytes d.store_now c.binding.entry_id s.store
          ≡ some g.expected)
      × (o.1.store ≡ revoked_store s c)
      × WasRecorded parts "revoke" c.binding.entry_id
          (revoke_context parts reader c (revoke_audit_target parts g.target) c.binding.entry_id
            "pending" none)
          s.store (revoked_store s c) event
      × IsRevokeAnswered g event o

  -- A challenge was consumed for the revocation of the entry that the store lost.
  abbrev pub IsRevocation : Service → Outcome MutationError RevokeReply × Service → Type 0
  IsRevocation s o =
      (c : Confirmed) × (q : RevokeRequest) × (g : RevokeAgreed) × (event : Text) × RevokesAs s c q
        g event o

  prepare_unchanged-WasRecorded :
      (entry_id : Text) (context : AuditContext) (u : RevokeTarget) (plan : MutationPlan)
      (h t : HookState) (event : Text)
      → prepare_unchanged parts reader entry_id context u plan h ≡ (done event, t)
      → WasRecorded parts "revoke" entry_id context plan.before plan.after event
  prepare_unchanged-WasRecorded entry_id context u plan h t event e =
      elim (Bool-cases (parts.store_digest plan.before == u.store_digest)) [
        | inl b ↦
            prepare_audit-WasRecorded parts "revoke" entry_id context none plan h t event
              (ground (arith, e, b))
        | inr b ↦ absurd (ground (arith, e, b))
      ]

  -- The entry is the live one of the id and the expected one, and prepare_mutation gave the event.
  abbrev RevokePrepared : Service → Confirmed → RevokeAgreed → TrustEntry → Text → Type 0
  RevokePrepared s c g e event =
      (find_live parts.library parts.max_bytes d.store_now c.binding.entry_id s.store ≡ some e)
      × (e ≡ g.expected)
      × WasRecorded parts "revoke" c.binding.entry_id
          (revoke_context parts reader c (revoke_audit_target parts g.target) c.binding.entry_id
            "pending" none)
          s.store (revoked_store s c) event

  revoke_operation-Operates :
      (s : Service) (c : Confirmed) (g : RevokeAgreed) (h : HookState)
      → Operates parts revoked s.store
          (revoked_store s c)
          (RevokePrepared s c g)
          (revoke_operation parts reader d c g c.binding.entry_id s.store h)
  unfolding revoke_hooks
  revoke_operation-Operates s c g h =
      let hooks = revoke_hooks parts reader d c g c.binding.entry_id in
      let context =
        revoke_context parts reader c (revoke_audit_target parts g.target) c.binding.entry_id
          "pending" none in
      elim (revoke_entry_id-Revokes parts.library parts.max_bytes hooks d.store_now
        c.binding.entry_id 1 g.expected s.store h) [
          | inl e ↦ inl e
          | inr (e, found, same, inl k) ↦ inl k
          | inr (e, found, same, inr (k, event, (u, t, p), answered)) ↦ inr (
            k,
            e,
            event,
            (
              found,
              same_entry-equal e g.expected same,
              prepare_unchanged-WasRecorded c.binding.entry_id context g.target
                  (revoke_plan parts.library parts.max_bytes hooks d.store_now c.binding.entry_id e
                    s.store)
                  u t event p,
            ),
            answered,
          )
        ]

  revoke_outcome-IsQuiet :
      (c : Confirmed) (g : RevokeAgreed) (r : MutationResult) (outcome : MutationOutcome)
      → IsQuiet (revoke_outcome parts reader c g c.binding.entry_id r outcome)
  revoke_outcome-IsQuiet c g r not_found = fail_after-IsQuiet _ _ _ (record_audit-IsQuiet parts _ _)
  revoke_outcome-IsQuiet c g r version_conflict =
      fail_after-IsQuiet _ _ _ (record_audit-IsQuiet parts _ _)
  revoke_outcome-IsQuiet c g r revoked =
      lift-IsQuiet (revoke_reply parts reader c revoked r.entry r.final_event_id)
  revoke_outcome-IsQuiet c g r approved =
      lift-IsQuiet (revoke_reply parts reader c approved r.entry r.final_event_id)
  revoke_outcome-IsQuiet c g r already_approved =
      lift-IsQuiet (revoke_reply parts reader c already_approved r.entry r.final_event_id)

  revoke_result-store :
      (c : Confirmed) (g : RevokeAgreed) (o : Outcome MutationError MutationResult × Service)
      → (continue (revoke_result parts reader c g c.binding.entry_id) o).1.store ≡ o.1.store
  unfolding revoke_result
  revoke_result-store c g (thrown e, t) = refl
  revoke_result-store c g (returned r, t) =
      Ends-store parts _ t.store _ (revoke_outcome-IsQuiet c g r r.outcome t.store t refl)

  -- The answer for a committed revocation.
  revoke_result-IsRevokeAnswered :
      (c : Confirmed) (g : RevokeAgreed) (e : TrustEntry) (event : Text)
      (o : Outcome MutationError MutationResult × Service)
      → e ≡ g.expected
      → Ended parts revoked e event o
      → IsRevokeAnswered g event (continue (revoke_result parts reader c g c.binding.entry_id) o)
  unfolding revoke_result
  revoke_result-IsRevokeAnswered c g e event (o, t) h (inl (final, r)) =
      rw (r, h)
        (inl (
          record {
            entry_id = g.expected.entry_id;
            challenge_id = parts.canonical_challenge_id c.consumed.challenge_id;
            audit_event_id = final;
          },
          refl,
          refl,
        ))
  revoke_result-IsRevokeAnswered c g e event (o, t) h (inr (inl r, u)) =
      rw (r, h) (inr (inl refl, u))
  revoke_result-IsRevokeAnswered c g e event (o, t) h (inr (inr r, u)) = rw (r) (inr (inr refl, u))

  revoke_result-EndsOr :
      (s : Service) (c : Confirmed) (q : RevokeRequest) (g : RevokeAgreed)
      (o : Outcome MutationError MutationResult × Service)
      → IsAuthorizedRevoke s c q g
      → EndsOr s.store (Changes parts revoked (revoked_store s c) (RevokePrepared s c g)) o
      → EndsOr s.store
          (IsRevocation s)
          (continue (revoke_result parts reader c g c.binding.entry_id) o)
  revoke_result-EndsOr s c q g o w (inl e) = inl (revoke_result-store c g o ∙ e)
  revoke_result-EndsOr s c q g o w (inr (h, entry, event, (found, e, recorded), ended)) = inr (
    c,
    q,
    g,
    event,
    (
      w,
      rw⁻¹ (e) found,
      revoke_result-store c g o ∙ h,
      recorded,
      revoke_result-IsRevokeAnswered c g entry event o e ended,
    ),
  )

  pub mutated-EndsOr :
      (s t : Service) (c : Confirmed) (q : RevokeRequest) (g : RevokeAgreed)
      → t.store ≡ s.store
      → IsAuthorizedRevoke s c q g
      → EndsOr s.store (IsRevocation s) (
          (run_mutation parts
                (terminal parts false c)
                d.lock
                (revoke_operation parts reader d c g c.binding.entry_id)
              >>= revoke_result parts reader c g c.binding.entry_id)
            t)
  unfolding ◌>>=◌
  mutated-EndsOr s t c q g h w =
      let operation = revoke_operation parts reader d c g c.binding.entry_id in
      revoke_result-EndsOr s c q g (run_mutation parts (terminal parts false c) d.lock operation t)
        w
        (run_mutation-EndsOr parts (terminal parts false c) (λ e. record_audit-IsQuiet parts _ _)
          revoked s.store (revoked_store s c) (RevokePrepared s c g) d.lock operation t h
          (λ k. revoke_operation-Operates s c g k))
