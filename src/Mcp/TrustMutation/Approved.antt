-- ===== src/Mcp/TrustMutation/Approved.antt =====
-- codex_preflight_mcp/trust_mutation.py: the store changes by approve as the consumed challenge says.
use codex_preflight.Base.{
  ℕ, ◌≡◌, ◌⊎◌, inl, inr, refl, ◌∙◌, true, false, Option, none, some, Text, codes, List, [], ◌∷◌,
  ◌++◌, Bool-cases, arith, ◌==◌, string_eq, nat_eq, list_eq, option_eq,
}
use codex_preflight.Cache.TrustEntry.{TrustEntry}
use codex_preflight.Cache.TrustCache.{
  MutationPlan, MutationResult, MutationOutcome, applied_result, approved, already_approved,
  revoked, not_found, version_conflict, done,
}
use codex_preflight.Cache.TrustCache.Applied.{approval_plan, approve_mcp-Mutates}
use codex_preflight.Mcp.Action.{Outcome, returned, thrown, continue, ◌>>=◌}
use codex_preflight.Mcp.Audit.Record.{AuditContext}
use codex_preflight.Mcp.TrustMutation.Codes.{
  plain, persistence_failed, MutationError, audit_pending,
}
use codex_preflight.Mcp.TrustMutation.Service.{Parts, Service}
use codex_preflight.Mcp.TrustMutation.Request.{
  ArgumentReader, ApprovalArguments, ApprovalRequest, validate_approval_request,
}
use codex_preflight.Mcp.TrustMutation.Target.{derive_approval_target}
use codex_preflight.Mcp.TrustMutation.Bound.{approval_binding}
use codex_preflight.Mcp.TrustMutation.Consume.{ConfirmDraws, Confirmed, terminal}
use codex_preflight.Mcp.TrustMutation.Mutation.{HookState, run_mutation}
use codex_preflight.Mcp.TrustMutation.Approve.{
  ApprovalReply, Agreed, approval_entry, approval_context, prepare_planned, approval_hooks,
  approve_operation, approval_reply, reply_of, applied_reply, approval_result, approve_agreed,
}
use codex_preflight.Mcp.TrustMutation.Quiet.{EndsOr, IsQuiet, bind-IsQuiet, record_audit-IsQuiet}
use codex_preflight.Mcp.TrustMutation.Recorded.{WasRecorded, prepare_audit-WasRecorded}
use codex_preflight.Mcp.TrustMutation.Consumed.{IsConfirmed}
use codex_preflight.Mcp.TrustMutation.Changed.{
  Changes, Ended, Operates, Ends-store, run_mutation-EndsOr,
}

module _ (parts : Parts) (reader : ArgumentReader) (d : ConfirmDraws) (a : ApprovalArguments)
    (token : Text) where
  -- The request and the target that the call derived from its arguments and from the store, which agree
  -- with the consumed challenge.
  pub record IsAuthorized (s : Service) (c : Confirmed) (q : ApprovalRequest) (g : Agreed)
      : Type 0 where
    pub deadline : ℕ
    pub confirms : IsConfirmed parts d.now (codes "approve") token s.manager c
    pub validates : validate_approval_request parts.library reader a c.consumed.issued_at ≡ some q
    pub derives : derive_approval_target parts deadline d.reading q true s.store ≡ returned g.target
    pub binds :
        c.binding
        ≡ approval_binding parts q g.target c.binding.operation_id c.binding.entry_id
            g.prepared_event_id

  abbrev pub approved_store : Service → Confirmed → ApprovalRequest → Agreed → List TrustEntry
  approved_store s c q g = s.store ++ (approval_entry parts reader c q g ∷ [])

  -- The answer is the entry's, or that its audit is pending or the write failed, where the service is
  -- unhealthy.
  abbrev pub IsAnswered : Confirmed → Text → Outcome MutationError ApprovalReply × Service → Type 0
  IsAnswered c event o =
      ((reply : ApprovalReply) × (o.0 ≡ returned reply)
        × (reply.applied ≡ true)
        × (reply.entry_id ≡ c.binding.entry_id))
      ⊎ (((o.0 ≡ thrown (audit_pending c.binding.entry_id event))
            ⊎ (o.0 ≡ thrown (plain persistence_failed)))
          × (o.1.healthy ≡ false))

  abbrev pub Approves :
      Service
      → Confirmed
      → ApprovalRequest
      → Agreed
      → Text
      → Outcome MutationError ApprovalReply × Service
      → Type 0
  Approves s c q g event o =
      IsAuthorized s c q g
      × (o.1.store ≡ approved_store s c q g)
      × WasRecorded parts "approve" c.binding.entry_id (approval_context parts reader c g) s.store
          (approved_store s c q g) event
      × IsAnswered c event o

  -- A challenge was consumed for the approval that the store holds now.
  abbrev pub IsApproval : Service → Outcome MutationError ApprovalReply × Service → Type 0
  IsApproval s o =
      (c : Confirmed) × (q : ApprovalRequest) × (g : Agreed) × (event : Text) × Approves s c q g
        event o

  prepare_planned-WasRecorded :
      (entry_id : Text) (context : AuditContext) (id : Text) (plan : MutationPlan) (h t : HookState)
      (event : Text)
      → prepare_planned parts reader entry_id context id plan h ≡ (done event, t)
      → WasRecorded parts "approve" entry_id context plan.before plan.after event
  prepare_planned-WasRecorded entry_id context id plan h t event e =
      elim (Bool-cases (plan.planned_event_id == some id)) [
        | inl b ↦
            prepare_audit-WasRecorded parts "approve" entry_id context (some id) plan h t event
              (ground (arith, e, b))
        | inr b ↦ absurd (ground (arith, e, b))
      ]

  -- The entry is the approval, and prepare_mutation gave the event.
  abbrev PreparedAs : Service → Confirmed → ApprovalRequest → Agreed → TrustEntry → Text → Type 0
  PreparedAs s c q g e event =
      (e ≡ approval_entry parts reader c q g)
      × WasRecorded parts "approve" c.binding.entry_id (approval_context parts reader c g) s.store
          (approved_store s c q g) event

  approve_operation-Operates :
      (s : Service) (c : Confirmed) (q : ApprovalRequest) (deadline : ℕ) (g : Agreed)
      (h : HookState)
      → Operates parts approved s.store
          (approved_store s c q g)
          (PreparedAs s c q g)
          (approve_operation parts reader d c q deadline g s.store h)
  unfolding approval_hooks
  approve_operation-Operates s c q deadline g h =
      elim (approve_mcp-Mutates parts.library parts.max_bytes
        (approval_hooks parts reader d c q deadline g) d.store_now
        (approval_entry parts reader c q g) s.store h) [
          | inl e ↦ inl e
          | inr (e, event, (u, t, p), answered) ↦ inr (
            e,
            approval_entry parts reader c q g,
            event,
            (
              refl,
              prepare_planned-WasRecorded c.binding.entry_id (approval_context parts reader c g)
                  g.prepared_event_id
                  (approval_plan parts.library parts.max_bytes
                    (approval_hooks parts reader d c q deadline g)
                    (approval_entry parts reader c q g) s.store)
                  u t event p,
            ),
            answered,
          )
        ]

  approval_entry-id :
      (c : Confirmed) (q : ApprovalRequest) (g : Agreed)
      → (approval_entry parts reader c q g).entry_id ≡ c.binding.entry_id
  unfolding approval_entry
  approval_entry-id c q g = refl

  -- The answer for a committed approval.
  approval_result-applied :
      (c : Confirmed) (e : TrustEntry) (event final : Text)
      → approval_result parts reader c (applied_result approved e event (some final)) ≡ λ t. (
        returned
            (approval_reply parts reader c (applied_result approved e event (some final)) e final),
        t,
      )
  unfolding approval_result
  approval_result-applied c e event final = refl

  applied_reply-IsQuiet :
      (c : Confirmed) (r : MutationResult) (e : TrustEntry) (event : Option Text)
      → IsQuiet (applied_reply parts reader c r e event)
  applied_reply-IsQuiet c r e none st t h = h
  applied_reply-IsQuiet c r e (some event) st t h = (h, tt)

  reply_of-IsQuiet :
      (c : Confirmed) (r : MutationResult) (outcome : MutationOutcome) (found : Option TrustEntry)
      → IsQuiet (reply_of parts reader c r outcome found)
  reply_of-IsQuiet c r outcome none = λ st t h. h
  reply_of-IsQuiet c r already_approved (some e) =
      bind-IsQuiet _ _ (record_audit-IsQuiet parts _ _) (λ id st t h. (h, tt))
  reply_of-IsQuiet c r approved (some e) = applied_reply-IsQuiet c r e r.final_event_id
  reply_of-IsQuiet c r revoked (some e) = applied_reply-IsQuiet c r e r.final_event_id
  reply_of-IsQuiet c r not_found (some e) = applied_reply-IsQuiet c r e r.final_event_id
  reply_of-IsQuiet c r version_conflict (some e) = applied_reply-IsQuiet c r e r.final_event_id

  approval_result-store :
      (c : Confirmed) (o : Outcome MutationError MutationResult × Service)
      → (continue (approval_result parts reader c) o).1.store ≡ o.1.store
  unfolding approval_result
  approval_result-store c (thrown e, t) = refl
  approval_result-store c (returned r, t) =
      Ends-store parts _ t.store _ (reply_of-IsQuiet c r r.outcome r.entry t.store t refl)

  result-IsAnswered :
      (c : Confirmed) (e : TrustEntry) (event : Text)
      (o : Outcome MutationError MutationResult × Service)
      → e.entry_id ≡ c.binding.entry_id
      → Ended parts approved e event o
      → IsAnswered c event (continue (approval_result parts reader c) o)
  result-IsAnswered c e event (o, t) h (inl (final, r)) =
      rw (r, approval_result-applied c e event final)
        (inl (
          approval_reply parts reader c (applied_result approved e event (some final)) e final,
          refl,
          refl,
          h,
        ))
  result-IsAnswered c e event (o, t) h (inr (inl r, u)) = rw (r, h) (inr (inl refl, u))
  result-IsAnswered c e event (o, t) h (inr (inr r, u)) = rw (r) (inr (inr refl, u))

  result-EndsOr :
      (s : Service) (c : Confirmed) (q : ApprovalRequest) (g : Agreed)
      (o : Outcome MutationError MutationResult × Service)
      → IsAuthorized s c q g
      → EndsOr s.store (Changes parts approved (approved_store s c q g) (PreparedAs s c q g)) o
      → EndsOr s.store (IsApproval s) (continue (approval_result parts reader c) o)
  result-EndsOr s c q g o w (inl e) = inl (approval_result-store c o ∙ e)
  result-EndsOr s c q g o w (inr (h, entry, event, (e, recorded), ended)) = inr (
    c,
    q,
    g,
    event,
    (
      w,
      approval_result-store c o ∙ h,
      recorded,
      result-IsAnswered c entry event o (rw (e) (approval_entry-id c q g)) ended,
    ),
  )

  pub approve_agreed-EndsOr :
      (s t : Service) (c : Confirmed) (q : ApprovalRequest) (deadline : ℕ) (g : Agreed)
      → t.store ≡ s.store
      → IsAuthorized s c q g
      → EndsOr s.store (IsApproval s) (approve_agreed parts reader d c q deadline g t)
  unfolding approve_agreed ◌>>=◌
  approve_agreed-EndsOr s t c q deadline g h w =
      let operation = approve_operation parts reader d c q deadline g in
      result-EndsOr s c q g (run_mutation parts (terminal parts true c) d.lock operation t) w (
        run_mutation-EndsOr parts (terminal parts true c) (λ e. record_audit-IsQuiet parts _ _)
          approved s.store (approved_store s c q g) (PreparedAs s c q g) d.lock operation t h
          (λ k. approve_operation-Operates s c q deadline g k))
