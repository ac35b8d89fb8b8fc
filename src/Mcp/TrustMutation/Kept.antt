-- ===== src/Mcp/TrustMutation/Kept.antt =====
-- codex_preflight_mcp/trust_mutation.py: what a call does to the manager of its challenges, for a property of
-- managers that survives their invalidation and every consumption.
use codex_preflight.Base.{ℕ, inl, inr, Option, String, Text, Bool-cases}
use codex_preflight.Cache.TrustCache.{
  Answer, Mutated, MutationResult, result, store_error, value_error, write_error, hook_error,
  commit_error,
}
use codex_preflight.Mcp.Action.{
  Outcome, returned, thrown, throw, lift, on_error, handled, fail_after, after_handler, continue,
  ◌>>=◌,
}
use codex_preflight.Mcp.Audit.Record.{AuditContext}
use codex_preflight.Mcp.Audit.Chain.{Checked, ok, err}
use codex_preflight.Mcp.Audit.Protocol.{Journal, Reservation, record_event, begin_transaction}
use codex_preflight.Mcp.MutationConfirmation.{
  Manager, ConsumedChallenge, Challenge, Crypto, issue, authenticate_and_consume, invalidate_all,
}
use codex_preflight.Mcp.MutationConfirmation as Confirmation
use codex_preflight.Mcp.TrustMutation.Codes.{MutationError, ErrorCode, plain, persistence_failed}
use codex_preflight.Mcp.TrustMutation.Service.{
  Parts, Service, Method, Binding, mark_unhealthy, ensure_active, new_uuid, record_audit,
  recorded_by,
}
use codex_preflight.Mcp.TrustMutation.Consume.{
  Confirmed, consume, consume_bound, consume_challenge, consumed_by, bound_operation, is_for,
  require_operation, terminal,
}
use codex_preflight.Mcp.TrustMutation.Mutation.{
  HookError, HookState, StoreOperation, locked, left, inside, transact, ending, ended_by,
  run_mutation, hooks_start, pending_error,
}

module _ (R : Manager → Type 0) where
  -- The property is kept.
  abbrev pub Keeps : {A : Type 0} → Method A → Type 0
  Keeps m = (s : Service) → R s.manager → R (m s).1.manager

  continue-manager :
      {A B : Type 0} (f : A → Method B) (o : Outcome MutationError A × Service)
      → R o.1.manager
      → ((a : A) → Keeps (f a))
      → R (continue f o).1.manager
  continue-manager f (returned a, t) h k = k a t h
  continue-manager f (thrown e, t) h k = h

  -- Where the first part ends with the property, all does.
  pub bind-manager :
      {A B : Type 0} (m : Method A) (f : A → Method B) (s : Service)
      → R (m s).1.manager
      → ((a : A) → Keeps (f a))
      → R ((m >>= f) s).1.manager
  unfolding ◌>>=◌
  bind-manager m f s h k = continue-manager f (m s) h k

  pub bind-Keeps :
      {A B : Type 0} (m : Method A) (f : A → Method B)
      → Keeps m
      → ((a : A) → Keeps (f a))
      → Keeps (m >>= f)
  bind-Keeps m f h k s r = bind-manager m f s (h s r) k

  after_handler-manager :
      (A : Type 0) {B : Type 0} (e : MutationError) (o : Outcome MutationError B × Service)
      → R o.1.manager
      → R (after_handler {A = A} e o).1.manager
  after_handler-manager A e (returned u, t) h = h
  after_handler-manager A e (thrown d, t) h = h

  handled-manager :
      {A B : Type 0} (handler : MutationError → Method B) (o : Outcome MutationError A × Service)
      → R o.1.manager
      → ((e : MutationError) → Keeps (handler e))
      → R (handled handler o).1.manager
  handled-manager handler (returned a, t) h k = h
  handled-manager {A = A} handler (thrown e, t) h k =
      after_handler-manager A e (handler e t) (k e t h)

  pub on_error-Keeps :
      {A B : Type 0} (m : Method A) (handler : MutationError → Method B)
      → Keeps m
      → ((e : MutationError) → Keeps (handler e))
      → Keeps (on_error m handler)
  unfolding on_error
  on_error-Keeps m handler h k s r = handled-manager handler (m s) (h s r) k

  pub fail_after-Keeps :
      (A : Type 0) {B : Type 0} (m : Method B) (e : MutationError)
      → Keeps m
      → Keeps {A = A} (fail_after m e)
  unfolding fail_after
  fail_after-Keeps A m e h s r = after_handler-manager A e (m s) (h s r)

  pub lift-Keeps : {A : Type 0} (o : Outcome MutationError A) → Keeps (lift o)
  lift-Keeps o s r = r

  pub ensure_active-Keeps : Keeps ensure_active
  unfolding ensure_active
  ensure_active-Keeps s r = elim (Bool-cases s.enabled) [
    | inl e ↦ elim (Bool-cases s.healthy) [ inl h ↦ simp (e, h) r | inr h ↦ simp (e, h) r ]
    | inr e ↦ simp (e) r
  ]

  module _ (parts : Parts) where
    recorded_by-manager :
        (s : Service) (o : Checked String × Journal)
        → R s.manager
        → R (recorded_by parts s o).1.manager
    recorded_by-manager s (ok id, j) h = h
    recorded_by-manager s (err e, j) h = h

    pub record_audit-Keeps :
        (event : String) (context : AuditContext) → Keeps (record_audit parts event context)
    unfolding record_audit
    record_audit-Keeps event context s h =
        recorded_by-manager s
          (record_event parts.keyed parts.limits parts.state_digest (parts.fresh s.drawn) event
            context s.journal)
          h

    pub new_uuid-Keeps : (id : Text) → Keeps (new_uuid parts id)
    unfolding new_uuid
    new_uuid-Keeps id s h = elim (Bool-cases (parts.library.is_uuid4 id)) [
      | inl u ↦ rw (u) h
      | inr u ↦ rw (u) h
    ]

    consumed_by-manager :
        (s : Service) (o : Confirmation.Outcome ConsumedChallenge × Manager)
        → R o.1
        → R (consumed_by parts s o).1.manager
    consumed_by-manager s (Confirmation.ok c, m) h = h
    consumed_by-manager s (Confirmation.err e, m) h = h

    require_operation-Keeps :
        (operation : Text) (c : ConsumedChallenge) (b : Binding)
        → Keeps (require_operation parts operation c b)
    require_operation-Keeps operation c b s h = elim (Bool-cases (is_for parts operation c b)) [
      | inl u ↦ simp (u) h
      | inr u ↦ simp (u) (fail_after-Keeps Confirmed _ _ (record_audit-Keeps _ _) s h)
    ]

    -- Where the consumption of the token ends with the property, the rest keeps it.
    pub consume-manager :
        (now : ℕ) (operation token : Text) (s : Service)
        → R (authenticate_and_consume parts.crypto now token s.manager).1
        → R (consume parts now operation token s).1.manager
    unfolding consume consume_challenge
    consume-manager now operation token s h =
        bind-manager (consume_challenge parts now token) (consume_bound parts operation) s
          (consumed_by-manager s (authenticate_and_consume parts.crypto now token s.manager) h)
          (λ c.
            bind-Keeps _ _ (lift-Keeps (bound_operation parts (parts.read_binding c.binding))) (λ b.
              bind-Keeps _ _ (record_audit-Keeps _ _)
                (λ id. require_operation-Keeps operation c b)))

    -- The invalidation of every challenge keeps the property.
    module _ (invalidated : (m : Manager) → R (invalidate_all m)) where
      mark_unhealthy-Keeps : Keeps mark_unhealthy
      unfolding mark_unhealthy
      mark_unhealthy-Keeps s h = invalidated s.manager

      throw-Keeps : (A : Type 0) (e : MutationError) → Keeps {A = A} (throw e)
      throw-Keeps A e s h = h

      ending-Keeps :
          (terminal : ErrorCode → Method String) (answer : Answer HookError)
          → ((c : ErrorCode) → Keeps (terminal c))
          → Keeps (ending parts terminal answer)
      ending-Keeps terminal (result r) k = λ s h. h
      ending-Keeps terminal (commit_error r) k =
          bind-Keeps _ _ mark_unhealthy-Keeps
            (λ u. throw-Keeps MutationResult (pending_error parts r))
      ending-Keeps terminal write_error k =
          bind-Keeps _ _ mark_unhealthy-Keeps
            (λ u. throw-Keeps MutationResult (plain persistence_failed))
      ending-Keeps terminal (hook_error e) k = fail_after-Keeps MutationResult _ _ (k _)
      ending-Keeps terminal (store_error c) k = fail_after-Keeps MutationResult _ _ (k _)
      ending-Keeps terminal value_error k = fail_after-Keeps MutationResult _ _ (k _)

      left-manager :
          (s : Service) (o : Mutated HookError HookState)
          → R s.manager
          → R (left parts s o).1.manager
      left-manager s (answer, entries, h) k = k

      inside-manager :
          (operation : StoreOperation) (s : Service) (o : Checked Reservation × Journal)
          → R s.manager
          → R (inside parts operation s o).1.manager
      inside-manager operation s (err e, j) h = h
      inside-manager operation s (ok r, j) h =
          left-manager s (operation s.store (hooks_start parts s j r)) h

      ended_by-manager :
          (terminal : ErrorCode → Method String) (o : Answer HookError × Service)
          → ((c : ErrorCode) → Keeps (terminal c))
          → R o.1.manager
          → R (ended_by parts terminal o).1.manager
      ended_by-manager terminal (answer, s) k h = ending-Keeps terminal answer k s h

      pub run_mutation-Keeps :
          (terminal : ErrorCode → Method String) (lock : Option ErrorCode)
          (operation : StoreOperation)
          → ((c : ErrorCode) → Keeps (terminal c))
          → Keeps (run_mutation parts terminal lock operation)
      unfolding run_mutation transact
      run_mutation-Keeps terminal lock operation k s h =
          ended_by-manager terminal (transact parts (locked parts lock operation) s) k (
            inside-manager (locked parts lock operation) s
              (begin_transaction parts.keyed parts.limits parts.state_digest s.journal) h)
