-- ===== src/Mcp/TrustMutation/Changed.antt =====
-- codex_preflight_mcp/trust_mutation.py: what becomes of a mutation of the store, by its answer.
use codex_preflight.Base.{
  ◌≡◌, ◌⊎◌, inl, inr, refl, false, Option, none, some, String, Text, List, string_eq,
}
use codex_preflight.Cache.TrustEntry.{TrustEntry}
use codex_preflight.Cache.TrustCache.{
  Answer, Mutated, MutationOutcome, MutationResult, result, store_error, value_error, write_error,
  hook_error, commit_error, applied_result,
}
use codex_preflight.Cache.TrustCache.Applied.{AnsweredBy}
use codex_preflight.Mcp.Action.{Outcome, returned, thrown, ◌>>=◌}
use codex_preflight.Mcp.Audit.Chain.{Checked, ok, err}
use codex_preflight.Mcp.Audit.Protocol.{Journal, Reservation, begin_transaction}
use codex_preflight.Mcp.TrustMutation.Codes.{
  MutationError, ErrorCode, audit_pending, plain, persistence_failed,
}
use codex_preflight.Mcp.TrustMutation.Service.{Parts, Service, Method, mark_unhealthy}
use codex_preflight.Mcp.TrustMutation.Mutation.{
  HookError, HookState, StoreOperation, locked, left, inside, transact, ending, ended_by,
  run_mutation, hooks_start, lock_raised,
}
use codex_preflight.Mcp.TrustMutation.Quiet.{Ends, EndsOr, Anything, IsQuiet, fail_after-Ends}

module _ (parts : Parts) where
  -- The mutation returned the result of a committed one, or raised that its audit is pending or that the
  -- write failed, with the service marked as unhealthy.
  abbrev pub Ended :
      MutationOutcome → TrustEntry → Text → Outcome MutationError MutationResult × Service → Type 0
  Ended outcome entry event o =
      ((final : Text) × (o.0 ≡ returned (applied_result outcome entry event (some final))))
      ⊎ (((o.0 ≡ thrown (audit_pending entry.entry_id event))
            ⊎ (o.0 ≡ thrown (plain persistence_failed)))
          × (o.1.healthy ≡ false))

  -- The store holds the entries after the plan, for an entry and an event with the property.
  abbrev pub Changes :
      MutationOutcome
      → List TrustEntry
      → (TrustEntry → Text → Type 0)
      → Outcome MutationError MutationResult × Service
      → Type 0
  Changes outcome after Prepared o =
      (o.1.store ≡ after)
      × (entry : TrustEntry) × (event : Text) × Prepared entry event
      × Ended outcome entry event o

  -- An operation that leaves the store, or brings it to the entries after its plan.
  abbrev pub Operates :
      MutationOutcome
      → List TrustEntry
      → List TrustEntry
      → (TrustEntry → Text → Type 0)
      → Mutated HookError HookState
      → Type 0
  Operates outcome st after Prepared o =
      (o.1 ≡ st)
      ⊎ ((o.1 ≡ after)
          × (entry : TrustEntry) × (event : Text) × Prepared entry event
          × AnsweredBy HookError outcome entry event o.0)

  -- An ending whose store is the given one keeps it.
  ending-Ends :
      (terminal : ErrorCode → Method String) (st : List TrustEntry) (answer : Answer HookError)
      (s : Service)
      → ((c : ErrorCode) → IsQuiet (terminal c))
      → s.store ≡ st
      → Ends st Anything (ending parts terminal answer s)
  unfolding ◌>>=◌ mark_unhealthy
  ending-Ends terminal st (result r) s k h = (h, tt)
  ending-Ends terminal st (commit_error r) s k h = h
  ending-Ends terminal st write_error s k h = h
  ending-Ends terminal st (hook_error e) s k h = fail_after-Ends st Anything _ _ s h (k _)
  ending-Ends terminal st (store_error c) s k h = fail_after-Ends st Anything _ _ s h (k _)
  ending-Ends terminal st value_error s k h = fail_after-Ends st Anything _ _ s h (k _)

  pub Ends-store :
      (A : Type 0) (st : List TrustEntry) (o : Outcome MutationError A × Service)
      → Ends st Anything o
      → o.1.store ≡ st
  Ends-store A st (returned a, s) h = h.0
  Ends-store A st (thrown e, s) h = h

  ending-Changed :
      (terminal : ErrorCode → Method String) (outcome : MutationOutcome) (entry : TrustEntry)
      (event : Text) (after : List TrustEntry) (answer : Answer HookError) (s : Service)
      → s.store ≡ after
      → AnsweredBy HookError outcome entry event answer
      → ((ending parts terminal answer s).1.store ≡ after)
        × Ended outcome entry event (ending parts terminal answer s)
  unfolding ◌>>=◌ mark_unhealthy
  ending-Changed terminal outcome entry event after answer s h (inl (final, e)) =
      rw (e) (h, inl (final, refl))
  ending-Changed terminal outcome entry event after answer s h (inr (inl e)) =
      rw (e) (h, inr (inl refl, refl))
  ending-Changed terminal outcome entry event after answer s h (inr (inr e)) =
      rw (e) (h, inr (inr refl, refl))

  module _ (terminal : ErrorCode → Method String) (quiet : (c : ErrorCode) → IsQuiet (terminal c))
      (outcome : MutationOutcome) (st after : List TrustEntry)
      (Prepared : TrustEntry → Text → Type 0) where
    left-EndsOr :
        (s : Service) (o : Mutated HookError HookState)
        → Operates outcome st after Prepared o
        → EndsOr st (Changes outcome after Prepared) (ended_by parts terminal (left parts s o))
    left-EndsOr s (answer, entries, h) (inl e) = inl (
        Ends-store _ st _
          (ending-Ends terminal st answer (left parts s (answer, entries, h)).1 quiet e))
    left-EndsOr s (answer, entries, h) (inr (e, entry, event, p, a)) =
        let c =
          ending-Changed terminal outcome entry event after answer
            (left parts s (answer, entries, h)).1 e a in
        inr (c.0, entry, event, p, c.1)

    inside-EndsOr :
        (lock : Option ErrorCode) (operation : StoreOperation) (s : Service)
        (o : Checked Reservation × Journal)
        → s.store ≡ st
        → ((h : HookState) → Operates outcome st after Prepared (operation st h))
        → EndsOr st
            (Changes outcome after Prepared)
            (ended_by parts terminal (inside parts (locked parts lock operation) s o))
    inside-EndsOr lock operation s (err e, j) h k =
        inl (
          Ends-store _ st _
            (fail_after-Ends st Anything _ _ (record s { journal = j }) h (quiet _)))
    inside-EndsOr (some c) operation s (ok r, j) h k =
        left-EndsOr s (hook_error (lock_raised c), s.store, hooks_start parts s j r) (inl h)
    inside-EndsOr none operation s (ok r, j) h k =
        left-EndsOr s (operation s.store (hooks_start parts s j r))
          (rw (h) (k (hooks_start parts s j r)))

    -- A mutation leaves the store as it was, or the operation changed it and the ending says so.
    pub run_mutation-EndsOr :
        (lock : Option ErrorCode) (operation : StoreOperation) (s : Service)
        → s.store ≡ st
        → ((h : HookState) → Operates outcome st after Prepared (operation st h))
        → EndsOr st (Changes outcome after Prepared) (run_mutation parts terminal lock operation s)
    unfolding run_mutation transact
    run_mutation-EndsOr lock operation s h k =
        inside-EndsOr lock operation s
          (begin_transaction parts.keyed parts.limits parts.state_digest s.journal) h k
