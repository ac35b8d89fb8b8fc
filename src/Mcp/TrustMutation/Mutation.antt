-- ===== src/Mcp/TrustMutation/Mutation.antt =====
-- codex_preflight_mcp/trust_mutation.py: the mutation of the store inside an audit transaction, which
-- _confirm_approval and _confirm_revoke share: the hooks, and what each ending becomes. Whether
-- the lock of the store is got is an argument; clearing the marker does not fail here.
use codex_preflight.Base.{
  ℕ, ◌+◌, Option, none, some, String, List, Text, codes, ◌==◌, nat_eq, list_eq, string_eq,
  if◌then◌else◌,
}
use codex_preflight.Cache.TrustEntry.{TrustEntry}
use codex_preflight.Cache.TrustCache.{
  Hooked, MutationPlan, MutationResult, Mutated, Answer, done, raised, result, store_error,
  value_error, write_error, hook_error, commit_error,
}
use codex_preflight.Mcp.Action.{Outcome, pure, throw, fail_after, ◌>>◌}
use codex_preflight.Mcp.Audit.Record.{AuditContext}
use codex_preflight.Mcp.Audit.Chain.{AuditError, Checked, ok, err}
use codex_preflight.Mcp.Audit.Chain as Chain
use codex_preflight.Mcp.Audit.Protocol.{
  Journal, Fresh, Reservation, PreparedMutation, prepare_mutation, commit_mutation,
  begin_transaction, finish_reservation,
}
use codex_preflight.Mcp.Audit.Protocol as Protocol
use codex_preflight.Mcp.TrustMutation.Codes.{
  ErrorCode, MutationError, plain, audit_pending, audit_error, cache_error, target_drift,
  internal_error, persistence_failed,
}
use codex_preflight.Mcp.TrustMutation.Service.{Parts, Service, Method, mark_unhealthy}

-- What is raised during the mutation besides the errors of the store: `_TargetDrift`, another
-- exception of a hook, an error of the audit, and the error of the lock.
pub data HookError : Type 0 where
  drift other_error : HookError
  audit_raised : AuditError → HookError
  lock_raised : ErrorCode → HookError

-- What the hooks change: the log, the reservation, the prepared mutation that `commit` is given, and
-- the records drawn.
pub record HookState : Type 0 where
  pub journal : Journal
  pub reservation : Option Reservation
  pub prepared : Option PreparedMutation
  pub drawn : ℕ

-- An operation of the trust store, with its hooks.
abbrev pub StoreOperation : Type 0
StoreOperation = List TrustEntry → HookState → Mutated HookError HookState

module _ (parts : Parts) where
  open parts use {keyed, limits, state_digest, str, store_bytes, fresh}

  abbrev pub prepared_by :
      Option Text
      → HookState
      → Protocol.Answer keyed limits state_digest PreparedMutation
      → Hooked HookError Text × HookState
  prepared_by expected h (err e, r, j) =
      (raised (audit_raised e), record h { journal = j; reservation = r; drawn = h.drawn + 1 })
  prepared_by none h (ok p, r, j) = (
    done (codes p.event_id),
    record h { journal = j; reservation = r; prepared = some p; drawn = h.drawn + 1 },
  )
  prepared_by (some id) h (ok p, r, j) =
      if p.event_id == str id
      then (
        done (codes p.event_id),
        record h { journal = j; reservation = r; prepared = some p; drawn = h.drawn + 1 },
      )
      else (
        raised (audit_raised Chain.failed),
        record h { journal = j; reservation = r; drawn = h.drawn + 1 },
      )

  -- `_reserve_audit_event_id`
  abbrev pub reserved_event : Option Text → Fresh → Fresh
  reserved_event none f = f
  reserved_event (some id) f = record f { event_id = str id }

  -- `_prepare_audit`
  unfoldable pub prepare_audit :
      String
      → Text
      → AuditContext
      → Option Text
      → MutationPlan
      → HookState
      → Hooked HookError Text × HookState
  prepare_audit operation entry_id context expected plan h = prepared_by expected h (
      prepare_mutation keyed limits state_digest (reserved_event expected (fresh h.drawn)) operation
        (store_bytes plan.before) (store_bytes plan.after) (str entry_id) context h.reservation
        h.journal)

  abbrev pub committed_by :
      HookState → Protocol.Answer keyed limits state_digest String → Option Text × HookState
  committed_by h (err e, r, j) =
      (none, record h { journal = j; reservation = r; drawn = h.drawn + 1 })
  committed_by h (ok id, r, j) =
      (some (codes id), record h { journal = j; reservation = r; drawn = h.drawn + 1 })

  abbrev pub commit_prepared :
      AuditContext → Option PreparedMutation → HookState → Option Text × HookState
  commit_prepared context none h = (none, h)
  commit_prepared context (some p) h = committed_by h (
      commit_mutation keyed limits state_digest (fresh h.drawn) p
        (record context { outcome = "committed" }) h.reservation h.journal)

  -- `_commit_audit`, as the hook that has its prepared mutation
  unfoldable pub commit_audit : AuditContext → Text → HookState → Option Text × HookState
  commit_audit context event h = commit_prepared context h.prepared h

  abbrev pub finish : Option Reservation → Journal → Journal
  finish none j = j
  finish (some r) j = finish_reservation keyed limits state_digest r j

  -- `_committed_pending_error`
  abbrev pub pending_for : Option TrustEntry → Option Text → MutationError
  pending_for (some e) (some id) = audit_pending e.entry_id id
  pending_for _ _ = plain internal_error

  abbrev pub pending_error : MutationResult → MutationError
  pending_error r = pending_for r.entry r.prepared_event_id

  -- The lock of the store, around an operation on it.
  abbrev pub locked : Option ErrorCode → StoreOperation → StoreOperation
  locked none operation entries h = operation entries h
  locked (some c) operation entries h = (hook_error (lock_raised c), entries, h)

  abbrev pub hooks_start : Service → Journal → Reservation → HookState
  hooks_start s j r = record { journal = j; reservation = some r; prepared = none; drawn = s.drawn }

  abbrev pub left : Service → Mutated HookError HookState → Answer HookError × Service
  left s (answer, entries, h) = (
    answer,
    record s { store = entries; journal = finish h.reservation h.journal; drawn = h.drawn },
  )

  abbrev pub inside :
      StoreOperation → Service → Checked Reservation × Journal → Answer HookError × Service
  inside operation s (err e, j) = (hook_error (audit_raised e), record s { journal = j })
  inside operation s (ok r, j) = left s (operation s.store (hooks_start s j r))

  -- `_audit_transaction` around an operation on the store
  unfoldable pub transact : StoreOperation → Service → Answer HookError × Service
  transact operation s = inside operation s (begin_transaction keyed limits state_digest s.journal)

  abbrev pub hook_error_code : HookError → ErrorCode
  hook_error_code drift = target_drift
  hook_error_code other_error = internal_error
  hook_error_code (audit_raised e) = audit_error e
  hook_error_code (lock_raised c) = c

  abbrev pub failed_with : (ErrorCode → Method String) → ErrorCode → Method MutationResult
  failed_with terminal c = fail_after (terminal c) (plain c)

  -- The `except` clauses around the mutation, for what records a failure.
  abbrev pub ending : (ErrorCode → Method String) → Answer HookError → Method MutationResult
  ending terminal (result r) = pure r
  ending terminal (commit_error r) = mark_unhealthy >> throw (pending_error r)
  ending terminal write_error = mark_unhealthy >> throw (plain persistence_failed)
  ending terminal (hook_error e) = failed_with terminal (hook_error_code e)
  ending terminal (store_error c) = failed_with terminal (cache_error c)
  ending terminal value_error = failed_with terminal internal_error

  abbrev pub ended_by :
      (ErrorCode → Method String)
      → Answer HookError × Service
      → Outcome MutationError MutationResult × Service
  ended_by terminal (answer, s) = ending terminal answer s

  -- The mutation as a whole: the lock, the transaction, and what becomes of its ending.
  unfoldable pub run_mutation :
      (ErrorCode → Method String) → Option ErrorCode → StoreOperation → Method MutationResult
  run_mutation terminal lock operation s = ended_by terminal (transact (locked lock operation) s)
