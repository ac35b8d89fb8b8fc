-- ===== src/Mcp/TrustMutation/Consumed.antt =====
-- codex_preflight_mcp/trust_mutation.py: what holds where a call has consumed its token.
use codex_preflight.Base.{
  ◌≡◌, inl, inr, refl, true, Option, none, some, Text, List, Bool-cases, ℕ, arith,
}
use codex_preflight.Cache.TrustEntry.{TrustEntry}
use codex_preflight.Mcp.Action.{returned}
use codex_preflight.Mcp.MutationConfirmation.{Manager, ConsumedChallenge, authenticate_and_consume}
use codex_preflight.Mcp.MutationConfirmation as Confirmation
use codex_preflight.Mcp.TrustMutation.Codes.{ErrorCode}
use codex_preflight.Mcp.TrustMutation.Service.{Parts, Service, Binding}
use codex_preflight.Mcp.TrustMutation.Confirm.{required}
use codex_preflight.Mcp.TrustMutation.Consume.{
  Confirmed, consume, consume_bound, consume_challenge, consumed_by, bound_operation, is_for,
  require_operation,
}
use codex_preflight.Mcp.TrustMutation.Quiet.{
  Ends, Anything, bind-Ends, lift-Ends, fail_after-Ends, record_audit-IsQuiet,
}

pub required-returned :
    {A : Type 0} (code : ErrorCode) (o : Option A) (a : A)
    → required code o ≡ returned a
    → o ≡ some a
required-returned code none a h = search
required-returned code (some b) a h = search

module _ (parts : Parts) (now : ℕ) (operation token : Text) (m : Manager) where
  -- The token was consumed by this call, and what it is bound to reads as the binding of the operation.
  pub record IsConfirmed (c : Confirmed) : Type 0 where
    pub consumes :
        (authenticate_and_consume parts.crypto now token m).0 ≡ Confirmation.ok c.consumed
    pub reads : parts.read_binding c.consumed.binding ≡ some c.binding
    pub matches : is_for parts operation c.consumed c.binding ≡ true

  abbrev pub Consumes : ConsumedChallenge → Type 0
  Consumes c = (authenticate_and_consume parts.crypto now token m).0 ≡ Confirmation.ok c

  consumed_by-Ends :
      (s : Service) (o : Confirmation.Outcome ConsumedChallenge × Manager)
      → Ends s.store (λ c. o.0 ≡ Confirmation.ok c) (consumed_by parts s o)
  consumed_by-Ends s (Confirmation.ok c, n) = (refl, refl)
  consumed_by-Ends s (Confirmation.err e, n) = refl

  bound_operation-returned :
      (o : Option Binding) (b : Binding) → bound_operation parts o ≡ returned b → o ≡ some b
  bound_operation-returned none b h = search
  bound_operation-returned (some c) b h =
      elim (Bool-cases (parts.library.is_uuid4 c.operation_id)) [
        | inl u ↦ ground (arith, h, u)
        | inr u ↦ ground (arith, h, u)
      ]

  require_operation-Ends :
      (st : List TrustEntry) (c : ConsumedChallenge) (b : Binding) (s : Service)
      → s.store ≡ st
      → Consumes c
      → parts.read_binding c.binding ≡ some b
      → Ends st IsConfirmed (require_operation parts operation c b s)
  require_operation-Ends st c b s h k r = elim (Bool-cases (is_for parts operation c b)) [
    | inl u ↦ simp (u) (h, record { consumes = k; reads = r; matches = u })
    | inr u ↦ simp (u) (fail_after-Ends st IsConfirmed _ _ s h (record_audit-IsQuiet parts _ _))
  ]

  consume_bound-Ends :
      (st : List TrustEntry) (c : ConsumedChallenge) (s : Service)
      → s.store ≡ st
      → Consumes c
      → Ends st IsConfirmed (consume_bound parts operation c s)
  consume_bound-Ends st c s h k =
      bind-Ends st (λ b. parts.read_binding c.binding ≡ some b) IsConfirmed _ _ s
        (lift-Ends st _ (bound_operation parts (parts.read_binding c.binding)) s h
          (bound_operation-returned (parts.read_binding c.binding)))
        (λ b t u r.
          bind-Ends st Anything IsConfirmed _ _ t (record_audit-IsQuiet parts _ _ st t u)
            (λ id v w q. require_operation-Ends st c b v w k r))

pub consume-Ends :
    (parts : Parts) (now : ℕ) (operation token : Text) (s : Service)
    → Ends s.store
        (IsConfirmed parts now operation token s.manager)
        (consume parts now operation token s)
unfolding consume consume_challenge
consume-Ends parts now operation token s =
    bind-Ends s.store (Consumes parts now operation token s.manager)
      (IsConfirmed parts now operation token s.manager) _ _ s
      (consumed_by-Ends parts now operation token s.manager s
        (authenticate_and_consume parts.crypto now token s.manager))
      (λ c t u k. consume_bound-Ends parts now operation token s.manager s.store c t u k)
