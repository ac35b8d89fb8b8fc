-- ===== src/Mcp/TrustMutation/Origins.antt =====
-- codex_preflight_mcp/trust_mutation.py: an entry enters the store by a confirmed approval alone.
use codex_preflight.Base.{
  ℕ, ◌≡◌, ◌⊎◌, inl, inr, refl, Bool, true, false, ◌&&◌, Option, some, Text, List, [], ◌∷◌, ◌++◌,
  if◌then◌else◌, IsIn, here, there, IsIn-append, ◌==◌, list_eq, nat_eq,
}
use codex_preflight.Cache.TrustEntry.{TrustEntry, Library}
use codex_preflight.Cache.TrustCache.{is_live}
use codex_preflight.Cache.TrustCache.Operations.{without_live}
use codex_preflight.Mcp.TrustMutation.Service.{Parts, Service}
use codex_preflight.Mcp.TrustMutation.Request.{ArgumentReader, ApprovalArguments, ApprovalRequest}
use codex_preflight.Mcp.TrustMutation.Confirm.{IssueDraws}
use codex_preflight.Mcp.TrustMutation.Consume.{ConfirmDraws, Confirmed}
use codex_preflight.Mcp.TrustMutation.Approve.{approve_call, approval_entry, Agreed}
use codex_preflight.Mcp.TrustMutation.Approved.{IsAuthorized}
use codex_preflight.Mcp.TrustMutation.Changed.{Ends-store}
use codex_preflight.Mcp.TrustMutation.Authorized.{approve_call-IsConfirmedApproval}
use codex_preflight.Mcp.TrustMutation.AuthorizedRevoke.{revoke_call-IsConfirmedRevocation}
use codex_preflight.Mcp.TrustMutation.History.{
  recover_startup-parts, record_registration_state-IsQuiet,
}
use codex_preflight.Mcp.TrustMutation.Calls.{
  Call, approving, revoking, registering, recovering, call, serve,
}
use codex_preflight.Mcp.TrustMutation.Uses.{IsApprovedBy, WasApproved}

-- A revocation adds nothing.
without_live-IsIn :
    (library : Library) (max_bytes now : ℕ) (id : Text) (e : TrustEntry) (entries : List TrustEntry)
    → IsIn e (without_live library max_bytes now id entries)
    → IsIn e entries
unfolding without_live
without_live-IsIn library max_bytes now id e [] h = h
without_live-IsIn library max_bytes now id e (x ∷ entries) h =
    split (x.entry_id == id && is_live library max_bytes now x)
      (without_live-IsIn library max_bytes now id e entries) h
  where
    kept :
        (IsIn e (without_live library max_bytes now id entries) → IsIn e entries)
        → IsIn e (x ∷ without_live library max_bytes now id entries)
        → IsIn e (x ∷ entries)
    kept f (here k) = here k
    kept f (there k) = there (f k)

    split :
        (b : Bool)
        → (IsIn e (without_live library max_bytes now id entries) → IsIn e entries)
        → IsIn e (if b then entries else x ∷ without_live library max_bytes now id entries)
        → IsIn e (x ∷ entries)
    split true f k = there k
    split false f k = kept f k

module _ (parts : Parts) (reader : ArgumentReader) where
  approve_call-IsIn :
      (i : IssueDraws parts reader) (d : ConfirmDraws) (a : ApprovalArguments) (token : Option Text)
      (s : Service) (e : TrustEntry)
      → IsIn e (approve_call parts reader i d a token s).1.store
      → IsIn e s.store ⊎ IsApprovedBy parts reader (approving i d a token) s e
  approve_call-IsIn i d a token s e h =
      elim (approve_call-IsConfirmedApproval parts reader i d a token s) [
        | inl k ↦ inl (rw⁻¹ (k) h)
        | inr (t, f, on, well, (c, q, g, event, (w, store, recorded, answered))) ↦
            entered token f c q g w (rw⁻¹ (store) h)
      ]
    where
      added :
          {t : Text} (c : Confirmed) (q : ApprovalRequest) (g : Agreed)
          → IsAuthorized parts reader d a t s c q g
          → IsIn e s.store ⊎ IsIn e (approval_entry parts reader c q g ∷ [])
          → IsIn e s.store ⊎ IsApprovedBy parts reader (approving i d a (some t)) s e
      added c q g w (inl k) = inl k
      added c q g w (inr (here k)) = inr (c, q, g, w, k)
      added c q g w (inr (there k)) = elim k [ ]

      entered :
          {t : Text} (tokens : Option Text)
          → tokens ≡ some t
          → (c : Confirmed) (q : ApprovalRequest) (g : Agreed)
          → IsAuthorized parts reader d a t s c q g
          → IsIn e (s.store ++ (approval_entry parts reader c q g ∷ []))
          → IsIn e s.store ⊎ IsApprovedBy parts reader (approving i d a tokens) s e
      entered tokens f c q g w k = rw (f) (added c q g w (IsIn-append e s.store _ k))

  call-IsIn :
      (c : Call parts reader) (s : Service) (e : TrustEntry)
      → IsIn e (call parts reader c s).store
      → IsIn e s.store ⊎ IsApprovedBy parts reader c s e
  call-IsIn (approving i d a token) s e h = approve_call-IsIn i d a token s e h
  call-IsIn (revoking i d a token) s e h =
      elim (revoke_call-IsConfirmedRevocation parts reader i d a token s) [
        | inl k ↦ inl (rw⁻¹ (k) h)
        | inr (t, f, on, well, (c, q, g, event, (w, found, store, recorded, answered))) ↦ inl (
            without_live-IsIn parts.library parts.max_bytes d.store_now c.binding.entry_id e s.store
              (rw⁻¹ (store) h))
      ]
  call-IsIn (registering id) s e h = inl (
      rw⁻¹
        (Ends-store parts _ s.store _
          (record_registration_state-IsQuiet parts reader id s.store s refl))
        h)
  call-IsIn recovering s e h = inl (rw⁻¹ ((recover_startup-parts parts reader s).0) h)

  -- Every entry of the trust store after any sequence of calls stood in the store before it, or is the entry
  -- of an approval that one of the calls was authorized for at the service it started from.
  pub serve-WasApproved :
      (cs : List (Call parts reader)) (s : Service) (e : TrustEntry)
      → IsIn e (serve parts reader cs s).store
      → IsIn e s.store ⊎ WasApproved parts reader cs s e
  serve-WasApproved [] s e h = inl h
  serve-WasApproved (c ∷ cs) s e h = elim (serve-WasApproved cs (call parts reader c s) e h) [
    | inl k ↦ elim (call-IsIn c s e k) [ inl m ↦ inl m | inr m ↦ inr (inl m) ]
    | inr k ↦ inr (inr k)
  ]
