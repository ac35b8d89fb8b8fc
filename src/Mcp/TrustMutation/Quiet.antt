-- ===== src/Mcp/TrustMutation/Quiet.antt =====
-- codex_preflight_mcp/trust_mutation.py: the parts of a call that leave the trust store as it is, and what
-- holds where they return.
use codex_preflight.Base.{◌≡◌, ◌⊎◌, inl, inr, refl, String, List, Text, Bool-cases}
use codex_preflight.Cache.TrustEntry.{TrustEntry}
use codex_preflight.Mcp.Action.{
  Outcome, returned, thrown, lift, on_error, handled, fail_after, after_handler, continue, ◌>>=◌,
}
use codex_preflight.Mcp.Audit.Record.{AuditContext}
use codex_preflight.Mcp.Audit.Chain.{Checked, ok, err}
use codex_preflight.Mcp.Audit.Protocol.{Journal, record_event}
use codex_preflight.Mcp.TrustMutation.Codes.{MutationError}
use codex_preflight.Mcp.TrustMutation.Service.{
  Parts, Service, Method, new_uuid, record_audit, recorded_by,
}

-- The store is the given one, and what the action returns has the property.
abbrev pub Ends :
    {A : Type 0} → List TrustEntry → (A → Type 0) → Outcome MutationError A × Service → Type 0
Ends st Q (returned a, t) = (t.store ≡ st) × Q a
Ends st Q (thrown e, t) = t.store ≡ st

abbrev pub Anything : {A : Type 0} → A → Type 0
Anything a = Unit

-- The store stays as it is.
abbrev pub IsQuiet : {A : Type 0} → Method A → Type 0
IsQuiet {A = A} m =
    (st : List TrustEntry) (s : Service) → s.store ≡ st → Ends {A = A} st Anything (m s)

-- The action never returns, and the store stays as it is.
abbrev pub IsNever : {A : Type 0} → Method A → Type 0
IsNever {A = A} m =
    (st : List TrustEntry) (s : Service) → s.store ≡ st → Ends {A = A} st (λ a. ⊥) (m s)

-- The store is the given one, or the ending has the property.
abbrev pub EndsOr :
    {B : Type 0}
    → List TrustEntry
    → (Outcome MutationError B × Service → Type 0)
    → Outcome MutationError B × Service
    → Type 0
EndsOr st Change o = (o.1.store ≡ st) ⊎ Change o

module _ {A B : Type 0} (st : List TrustEntry) (Q : A → Type 0) where
  continue-Ends :
      (R : B → Type 0) (f : A → Method B) (o : Outcome MutationError A × Service)
      → Ends st Q o
      → ((a : A) (t : Service) → t.store ≡ st → Q a → Ends st R (f a t))
      → Ends st R (continue f o)
  continue-Ends R f (returned a, t) h k = k a t h.0 h.1
  continue-Ends R f (thrown e, t) h k = h

  pub bind-Ends :
      (R : B → Type 0) (m : Method A) (f : A → Method B) (s : Service)
      → Ends st Q (m s)
      → ((a : A) (t : Service) → t.store ≡ st → Q a → Ends st R (f a t))
      → Ends st R ((m >>= f) s)
  unfolding ◌>>=◌
  bind-Ends R m f s h k = continue-Ends R f (m s) h k

  continue-EndsOr :
      (Change : Outcome MutationError B × Service → Type 0) (f : A → Method B)
      (o : Outcome MutationError A × Service)
      → Ends st Q o
      → ((a : A) (t : Service) → t.store ≡ st → Q a → EndsOr st Change (f a t))
      → EndsOr st Change (continue f o)
  continue-EndsOr Change f (returned a, t) h k = k a t h.0 h.1
  continue-EndsOr Change f (thrown e, t) h k = inl h

  pub bind-EndsOr :
      (Change : Outcome MutationError B × Service → Type 0) (m : Method A) (f : A → Method B)
      (s : Service)
      → Ends st Q (m s)
      → ((a : A) (t : Service) → t.store ≡ st → Q a → EndsOr st Change (f a t))
      → EndsOr st Change ((m >>= f) s)
  unfolding ◌>>=◌
  bind-EndsOr Change m f s h k = continue-EndsOr Change f (m s) h k

  after_handler-Ends :
      (e : MutationError) (o : Outcome MutationError B × Service)
      → Ends st Anything o
      → Ends st Q (after_handler e o)
  after_handler-Ends e (returned u, t) h = h.0
  after_handler-Ends e (thrown d, t) h = h

  handled-Ends :
      (handler : MutationError → Method B) (o : Outcome MutationError A × Service)
      → Ends st Q o
      → ((e : MutationError) → IsQuiet (handler e))
      → Ends st Q (handled handler o)
  handled-Ends handler (returned a, t) h k = h
  handled-Ends handler (thrown e, t) h k = after_handler-Ends e (handler e t) (k e st t h)

  pub on_error-Ends :
      (m : Method A) (handler : MutationError → Method B) (s : Service)
      → Ends st Q (m s)
      → ((e : MutationError) → IsQuiet (handler e))
      → Ends st Q (on_error m handler s)
  unfolding on_error
  on_error-Ends m handler s h k = handled-Ends handler (m s) h k

  pub fail_after-Ends :
      (m : Method B) (e : MutationError) (s : Service)
      → s.store ≡ st
      → IsQuiet m
      → Ends st Q (fail_after m e s)
  unfolding fail_after
  fail_after-Ends m e s h k = after_handler-Ends e (m s) (k st s h)

-- What a computation returns it returned.
pub lift-Ends :
    {A : Type 0} (st : List TrustEntry) (Q : A → Type 0) (o : Outcome MutationError A) (s : Service)
    → s.store ≡ st
    → ((a : A) → o ≡ returned a → Q a)
    → Ends st Q (lift o s)
lift-Ends st Q (returned a) s h k = (h, k a refl)
lift-Ends st Q (thrown e) s h k = h

pub bind-IsQuiet :
    {A B : Type 0} (m : Method A) (f : A → Method B)
    → IsQuiet m
    → ((a : A) → IsQuiet (f a))
    → IsQuiet (m >>= f)
bind-IsQuiet m f h k st s e =
    bind-Ends st Anything Anything m f s (h st s e) (λ a t u q. k a st t u)

pub bind-IsNever :
    {A B : Type 0} (m : Method A) (f : A → Method B)
    → IsQuiet m
    → ((a : A) → IsNever (f a))
    → IsNever (m >>= f)
bind-IsNever m f h k st s e =
    bind-Ends st Anything (λ b. ⊥) m f s (h st s e) (λ a t u q. k a st t u)

pub on_error-IsQuiet :
    {A B : Type 0} (m : Method A) (handler : MutationError → Method B)
    → IsQuiet m
    → ((e : MutationError) → IsQuiet (handler e))
    → IsQuiet (on_error m handler)
on_error-IsQuiet m handler h k st s e = on_error-Ends st Anything m handler s (h st s e) k

pub lift-IsQuiet : {A : Type 0} (o : Outcome MutationError A) → IsQuiet (lift o)
lift-IsQuiet o st s e = lift-Ends st Anything o s e (λ a h. tt)

pub fail_after-IsQuiet :
    (A : Type 0) {B : Type 0} (m : Method B) (e : MutationError)
    → IsQuiet m
    → IsQuiet {A = A} (fail_after m e)
fail_after-IsQuiet A {B = B} m e h st s u = fail_after-Ends {A = A} {B = B} st Anything m e s u h

module _ (parts : Parts) where
  recorded_by-Ends :
      (st : List TrustEntry) (s : Service) (o : Checked String × Journal)
      → s.store ≡ st
      → Ends st Anything (recorded_by parts s o)
  recorded_by-Ends st s (ok id, j) h = (h, tt)
  recorded_by-Ends st s (err e, j) h = h

  pub record_audit-IsQuiet :
      (event : String) (context : AuditContext) → IsQuiet (record_audit parts event context)
  unfolding record_audit
  record_audit-IsQuiet event context st s h =
      recorded_by-Ends st s
        (record_event parts.keyed parts.limits parts.state_digest (parts.fresh s.drawn) event
          context s.journal)
        h

  pub new_uuid-IsQuiet : (id : Text) → IsQuiet (new_uuid parts id)
  unfolding new_uuid
  new_uuid-IsQuiet id st s h = elim (Bool-cases (parts.library.is_uuid4 id)) [
    | inl u ↦ rw (u) (h, tt)
    | inr u ↦ rw (u) h
  ]
