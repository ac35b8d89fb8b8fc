-- ===== src/Mcp/Action.antt =====
-- Methods of codex_preflight_mcp that change an object and may raise: what was changed before an
-- exception stays changed.
use codex_preflight.Base.{◌≡◌, refl}

pub data Outcome {ℓ} (E A : Type ℓ) : Type ℓ where
  returned : A → Outcome E A
  thrown : E → Outcome E A

abbrev pub Action {ℓ} : Type ℓ → Type ℓ → Type ℓ → Type ℓ
Action S E A = S → Outcome E A × S

module _ {ℓ} {S E A : Type ℓ} where
  abbrev pub pure : A → Action S E A
  pure a s = (returned a, s)

  abbrev pub throw : E → Action S E A
  throw e s = (thrown e, s)

  -- A computation that reads nothing and changes nothing.
  abbrev pub lift : Outcome E A → Action S E A
  lift o s = (o, s)

  -- `except`, whose handler raises the exception again unless it raises one of its own.
  abbrev pub after_handler : {U : Type ℓ} → E → Outcome E U × S → Outcome E A × S
  after_handler e (returned u, s) = (thrown e, s)
  after_handler e (thrown d, s) = (thrown d, s)

  abbrev pub handled : {U : Type ℓ} → (E → Action S E U) → Outcome E A × S → Outcome E A × S
  handled handler (returned a, s) = (returned a, s)
  handled handler (thrown e, s) = after_handler e (handler e s)

  unfoldable pub on_error : {U : Type ℓ} → Action S E A → (E → Action S E U) → Action S E A
  on_error m handler s = handled handler (m s)

  -- `except` around a raise: the handler, then the exception.
  unfoldable pub fail_after : {U : Type ℓ} → Action S E U → E → Action S E A
  fail_after m e s = after_handler e (m s)

module _ {ℓ} {S E A B : Type ℓ} where
  abbrev pub continue : (A → Action S E B) → Outcome E A × S → Outcome E B × S
  continue f (returned a, s) = f a s
  continue f (thrown e, s) = (thrown e, s)

  infixl 10 ◌>>=◌
  unfoldable pub ◌>>=◌ : Action S E A → (A → Action S E B) → Action S E B
  ◌>>=◌ m f s = continue f (m s)

  -- What an action ends in, where the rest starts from what its first part returned.
  pub bind-ends {κ} :
      (P : Outcome E B × S → Type κ) (m : Action S E A) (f : A → Action S E B) (s : S)
      → ((e : E) (t : S) → m s ≡ (thrown e, t) → P (thrown e, t))
      → ((a : A) (t : S) → m s ≡ (returned a, t) → P (f a t))
      → P ((m >>= f) s)
  unfolding ◌>>=◌
  bind-ends P m f s raises rest = cases (m s) refl
    where
      cases : (o : Outcome E A × S) → m s ≡ o → P (continue f o)
      cases (returned a, t) h = rest a t h
      cases (thrown e, t) h = raises e t h

infixl 10 ◌>>◌
abbrev pub ◌>>◌ {ℓ} : {S E A B : Type ℓ} → Action S E A → Action S E B → Action S E B
m >> n = m >>= λ a. n
