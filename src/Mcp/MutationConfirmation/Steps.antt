-- ===== src/Mcp/MutationConfirmation/Steps.antt =====
-- codex_preflight_mcp/trust_mutation_confirmation.py: the calls of one manager, in the order of
-- its lock.
use codex_preflight.Base.{ℕ, String, List, [], ◌∷◌, Text, ◌≢◌}
use codex_preflight.Mcp.MutationConfirmation.{
  Crypto, Manager, issue, authenticate_and_consume, invalidate_all,
}

module _ (crypto : Crypto) where
  open crypto use {Mapping}

  -- A call with its clock reading and random draws.
  pub data Call : Type 0 where
    issuing :
        (now : ℕ) (id nonce : String) (operation : Text) (binding display : Mapping)
        (proposed : Text)
        → Call
    consuming : (now : ℕ) (token : Text) → Call
    invalidating : Call

  abbrev pub call : Call → Manager → Manager
  call (issuing now id nonce operation binding display proposed) m =
      (issue crypto now id nonce operation binding display proposed m).1
  call (consuming now token) m = (authenticate_and_consume crypto now token m).1
  call invalidating m = invalidate_all m

  abbrev pub run : List Call → Manager → Manager
  run [] m = m
  run (c ∷ cs) m = run cs (call c m)

  -- The call does not draw the id.
  abbrev pub DrawsNot : String → Call → Type 0
  DrawsNot id (issuing now drawn nonce operation binding display proposed) = drawn ≢ id
  DrawsNot id (consuming now token) = Unit
  DrawsNot id invalidating = Unit
