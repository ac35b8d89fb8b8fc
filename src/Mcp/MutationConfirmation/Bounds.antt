-- ===== src/Mcp/MutationConfirmation/Bounds.antt =====
-- codex_preflight_mcp/trust_mutation_confirmation.py: the caps on the challenges that are alive and
-- on those issued in a window.
use codex_preflight.Base.{
  ℕ, ◌+◌, ◌≤◌, ◌≡◌, String, Option, none, some, List, [], ◌∷◌, arith, Text, dict_get, length,
  length-append, length-keep-le, length-dict_set, ltb,
}
use codex_preflight.Mcp.MutationConfirmation.{
  Crypto, Manager, ChallengeRecord, Payload, issue, issue_pruned, issue_canonical,
  canonical_mapping, authenticate_and_consume, consume_payload, consume_found, consume_record,
  invalidate_all, prune_expired, prune_issue_window, mark_consumed, max_live_challenges,
  max_issues_per_window, issue_window_seconds, verify, new_record,
}
use codex_preflight.Mcp.MutationConfirmation.Steps.{
  Call, issuing, consuming, invalidating, call, run,
}

abbrev pub IsBounded : Manager → Type 0
IsBounded m =
    (length m.records ≤ max_live_challenges) × (length m.issued_at ≤ max_issues_per_window)

length-mark_consumed :
    (id : String) (d : List (String × ChallengeRecord)) → length (mark_consumed id d) ≡ length d
length-mark_consumed id [] = omega arith
length-mark_consumed id (e ∷ d) = omega (arith, length-mark_consumed id d)

prune_expired-IsBounded : (now : ℕ) (m : Manager) → IsBounded m → IsBounded (prune_expired now m)
prune_expired-IsBounded now m h = (
  omega (
    arith,
    h.0,
    length-keep-le (λ (e : String × ChallengeRecord). ltb now e.1.expires_at) m.records,
  ),
  h.1,
)

module _ (crypto : Crypto) where
  open crypto use {Mapping}

  issue_pruned-IsBounded :
      (now : ℕ) (id nonce : String) (operation binding display proposed : Text) (m : Manager)
      → IsBounded m
      → IsBounded (issue_pruned crypto now id nonce operation binding display proposed m).1
  unfolding issue_pruned
  issue_pruned-IsBounded now id nonce operation binding display proposed m h = ground (
    arith,
    h.0,
    h.1,
    length-append m.issued_at (now ∷ []),
    length-dict_set id (new_record crypto now operation binding display proposed) m.records,
  )

  prune_issue_window-IsBounded :
      (now : ℕ) (m : Manager) → IsBounded m → IsBounded (prune_issue_window now m)
  prune_issue_window-IsBounded now m h = (
    h.0,
    omega (arith, h.1, length-keep-le (λ t. ltb now (t + issue_window_seconds)) m.issued_at),
  )

  issue_canonical-IsBounded :
      (now : ℕ) (id nonce : String) (operation : Text) (binding display : Option Text)
      (proposed : Text) (m : Manager)
      → IsBounded m
      → IsBounded (issue_canonical crypto now id nonce operation binding display proposed m).1
  issue_canonical-IsBounded now id nonce operation (some binding) (some display) proposed m h =
      issue_pruned-IsBounded now id nonce operation binding display proposed
        (prune_issue_window now (prune_expired now m))
        (prune_issue_window-IsBounded now (prune_expired now m) (prune_expired-IsBounded now m h))
  issue_canonical-IsBounded now id nonce operation (some binding) none proposed m h = h
  issue_canonical-IsBounded now id nonce operation none display proposed m h = h

  issue-IsBounded :
      (now : ℕ) (id nonce : String) (operation : Text) (binding display : Mapping) (proposed : Text)
      (m : Manager)
      → IsBounded m
      → IsBounded (issue crypto now id nonce operation binding display proposed m).1
  unfolding issue
  issue-IsBounded now id nonce operation binding display proposed m h = ground (
    arith,
    h,
    issue_canonical-IsBounded now id nonce operation (canonical_mapping crypto binding)
        (canonical_mapping crypto display) proposed m h,
  )

  consume_record-IsBounded :
      (now : ℕ) (p : Payload) (r : ChallengeRecord) (m : Manager)
      → IsBounded m
      → IsBounded (consume_record crypto now p r m).1
  unfolding consume_record
  consume_record-IsBounded now p r m h = ground (
    arith,
    prune_expired-IsBounded now m h,
    length-mark_consumed p.challenge_id (prune_expired now m).records,
  )

  consume_found-IsBounded :
      (now : ℕ) (p : Payload) (o : Option ChallengeRecord) (m : Manager)
      → IsBounded m
      → IsBounded (consume_found crypto now p o m).1
  consume_found-IsBounded now p none m h = h
  consume_found-IsBounded now p (some r) m h =
      ground (arith, h, consume_record-IsBounded now p r m h)

  consume_payload-IsBounded :
      (now : ℕ) (o : Option Payload) (m : Manager)
      → IsBounded m
      → IsBounded (consume_payload crypto now o m).1
  consume_payload-IsBounded now none m h = h
  consume_payload-IsBounded now (some p) m h =
      consume_found-IsBounded now p (dict_get p.challenge_id m.records) m h

  consume-IsBounded :
      (now : ℕ) (token : Text) (m : Manager)
      → IsBounded m
      → IsBounded (authenticate_and_consume crypto now token m).1
  unfolding authenticate_and_consume
  consume-IsBounded now token m h = consume_payload-IsBounded now (verify crypto token) m h

  call-IsBounded : (c : Call crypto) (m : Manager) → IsBounded m → IsBounded (call crypto c m)
  unfolding invalidate_all
  call-IsBounded (issuing now id nonce operation binding display proposed) m h =
      issue-IsBounded now id nonce operation binding display proposed m h
  call-IsBounded (consuming now token) m h = consume-IsBounded now token m h
  call-IsBounded invalidating m h = ground arith

  -- A manager with at most 128 challenges and at most 32 times of issue keeps both bounds under any
  -- sequence of calls, whatever the clock readings, the random draws and the tokens.
  pub run-IsBounded :
      (cs : List (Call crypto)) (m : Manager) → IsBounded m → IsBounded (run crypto cs m)
  run-IsBounded [] m h = h
  run-IsBounded (c ∷ cs) m h = run-IsBounded cs (call crypto c m) (call-IsBounded c m h)
