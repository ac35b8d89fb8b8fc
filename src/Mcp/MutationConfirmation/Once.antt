-- ===== src/Mcp/MutationConfirmation/Once.antt =====
-- codex_preflight_mcp/trust_mutation_confirmation.py: a challenge is consumed once.
use codex_preflight.Base.{
  ℕ, ◌≡◌, ◌≢◌, ◌⊎◌, inl, inr, refl, sym, ◌∙◌, String, Bool, true, Option, none, some, List, [], ◌∷◌,
  arith, Text, ◌==◌, nat_eq, string_eq, keep, All, dict_get, dict_set, Bool-cases, Option-cases,
  ltb,
}
use codex_preflight.Mcp.MutationConfirmation.{
  Crypto, Manager, ChallengeRecord, Outcome, ok, err, Payload, invalid, expired, ConsumedChallenge,
  issue, issue_pruned, issue_canonical, canonical_mapping, authenticate_and_consume,
  consume_payload, consume_found, consume_record, invalidate_all, prune_expired, prune_issue_window,
  mark_consumed, verify, new_record,
}
use codex_preflight.Mcp.MutationConfirmation.Steps.{
  Call, issuing, consuming, invalidating, call, run, DrawsNot,
}

abbrev pub Entry : Type 0
Entry = String × ChallengeRecord

-- An entry under the id is consumed.
abbrev pub IsSpentFor : String → Entry → Type 0
IsSpentFor id e = e.0 ≡ id → e.1.consumed ≡ true

abbrev pub IsSpent : String → Manager → Type 0
IsSpent id m = All (IsSpentFor id) m.records

All-keep {ℓ κ} :
    {A : Type ℓ} (P : A → Type κ) (p : A → Bool) (xs : List A) → All P xs → All P (keep p xs)
All-keep P p [] h = h
All-keep P p (x ∷ xs) h = elim (Bool-cases (p x)) [
  | inl e ↦ rw (e) (h.0, All-keep P p xs h.1)
  | inr e ↦ rw (e) (All-keep P p xs h.1)
]

mark_consumed-IsSpent : (id : String) (d : List Entry) → All (IsSpentFor id) (mark_consumed id d)
mark_consumed-IsSpent id [] = tt
mark_consumed-IsSpent id ((j, r) ∷ d) =
    (λ e. ground (arith, e, string_eq.beq_iff j id), mark_consumed-IsSpent id d)

mark_consumed-keeps :
    (id other : String) (d : List Entry)
    → All (IsSpentFor id) d
    → All (IsSpentFor id) (mark_consumed other d)
mark_consumed-keeps id other [] h = h
mark_consumed-keeps id other ((j, r) ∷ d) h =
    (λ e. ground (arith, h.0 e), mark_consumed-keeps id other d h.1)

dict_set-keeps :
    (id other : String) (r : ChallengeRecord) (d : List Entry)
    → other ≢ id
    → All (IsSpentFor id) d
    → All (IsSpentFor id) (dict_set other r d)
dict_set-keeps id other r [] n h = (λ e. ground (arith, e, n), tt)
dict_set-keeps id other r ((j, s) ∷ d) n h = elim (Bool-cases (j == other)) [
  | inl e ↦ rw (e) (λ k. ground (arith, k, n, e, string_eq.beq_iff j other), h.1)
  | inr e ↦ rw (e) (h.0, dict_set-keeps id other r d n h.1)
]

dict_get-IsSpent :
    (id : String) (r : ChallengeRecord) (d : List Entry)
    → All (IsSpentFor id) d
    → dict_get id d ≡ some r
    → r.consumed ≡ true
dict_get-IsSpent id r [] h k = ground (arith, k)
dict_get-IsSpent id r ((j, s) ∷ d) h k = elim (Bool-cases (j == id)) [
  | inl e ↦ ground (arith, h.0, k, e, string_eq.beq_iff j id)
  | inr e ↦ dict_get-IsSpent id r d h.1 (ground (arith, k, e))
]

module _ (crypto : Crypto) where
  open crypto use {Mapping, key_id}

  issue_pruned-IsSpent :
      (spent : String) (now : ℕ) (id nonce : String) (operation binding display proposed : Text)
      (m : Manager)
      → id ≢ spent
      → IsSpent spent m
      → IsSpent spent (issue_pruned crypto now id nonce operation binding display proposed m).1
  unfolding issue_pruned
  issue_pruned-IsSpent spent now id nonce operation binding display proposed m n h = ground (
    arith,
    h,
    dict_set-keeps spent id (new_record crypto now operation binding display proposed) m.records n
        h,
  )

  prune_expired-IsSpent :
      (spent : String) (now : ℕ) (m : Manager)
      → IsSpent spent m
      → IsSpent spent (prune_expired now m)
  prune_expired-IsSpent spent now m h =
      All-keep (IsSpentFor spent) (λ e. ltb now e.1.expires_at) m.records h

  issue_canonical-IsSpent :
      (spent : String) (now : ℕ) (id nonce : String) (operation : Text)
      (binding display : Option Text) (proposed : Text) (m : Manager)
      → id ≢ spent
      → IsSpent spent m
      → IsSpent spent (issue_canonical crypto now id nonce operation binding display proposed m).1
  issue_canonical-IsSpent spent now id nonce operation (some binding) (some display) proposed m n
        h =
      issue_pruned-IsSpent spent now id nonce operation binding display proposed
        (prune_issue_window now (prune_expired now m)) n (prune_expired-IsSpent spent now m h)
  issue_canonical-IsSpent spent now id nonce operation (some binding) none proposed m n h = h
  issue_canonical-IsSpent spent now id nonce operation none display proposed m n h = h

  pub issue-IsSpent :
      (spent : String) (now : ℕ) (id nonce : String) (operation : Text) (binding display : Mapping)
      (proposed : Text) (m : Manager)
      → id ≢ spent
      → IsSpent spent m
      → IsSpent spent (issue crypto now id nonce operation binding display proposed m).1
  unfolding issue
  issue-IsSpent spent now id nonce operation binding display proposed m n h = ground (
    arith,
    h,
    issue_canonical-IsSpent spent now id nonce operation (canonical_mapping crypto binding)
        (canonical_mapping crypto display) proposed m n h,
  )

  consume_record-IsSpent :
      (spent : String) (now : ℕ) (p : Payload) (r : ChallengeRecord) (m : Manager)
      → IsSpent spent m
      → IsSpent spent (consume_record crypto now p r m).1
  unfolding consume_record
  consume_record-IsSpent spent now p r m h = ground (
    arith,
    prune_expired-IsSpent spent now m h,
    mark_consumed-keeps spent p.challenge_id (prune_expired now m).records
        (prune_expired-IsSpent spent now m h),
  )

  consume_found-IsSpent :
      (spent : String) (now : ℕ) (p : Payload) (o : Option ChallengeRecord) (m : Manager)
      → IsSpent spent m
      → IsSpent spent (consume_found crypto now p o m).1
  consume_found-IsSpent spent now p none m h = h
  consume_found-IsSpent spent now p (some r) m h =
      ground (arith, h, consume_record-IsSpent spent now p r m h)

  consume_payload-IsSpent :
      (spent : String) (now : ℕ) (o : Option Payload) (m : Manager)
      → IsSpent spent m
      → IsSpent spent (consume_payload crypto now o m).1
  consume_payload-IsSpent spent now none m h = h
  consume_payload-IsSpent spent now (some p) m h =
      consume_found-IsSpent spent now p (dict_get p.challenge_id m.records) m h

  pub call-IsSpent :
      (spent : String) (c : Call crypto) (m : Manager)
      → DrawsNot crypto spent c
      → IsSpent spent m
      → IsSpent spent (call crypto c m)
  unfolding authenticate_and_consume invalidate_all
  call-IsSpent spent (issuing now id nonce operation binding display proposed) m n h =
      issue-IsSpent spent now id nonce operation binding display proposed m n h
  call-IsSpent spent (consuming now token) m n h =
      consume_payload-IsSpent spent now (verify crypto token) m h
  call-IsSpent spent invalidating m n h = tt

  run-IsSpent :
      (spent : String) (cs : List (Call crypto)) (m : Manager)
      → All (DrawsNot crypto spent) cs
      → IsSpent spent m
      → IsSpent spent (run crypto cs m)
  run-IsSpent spent [] m n h = h
  run-IsSpent spent (c ∷ cs) m n h =
      run-IsSpent spent cs (call crypto c m) n.1 (call-IsSpent spent c m n.0 h)

  -- A spent challenge is refused, as invalid or as expired.
  abbrev pub IsRefused : Outcome ConsumedChallenge × Manager → Type 0
  IsRefused o = (o.0 ≡ err invalid) ⊎ (o.0 ≡ err expired)

  consume_record-IsRefused :
      (now : ℕ) (p : Payload) (r : ChallengeRecord) (m : Manager)
      → r.consumed ≡ true
      → IsRefused (consume_record crypto now p r m)
  unfolding consume_record
  consume_record-IsRefused now p r m e = ground (arith, e)

  consume_found-IsRefused :
      (now : ℕ) (p : Payload) (o : Option ChallengeRecord) (m : Manager)
      → ((r : ChallengeRecord) → o ≡ some r → r.consumed ≡ true)
      → IsRefused (consume_found crypto now p o m)
  consume_found-IsRefused now p none m h = inl refl
  consume_found-IsRefused now p (some r) m h =
      ground (arith, consume_record-IsRefused now p r m (h r refl))

  -- What a success says of the payload and of the manager after it.
  consume_record-success :
      (now : ℕ) (p : Payload) (r : ChallengeRecord) (m after : Manager) (c : ConsumedChallenge)
      → consume_record crypto now p r m ≡ (ok c, after)
      → (c.challenge_id ≡ p.challenge_id) × IsSpent p.challenge_id after
  unfolding consume_record
  consume_record-success now p r m after c e = (
    ground (arith, e),
    ground (arith, e, mark_consumed-IsSpent p.challenge_id (prune_expired now m).records),
  )

  consume_found-success :
      (now : ℕ) (p : Payload) (o : Option ChallengeRecord) (m after : Manager)
      (c : ConsumedChallenge)
      → consume_found crypto now p o m ≡ (ok c, after)
      → (c.challenge_id ≡ p.challenge_id) × IsSpent p.challenge_id after
  consume_found-success now p none m after c e = ground (arith, e)
  consume_found-success now p (some r) m after c e = elim (Bool-cases (p.key_id == key_id)) [
    | inl k ↦ consume_record-success now p r m after c (ground (arith, e, k))
    | inr k ↦ ground (arith, e, k)
  ]

  consume_payload-once :
      (now later : ℕ) (o : Option Payload) (m after : Manager) (c : ConsumedChallenge)
      (cs : List (Call crypto))
      → consume_payload crypto now o m ≡ (ok c, after)
      → All (DrawsNot crypto c.challenge_id) cs
      → IsRefused (consume_payload crypto later o (run crypto cs after))
  consume_payload-once now later none m after c cs e n = inl refl
  consume_payload-once now later (some p) m after c cs e n =
      let success = consume_found-success now p (dict_get p.challenge_id m.records) m after c e in
      consume_found-IsRefused later p (dict_get p.challenge_id (run crypto cs after).records)
        (run crypto cs after)
        (λ r k.
          dict_get-IsSpent p.challenge_id r (run crypto cs after).records
            (run-IsSpent p.challenge_id cs after (rw (sym success.0) n) success.1) k)

  -- After a call that consumes a token's challenge, and after any sequence of further calls on the
  -- manager none of which draws the id of that challenge again, the same token is refused at every
  -- clock reading, as invalid or as expired.
  pub consume-once :
      (now later : ℕ) (token : Text) (m after : Manager) (c : ConsumedChallenge)
      (cs : List (Call crypto))
      → authenticate_and_consume crypto now token m ≡ (ok c, after)
      → All (DrawsNot crypto c.challenge_id) cs
      → IsRefused (authenticate_and_consume crypto later token (run crypto cs after))
  unfolding authenticate_and_consume
  consume-once now later token m after c cs e n =
      consume_payload-once now later (verify crypto token) m after c cs e n

  consume_payload-IsSpent_after :
      (now : ℕ) (p : Payload) (m : Manager) (c : ConsumedChallenge)
      → (consume_payload crypto now (some p) m).0 ≡ ok c
      → IsSpent p.challenge_id (consume_payload crypto now (some p) m).1
  consume_payload-IsSpent_after now p m c e =
      (consume_found-success now p (dict_get p.challenge_id m.records) m
        (consume_payload crypto now (some p) m).1 c
        (λ i. (e i, (consume_payload crypto now (some p) m).1))).1

  -- A token whose challenge is consumed is spent in the manager after it.
  pub consume-IsSpent :
      (now : ℕ) (token : Text) (p : Payload) (m : Manager) (c : ConsumedChallenge)
      → verify crypto token ≡ some p
      → (authenticate_and_consume crypto now token m).0 ≡ ok c
      → IsSpent p.challenge_id (authenticate_and_consume crypto now token m).1
  unfolding authenticate_and_consume
  consume-IsSpent now token p m c v e = rw (v) (
      consume_payload-IsSpent_after now p m c
        (sym (λ i. (consume_payload crypto now (v i) m).0) ∙ e))

  -- A token that verifies and is spent is refused.
  pub authenticate_and_consume-IsRefused :
      (now : ℕ) (token : Text) (p : Payload) (m : Manager)
      → verify crypto token ≡ some p
      → IsSpent p.challenge_id m
      → IsRefused (authenticate_and_consume crypto now token m)
  unfolding authenticate_and_consume
  authenticate_and_consume-IsRefused now token p m v h = rw (v) (
      consume_found-IsRefused now p (dict_get p.challenge_id m.records) m
        (λ r k. dict_get-IsSpent p.challenge_id r m.records h k))

  -- A token whose challenge is consumed verifies.
  pub authenticate_and_consume-verify :
      (now : ℕ) (token : Text) (m : Manager) (c : ConsumedChallenge)
      → (authenticate_and_consume crypto now token m).0 ≡ ok c
      → (p : Payload) × (verify crypto token ≡ some p)
  unfolding authenticate_and_consume
  authenticate_and_consume-verify now token m c e = elim (Option-cases (verify crypto token)) [
    | inl v ↦ absurd (ground (arith, e, v))
    | inr (p, v) ↦ (p, v)
  ]
