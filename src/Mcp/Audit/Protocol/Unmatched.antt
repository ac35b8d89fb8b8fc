-- ===== src/Mcp/Audit/Protocol/Unmatched.antt =====
-- codex_preflight_mcp/trust_mutation_audit.py: the open prepare records of a log that grows.
use codex_preflight.Base.{
  ◌≡◌, inl, inr, refl, ◌∙◌, ap, Bool, true, false, Option, none, some, String, List, [], ◌∷◌, ◌++◌,
  arith, ◌==◌, nat_eq, string_eq, option_eq, contains, contains-append, keep, keep-append, eqb_refl,
  Bool-cases,
}
use codex_preflight.Mcp.Audit.Record.{SignedRecord}
use codex_preflight.Mcp.Audit.Protocol.{
  completion_events, add_some, completed_prepares, is_open, unmatched_prepares, is_last,
  unmatched_tail, require_unmatched_tail, same_record,
}

abbrev pub is_prepare : SignedRecord → Bool
is_prepare r = r.body.event == "mutation_prepared"

abbrev pub is_completion : SignedRecord → Bool
is_completion r = contains completion_events r.body.event

add_some-append : (o : Option String) (a b : List String) → add_some o (a ++ b) ≡ add_some o a ++ b
add_some-append none a b = refl
add_some-append (some x) a b = refl

completed_prepares-append :
    (rs ss : List SignedRecord)
    → completed_prepares (rs ++ ss) ≡ completed_prepares rs ++ completed_prepares ss
unfolding completed_prepares
completed_prepares-append [] ss = refl
completed_prepares-append (r ∷ rs) ss = elim (Bool-cases (is_completion r)) [
  | inl e ↦
      rw (e, completed_prepares-append rs ss)
        (add_some-append r.body.prepared_event_id (completed_prepares rs) (completed_prepares ss))
  | inr e ↦ rw (e) (completed_prepares-append rs ss)
]

-- A prepare record that is closed stays closed.
keep-is_open_mono :
    (c d : List String) (rs : List SignedRecord)
    → keep (is_open c) rs ≡ []
    → keep (is_open (c ++ d)) rs ≡ []
keep-is_open_mono c d [] h = refl
keep-is_open_mono c d (r ∷ rs) h =
    ground (arith, h, keep-is_open_mono c d rs, contains-append c d r.body.event_id)

not-is_completion : (p : SignedRecord) → is_prepare p ≡ true → is_completion p ≡ false
not-is_completion p h =
    let e : p.body.event ≡ "mutation_prepared" =
      (string_eq.beq_iff p.body.event "mutation_prepared").0 h in
    rw e refl

completed_prepares-prepare :
    (rs : List SignedRecord) (p : SignedRecord)
    → is_prepare p ≡ true
    → completed_prepares (rs ++ (p ∷ [])) ≡ completed_prepares rs ++ []
unfolding completed_prepares
completed_prepares-prepare rs p h =
    rw (completed_prepares-append rs (p ∷ []), not-is_completion p h) refl

-- A new prepare record is the one that is open.
pub unmatched_prepares-prepare :
    (rs : List SignedRecord) (p : SignedRecord)
    → unmatched_prepares rs ≡ []
    → is_prepare p ≡ true
    → contains (completed_prepares rs) p.body.event_id ≡ false
    → unmatched_prepares (rs ++ (p ∷ [])) ≡ p ∷ []
unfolding unmatched_prepares
unmatched_prepares-prepare rs p u h f =
    let old : keep (is_open (completed_prepares rs ++ [])) rs ≡ [] =
      keep-is_open_mono (completed_prepares rs) [] rs u in
    rw
      (
        completed_prepares-prepare rs p h,
        keep-append (is_open (completed_prepares rs ++ [])) rs (p ∷ []),
        old,
      )
      (ground (arith, h, f, contains-append (completed_prepares rs) [] p.body.event_id))

completed_prepares-completion :
    (rs : List SignedRecord) (id : String) (q : SignedRecord)
    → is_completion q ≡ true
    → q.body.prepared_event_id ≡ some id
    → completed_prepares (rs ++ (q ∷ [])) ≡ completed_prepares rs ++ (id ∷ [])
unfolding completed_prepares
completed_prepares-completion rs id q k e = rw (completed_prepares-append rs (q ∷ []), k, e) refl

is_completion-not_prepare : (q : SignedRecord) → is_completion q ≡ true → is_prepare q ≡ false
is_completion-not_prepare q k = elim (Bool-cases (is_prepare q)) [
  | inl e ↦ cc (not-is_completion q e, k)
  | inr e ↦ e
]

-- A record that closes it leaves none open.
pub unmatched_prepares-completion :
    (rs : List SignedRecord) (p q : SignedRecord)
    → unmatched_prepares rs ≡ []
    → is_prepare p ≡ true
    → is_completion q ≡ true
    → q.body.prepared_event_id ≡ some p.body.event_id
    → unmatched_prepares ((rs ++ (p ∷ [])) ++ (q ∷ [])) ≡ []
unfolding unmatched_prepares
unmatched_prepares-completion rs p q u h k e =
    let ids = (completed_prepares rs ++ []) ++ (p.body.event_id ∷ []) in
    let all_ids : completed_prepares ((rs ++ (p ∷ [])) ++ (q ∷ [])) ≡ ids =
      completed_prepares-completion (rs ++ (p ∷ [])) p.body.event_id q k e
      ∙ ap (λ (xs : List String). xs ++ (p.body.event_id ∷ []))
          (completed_prepares-prepare rs p h) in
    let old : keep (is_open ids) rs ≡ [] =
      keep-is_open_mono (completed_prepares rs ++ []) (p.body.event_id ∷ []) rs
        (keep-is_open_mono (completed_prepares rs) [] rs u) in
    rw
      (
        all_ids,
        keep-append (is_open ids) (rs ++ (p ∷ [])) (q ∷ []),
        keep-append (is_open ids) rs (p ∷ []),
        old,
        is_completion-not_prepare q k,
      )
      (ground (
        arith,
        contains-append (completed_prepares rs ++ []) (p.body.event_id ∷ []) p.body.event_id,
        eqb_refl p.body.event_id,
      ))

pub is_last-append :
    (rs : List SignedRecord) (p : SignedRecord) → is_last (rs ++ (p ∷ [])) p.body.event_id ≡ true
unfolding is_last
is_last-append [] p = eqb_refl p.body.event_id
is_last-append (r ∷ []) p = eqb_refl p.body.event_id
is_last-append (r ∷ s ∷ rs) p = is_last-append (s ∷ rs) p

pub require_unmatched_tail-prepare :
    (rs : List SignedRecord) (p : SignedRecord)
    → unmatched_prepares rs ≡ []
    → is_prepare p ≡ true
    → contains (completed_prepares rs) p.body.event_id ≡ false
    → (unmatched_tail (rs ++ (p ∷ [])) ≡ some p)
      × (require_unmatched_tail (rs ++ (p ∷ [])) p.body.event_id ≡ some p)
require_unmatched_tail-prepare rs p u h f =
    let only = unmatched_prepares-prepare rs p u h f in
    (
      rw (only, is_last-append rs p) refl,
      rw (only, is_last-append rs p, eqb_refl p.body.event_id) refl,
    )

pub same_record_refl : (r : SignedRecord) → same_record r r ≡ true
unfolding same_record
same_record_refl r =
    rw
      (
        eqb_refl r.body.event,
        eqb_refl r.body.event_id,
        eqb_refl r.body.timestamp,
        eqb_refl r.body.context.tool,
        eqb_refl r.body.context.operation_id,
        eqb_refl r.body.context.operation,
        eqb_refl r.body.context.target_hash,
        eqb_refl r.body.context.entry_id,
        eqb_refl r.body.context.scope,
        eqb_refl r.body.context.policy_version,
        eqb_refl r.body.context.ruleset_version,
        eqb_refl r.body.context.challenge_id,
        eqb_refl r.body.context.entry_version,
        eqb_refl r.body.context.error_code,
        eqb_refl r.body.context.outcome,
        eqb_refl r.body.before_digest,
        eqb_refl r.body.after_digest,
        eqb_refl r.body.prepared_event_id,
        eqb_refl r.previous_mac,
        eqb_refl r.record_mac,
      )
      refl
