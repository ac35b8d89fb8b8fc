-- ===== src/Cache/TrustCache/Revocation.antt =====
-- codex_preflight_core/cache/trust_cache.py: what a revocation does to the store.
use codex_preflight.Base.{
  ℕ, ◌≡◌, inl, inr, refl, sym, ◌↔◌, list_eqb_iff, Bool, true, false, not, Option, none, some, List,
  [], ◌∷◌, arith, Text, ◌==◌, list_eq, nat_eq, option_eq, keep, ltb, Bool-cases, contains,
}
use codex_preflight.Cache.TrustEntry.{TrustEntry, Library, same_entry}
use codex_preflight.Cache.TrustCache.{
  Key, Hooks, revoking, revoked, matches, is_live, live_entries, matching_entry, match_entry,
  has_repeats, entry_ids,
}
use codex_preflight.Cache.TrustCache.Operations.{
  is_of_identity, kept_entries, revoke_identity, find_live, without_live, revoke_found,
  revoke_entry_id, holds,
}
use codex_preflight.Cache.TrustCache.Approval.{
  Stored, is_applied, is_applied-is_stored, mutate-Stored, match_entry-matching_entry,
}

module _ (library : Library) (max_bytes : ℕ) where
  -- Entries without those that a predicate picks hold no match for a key whose matches it picks.
  matching_entry-keep :
      (now later : ℕ) (k : Key) (p : TrustEntry → Bool) (entries : List TrustEntry)
      → ((e : TrustEntry) → matches k e ≡ true → p e ≡ true)
      → matching_entry library max_bytes later k
          (keep (λ e. not (p e)) (live_entries library max_bytes now entries))
        ≡ none
  unfolding matching_entry live_entries
  matching_entry-keep now later k p [] h = refl
  matching_entry-keep now later k p (e ∷ entries) h =
      ground (arith, h e, matching_entry-keep now later k p entries h)

  -- The key asks for the repository, and for the scope if one is given.
  abbrev pub IsRevoked : Text → Option Text → Key → Type 0
  IsRevoked repo_id none k = k.repo_id ≡ repo_id
  IsRevoked repo_id (some scope) k = (k.repo_id ≡ repo_id) × (k.command_scope ≡ scope)

  picks :
      (repo_id : Text) (scope : Option Text) (k : Key) (e : TrustEntry)
      → IsRevoked repo_id scope k
      → matches k e ≡ true
      → is_of_identity library max_bytes repo_id scope e ≡ true
  picks repo_id none k e h m =
      ground (arith, h, m, list_eq.beq_iff e.repo_id k.repo_id, list_eq.beq_iff e.repo_id repo_id)
  picks repo_id (some scope) k e h m = ground (
    arith,
    h.0,
    h.1,
    m,
    list_eq.beq_iff e.repo_id k.repo_id,
    list_eq.beq_iff e.repo_id repo_id,
    list_eq.beq_iff e.command_scope k.command_scope,
    list_eq.beq_iff e.command_scope scope,
  )

  -- After a revocation of an identity that the store could write, `match` finds nothing for that
  -- repository, in the given scope or in any, at every later or earlier reading of the clock.
  pub revoke_identity-match :
      (now later : ℕ) (repo_id : Text) (scope : Option Text) (k : Key) (entries : List TrustEntry)
      → (revoke_identity library max_bytes now repo_id scope entries).0.0 ≡ none
      → IsRevoked repo_id scope k
      → match_entry library max_bytes later k
          (revoke_identity library max_bytes now repo_id scope entries).1
        ≡ none
  unfolding revoke_identity
  revoke_identity-match now later repo_id scope k entries w h =
      let kept = kept_entries library max_bytes now repo_id scope entries in
      elim (Bool-cases (ltb max_bytes (library.json_size kept))) [
        | inl b ↦ ground (arith, w, b)
        | inr b ↦
            rw (b, match_entry-matching_entry library max_bytes later k kept)
              (matching_entry-keep now later k (is_of_identity library max_bytes repo_id scope)
                entries (λ e m. picks repo_id scope k e h m))
      ]

  text_eqb_iff : (a b : Text) → ((a == b) ≡ true) ↔ (a ≡ b)
  text_eqb_iff a b = list_eqb_iff a b

  find_live-id :
      (now : ℕ) (id : Text) (entries : List TrustEntry)
      → contains (entry_ids library max_bytes entries) id ≡ false
      → find_live library max_bytes now id entries ≡ none
  unfolding find_live
  find_live-id now id [] h = refl
  find_live-id now id (e ∷ entries) h = ground (
    arith,
    h,
    text_eqb_iff e.entry_id id,
    text_eqb_iff id e.entry_id,
    find_live-id now id entries,
  )

  find_live-without_live :
      (now : ℕ) (id : Text) (entries : List TrustEntry)
      → has_repeats (entry_ids library max_bytes entries) ≡ false
      → find_live library max_bytes now id (without_live library max_bytes now id entries) ≡ none
  unfolding find_live without_live
  find_live-without_live now id [] h = refl
  find_live-without_live now id (e ∷ entries) h = elim (Bool-cases (e.entry_id == id)) [
    | inl i ↦ elim (Bool-cases (is_live library max_bytes now e)) [
      | inl l ↦
          rw (i, l)
            (find_live-id now id entries
              (rw (sym ((text_eqb_iff e.entry_id id).0 i)) (ground (arith, h))))
      | inr l ↦ ground (arith, h, i, l, find_live-without_live now id entries)
    ]
    | inr i ↦ ground (arith, h, i, find_live-without_live now id entries)
  ]

  revoke_found-Stored :
      {E S : Type 0} (hooks : Hooks E S) (found : Option TrustEntry) (expected : Bool) (now : ℕ)
      (id : Text) (entries : List TrustEntry) (s : S)
      → Stored library max_bytes
          (hooks.write (without_live library max_bytes now id entries))
          (revoke_found library max_bytes hooks found expected now id entries s)
          (without_live library max_bytes now id entries)
          entries
  revoke_found-Stored hooks none expected now id entries s = refl
  revoke_found-Stored hooks (some e) false now id entries s = refl
  revoke_found-Stored hooks (some e) true now id entries s =
      mutate-Stored library max_bytes hooks revoking revoked e none
        (without_live library max_bytes now id entries) entries s

  pub revoke_entry_id-Stored :
      {E S : Type 0} (hooks : Hooks E S) (now : ℕ) (id : Text) (version : ℕ) (expected : TrustEntry)
      (entries : List TrustEntry) (s : S)
      → Stored library max_bytes
          (hooks.write (without_live library max_bytes now id entries))
          (revoke_entry_id library max_bytes hooks now id version expected entries s)
          (without_live library max_bytes now id entries)
          entries
  unfolding revoke_entry_id
  revoke_entry_id-Stored hooks now id version expected entries s =
      let found = find_live library max_bytes now id entries in
      ground (
        arith,
        revoke_found-Stored hooks found (holds library max_bytes (λ e. same_entry e expected) found)
            now id entries s,
      )

  -- Where no two entries share an id, an applied revocation, with a committed audit or without, leaves
  -- no live entry of that id.
  pub revoke_entry_id-find_live :
      {E S : Type 0} (hooks : Hooks E S) (now : ℕ) (id : Text) (version : ℕ) (expected : TrustEntry)
      (entries : List TrustEntry) (s : S)
      → has_repeats (entry_ids library max_bytes entries) ≡ false
      → is_applied (revoke_entry_id library max_bytes hooks now id version expected entries s).0
        ≡ true
      → find_live library max_bytes now id
          (revoke_entry_id library max_bytes hooks now id version expected entries s).1
        ≡ none
  revoke_entry_id-find_live hooks now id version expected entries s r a =
      rw
        (
          revoke_entry_id-Stored hooks now id version expected entries s,
          is_applied-is_stored (hooks.write (without_live library max_bytes now id entries))
              (revoke_entry_id library max_bytes hooks now id version expected entries s).0 a,
        )
        (find_live-without_live now id entries r)
