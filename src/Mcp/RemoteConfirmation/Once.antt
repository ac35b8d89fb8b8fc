-- ===== src/Mcp/RemoteConfirmation/Once.antt =====
-- codex_preflight_mcp/remote_confirmation.py: a challenge is consumed once, and few are kept.
use codex_preflight.Base.{
  ℕ, ◌+◌, ◌≤◌, ◌<◌, ◌≡◌, refl, true, false, some, String, [], ◌∷◌, arith, nat_eq, string_eq,
  option_eq, ltb, length, keep, dict_set, dict_get-dict_set, length-dict_set, eqb_refl,
}
use codex_preflight.Mcp.RemoteConfirmation.{
  RemotePayload, RemoteRecord, RemoteRecords, replayed, consumed_id, refused, evict, is_live,
  prune_and_bound, issue_remote, consume_remote,
}

evict-bounded :
    (max_records : ℕ) (rs : RemoteRecords)
    → 1 ≤ max_records
    → length (evict max_records rs) < max_records
unfolding evict
evict-bounded max_records [] h = omega (arith, h)
evict-bounded max_records (r ∷ rs) h = ground (arith, h, evict-bounded max_records rs h)

-- After a challenge is issued at most max_records are kept, where that is at least 1; and the new
-- one's token, with its id, key and fingerprint, is consumed once at any reading up to the expiry: the
-- second time, at any reading and for any request, it is refused as replayed.
pub issue_remote-consume_remote :
    (key_id : String) (max_records expiry_seconds now : ℕ) (id fingerprint other : String)
    (records : RemoteRecords) (first second : ℕ) (p : RemotePayload)
    → 1 ≤ max_records
    → first ≤ now + expiry_seconds
    → p ≡ record { challenge_id = some id; key_id = some key_id; fingerprint = some fingerprint }
    → let issued = issue_remote max_records expiry_seconds now id fingerprint records in
      let consumed = consume_remote key_id first (some p) fingerprint issued in
      (length issued ≤ max_records)
      × (consumed.0 ≡ consumed_id id)
      × (consume_remote key_id second (some p) other consumed.1 ≡ (refused replayed, consumed.1))
unfolding issue_remote consume_remote prune_and_bound
issue_remote-consume_remote key_id max_records expiry_seconds now id fingerprint other records first
      second p h t e =
    let kept = evict max_records (keep (is_live now) records) in
    let r : RemoteRecord = record {
      fingerprint = fingerprint;
      expires_at = now + expiry_seconds;
      consumed = false;
    } in
    let live : ltb (now + expiry_seconds) first ≡ false = ground (arith, t) in
    (
      omega (
        arith,
        evict-bounded max_records (keep (is_live now) records) h,
        length-dict_set id r kept,
      ),
      rw (e, dict_get-dict_set id r kept, eqb_refl key_id, live, eqb_refl fingerprint) refl,
      rw
          (
            e,
            dict_get-dict_set id r kept,
            eqb_refl key_id,
            live,
            eqb_refl fingerprint,
            dict_get-dict_set id (record r { consumed = true }) (dict_set id r kept),
            eqb_refl key_id,
          )
          refl,
    )
