-- ===== src/Tests/Remote.antt =====
-- One challenge for a remote scan, where two are kept.
use codex_preflight.Base.{◌≤◌, ◌≡◌, refl, arith, false, some, [], ◌∷◌, length}
use codex_preflight.Mcp.RemoteConfirmation.{
  RemotePayload, RemoteRecords, consumed_id, refused, replayed, issue_remote, consume_remote,
}
use codex_preflight.Mcp.RemoteConfirmation.Once.{issue_remote-consume_remote}

abbrev scan_payload : RemotePayload
scan_payload = record { challenge_id = some "c3"; key_id = some "k"; fingerprint = some "f" }

abbrev issued_records : RemoteRecords
issued_records = issue_remote 2 300 10 "c3" "f" (
    ("c1", record { fingerprint = "f"; expires_at = 5; consumed = false })
    ∷ ("c2", record { fingerprint = "g"; expires_at = 50; consumed = false })
    ∷ [])

remote_example :
    (length issued_records ≤ 2)
    × ((consume_remote "k" 20 (some scan_payload) "f" issued_records).0 ≡ consumed_id "c3")
    × (consume_remote "k" 30
          (some scan_payload)
          "g"
          (consume_remote "k" 20 (some scan_payload) "f" issued_records).1
        ≡ (refused replayed, (consume_remote "k" 20 (some scan_payload) "f" issued_records).1))
remote_example =
    issue_remote-consume_remote "k" 2 300 10 "c3" "f" "g"
      (("c1", record { fingerprint = "f"; expires_at = 5; consumed = false })
        ∷ ("c2", record { fingerprint = "g"; expires_at = 50; consumed = false })
        ∷ [])
      20 30 scan_payload (omega arith) (omega arith) refl
