-- ===== src/Mcp/RemoteConfirmation.antt =====
-- codex_preflight_mcp/remote_confirmation.py: the one-time challenges of remote scans. Decoding and
-- verifying a token is a parameter, and so is the fingerprint of a request; a clock reading is a
-- natural number.
pub mod Once
use codex_preflight.Base.{
  ℕ, ◌+◌, Bool, true, false, ◌&&◌, ◌||◌, not, Option, none, some, String, List, [], ◌∷◌, ◌==◌,
  nat_eq, string_eq, option_eq, leb, ltb, length, keep, dict_get, dict_set, if◌then◌else◌,
}

-- What `_decode_and_verify` gives of a token; a field that is missing or no string is `none`.
pub record RemotePayload : Type 0 where
  pub challenge_id : Option String
  pub key_id : Option String
  pub fingerprint : Option String

pub record RemoteRecord : Type 0 where
  pub fingerprint : String
  pub expires_at : ℕ
  pub consumed : Bool

abbrev pub RemoteRecords : Type 0
RemoteRecords = List (String × RemoteRecord)

pub data RemoteError : Type 0 where
  invalid replayed expired : RemoteError

pub data Consumed : Type 0 where
  consumed_id : String → Consumed
  refused : RemoteError → Consumed

-- `while len(records) >= max_records: records.pop(next(iter(records)))`
unfoldable pub evict : ℕ → RemoteRecords → RemoteRecords
evict max_records [] = []
evict max_records (r ∷ rs) =
    let rest = evict max_records rs in if leb max_records (length (r ∷ rs)) then rest else r ∷ rs

abbrev pub is_live : ℕ → String × RemoteRecord → Bool
is_live now (id, r) = leb now r.expires_at

-- `_prune_and_bound`
unfoldable pub prune_and_bound : ℕ → ℕ → RemoteRecords → RemoteRecords
prune_and_bound max_records now records = evict max_records (keep (is_live now) records)

-- `issue`, as far as the records go, for the id that is drawn
unfoldable pub issue_remote : ℕ → ℕ → ℕ → String → String → RemoteRecords → RemoteRecords
issue_remote max_records expiry_seconds now id fingerprint records =
    dict_set id
      (record { fingerprint = fingerprint; expires_at = now + expiry_seconds; consumed = false })
      (prune_and_bound max_records now records)

module _ (key_id : String) where
  abbrev pub consume_found :
      ℕ
      → RemotePayload
      → String
      → String
      → RemoteRecords
      → Option RemoteRecord
      → Consumed × RemoteRecords
  consume_found now p id expected records none = (refused invalid, records)
  consume_found now p id expected records (some r) =
      if not (p.key_id == some key_id)
      then (refused invalid, records)
      else if r.consumed
      then (refused replayed, records)
      else if ltb r.expires_at now
      then (refused expired, records)
      else if not (p.fingerprint == some expected) || not (r.fingerprint == expected)
      then (refused invalid, records)
      else (consumed_id id, dict_set id (record r { consumed = true }) records)

  abbrev pub consume_id :
      ℕ → RemotePayload → Option String → String → RemoteRecords → Consumed × RemoteRecords
  consume_id now p none expected records = (refused invalid, records)
  consume_id now p (some id) expected records =
      consume_found now p id expected records (dict_get id records)

  -- `consume`, for what its token decodes to
  unfoldable pub consume_remote :
      ℕ → Option RemotePayload → String → RemoteRecords → Consumed × RemoteRecords
  consume_remote now none expected records = (refused invalid, records)
  consume_remote now (some p) expected records = consume_id now p p.challenge_id expected records
