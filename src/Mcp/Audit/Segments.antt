-- ===== src/Mcp/Audit/Segments.antt =====
-- codex_preflight_mcp/trust_mutation_audit.py: the segments of the log on disk, their rotation, and
-- the anchor that the key file holds of them. Segment 0 is the active file, segment k is `.k`.
pub mod Rotation
use codex_preflight.Base.{
  ℕ, zero, suc, ◌+◌, ◌-◌, Bool, true, false, ◌&&◌, ◌||◌, not, Option, none, some, String, List, [],
  ◌∷◌, ◌++◌, ◌==◌, nat_eq, string_eq, leb, sum_by, is_some, if◌then◌else◌,
}
use codex_preflight.Mcp.Audit.Record.{SignedRecord}

-- The lines of a file, and the bytes of an unfinished one at its end.
pub record Segment : Type 0 where
  pub lines : List SignedRecord
  pub torn : ℕ

abbrev pub Disk : Type 0
Disk = ℕ → Option Segment

-- `_AnchorSnapshot`; a segment is its index, its size and its digest
pub record Anchor : Type 0 where
  pub segments : List (ℕ × ℕ × String)
  pub terminal_mac : String

unfoldable pub segments_match : List (ℕ × ℕ × String) → List (ℕ × ℕ × String) → Bool
segments_match [] [] = true
segments_match ((i, m, a) ∷ xs) ((j, n, b) ∷ ys) =
    i == j && m == n && a == b && segments_match xs ys
segments_match _ _ = false

-- `_anchor_matches`
unfoldable pub anchor_matches : Anchor → Anchor → Bool
anchor_matches left right =
    left.terminal_mac == right.terminal_mac && segments_match left.segments right.segments

abbrev pub put : ℕ → Option Segment → Disk → Disk
put k s d i = if i == k then s else d i

-- `_secure_unlink`
abbrev pub discard : ℕ → Disk → Disk
discard k d = put k none d

-- `if _lexists(source): _secure_replace(source, …)`, from segment k to k + 1
unfoldable pub rename : ℕ → Disk → Disk
rename k d = if is_some (d k) then put k none (put (k + 1) (d k) d) else d

-- The loop over `range(max_rotated_segments - 1, 0, -1)`.
unfoldable pub rename_down : ℕ → Disk → Disk
rename_down zero d = d
rename_down (suc k) d = rename_down k (rename (suc k) d)

-- `_rotate_unlocked`
unfoldable pub rotate : ℕ → Disk → Disk
rotate zero d = discard 0 d
rotate (suc n) d = rename 0 (rename_down n (if is_some (d (suc n)) then discard (suc n) d else d))

abbrev pub no_segment : Segment
no_segment = record { lines = []; torn = 0 }

abbrev pub segment_or : Option Segment → Segment
segment_or none = no_segment
segment_or (some s) = s

-- `handle.write(line)` at the end of a file that is made if it is not there
abbrev pub with_line : SignedRecord → Option Segment → Option Segment
with_line r s =
    some (record { lines = (segment_or s).lines ++ (r ∷ []); torn = (segment_or s).torn })

-- `_project_segment_data`
unfoldable pub project_segment_data : ℕ → SignedRecord → Bool → Disk → Disk
project_segment_data max r false d i = put 0 (with_line r (d 0)) d i
project_segment_data max r true d i =
    if i == 0 then with_line r none else if leb i max then d (i - 1) else none

module _ (line_size : SignedRecord → ℕ) (segment_mac : ℕ → Segment → String) where
  abbrev pub segment_size : Segment → ℕ
  segment_size s = sum_by line_size s.lines + s.torn

  -- `sum(len(value) for value in segment_data.values())`, over the segments n to 0
  unfoldable pub total_size : ℕ → Disk → ℕ
  total_size zero d = segment_size (segment_or (d 0))
  total_size (suc n) d = segment_size (segment_or (d (suc n))) + total_size n d

  abbrev pub anchor_entry : ℕ → Option Segment → List (ℕ × ℕ × String)
  anchor_entry i none = []
  anchor_entry i (some s) = (i, segment_size s, segment_mac i s) ∷ []

  unfoldable pub anchor_entries : ℕ → Disk → List (ℕ × ℕ × String)
  anchor_entries zero d = anchor_entry 0 (d 0)
  anchor_entries (suc n) d = anchor_entry (suc n) (d (suc n)) ++ anchor_entries n d

  -- `_anchor_snapshot`
  unfoldable pub anchor_snapshot : ℕ → Disk → String → Anchor
  anchor_snapshot max d terminal = record {
    segments = anchor_entries max d;
    terminal_mac = terminal;
  }
