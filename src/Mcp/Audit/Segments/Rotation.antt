-- ===== src/Mcp/Audit/Segments/Rotation.antt =====
-- codex_preflight_mcp/trust_mutation_audit.py: the renames of a rotation and the projection that is
-- anchored before them give the same files.
use codex_preflight.Base.{
  ℕ, zero, suc, ◌+◌, ◌-◌, ◌≤◌, ◌≡◌, inl, inr, refl, true, none, arith, ◌==◌, nat_eq, leb, is_some,
  Option-cases, if◌then◌else◌,
}
use codex_preflight.Mcp.Audit.Record.{SignedRecord}
use codex_preflight.Mcp.Audit.Segments.{
  Disk, put, discard, rename, rename_down, rotate, with_line, project_segment_data,
}

-- Into a free name a rename moves the file, if any, and leaves its own name free.
rename_free :
    (k i : ℕ) (d : Disk)
    → d (k + 1) ≡ none
    → rename k d i ≡ (if i == k + 1 then d k else if i == k then none else d i)
unfolding rename
rename_free k i d h = elim (Option-cases (d k)) [
  | inl e ↦ rw (e) (ground (arith, h, e))
  | inr (s, e) ↦ rw (e) (ground (arith, h, e))
]

-- The renames from n down to 1, into a free n + 1, move every file up by one.
rename_down_free :
    (n i : ℕ) (d : Disk)
    → d (n + 1) ≡ none
    → rename_down n d i
      ≡ (if i == 0 then d 0 else if i == 1 then none else if leb i (n + 1) then d (i - 1) else d i)
unfolding rename_down
rename_down_free zero i d h = ground (arith, h)
rename_down_free (suc n) i d h = ground (
  arith,
  h,
  rename_down_free n i (rename (suc n) d),
  rename_free (suc n) i d h,
  rename_free (suc n) (suc n) d h,
  rename_free (suc n) (n + 1) d h,
  rename_free (suc n) 0 d h,
  rename_free (suc n) (i - 1) d h,
)

-- Before the renames the last name is free.
last_free :
    (n : ℕ) (d : Disk) → (if is_some (d (suc n)) then discard (suc n) d else d) (suc n) ≡ none
last_free n d = elim (Option-cases (d (suc n))) [
  | inl e ↦ rw (e) e
  | inr (s, e) ↦ rw (e) (ground arith)
]

rename_all_free :
    (n i : ℕ) (d : Disk)
    → d (n + 1) ≡ none
    → i ≤ n + 1
    → rename 0 (rename_down n d) i ≡ (if i == 0 then none else d (i - 1))
rename_all_free n i d h le =
    let first_free : rename_down n d (0 + 1) ≡ none = ground (arith, rename_down_free n 1 d h) in
    ground (
      arith,
      rename_free 0 i (rename_down n d) first_free,
      rename_down_free n i d h,
      rename_down_free n 0 d h,
    )

without_last :
    (n i : ℕ) (d : Disk) → i ≤ n → (if is_some (d (suc n)) then discard (suc n) d else d) i ≡ d i
without_last n i d h = elim (Option-cases (d (suc n))) [
  | inl e ↦ rw (e) refl
  | inr (s, e) ↦ rw (e) (ground (arith, h))
]

pub rotate_shifts :
    (max i : ℕ) (d : Disk) → i ≤ max → rotate max d i ≡ (if i == 0 then none else d (i - 1))
unfolding rotate
rotate_shifts zero i d h = ground arith
rotate_shifts (suc n) i d h = ground (
  arith,
  last_free n d,
  rename_all_free n i (if is_some (d (suc n)) then discard (suc n) d else d),
  without_last n (i - 1) d,
)

-- The renames of a rotation, followed by the write of a line, leave at every name that the log reads
-- the file that was anchored before the first rename.
pub rotate-project_segment_data :
    (max i : ℕ) (r : SignedRecord) (d : Disk)
    → i ≤ max
    → put 0 (with_line r (rotate max d 0)) (rotate max d) i ≡ project_segment_data max r true d i
unfolding project_segment_data
rotate-project_segment_data max i r d h =
    ground (arith, rotate_shifts max 0 d, rotate_shifts max i d h)
