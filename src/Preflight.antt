-- ===== src/Preflight.antt =====
-- codex_preflight_core/preflight.py: the findings that reach the policy gate.
pub mod Deduped
pub mod Run
use codex_preflight.Base.{
  Bool, true, false, ◌&&◌, not, String, List, [], ◌∷◌, ◌==◌, string_eq, contains, keep, map, one_of,
  if◌then◌else◌,
}
use codex_preflight.Scanner.Finding.{Finding}

abbrev pub is_direct_download : Finding → Bool
is_direct_download f = contains ("SHELL_CURL_PIPE_BASH" ∷ "SHELL_WGET_PIPE_SH" ∷ []) f.rule_id

-- `direct_shell_downloads`
unfoldable pub direct_shell_downloads : List Finding → List String
direct_shell_downloads findings = map (λ f. f.file) (keep is_direct_download findings)

abbrev pub is_covered : List String → Finding → Bool
is_covered files f = f.rule_id == "SHELL_DOWNLOAD_CAPABILITY" && contains files f.file

-- `key in seen`
abbrev pub is_seen : List (String × String) → Finding → Bool
is_seen [] f = false
is_seen ((r, p) ∷ seen) f = if r == f.rule_id && p == f.file then true else is_seen seen f

-- The second loop, on the set of keys seen.
unfoldable pub dedupe_loop : List String → List (String × String) → List Finding → List Finding
dedupe_loop files seen [] = []
dedupe_loop files seen (f ∷ findings) =
    let rest = dedupe_loop files seen findings in
    let rest' = dedupe_loop files ((f.rule_id, f.file) ∷ seen) findings in
    if is_covered files f then rest else if is_seen seen f then rest else f ∷ rest'

-- `_dedupe_findings`
unfoldable pub dedupe_findings : List Finding → List Finding
dedupe_findings findings = dedupe_loop (direct_shell_downloads findings) [] findings
