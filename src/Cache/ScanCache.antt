-- ===== src/Cache/ScanCache.antt =====
-- codex_preflight_core/cache/scan_cache.py, with the key of codex_preflight_core/preflight.py. A report
-- is any type with a decision.
use codex_preflight.Base.{
  ◌≡◌, inl, inr, refl, Bool, true, false, ◌&&◌, not, Option, none, some, String, List, [], ◌∷◌,
  ◌++◌, arith, ◌==◌, string_eq, option_eq, keep, Bool-cases, if◌then◌else◌, eqb_refl,
}
use codex_preflight.Policy.Decision.{Decision, allow, warn, ask_user, block}

-- `_cache_key`
pub record CacheKey : Type 0 where
  pub repo_id : String
  pub head_commit : Option String
  pub critical_fingerprint : String
  pub command_scope : String
  pub policy_version : String
  pub ruleset_version : String
  pub report_format_version : String

-- `all(entry.get(name) == value for name, value in key.items())`
abbrev pub same_key : CacheKey → CacheKey → Bool
same_key j k =
    j.repo_id == k.repo_id
    && (j.head_commit == k.head_commit
        && (j.critical_fingerprint == k.critical_fingerprint
            && (j.command_scope == k.command_scope
                && (j.policy_version == k.policy_version
                    && (j.ruleset_version == k.ruleset_version
                        && j.report_format_version == k.report_format_version)))))

-- `decision in {"ALLOW", "WARN"}`
abbrev pub is_cacheable : Decision → Bool
is_cacheable allow = true
is_cacheable warn = true
is_cacheable ask_user = false
is_cacheable block = false

module _ {Report : Type 0} (decision : Report → Decision) where
  -- `ScanCache.get`
  unfoldable pub cached_report : CacheKey → List (CacheKey × Report) → Option Report
  cached_report key [] = none
  cached_report key ((k, report) ∷ entries) =
      if same_key k key && is_cacheable (decision report)
      then some report
      else cached_report key entries

  -- `ScanCache.store`
  unfoldable pub store_report :
      CacheKey → Report → List (CacheKey × Report) → List (CacheKey × Report)
  store_report key report entries =
      if is_cacheable (decision report)
      then keep (λ e. not (same_key e.0 key)) entries ++ ((key, report) ∷ [])
      else entries

  same_key_refl : (k : CacheKey) → same_key k k ≡ true
  same_key_refl k =
      rw
        (
          eqb_refl k.repo_id,
          eqb_refl k.head_commit,
          eqb_refl k.critical_fingerprint,
          eqb_refl k.command_scope,
          eqb_refl k.policy_version,
          eqb_refl k.ruleset_version,
          eqb_refl k.report_format_version,
        )
        refl

  cached_report-skip :
      (key k : CacheKey) (r : Report) (entries : List (CacheKey × Report)) (o : Option Report)
      → same_key k key ≡ false
      → cached_report key entries ≡ o
      → cached_report key ((k, r) ∷ entries) ≡ o
  unfolding cached_report
  cached_report-skip key k r entries o s h = rw (s) h

  cached_report-keep :
      (key : CacheKey) (report : Report) (entries : List (CacheKey × Report))
      → is_cacheable (decision report) ≡ true
      → cached_report key (keep (λ e. not (same_key e.0 key)) entries ++ ((key, report) ∷ []))
        ≡ some report
  unfolding cached_report
  cached_report-keep key report [] h = ground (arith, h, same_key_refl key)
  cached_report-keep key report ((k, r) ∷ entries) h = elim (Bool-cases (same_key k key)) [
    | inl s ↦ rw (s) (cached_report-keep key report entries h)
    | inr s ↦
        rw (s)
          (cached_report-skip key k r _ (some report) s (cached_report-keep key report entries h))
  ]

  -- A lookup after a store under the same key gives the stored report if its decision is ALLOW or WARN,
  -- and otherwise what it gave before, for the store leaves such a report out.
  pub cached_report-store_report :
      (key : CacheKey) (report : Report) (entries : List (CacheKey × Report))
      → cached_report key (store_report key report entries)
        ≡ (if is_cacheable (decision report) then some report else cached_report key entries)
  unfolding store_report
  cached_report-store_report key report entries =
      elim (Bool-cases (is_cacheable (decision report))) [
        | inl h ↦ rw (h) (cached_report-keep key report entries h)
        | inr h ↦ rw (h) refl
      ]
