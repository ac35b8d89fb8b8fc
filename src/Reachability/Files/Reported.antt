-- ===== src/Reachability/Files/Reported.antt =====
-- codex_preflight_core/reachability/resolver.py: no target is dropped without a trace.
use codex_preflight.Base.{
  ℕ, zero, suc, ◌+◌, ◌≤◌, ◌<◌, ◌≡◌, ◌⊎◌, inl, inr, refl, true, Option, some, String, [], ◌∷◌, arith,
  length, length-append, any, Bool-cases,
}
use codex_preflight.Reachability.Uncertainty.{Uncertainty, node_budget_exceeded}
use codex_preflight.Reachability.Graph.{
  Node, Edge, Graph, report, has_budget, exhaust, new_node, link, visit, add_capabilities,
}
use codex_preflight.Reachability.Files.{
  Reference, Location, Tree, absolute_path, symlink, outside, missing, local_file, follow_located,
  follow_target,
}
use codex_preflight.Reachability.Files.Keeps.{
  IsKept, size, size-link, follow_target-Keeps, scan_file-Keeps,
}
use codex_preflight.Reachability.Files.Valid.{IsValid, is_budget_report, follow_target-IsValid}

module _ {Capability : Type 0} where
  -- The edges and the uncertainties of a graph.
  abbrev pub traces : Graph Capability → ℕ
  traces g = length g.edges + length g.uncertainties

  -- At least n traces.
  abbrev HasTraces : ℕ → Graph Capability → Type 0
  HasTraces n g = n ≤ traces g

  report-traces : (u : Uncertainty) (g : Graph Capability) → traces (report u g) ≡ traces g + 1
  unfolding report
  report-traces u g = omega (arith, length-append g.uncertainties (u ∷ []))

  exhaust-traces :
      (label : String) (file : Option String) (g : Graph Capability)
      → (traces g ≤ traces (exhaust label file g)) × ((exhaust label file g).exhausted ≡ true)
  unfolding exhaust report
  exhaust-traces label file g = elim (Bool-cases g.exhausted) [
    | inl e ↦ simp (e) (omega arith, refl)
    | inr e ↦
        ground (arith, e, length-append g.uncertainties (node_budget_exceeded label file ∷ []))
  ]

  link-traces :
      (parent : Node) (label reason : String) (file : Option String) (g : Graph Capability)
      → traces (link parent "file" label file reason g) ≡ traces g + 1
  unfolding link
  link-traces parent label reason file g =
      let e : Edge = record {
        from_id = parent.number;
        to_id = length g.nodes + 1;
        reason = reason;
      } in
      omega (arith, length-append g.edges (e ∷ []))

  HasTraces-IsKept : (n : ℕ) → IsKept (HasTraces n)
  unfolding visit add_capabilities
  HasTraces-IsKept n = record {
    of_report = λ u g h. omega (arith, h, report-traces u g);
    of_exhaust = λ label file g h. omega (arith, h, (exhaust-traces label file g).0);
    of_visit = λ relative g f h. h;
    of_capabilities = λ cs g h. h;
    of_link = λ parent label reason file g o i b h.
        omega (arith, h, link-traces parent label reason file g);
  }

  -- The graph has more traces than before, or its budget is spent.
  abbrev IsTraced : Graph Capability → Graph Capability → Type 0
  IsTraced g after = (after.exhausted ≡ true) ⊎ (traces g < traces after)

  report-IsTraced : (u : Uncertainty) (g : Graph Capability) → IsTraced g (report u g)
  report-IsTraced u g = inr (omega (arith, report-traces u g))

  exhaust-IsTraced :
      (label : String) (file : Option String) (g : Graph Capability)
      → IsTraced g (exhaust label file g)
  exhaust-IsTraced label file g = inl (exhaust-traces label file g).1

  module _ (tree : Tree Capability) where
    follow_located-IsTraced :
        (left : ℕ) (parent : Node) (r : Reference) (l : Location) (g : Graph Capability)
        → 1 ≤ parent.number
        → parent.number ≤ size g
        → IsTraced g (follow_located tree (follow_target tree left) parent r l g)
    follow_located-IsTraced left parent r absolute_path g o i = report-IsTraced _ g
    follow_located-IsTraced left parent r symlink g o i = report-IsTraced _ g
    follow_located-IsTraced left parent r outside g o i = report-IsTraced _ g
    follow_located-IsTraced left parent r missing g o i = report-IsTraced _ g
    follow_located-IsTraced left parent r (local_file relative) g o i =
        elim (Bool-cases (has_budget g)) [
          | inl e ↦
              let n = new_node "file" relative (some relative) g in
              let l = link parent "file" relative (some relative) r.reason g in
              let more = link-traces parent relative r.reason (some relative) g in
              let kept = HasTraces-IsKept (traces g + 1) in
              let t =
                scan_file-Keeps tree (HasTraces (traces g + 1)) kept (follow_target tree left)
                  (follow_target-Keeps tree (HasTraces (traces g + 1)) kept left) relative n l
                  (omega arith)
                  (omega (arith, size-link parent relative r.reason (some relative) g))
                  (omega (arith, more)) in
              rw (e) (inr (omega (arith, t.0)))
          | inr e ↦ rw (e) (exhaust-IsTraced relative parent.file g)
        ]

    follow_target-IsTraced :
        (left : ℕ) (parent : Node) (base : String) (fallback : Option String) (r : Reference)
        (g : Graph Capability)
        → 1 ≤ parent.number
        → parent.number ≤ size g
        → IsTraced g (follow_target tree left parent base fallback r g)
    unfolding follow_target
    follow_target-IsTraced zero parent base fallback r g o i = report-IsTraced _ g
    follow_target-IsTraced (suc left) parent base fallback r g o i =
        elim (Bool-cases (has_budget g)) [
          | inl e ↦
              rw (e)
                (follow_located-IsTraced left parent r (tree.locate base fallback r.target) g o i)
          | inr e ↦ rw (e) (exhaust-IsTraced r.target parent.file g)
        ]

    -- Following a target from a node of a valid graph, with any number of levels left, never drops it
    -- without a trace: the uncertainties of the result hold the report of a spent budget, or its edges
    -- and uncertainties together are more than before.
    pub follow_target-traces :
        (left : ℕ) (parent : Node) (base : String) (fallback : Option String) (r : Reference)
        (g : Graph Capability)
        → 1 ≤ parent.number
        → parent.number ≤ size g
        → IsValid g
        → (any is_budget_report (follow_target tree left parent base fallback r g).uncertainties
            ≡ true)
          ⊎ (traces g < traces (follow_target tree left parent base fallback r g))
    follow_target-traces left parent base fallback r g o i v =
        let told = (follow_target-IsValid tree left parent base fallback r g o i v).told in
        elim (follow_target-IsTraced left parent base fallback r g o i) [
          | inl e ↦ inl (ground (arith, e, told))
          | inr m ↦ inr m
        ]
