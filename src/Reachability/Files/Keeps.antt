-- ===== src/Reachability/Files/Keeps.antt =====
-- codex_preflight_core/reachability/resolver.py: what every operation on the graph keeps, following a
-- target keeps too.
use codex_preflight.Base.{
  ℕ, zero, suc, ◌+◌, ◌≤◌, ◌≡◌, inl, inr, refl, Bool, true, false, Option, none, some, String, List,
  [], ◌∷◌, arith, contains, string_eq, length, length-append, Bool-cases,
}
use codex_preflight.Reachability.Uncertainty.{
  Uncertainty, missing_target, outside_repo, parse_uncertain,
}
use codex_preflight.Reachability.Graph.{
  Node, Graph, report, has_budget, exhaust, new_node, link, visit, add_capabilities,
}
use codex_preflight.Reachability.Files.{
  Reference, Location, ModuleLocation, Contents, Tree, Follow, absolute_path, symlink, outside,
  missing, local_file, absolute_module, outside_module, missing_module, candidate, follow_all,
  follow_candidate, follow_module, follow_modules, report_dynamic, scan_text, scan_file,
  follow_located, follow_target,
}

module _ {Capability : Type 0} where
  abbrev pub size : Graph Capability → ℕ
  size g = length g.nodes

  -- A property that the operations keep; an edge starts at a node of the graph.
  pub record IsKept (P : Graph Capability → Type 0) : Type 0 where
    pub of_report : (u : Uncertainty) (g : Graph Capability) → P g → P (report u g)
    pub of_exhaust :
        (label : String) (file : Option String) (g : Graph Capability)
        → P g
        → P (exhaust label file g)
    pub of_visit :
        (relative : String) (g : Graph Capability)
        → contains g.visited relative ≡ false
        → P g
        → P (visit relative g)
    pub of_capabilities :
        (cs : List Capability) (g : Graph Capability) → P g → P (add_capabilities cs g)
    pub of_link :
        (parent : Node) (label reason : String) (file : Option String) (g : Graph Capability)
        → 1 ≤ parent.number
        → parent.number ≤ size g
        → has_budget g ≡ true
        → P g
        → P (link parent "file" label file reason g)

  size-report : (u : Uncertainty) (g : Graph Capability) → size (report u g) ≡ size g
  unfolding report
  size-report u g = refl

  size-exhaust :
      (label : String) (file : Option String) (g : Graph Capability)
      → size (exhaust label file g) ≡ size g
  unfolding exhaust report
  size-exhaust label file g = ground arith

  size-visit : (relative : String) (g : Graph Capability) → size (visit relative g) ≡ size g
  unfolding visit
  size-visit relative g = refl

  size-add_capabilities :
      (cs : List Capability) (g : Graph Capability) → size (add_capabilities cs g) ≡ size g
  unfolding add_capabilities
  size-add_capabilities cs g = refl

  pub size-link :
      (parent : Node) (label reason : String) (file : Option String) (g : Graph Capability)
      → size (link parent "file" label file reason g) ≡ size g + 1
  unfolding link
  size-link parent label reason file g = length-append g.nodes (new_node "file" label file g ∷ [])

module _ {Capability : Type 0} (tree : Tree Capability) (P : Graph Capability → Type 0)
    (kept : IsKept P) where
  -- The graph after a step has the property and no fewer nodes.
  abbrev pub Keeps : Graph Capability → Graph Capability → Type 0
  Keeps g after = P after × (size g ≤ size after)

  -- A step of a node of the graph.
  abbrev pub KeepsFrom : Node → (Reference → Graph Capability → Graph Capability) → Type 0
  KeepsFrom node step =
      (r : Reference) (g : Graph Capability)
      → 1 ≤ node.number
      → node.number ≤ size g
      → P g
      → Keeps g (step r g)

  abbrev pub KeepsFollow : Follow tree → Type 0
  KeepsFollow follow =
      (parent : Node) (base : String) (fallback : Option String) (r : Reference)
      (g : Graph Capability)
      → 1 ≤ parent.number
      → parent.number ≤ size g
      → P g
      → Keeps g (follow parent base fallback r g)

  report-Keeps : (u : Uncertainty) (g : Graph Capability) → P g → Keeps g (report u g)
  report-Keeps u g p = (kept.of_report u g p, omega (arith, size-report u g))

  exhaust-Keeps :
      (label : String) (file : Option String) (g : Graph Capability)
      → P g
      → Keeps g (exhaust label file g)
  exhaust-Keeps label file g p =
      (kept.of_exhaust label file g p, omega (arith, size-exhaust label file g))

  -- Two steps in a row.
  both : (g h k : Graph Capability) → Keeps g h → Keeps h k → Keeps g k
  both g h k a b = (b.0, omega (arith, a.1, b.1))

  follow_all-Keeps :
      (node : Node) (step : Reference → Graph Capability → Graph Capability)
      → KeepsFrom node step
      → (rs : List Reference) (g : Graph Capability) → 1 ≤ node.number
      → node.number ≤ size g
      → P g
      → Keeps g (follow_all tree step rs g)
  follow_all-Keeps node step k [] g o i p = (p, omega arith)
  follow_all-Keeps node step k (r ∷ rs) g o i p =
      let s = k r g o i p in
      both g (step r g) (follow_all tree step rs (step r g)) s
        (follow_all-Keeps node step k rs (step r g) o (omega (arith, i, s.1)) s.0)

  module _ (follow : Follow tree) (f : KeepsFollow follow) where
    follow_candidate-Keeps :
        (parent : Node) (base : String) (r : Reference) (l : ModuleLocation) (g : Graph Capability)
        → 1 ≤ parent.number
        → parent.number ≤ size g
        → P g
        → Keeps g (follow_candidate tree follow parent base r l g)
    follow_candidate-Keeps parent base r absolute_module g o i p =
        report-Keeps (outside_repo r.target parent.file) g p
    follow_candidate-Keeps parent base r outside_module g o i p =
        report-Keeps (outside_repo r.target parent.file) g p
    follow_candidate-Keeps parent base r missing_module g o i p =
        report-Keeps (missing_target r.target parent.file) g p
    follow_candidate-Keeps parent base r (candidate path) g o i p =
        f parent base none (record r { target = path }) g o i p

    follow_module-Keeps :
        (node : Node) (base : String) → KeepsFrom node (follow_module tree follow node base)
    unfolding follow_module
    follow_module-Keeps node base r g o i p =
        follow_candidate-Keeps node base r (tree.locate_module base r.target) g o i p

    report_dynamic-Keeps :
        (found : Bool) (relative : String) (g : Graph Capability)
        → P g
        → Keeps g (report_dynamic tree found relative g)
    report_dynamic-Keeps true relative g p = report-Keeps _ g p
    report_dynamic-Keeps false relative g p = (p, omega arith)

    follow_modules-Keeps :
        (relative : String) (node : Node) (c : Contents Capability) (g : Graph Capability)
        → 1 ≤ node.number
        → node.number ≤ size g
        → P g
        → Keeps g (follow_modules tree follow relative node c g)
    follow_modules-Keeps relative node c g o i p =
        let d = report_dynamic tree c.has_dynamic_reference relative g in
        let s = report_dynamic-Keeps c.has_dynamic_reference relative g p in
        let all_modules =
          both g d
            (follow_all tree (follow_module tree follow node (tree.parent_of relative))
              c.module_references d)
            s
            (follow_all-Keeps node (follow_module tree follow node (tree.parent_of relative))
              (follow_module-Keeps node (tree.parent_of relative)) c.module_references d o
              (omega (arith, i, s.1)) s.0) in
        elim (Bool-cases c.is_node_module) [
          | inl e ↦ rw (e) all_modules
          | inr e ↦ rw (e) (p, omega arith)
        ]

    scan_text-Keeps :
        (relative : String) (node : Node) (c : Option (Contents Capability)) (g : Graph Capability)
        → 1 ≤ node.number
        → node.number ≤ size g
        → P g
        → Keeps g (scan_text tree follow relative node c g)
    scan_text-Keeps relative node none g o i p =
        report-Keeps (parse_uncertain none (some relative)) g p
    scan_text-Keeps relative node (some c) g o i p =
        let a = add_capabilities c.capabilities g in
        let s =
          follow_modules-Keeps relative node c a o
            (omega (arith, i, size-add_capabilities c.capabilities g))
            (kept.of_capabilities c.capabilities g p) in
        let t =
          follow_all-Keeps node (follow node "." (some (tree.parent_of relative)))
            (f node "." (some (tree.parent_of relative))) c.line_references
            (follow_modules tree follow relative node c a) o
            (omega (arith, i, s.1, size-add_capabilities c.capabilities g)) s.0 in
        (t.0, omega (arith, s.1, t.1, size-add_capabilities c.capabilities g))

    pub scan_file-Keeps :
        (relative : String) (node : Node) (g : Graph Capability)
        → 1 ≤ node.number
        → node.number ≤ size g
        → P g
        → Keeps g (scan_file tree follow relative node g)
    unfolding scan_file
    scan_file-Keeps relative node g o i p = elim (Bool-cases (contains g.visited relative)) [
      | inl e ↦ rw (e) (p, omega arith)
      | inr e ↦
          let t =
            scan_text-Keeps relative node (tree.reading relative) (visit relative g) o
              (omega (arith, i, size-visit relative g)) (kept.of_visit relative g e p) in
          rw (e) (t.0, omega (arith, t.1, size-visit relative g))
    ]

    follow_located-Keeps :
        (parent : Node) (r : Reference) (l : Location) (g : Graph Capability)
        → 1 ≤ parent.number
        → parent.number ≤ size g
        → P g
        → Keeps g (follow_located tree follow parent r l g)
    follow_located-Keeps parent r absolute_path g o i p =
        report-Keeps (outside_repo r.target parent.file) g p
    follow_located-Keeps parent r symlink g o i p =
        report-Keeps (parse_uncertain (some r.target) parent.file) g p
    follow_located-Keeps parent r outside g o i p =
        report-Keeps (outside_repo r.target parent.file) g p
    follow_located-Keeps parent r missing g o i p =
        report-Keeps (missing_target r.target parent.file) g p
    follow_located-Keeps parent r (local_file relative) g o i p = elim (Bool-cases (has_budget g)) [
      | inl e ↦
          let n = new_node "file" relative (some relative) g in
          let l = link parent "file" relative (some relative) r.reason g in
          let grown = size-link parent relative r.reason (some relative) g in
          let t =
            scan_file-Keeps relative n l (omega arith) (omega (arith, grown))
              (kept.of_link parent relative r.reason (some relative) g o i e p) in
          rw (e) (t.0, omega (arith, t.1, grown))
      | inr e ↦ rw (e) (exhaust-Keeps relative parent.file g p)
    ]

  pub follow_target-Keeps : (left : ℕ) → KeepsFollow (follow_target tree left)
  unfolding follow_target
  follow_target-Keeps zero parent base fallback r g o i p = report-Keeps _ g p
  follow_target-Keeps (suc left) parent base fallback r g o i p = elim (Bool-cases (has_budget g)) [
    | inl e ↦ rw (e) (
        follow_located-Keeps (follow_target tree left) (follow_target-Keeps left) parent r
          (tree.locate base fallback r.target) g o i p)
    | inr e ↦ rw (e) (exhaust-Keeps r.target parent.file g p)
  ]
