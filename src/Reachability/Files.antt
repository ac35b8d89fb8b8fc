-- ===== src/Reachability/Files.antt =====
-- codex_preflight_core/reachability/resolver.py: following a script from file to file. A depth is
-- counted down to `MAX_CHAIN_DEPTH`. What pathlib says of a target, and what the scanners of the
-- languages find in a text, are an interface.
pub mod Keeps
pub mod Valid
pub mod Reported
use codex_preflight.Base.{
  ℕ, zero, suc, Bool, true, false, Option, none, some, String, List, [], ◌∷◌, ◌==◌, string_eq,
  contains, if◌then◌else◌,
}
use codex_preflight.Reachability.Uncertainty.{
  missing_target, outside_repo, parse_uncertain, chain_depth_exceeded, dynamic_module_reference,
}
use codex_preflight.Reachability.Graph.{
  Node, Graph, report, has_budget, exhaust, new_node, link, visit, add_capabilities,
}

pub record Reference : Type 0 where
  pub target : String
  pub reason : String

-- What becomes of a target: an absolute path, a symbolic link, a path outside the repository, no
-- file, or the file with the relative path.
pub data Location : Type 0 where
  absolute_path symlink outside missing : Location
  local_file : String → Location

-- What becomes of the candidates of a module; the one that is a file is followed.
pub data ModuleLocation : Type 0 where
  absolute_module outside_module missing_module : ModuleLocation
  candidate : String → ModuleLocation

-- What the scanners find in a file's text.
pub record Contents (Capability : Type 0) : Type 0 where
  pub capabilities : List Capability
  pub is_node_module : Bool
  pub has_dynamic_reference : Bool
  pub module_references : List Reference
  pub line_references : List Reference

pub record Tree (Capability : Type 0) : Type 0 where
  pub locate : String → Option String → String → Location
  pub locate_module : String → String → ModuleLocation
  pub parent_of : String → String
  pub reading : String → Option (Contents Capability)

module _ {Capability : Type 0} (tree : Tree Capability) where
  -- `_follow_target` at one depth: the parent, the directory, the one to fall back on, the reference.
  abbrev pub Follow : Type 0
  Follow = Node → String → Option String → Reference → Graph Capability → Graph Capability

  abbrev pub follow_all :
      (Reference → Graph Capability → Graph Capability)
      → List Reference
      → Graph Capability
      → Graph Capability
  follow_all step [] g = g
  follow_all step (r ∷ rs) g = follow_all step rs (step r g)

  abbrev pub follow_candidate :
      Follow → Node → String → Reference → ModuleLocation → Graph Capability → Graph Capability
  follow_candidate follow parent base r absolute_module g =
      report (outside_repo r.target parent.file) g
  follow_candidate follow parent base r outside_module g =
      report (outside_repo r.target parent.file) g
  follow_candidate follow parent base r missing_module g =
      report (missing_target r.target parent.file) g
  follow_candidate follow parent base r (candidate path) g =
      follow parent base none (record r { target = path }) g

  -- `_follow_node_module_target`
  unfoldable pub follow_module :
      Follow → Node → String → Reference → Graph Capability → Graph Capability
  follow_module follow parent base r g =
      follow_candidate follow parent base r (tree.locate_module base r.target) g

  abbrev pub report_dynamic : Bool → String → Graph Capability → Graph Capability
  report_dynamic found relative g =
      if found then report (dynamic_module_reference (some relative)) g else g

  abbrev pub follow_modules :
      Follow → String → Node → Contents Capability → Graph Capability → Graph Capability
  follow_modules follow relative node c g =
      if c.is_node_module
      then follow_all (follow_module follow node (tree.parent_of relative)) c.module_references
          (report_dynamic c.has_dynamic_reference relative g)
      else g

  abbrev pub scan_text :
      Follow → String → Node → Option (Contents Capability) → Graph Capability → Graph Capability
  scan_text follow relative node none g = report (parse_uncertain none (some relative)) g
  scan_text follow relative node (some c) g =
      follow_all (follow node "." (some (tree.parent_of relative))) c.line_references
        (follow_modules follow relative node c (add_capabilities c.capabilities g))

  -- `_scan_file`
  unfoldable pub scan_file : Follow → String → Node → Graph Capability → Graph Capability
  scan_file follow relative node g =
      if contains g.visited relative
      then g
      else scan_text follow relative node (tree.reading relative) (visit relative g)

  abbrev pub follow_located :
      Follow → Node → Reference → Location → Graph Capability → Graph Capability
  follow_located follow parent r absolute_path g = report (outside_repo r.target parent.file) g
  follow_located follow parent r symlink g = report (parse_uncertain (some r.target) parent.file) g
  follow_located follow parent r outside g = report (outside_repo r.target parent.file) g
  follow_located follow parent r missing g = report (missing_target r.target parent.file) g
  follow_located follow parent r (local_file relative) g =
      if has_budget g
      then scan_file follow relative (new_node "file" relative (some relative) g)
          (link parent "file" relative (some relative) r.reason g)
      else exhaust relative parent.file g

  -- `_follow_target`, where that many levels are left
  unfoldable pub follow_target : ℕ → Follow
  follow_target zero parent base fallback r g = report (chain_depth_exceeded parent.file) g
  follow_target (suc left) parent base fallback r g =
      if has_budget g
      then follow_located (follow_target left) parent r (tree.locate base fallback r.target) g
      else exhaust r.target parent.file g
