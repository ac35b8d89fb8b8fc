-- ===== src/Command/Classifier.antt =====
-- `classify_command` of command/classifier.py.
pub mod Composite
pub mod ReadOnly
use codex_preflight.Base.{
  ℕ, String, Bool, true, false, ◌&&◌, ◌||◌, not, Option, none, some, List, [], ◌∷◌, ◌++◌, map, ◌==◌,
  nat_eq, list_eq, any, Text, codes, is_text, one_of, lower, strip, has_infix, ends_with, get_or,
  length, drop, ltb, leb, is_some, if◌then◌else◌,
}
use codex_preflight.Command.Scope.{
  CommandScope, CommandClassification, dependency_install, script_execution, build, test, docker,
  network_shell, mcp_server_start, unknown_shell, safe_readonly, risk_order,
}
use codex_preflight.Command.Words.{split_command_words}
use codex_preflight.Command.Segments.{split_shell_segments}
use codex_preflight.Command.Java.{JavaTool, maven, gradle, JavaInvocation, parse_java_invocation}

abbrev pub classified : Text → CommandScope → String → CommandClassification
classified raw scope reason = record { raw = raw; scope = scope; reason = codes reason }

-- `_ruby_rake_task`
unfoldable pub ruby_rake_task : List Text → Option Text
ruby_rake_task parts =
    let first = get_or parts 0 [] in
    if is_text first "rake"
    then some (get_or parts 1 (codes "default"))
    else if leb 3 (length parts)
        && one_of first ("bundle" ∷ "bundler" ∷ [])
        && is_text (get_or parts 1 []) "exec"
        && is_text (get_or parts 2 []) "rake"
    then some (get_or parts 3 (codes "default"))
    else none

-- `re.split(r"[:/]", task)`, from what was read since a separator
abbrev pub task_segments : Text → Text → List Text
task_segments current [] = current ∷ []
task_segments current (c ∷ s) =
    let rest = task_segments [] s in
    let longer = task_segments (current ++ (c ∷ [])) s in
    if c == b':' || c == b'/' then current ∷ rest else longer

-- `_ruby_task_is_test`
unfoldable pub ruby_task_is_test : Text → Bool
ruby_task_is_test task =
    any (λ s. one_of s ("spec" ∷ "test" ∷ "tests" ∷ [])) (task_segments [] task)

-- `_gradle_task_is_test`
unfoldable pub gradle_task_is_test : Text → Bool
gradle_task_is_test task =
    any (λ s. one_of s ("check" ∷ "test" ∷ "tests" ∷ []) || ends_with s (codes "test"))
      (task_segments [] task)

-- `_java_build_tool`
abbrev pub java_kind : Option JavaInvocation → Option JavaTool
java_kind none = none
java_kind (some i) = some i.kind

abbrev pub java_task : Option JavaInvocation → Text
java_task none = []
java_task (some i) = i.task

abbrev pub is_maven : Option JavaTool → Bool
is_maven (some maven) = true
is_maven _ = false

abbrev pub is_gradle : Option JavaTool → Bool
is_gradle (some gradle) = true
is_gradle _ = false

-- `if ruby_task:` is true of a task that is not empty
abbrev pub rake_given : Option Text → Bool
rake_given none = false
rake_given (some []) = false
rake_given (some (c ∷ s)) = true

abbrev pub is_test_task : Option Text → Bool
is_test_task none = false
is_test_task (some task) = rake_given (some task) && ruby_task_is_test task

abbrev pub node_tools : List String
node_tools = "npm" ∷ "pnpm" ∷ "yarn" ∷ []

-- The last tests of `_classify_single`: the read-only commands.
unfoldable pub classify_readonly : Text → Text → Text → CommandClassification
classify_readonly command first second =
    if one_of first ("ls" ∷ "dir" ∷ "pwd" ∷ [])
    then classified command safe_readonly "Read-only shell command."
    else if one_of first ("cat" ∷ "type" ∷ [])
    then classified command safe_readonly "Read-only file command."
    else if is_text first "git" && one_of second ("status" ∷ "diff" ∷ "log" ∷ "show" ∷ [])
    then classified command safe_readonly "Read-only git command."
    else classified command unknown_shell "Unknown shell command."

-- The tests for test and build commands; `java` is the invocation, `rake` the rake task.
unfoldable pub classify_build :
    Text → Text → Text → Option JavaInvocation → Option Text → CommandClassification
classify_build command first second java rake =
    let tool = java_kind java in
    let task = java_task java in
    if is_text first "pytest" || is_maven tool && is_text task "test"
    then classified command test "Test command."
    else if is_gradle tool && gradle_task_is_test task
    then classified command test "Gradle test task command."
    else if is_text first "cargo" && is_text second "test"
    then classified command test "Cargo test command."
    else if is_text first "go" && is_text second "test"
    then classified command test "Go test command."
    else if is_test_task rake
    then classified command test "Rake test task command."
    else if one_of first node_tools && is_text second "test"
    then classified command test "Package test script command."
    else if is_text first "cargo" && is_text second "build"
    then classified command build "Cargo build command."
    else if is_text first "go" && one_of second ("build" ∷ "generate" ∷ [])
    then classified command build "Go build or generate command."
    else if rake_given rake
    then classified command build "Rake task command."
    else if one_of first node_tools && one_of second ("start" ∷ "build" ∷ [])
    then classified command build "Package script command."
    else if one_of first node_tools && is_text second "run"
    then classified command build "Package script command."
    else if is_some tool
    then classified command build "Maven or Gradle build command."
    else if is_text first "make"
    then classified command build "Build command."
    else classify_readonly command first second

-- The tests for dependency installs, containers and interpreters.
unfoldable pub classify_tool :
    Text → Text → Text → Option JavaInvocation → Option Text → CommandClassification
classify_tool command first second java rake =
    if one_of first node_tools && one_of second ("install" ∷ "ci" ∷ "add" ∷ [])
    then classified command dependency_install "Node dependency install."
    else if is_text first "pip" && is_text second "install"
    then classified command dependency_install "Python dependency install."
    else if is_text first "poetry" && is_text second "install"
    then classified command dependency_install "Poetry dependency install."
    else if is_text first "uv" && one_of second ("sync" ∷ "pip" ∷ [])
    then classified command dependency_install "uv dependency install."
    else if one_of first ("bundle" ∷ "bundler" ∷ []) && is_text second "install"
    then classified command dependency_install "Bundler dependency install."
    else if is_text first "docker"
    then classified command docker "Docker command."
    else if one_of first ("bash" ∷ "sh" ∷ "powershell" ∷ "pwsh" ∷ "python" ∷ "node" ∷ [])
    then classified command script_execution "Local script execution."
    else classify_build command first second java rake

unfoldable pub is_remote_pipe : Text → Bool
is_remote_pipe lowered =
    (has_infix (codes "curl ") lowered || has_infix (codes "wget ") lowered)
    && (has_infix (codes "| bash") lowered || has_infix (codes "| sh") lowered)

unfoldable pub is_mcp_start : Text → Text → Bool
is_mcp_start lowered first =
    (has_infix (codes "modelcontextprotocol") lowered || has_infix (codes "mcp") lowered)
    && one_of first ("npx" ∷ "node" ∷ "python" ∷ [])

-- `_classify_single` of a command, its stripped text and the words of that
unfoldable pub classify_words : Text → Text → List Text → CommandClassification
classify_words command stripped raw_parts =
    let lowered = lower stripped in
    let parts = map lower raw_parts in
    let first = get_or parts 0 [] in
    let second = get_or parts 1 [] in
    if is_text stripped ""
    then classified command unknown_shell "Empty command."
    else if is_remote_pipe lowered
    then classified command network_shell "Remote shell pipeline."
    else if is_mcp_start lowered first
    then classified command mcp_server_start "MCP server startup."
    else classify_tool command first second (parse_java_invocation raw_parts) (ruby_rake_task parts)

-- `_classify_single`
unfoldable pub classify_single : Text → CommandClassification
classify_single command =
    classify_words command (strip command) (split_command_words (strip command))

-- `max(classifications, key=RISK_ORDER)`: the first of the riskiest
abbrev pub riskiest_from :
    CommandClassification → List CommandClassification → CommandClassification
riskiest_from best [] = best
riskiest_from best (c ∷ cs) =
    riskiest_from (if ltb (risk_order best.scope) (risk_order c.scope) then c else best) cs

abbrev pub composite : Text → CommandClassification → CommandClassification
composite command riskiest = record {
  raw = command;
  scope = riskiest.scope;
  reason =
      codes "Composite command; riskiest segment `"
      ++ (riskiest.raw ++ (codes "`: " ++ riskiest.reason));
}

-- by `len(segments) > 1`
unfoldable pub classify_segments : Text → List Text → CommandClassification
classify_segments command (a ∷ b ∷ segments) =
    composite command (riskiest_from (classify_single a) (map classify_single (b ∷ segments)))
classify_segments command _ = classify_single command

unfoldable pub classify_command : Text → CommandClassification
classify_command command = classify_segments command (split_shell_segments command)
