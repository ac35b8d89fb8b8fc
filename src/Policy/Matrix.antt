-- ===== src/Policy/Matrix.antt =====
-- policy/matrix.py: the table of minimum decisions by rule and command scope.
pub mod Table
use codex_preflight.Base.{
  String, Bool, true, false, Option, none, some, List, [], ◌∷◌, ◌==◌, string_eq, if◌then◌else◌,
}
use codex_preflight.Command.Scope.{CommandScope, safe_readonly, scope_eq}
use codex_preflight.Policy.Decision.{Decision, warn, ask_user, block}

pub record PolicyMatrixEntry : Type 0 where
  pub rule_id : String
  pub default_minimum : Decision
  pub scope_minimums : List (CommandScope × Decision)
  pub hard_block : Bool
  pub rationale : String

-- `_entry`
abbrev entry :
    String → Decision → Bool → String → List (CommandScope × Decision) → PolicyMatrixEntry
entry rule_id minimum hard_block rationale scope_minimums = record {
  rule_id = rule_id;
  default_minimum = minimum;
  scope_minimums = scope_minimums;
  hard_block = hard_block;
  rationale = rationale;
}

-- `_hard`
abbrev hard : String → String → PolicyMatrixEntry
hard rule_id rationale = entry rule_id block true rationale []

-- `_ask`
abbrev ask : String → String → PolicyMatrixEntry
ask rule_id rationale = entry rule_id ask_user false rationale []

-- `_warn`
abbrev warns : String → String → PolicyMatrixEntry
warns rule_id rationale = entry rule_id warn false rationale []

-- `_readme_download`
abbrev readme_download : String → String → PolicyMatrixEntry
readme_download rule_id rationale =
    entry rule_id ask_user false rationale ((safe_readonly, warn) ∷ [])

-- `POLICY_MATRIX`, in the order of its entries.
unfoldable pub policy_matrix : List PolicyMatrixEntry
policy_matrix =
    hard "COMMAND_POWERSHELL_ENCODED" "Encoded planned PowerShell hides execution content."
    ∷ hard "COMMAND_POWERSHELL_REMOTE_EXEC"
        "Planned PowerShell downloads and executes remote content."
    ∷ hard "COMMAND_REMOTE_SHELL_PIPE" "Planned command pipes remote content into a shell."
    ∷ hard "DOCKER_REACHABLE_RUN_REMOTE_EXEC" "Reachable Dockerfile runs remote shell content."
    ∷ hard "MCP_SECRET_ENV_EXPOSURE" "MCP configuration can expose secrets to a server process."
    ∷ hard "NODE_LIFECYCLE_REMOTE_EXEC"
        "Package lifecycle script directly executes remote shell content."
    ∷ hard "POWERSHELL_ENCODED_COMMAND" "Repository script contains encoded PowerShell."
    ∷ hard "SECRET_GITHUB_TOKEN" "GitHub tokens should block automatic execution."
    ∷ hard "SECRET_OPENAI_KEY" "OpenAI API keys should block automatic execution."
    ∷ hard "SECRET_PRIVATE_KEY" "Private keys should block automatic execution."
    ∷ hard "SHELL_DECODE_EXEC" "Reachable shell decodes and executes command content."
    ∷ ask "AGENT_SECRET_EXFILTRATION_REQUEST" "Agent instructions request secret disclosure."
    ∷ ask "AGENT_UNSAFE_COMMAND_REQUEST" "Agent instructions request unsafe command execution."
    ∷ ask "COMMAND_DOCKER_HOST_ROOT_MOUNT" "Planned Docker command mounts the host root filesystem."
    ∷ ask "COMMAND_DOCKER_PRIVILEGED" "Planned Docker command enables privileged mode."
    ∷ ask "COMMAND_DOCKER_SOCKET_MOUNT" "Planned Docker command mounts the Docker socket."
    ∷ ask "COMMAND_INLINE_INTERPRETER_EXEC" "Planned command runs inline interpreter code."
    ∷ ask "COMMAND_MCP_BROAD_STARTUP" "Planned command starts a broad-access server process."
    ∷ ask "DOCKER_BROAD_HOST_MOUNT" "Docker configuration mounts broad host filesystem paths."
    ∷ ask "DOCKER_PRIVILEGED_CONTAINER"
        "Docker configuration enables privileged or host-network behavior."
    ∷ ask "DOCKER_REACHABLE_ENTRYPOINT_SCRIPT" "Reachable Docker entrypoint invokes a local script."
    ∷ ask "DOCKER_REMOTE_SCRIPT_EXEC" "Docker configuration contains remote script execution."
    ∷ ask "DOCKER_SOCKET_MOUNT" "Docker configuration mounts the Docker socket."
    ∷ ask "JS_CHILD_PROCESS_EXEC" "Reachable Node.js code can start child processes."
    ∷ ask "JS_DYNAMIC_EVAL" "Reachable Node.js code uses dynamic evaluation."
    ∷ ask "JS_ENV_ACCESS" "Reachable Node.js code reads environment variables."
    ∷ ask "JS_NETWORK_ACCESS" "Reachable Node.js code can access the network."
    ∷ ask "MCP_BROAD_FILESYSTEM_ACCESS" "MCP configuration grants broad filesystem access."
    ∷ ask "MCP_REMOTE_EXEC_ARGUMENTS" "MCP configuration contains remote execution-like arguments."
    ∷ ask "MCP_SHELL_COMMAND" "MCP configuration starts a shell-backed server command."
    ∷ ask "NODE_LIFECYCLE_SCRIPT"
        "Package lifecycle scripts can execute during dependency installation."
    ∷ ask "NODE_POSTINSTALL_SCRIPT"
        "postinstall scripts can execute during dependency installation."
    ∷ ask "NODE_PREINSTALL_SCRIPT" "preinstall scripts can execute during dependency installation."
    ∷ ask "NODE_PREPARE_SCRIPT" "prepare scripts can execute during dependency installation."
    ∷ ask "PYTHON_DYNAMIC_EXEC" "Reachable Python code uses dynamic execution."
    ∷ ask "PYTHON_ENV_ACCESS" "Reachable Python code reads environment variables."
    ∷ ask "PYTHON_NETWORK_ACCESS" "Reachable Python code can access the network."
    ∷ ask "PYTHON_SETUP_REMOTE_FETCH" "Python setup code fetches remote content."
    ∷ ask "PYTHON_SUBPROCESS_EXEC" "Reachable Python code can start subprocesses."
    ∷ readme_download "README_DEFEAT_SECURITY_WARNING"
        "README text encourages bypassing security warnings."
    ∷ readme_download "README_FAKE_RELEASE_LINK"
        "README release/download wording points away from expected releases."
    ∷ readme_download "README_INSTALLER_FROM_NON_RELEASE_HOST"
        "README installer/download wording points outside GitHub release assets."
    ∷ readme_download "README_RAW_SOURCE_ARCHIVE_DOWNLOAD"
        "README download wording points to raw source content."
    ∷ ask "SCRIPT_CHAIN_DEPTH_EXCEEDED" "Reachability exceeded static chain-depth budget."
    ∷ ask "SCRIPT_DYNAMIC_COMMAND_CONSTRUCTION" "Reachable command construction is dynamic."
    ∷ ask "SCRIPT_DYNAMIC_MODULE_REFERENCE" "Reachable Node.js module reference is dynamic."
    ∷ ask "SCRIPT_EXTERNAL_PACKAGE_EXECUTION" "Command reaches external package or tool execution."
    ∷ ask "SCRIPT_INDIRECT_EXECUTION" "Dependency or script execution reaches another local script."
    ∷ ask "SCRIPT_NODE_BUDGET_EXCEEDED" "Reachability exceeded static node budget."
    ∷ ask "SCRIPT_PARSE_UNCERTAIN" "Static parser could not fully resolve an execution path."
    ∷ ask "SCRIPT_TARGET_MISSING" "Referenced local script target is missing."
    ∷ ask "SCRIPT_TARGET_OUTSIDE_REPO" "Referenced script target is outside the repository."
    ∷ ask "SCRIPT_TASK_RUNNER_UNRESOLVED"
        "Task runner configuration could not be resolved statically."
    ∷ ask "SCRIPT_UNKNOWN_INTERPRETER" "Static parser could not identify the interpreter."
    ∷ ask "SECRET_AWS_KEY" "AWS access keys require user review before execution."
    ∷ ask "SECRET_ENV_FILE" "Environment files can expose sensitive runtime configuration."
    ∷ ask "SHELL_BASE64_EXEC" "Repository shell content decodes and executes commands."
    ∷ ask "SHELL_CURL_PIPE_BASH" "Repository shell content pipes curl output to bash."
    ∷ ask "SHELL_DESTRUCTIVE_RM" "Repository shell content contains destructive root deletion."
    ∷ ask "SHELL_DOWNLOAD_CAPABILITY" "Reachable shell content can download remote data."
    ∷ ask "SHELL_EVAL_USAGE" "Reachable shell content uses eval."
    ∷ ask "SHELL_SOURCE_INDIRECTION" "Reachable shell content sources another script."
    ∷ ask "SHELL_WGET_PIPE_SH" "Repository shell content pipes wget output to sh."
    ∷ warns "AGENT_DISABLE_SAFETY"
        "Agent instruction safety-disable text is contextual repository risk."
    ∷ warns "AGENT_IGNORE_INSTRUCTIONS"
        "Agent instruction override text is contextual repository risk."
    ∷ warns "GHA_PULL_REQUEST_TARGET" "GitHub Actions pull_request_target needs workflow review."
    ∷ warns "GHA_REMOTE_SCRIPT_EXEC" "GitHub Actions workflow contains remote script execution."
    ∷ warns "GHA_SELF_HOSTED_RUNNER" "GitHub Actions workflow uses a self-hosted runner."
    ∷ warns "GHA_UNPINNED_ACTION" "GitHub Actions workflow uses an unpinned action."
    ∷ warns "GHA_WRITE_ALL_PERMISSIONS" "GitHub Actions workflow grants broad write permissions."
    ∷ warns "GO_CGO_USAGE" "Go cgo usage can invoke native compiler and linker behavior."
    ∷ warns "GO_GENERATE_DIRECTIVE" "go generate executes repository-declared generator commands."
    ∷ warns "GO_LOCAL_MODULE_REPLACE" "Go local replacement changes module resolution."
    ∷ warns "GO_MODULE_REPLACE" "Go replacement changes module resolution."
    ∷ warns "GO_TESTMAIN" "Go TestMain can run setup and teardown code around tests."
    ∷ warns "REPORT_SIZE_BUDGET_EXCEEDED" "Report details were capped after policy evaluation."
    ∷ warns "RUST_BUILD_SCRIPT" "Cargo build scripts execute during build and test workflows."
    ∷ warns "RUST_CARGO_ALIAS" "Cargo aliases can hide additional subcommands."
    ∷ warns "RUST_CARGO_GIT_SOURCE" "Cargo git sources change dependency provenance."
    ∷ warns "RUST_CARGO_SOURCE_REPLACEMENT"
        "Cargo source replacement changes dependency resolution."
    ∷ warns "RUBY_BUNDLER_GIT_SOURCE" "Bundler git sources change dependency provenance."
    ∷ warns "RUBY_BUNDLER_LOCAL_PATH_SOURCE"
        "Bundler local path sources change dependency resolution."
    ∷ warns "RUBY_GEMSPEC_EXTENSION" "Ruby gemspec extensions can run native build configuration."
    ∷ warns "RUBY_INSTALL_HOOK" "RubyGems lifecycle hooks execute during package operations."
    ∷ warns "RUBY_NATIVE_EXTENSION" "Ruby native extensions can invoke compiler toolchains."
    ∷ warns "RUBY_RAKE_COMMAND_EXEC" "Reachable Rake tasks can start repository-declared commands."
    ∷ warns "JAVA_MAVEN_PLUGIN_EXECUTION"
        "Maven lifecycle plugin executions run repository-selected goals."
    ∷ warns "JAVA_GRADLE_PLUGIN_REPOSITORY"
        "Gradle plugin repositories control executable plugin provenance."
    ∷ warns "JAVA_GRADLE_INIT_SCRIPT"
        "Gradle init scripts can alter build behavior before tasks run."
    ∷ warns "JAVA_GRADLE_BUILD_LOGIC"
        "Gradle included build logic can execute during configuration."
    ∷ warns "JAVA_GRADLE_WRAPPER_INTEGRITY" "Gradle wrapper distributions require integrity review."
    ∷ []

-- `POLICY_MATRIX.get(rule_id)`
unfoldable pub find_entry : String → List PolicyMatrixEntry → Option PolicyMatrixEntry
find_entry rule_id [] = none
find_entry rule_id (e ∷ es) = if e.rule_id == rule_id then some e else find_entry rule_id es

unfoldable pub matrix_get : String → Option PolicyMatrixEntry
unfolding policy_matrix find_entry
matrix_get rule_id = find_entry rule_id policy_matrix

-- `scope_minimums.get(scope, default)`
abbrev pub scope_get : List (CommandScope × Decision) → CommandScope → Decision → Decision
scope_get [] scope default = default
scope_get ((s, d) ∷ rest) scope default = if s == scope then d else scope_get rest scope default

abbrev pub entry_minimum : CommandScope → Option PolicyMatrixEntry → Option Decision
entry_minimum scope none = none
entry_minimum scope (some e) = some (scope_get e.scope_minimums scope e.default_minimum)

unfoldable pub minimum_decision_for : String → CommandScope → Option Decision
minimum_decision_for rule_id scope = entry_minimum scope (matrix_get rule_id)

abbrev pub entry_hard : Option PolicyMatrixEntry → Bool
entry_hard none = false
entry_hard (some e) = e.hard_block

unfoldable pub is_hard_block : String → Bool
is_hard_block rule_id = entry_hard (matrix_get rule_id)
