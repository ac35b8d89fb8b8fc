-- ===== src/Command/Java.antt =====
-- `parse_java_invocation` of command/java.py.
use codex_preflight.Base.{
  String, Bool, true, false, ◌&&◌, ◌||◌, not, Option, none, some, List, [], ◌∷◌, ◌++◌, ◌==◌, nat_eq,
  list_eq, Text, codes, is_text, one_of, contains, lower, starts_with, if◌then◌else◌,
}

abbrev pub maven_value_options : List String
maven_value_options =
    "-f" ∷ "--file" ∷ "-s" ∷ "--settings" ∷ "-gs" ∷ "--global-settings" ∷ "-t" ∷ "--toolchains"
    ∷ "-P" ∷ "--activate-profiles" ∷ "-T" ∷ "--threads" ∷ "-pl" ∷ "--projects" ∷ "-rf"
    ∷ "--resume-from" ∷ []

abbrev pub gradle_value_options : List String
gradle_value_options =
    "-p" ∷ "--project-dir" ∷ "-c" ∷ "--settings-file" ∷ "-I" ∷ "--init-script" ∷ "-g"
    ∷ "--gradle-user-home" ∷ "--project-cache-dir" ∷ "--include-build" ∷ "--max-workers"
    ∷ "--priority" ∷ "--warning-mode" ∷ "--console" ∷ "--configuration-cache-problems"
    ∷ "--dependency-verification" ∷ "--write-verification-metadata" ∷ []

-- `kind` is "maven" or "gradle".
pub data JavaTool : Type 0 where
  maven gradle : JavaTool

pub record JavaInvocation : Type 0 where
  pub kind : JavaTool
  pub executable : Text
  pub task : Text
  pub maven_files : List Text
  pub gradle_init_scripts : List Text
  pub gradle_project_dir : Option Text
  pub gradle_settings_files : List Text
  pub uses_gradle_wrapper : Bool

-- `part.partition("=")`: what stands before the first `=`, and what stands behind it if there is one.
abbrev pub before_equals : Text → Text
before_equals [] = []
before_equals (c ∷ s) = let rest = before_equals s in if c == b'=' then [] else c ∷ rest

abbrev pub after_equals : Text → Option Text
after_equals [] = none
after_equals (c ∷ s) = let rest = after_equals s in if c == b'=' then some s else rest

abbrev pub has_equals : Text → Bool
has_equals s = contains s b'='

-- `parts[index + 1] if index + 1 < len(parts) else default`
abbrev pub first_or : List Text → Text → Text
first_or [] default = default
first_or (p ∷ ps) default = p

-- The loop of `_first_task`; `skip` passes over the value of the option before (`index += 2`).
unfoldable pub first_task_loop : Bool → List Text → List String → Text → Text
unfolding starts_with
first_task_loop skip [] value_options default = default
first_task_loop true (part ∷ parts) value_options default =
    first_task_loop false parts value_options default
first_task_loop false (part ∷ parts) value_options default =
    let is_value = one_of (before_equals part) value_options in
    let rest = first_task_loop (is_value && not (has_equals part)) parts value_options default in
    if is_text part "--"
    then first_or parts default
    else if is_value || starts_with part (codes "-")
    then rest
    else part

-- `_first_task`
unfoldable pub first_task : List Text → List String → Text → Text
unfolding first_task_loop
first_task parts value_options default = first_task_loop false parts value_options default

-- the value that an option with `=` adds
abbrev pub inline_value : Option Text → List Text
inline_value none = []
inline_value (some []) = []
inline_value (some (c ∷ s)) = (c ∷ s) ∷ []

abbrev pub next_value : List Text → List Text
next_value [] = []
next_value (p ∷ ps) = p ∷ []

-- The loop of `_option_values`; an option without `=` takes the next part as its value.
unfoldable pub option_values_loop : Bool → List Text → List String → List Text
option_values_loop skip [] names = []
option_values_loop true (part ∷ parts) names = option_values_loop false parts names
option_values_loop false (part ∷ parts) names =
    let named = one_of (before_equals part) names in
    let inline = has_equals part in
    let rest = option_values_loop (named && not inline) parts names in
    (if named then (if inline then inline_value (after_equals part) else next_value parts) else [])
    ++ rest

-- `_option_values`
unfoldable pub option_values : List Text → List String → List Text
unfolding option_values_loop
option_values parts names = option_values_loop false parts names

-- `values[-1] if values else None`
abbrev pub last_of : List Text → Option Text
last_of [] = none
last_of (v ∷ []) = some v
last_of (v ∷ w ∷ vs) = last_of (w ∷ vs)

-- `s.replace("\\", "/")`
abbrev pub forward_slashes : Text → Text
forward_slashes [] = []
forward_slashes (c ∷ s) = (if c == b'\\' then b'/' else c) ∷ forward_slashes s

-- `s.rsplit("/", 1)[-1]`: what stands behind the last slash, from what was read since one.
abbrev pub after_slash : Text → Text → Text
after_slash current [] = current
after_slash current (c ∷ s) = after_slash (if c == b'/' then [] else current ++ (c ∷ [])) s

unfoldable pub basename : Text → Text
unfolding lower
basename executable = after_slash [] (forward_slashes (lower executable))

unfoldable pub parse_java_invocation : List Text → Option JavaInvocation
unfolding first_task option_values basename
parse_java_invocation [] = none
parse_java_invocation (executable ∷ arguments) =
    let base = basename executable in
    if one_of base ("mvn" ∷ "mvnw" ∷ "mvnw.cmd" ∷ [])
    then some (record {
      kind = maven;
      executable = executable;
      task = lower (first_task arguments maven_value_options (codes "package"));
      maven_files = option_values arguments ("-f" ∷ "--file" ∷ []);
      gradle_init_scripts = [];
      gradle_project_dir = none;
      gradle_settings_files = [];
      uses_gradle_wrapper = false;
    })
    else if one_of base ("gradle" ∷ "gradlew" ∷ "gradlew.bat" ∷ [])
    then some (record {
      kind = gradle;
      executable = executable;
      task = lower (first_task arguments gradle_value_options (codes "build"));
      maven_files = [];
      gradle_init_scripts = option_values arguments ("-I" ∷ "--init-script" ∷ []);
      gradle_project_dir = last_of (option_values arguments ("-p" ∷ "--project-dir" ∷ []));
      gradle_settings_files = option_values arguments ("-c" ∷ "--settings-file" ∷ []);
      uses_gradle_wrapper = one_of base ("gradlew" ∷ "gradlew.bat" ∷ []);
    })
    else none
