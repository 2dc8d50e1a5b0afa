-- ===== src/Sandbox/Docker.antt =====
-- sandbox/docker.py: the argv of the sandbox container. The image policy is Docker/Image.
pub mod Image
pub mod Argv
pub mod Sanctioned
pub mod Hardened
use Prim.Native.Char.{code}
use Prim.Native.String
use text.Mathlib.Text.{starts_with}
use repo_health_doctor.Base.{
  ℕ, zero, suc, ◌-◌, String, count, Bool, true, false, ◌&&◌, Option, none, some, List, [], ◌∷◌,
  ◌++◌, ◌==◌, if◌then◌else◌, map, ltb, format, dedupe, contains,
}
use repo_health_doctor.Base.Py.{Py, ok, raise, value_error, ◌>>=◌}
use repo_health_doctor.Sandbox.Docker.Image.{is_digest_pinned}

-- `{"workspace": ..., "home": ..., ...}`
pub record Paths : Type 0 where
  pub workspace : String
  pub home : String
  pub npm_cache : String
  pub pip_cache : String
  pub xdg_cache : String
  pub tmp : String

-- The parts of a workspace plan that docker.py reads.
pub record WorkspacePlan : Type 0 where
  pub host_path_placeholders : Paths
  pub logical_paths : Paths
  pub environment : List (String × String)

-- The fields of the spec that depend on the arguments.
pub record DockerSpec : Type 0 where
  pub argv : List String
  pub image_variants : List (String × String)
  pub selected_image_reference : String
  pub selected_image_digest_pinned : Bool
  pub user : String

abbrev pub fallback_docker_user : String
fallback_docker_user = "65532:65532"

abbrev pub image_reference_placeholder : String
image_reference_placeholder = "${RHD_IMAGE_REFERENCE}"

-- `DEFAULT_IMAGE_REFS.get(language, DEFAULT_IMAGE_REFS["generic"])`
abbrev pub default_image : String → String
default_image language =
    if language == "node"
    then "node:20-bookworm-slim"
    else if language == "python"
    then "python:3.12-slim-bookworm"
    else "debian:bookworm-slim"

-- `os.getuid()` and `os.getgid()` are arguments, and so is `str` of an int.
unfoldable pub default_docker_user : (ℕ → String) → ℕ → ℕ → String
default_docker_user decimal uid gid =
    if ltb 0 uid && ltb 0 gid
    then format (decimal uid ∷ ":" ∷ decimal gid ∷ [])
    else fallback_docker_user

-- each distinct language with its image
unfoldable pub select_image_variants : List String → List (String × String)
select_image_variants languages = variants (dedupe languages)
  where
    variants : List String → List (String × String)
    variants [] = ("generic", default_image "generic") ∷ []
    variants (l ∷ ls) = map (λ language. (language, default_image language)) (l ∷ ls)

unfoldable pub select_runtime_image : List (String × String) → String
select_runtime_image ((language, image) ∷ []) = image
select_runtime_image _ = default_image "generic"

abbrev pub mount : String → String → List String
mount source target = "--mount" ∷ format ("type=bind,src=" ∷ source ∷ ",dst=" ∷ target ∷ []) ∷ []

-- the six mounts, none of them read-only
unfoldable pub mount_options : Paths → Paths → List String
mount_options host logical =
    mount host.workspace logical.workspace
    ++ mount host.home logical.home
    ++ mount host.npm_cache logical.npm_cache
    ++ mount host.pip_cache logical.pip_cache
    ++ mount host.xdg_cache logical.xdg_cache
    ++ mount host.tmp logical.tmp

abbrev pub env_options : List (String × String) → List String
env_options [] = []
env_options ((name, value) ∷ environment) =
    "--env" ∷ format (name ∷ "=" ∷ value ∷ []) ∷ env_options environment

-- the options that every container gets
abbrev pub hardened : String → String → List String
hardened network user =
    "docker" ∷ "run" ∷ "--rm" ∷ "--network" ∷ network ∷ "--cap-drop" ∷ "ALL" ∷ "--security-opt"
    ∷ "no-new-privileges" ∷ "--read-only" ∷ "--user" ∷ user ∷ "--pids-limit" ∷ "256" ∷ "--memory"
    ∷ "512m" ∷ "--cpus" ∷ "1.0" ∷ "--pull=never" ∷ "--workdir" ∷ "/workspace" ∷ []

abbrev pub variants_of : List String → Option String → List (String × String)
variants_of languages none = select_image_variants languages
variants_of languages (some image) = ("selected", image) ∷ []

abbrev pub selected_image : List String → Option String → String
selected_image languages none = select_runtime_image (select_image_variants languages)
selected_image languages (some image) = image

unfoldable pub build_docker_spec : String → List String → WorkspacePlan → Option String → DockerSpec
unfolding select_image_variants select_runtime_image mount_options is_digest_pinned
build_docker_spec user languages plan image_reference = record {
  argv =
      hardened "none" user
      ++ (env_options plan.environment
          ++ (mount_options plan.host_path_placeholders plan.logical_paths
              ++ (image_reference_placeholder ∷ [])));
  image_variants = variants_of languages image_reference;
  selected_image_reference = selected_image languages image_reference;
  selected_image_digest_pinned = is_digest_pinned (selected_image languages image_reference);
  user = user;
}

-- `s.replace(needle, by)` of an ASCII needle that is not empty: `skip` characters of a match are left
unfoldable pub replaced : String → String → ℕ → String → String
replaced needle by skip String.[] = ""
replaced needle by (suc skip) (String.◌∷◌ c s) = replaced needle by skip s
replaced needle by zero (String.◌∷◌ c s) =
    let rest = replaced needle by (count needle - 1) s in
    let kept = replaced needle by 0 s in
    if starts_with (String.◌∷◌ c s) needle then String.◌++◌ by rest else String.◌∷◌ c kept

abbrev pub placeholder_map : Paths → String → List (String × String)
placeholder_map host image =
    ("${RHD_DISPOSABLE_WORKSPACE}", host.workspace)
    ∷ ("${RHD_DISPOSABLE_HOME}", host.home)
    ∷ ("${RHD_DISPOSABLE_NPM_CACHE}", host.npm_cache)
    ∷ ("${RHD_DISPOSABLE_PIP_CACHE}", host.pip_cache)
    ∷ ("${RHD_DISPOSABLE_XDG_CACHE}", host.xdg_cache)
    ∷ ("${RHD_DISPOSABLE_TMP}", host.tmp)
    ∷ (image_reference_placeholder, image)
    ∷ []

unfoldable pub resolved : List (String × String) → String → String
unfolding replaced
resolved [] token = token
resolved ((placeholder, value) ∷ placeholders) token =
    resolved placeholders (replaced placeholder value 0 token)

-- `raw_argv` of resolve_docker_argv
unfoldable pub resolve_docker_argv : DockerSpec → Paths → List String
unfolding resolved
resolve_docker_argv spec host =
    map (resolved (placeholder_map host spec.selected_image_reference)) spec.argv

-- the tokens before the last one, and the last one, which `argv.pop()` gives
abbrev pub last_apart : String → List String → List String × String
last_apart t [] = ([], t)
last_apart t (u ∷ us) = let (argv, image) = last_apart u us in (t ∷ argv, image)

abbrev pub prepended : String → Option (List String × String) → Option (List String × String)
prepended token none = none
prepended token (some (argv, image)) = some (token ∷ argv, image)

-- The token after the first "--network" that is not the last token becomes the mode; then the last token
-- is taken apart. None stands for the `else` of the loop.
unfoldable pub set_network : String → List String → Option (List String × String)
set_network mode [] = none
set_network mode (token ∷ []) = none
set_network mode (token ∷ next ∷ tokens) =
    let rest = set_network mode (next ∷ tokens) in
    if token == "--network" then some (last_apart token (mode ∷ tokens)) else prepended token rest

abbrev pub composed : List String → String → List String → List String × String → List String
composed extra entrypoint arguments (argv, image) =
    argv ++ (extra ++ ("--entrypoint" ∷ entrypoint ∷ image ∷ arguments))

abbrev pub chosen :
    List String → String → List String → Option (List String × String) → Py (List String)
chosen extra entrypoint arguments none = raise value_error
chosen extra entrypoint arguments (some split) = ok (composed extra entrypoint arguments split)

unfoldable pub build_container_command_argv :
    List String → List String → String → List String → Py (List String)
unfolding set_network
build_container_command_argv base [] network_mode extra = raise value_error
build_container_command_argv base (entrypoint ∷ arguments) network_mode extra =
    chosen extra entrypoint arguments (set_network network_mode base)
