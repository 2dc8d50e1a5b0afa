-- ===== src/Examples/Containers.antt =====
-- Containers and images, and the theorems applied to them.
use repo_health_doctor.Base.{
  has_text, ◌≡◌, refl, ◌↔◌, ◌⊎◌, String, true, false, none, some, List, [], ◌∷◌, ◌++◌, contains,
  map,
}
use repo_health_doctor.Base.Int.{pos}
use repo_health_doctor.Base.Py.{ok, Returns, raise, value_error}
use repo_health_doctor.Json.{str, list, nil, cons, dict, end, field}
use repo_health_doctor.Sandbox.Docker.Image.{evaluate_image_policy, Inspection, finished}
use repo_health_doctor.Sandbox.Docker.{
  Paths, WorkspacePlan, build_docker_spec, resolve_docker_argv, resolved,
  image_reference_placeholder, build_container_command_argv,
}
use repo_health_doctor.Sandbox.Docker.Argv.{
  but_last, build_container_command_argv-split, build_container_command_argv-Raises,
}
use repo_health_doctor.Sandbox.Docker.Hardened.{
  required, real, planned, build_container_command_argv-hardened,
}
use repo_health_doctor.Sandbox.Docker.Sanctioned.{IsSanctioned, evaluate_image_policy-IsSanctioned}

abbrev image_id : String
image_id = "sha256:0123456789abcdef0123456789abcdef0123456789abcdef0123456789abcdef"

abbrev answer : Inspection
answer = finished (pos 0) (some (list (cons (dict (field "Id" (str image_id) end)) nil)))

local_image :
    (evaluate_image_policy "tools:1" true true (some image_id) answer).execution_allowed ≡ true
unfolding evaluate_image_policy
local_image = refl

-- A reference counts as pinned where the text has "@sha256:" in it, with or without a digest.
pinned_without_digest :
    (evaluate_image_policy "tools@sha256:" false false none answer).execution_allowed ≡ true
unfolding evaluate_image_policy
pinned_without_digest = refl

evaluate_image_policy-IsSanctioned_example :
    ((evaluate_image_policy "tools:1" true true (some image_id) answer).execution_allowed ≡ true)
    ↔ ((has_text "@sha256:" "tools:1" ≡ true)
        ⊎ IsSanctioned "tools:1" true true (some image_id) answer)
evaluate_image_policy-IsSanctioned_example =
    evaluate_image_policy-IsSanctioned "tools:1" true true answer (some image_id)

abbrev placeholders : Paths
placeholders = record {
  workspace = "${RHD_DISPOSABLE_WORKSPACE}";
  home = "${RHD_DISPOSABLE_HOME}";
  npm_cache = "${RHD_DISPOSABLE_NPM_CACHE}";
  pip_cache = "${RHD_DISPOSABLE_PIP_CACHE}";
  xdg_cache = "${RHD_DISPOSABLE_XDG_CACHE}";
  tmp = "${RHD_DISPOSABLE_TMP}";
}

abbrev logical : Paths
logical = record {
  workspace = "/workspace";
  home = "/tmp/home";
  npm_cache = "/tmp/npm-cache";
  pip_cache = "/tmp/pip-cache";
  xdg_cache = "/tmp/xdg-cache";
  tmp = "/tmp/tmp";
}

abbrev materialized : Paths
materialized = record {
  workspace = "/run/w";
  home = "/run/h";
  npm_cache = "/run/n";
  pip_cache = "/run/p";
  xdg_cache = "/run/x";
  tmp = "/run/t";
}

abbrev plan : WorkspacePlan
plan = record {
  host_path_placeholders = placeholders;
  logical_paths = logical;
  environment = ("HOME", "/tmp/home") ∷ [];
}

-- the mount of the workspace and the image, as they are resolved
resolved_tokens :
    (real
        ("python" ∷ [])
        none
        materialized
        "type=bind,src=${RHD_DISPOSABLE_WORKSPACE},dst=/workspace"
      ≡ "type=bind,src=/run/w,dst=/workspace")
    × (real ("python" ∷ []) none materialized image_reference_placeholder
        ≡ "python:3.12-slim-bookworm")
unfolding build_docker_spec resolved
resolved_tokens = (refl, refl)

build_container_command_argv-hardened_example :
    build_container_command_argv
      (resolve_docker_argv (build_docker_spec "1000:1000" ("python" ∷ []) plan none) materialized)
      ("pytest" ∷ "-q" ∷ [])
      "none"
      []
    ≡ ok (
        required "none" (real ("python" ∷ []) none materialized "1000:1000")
        ++ (map (real ("python" ∷ []) none materialized) (planned plan)
            ++ ([]
                ++ ("--entrypoint"
                    ∷ "pytest"
                    ∷ real ("python" ∷ []) none materialized image_reference_placeholder
                    ∷ "-q"
                    ∷ []))))
build_container_command_argv-hardened_example =
    build_container_command_argv-hardened "1000:1000" ("python" ∷ []) plan none materialized "none"
      "pytest" ("-q" ∷ []) []

build_container_command_argv-split_example :
    build_container_command_argv
      ("docker" ∷ "--network" ∷ "none" ∷ "image" ∷ [])
      ("ls" ∷ [])
      "bridge"
      []
    ≡ ok (("docker" ∷ "--network" ∷ "bridge" ∷ []) ++ ("--entrypoint" ∷ "ls" ∷ "image" ∷ []))
build_container_command_argv-split_example =
    build_container_command_argv-split ("docker" ∷ []) [] "none" "image" "bridge" "ls" [] [] refl

abbrev one : List String
one = "ls" ∷ []

build_container_command_argv-Raises_example :
    ((build_container_command_argv ("docker" ∷ "image" ∷ []) one "none" [] ≡ raise value_error)
      ↔ ((one ≡ []) ⊎ (contains (but_last ("docker" ∷ "image" ∷ [])) "--network" ≡ false)))
    × (Returns (build_container_command_argv ("docker" ∷ "image" ∷ []) one "none" [])
        ⊎ (build_container_command_argv ("docker" ∷ "image" ∷ []) one "none" []
            ≡ raise value_error))
build_container_command_argv-Raises_example =
    build_container_command_argv-Raises ("docker" ∷ "image" ∷ []) one "none" []

-- Where "--network" stands last but one, the image is overwritten by the mode.
network_last :
    build_container_command_argv ("docker" ∷ "--network" ∷ "image" ∷ []) ("ls" ∷ []) "none" []
    ≡ ok ("docker" ∷ "--network" ∷ "--entrypoint" ∷ "ls" ∷ "none" ∷ [])
unfolding build_container_command_argv
network_last = refl
