-- ===== src/Sandbox/Docker/Hardened.antt =====
-- The options of every container that docker.py plans, resolves and composes.
use repo_health_doctor.Base.{
  ◌≡◌, refl, ap, sym, ◌∙◌, String, Option, List, [], ◌∷◌, ◌++◌, map, append_assoc,
}
use repo_health_doctor.Base.Py.{ok}
use repo_health_doctor.Sandbox.Docker.{
  Paths, WorkspacePlan, hardened, env_options, mount_options, selected_image, build_docker_spec,
  replaced, placeholder_map, resolved, resolve_docker_argv, image_reference_placeholder,
  build_container_command_argv,
}
use repo_health_doctor.Sandbox.Docker.Argv.{build_container_command_argv-split}

map-append : (f : String → String) (xs ys : List String) → map f (xs ++ ys) ≡ map f xs ++ map f ys
map-append f [] ys = refl
map-append f (x ∷ xs) ys = ap (λ t. f x ∷ t) (map-append f xs ys)

-- one token, with the placeholders replaced
abbrev pub real : List String → Option String → Paths → String → String
real languages image host token =
    resolved (placeholder_map host (selected_image languages image)) token

-- the options that depend on the plan: environment and mounts
abbrev pub planned : WorkspacePlan → List String
planned plan =
    env_options plan.environment ++ mount_options plan.host_path_placeholders plan.logical_paths

-- What each container must run with, before all other options: the network mode that is requested, no
-- capability, no new privileges, a root that is only read, the given user, limits, and no pull.
abbrev pub required : String → String → List String
required network user =
    "docker" ∷ "run" ∷ "--rm" ∷ "--network" ∷ network ∷ "--cap-drop" ∷ "ALL" ∷ "--security-opt"
    ∷ "no-new-privileges" ∷ "--read-only" ∷ "--user" ∷ user ∷ "--pids-limit" ∷ "256" ∷ "--memory"
    ∷ "512m" ∷ "--cpus" ∷ "1.0" ∷ "--pull=never" ∷ "--workdir" ∷ "/workspace" ∷ []

module _ (user : String) (languages : List String) (plan : WorkspacePlan) (image : Option String)
    (host : Paths) where
  resolved_tail :
      map (real languages image host) (
        env_options plan.environment
        ++ (mount_options plan.host_path_placeholders plan.logical_paths
            ++ (image_reference_placeholder ∷ [])))
      ≡ map (real languages image host) (planned plan)
        ++ ((real languages image host) image_reference_placeholder ∷ [])
  resolved_tail =
      ap (map (real languages image host)) (
        sym (
          append_assoc (env_options plan.environment)
            (mount_options plan.host_path_placeholders plan.logical_paths)
            (image_reference_placeholder ∷ [])))
      ∙ map-append (real languages image host) (planned plan) (image_reference_placeholder ∷ [])

  resolved_argv :
      resolve_docker_argv (build_docker_spec user languages plan image) host
      ≡ hardened "none" ((real languages image host) user)
        ++ (map (real languages image host) (planned plan)
            ++ ((real languages image host) image_reference_placeholder ∷ []))
  unfolding resolve_docker_argv build_docker_spec resolved replaced
  resolved_argv = ap (λ t. hardened "none" ((real languages image host) user) ++ t) resolved_tail

  -- The argv of a container that is planned by build_docker_spec, resolved and composed is: what `required`
  -- lists, with the requested network mode; the environment and the mounts of the plan; the extra options of
  -- the caller, whatever they are; the entrypoint; the image; and the arguments of the command.
  pub build_container_command_argv-hardened :
      (mode entrypoint : String) (arguments extra : List String)
      → build_container_command_argv
          (resolve_docker_argv (build_docker_spec user languages plan image) host)
          (entrypoint ∷ arguments)
          mode
          extra
        ≡ ok (
            required mode ((real languages image host) user)
            ++ (map (real languages image host) (planned plan)
                ++ (extra
                    ++ ("--entrypoint"
                        ∷ entrypoint
                        ∷ (real languages image host) image_reference_placeholder
                        ∷ arguments))))
  build_container_command_argv-hardened mode entrypoint arguments extra =
      ap (λ base. build_container_command_argv base (entrypoint ∷ arguments) mode extra)
        resolved_argv
      ∙ build_container_command_argv-split ("docker" ∷ "run" ∷ "--rm" ∷ [])
          ("--cap-drop"
            ∷ "ALL"
            ∷ "--security-opt"
            ∷ "no-new-privileges"
            ∷ "--read-only"
            ∷ "--user"
            ∷ (real languages image host) user
            ∷ "--pids-limit"
            ∷ "256"
            ∷ "--memory"
            ∷ "512m"
            ∷ "--cpus"
            ∷ "1.0"
            ∷ "--pull=never"
            ∷ "--workdir"
            ∷ "/workspace"
            ∷ map (real languages image host) (planned plan))
          "none" ((real languages image host) image_reference_placeholder) mode entrypoint arguments
          extra refl
