-- ===== src/Agent/Docker/Laws.antt =====
-- What the arguments of docker promise.
use lightai_platform.Prelude.{
  ℕ, ◌+◌, ◌-◌, ◌≤◌, ◌<◌, String, ◌≡◌, refl, ap, Bool, true, false, ◌&&◌, ◌<>◌, Option, none, some,
  List, [], ◌∷◌, ◌++◌, map, all, arith, Bool-cases, inl, inr, ◌∙◌,
}
use lightai_platform.Prelude.Text.{trim, is_blank}
use text.Mathlib.Text.{starts_with}
use mathlib.Core.List.{append_assoc}
use lightai_platform.Agent.Launch.{ok}
use lightai_platform.Agent.Docker.{
  DockerPortMapping, DockerVolumeMapping, DockerInstanceParams, DockerPayload, DockerRuntimeConfig,
  DockerInstanceOverrides,
}
use lightai_platform.Agent.Docker.Merge.{
  host_port_of, cache_volumes, model_volume, merged_docker, container_model_of, merge_docker_config,
}
use lightai_platform.Agent.Docker.Args.{
  validate_docker_arg, docker_arg_error, text_flag, port_args, volume_text, volume_args, env_args,
  run_options, with_extra_args, build_docker_run_args,
}

docker_arg_error_sound :
    (args : List String) → docker_arg_error args ≡ none → all validate_docker_arg args ≡ true
unfolding docker_arg_error all
docker_arg_error_sound [] h = refl
docker_arg_error_sound (arg ∷ args) h = ground (arith, h, docker_arg_error_sound args)

-- options, each with its value
abbrev pub in_pairs : List String → Bool
in_pairs [] = true
in_pairs (flag ∷ []) = false
in_pairs (flag ∷ value ∷ rest) = starts_with flag "-" && in_pairs rest

in_pairs-append :
    (xs ys : List String) → in_pairs xs ≡ true → in_pairs ys ≡ true → in_pairs (xs ++ ys) ≡ true
in_pairs-append [] ys h k = k
in_pairs-append (x ∷ []) ys h k = cc
in_pairs-append (x ∷ y ∷ rest) ys h k = ground (arith, h, in_pairs-append rest ys)

in_pairs-text_flag :
    (flag value : String) → starts_with flag "-" ≡ true → in_pairs (text_flag flag value) ≡ true
in_pairs-text_flag flag value h = ground (arith, h)

in_pairs-port_args : (ps : List DockerPortMapping) → in_pairs (port_args ps) ≡ true
unfolding port_args
in_pairs-port_args [] = refl
in_pairs-port_args (p ∷ ps) = in_pairs-port_args ps

in_pairs-volume_args : (vs : List DockerVolumeMapping) → in_pairs (volume_args vs) ≡ true
unfolding volume_args
in_pairs-volume_args [] = refl
in_pairs-volume_args (v ∷ vs) = in_pairs-volume_args vs

volume_args-append :
    (vs ws : List DockerVolumeMapping) → volume_args (vs ++ ws) ≡ volume_args vs ++ volume_args ws
unfolding volume_args
volume_args-append [] ws = refl
volume_args-append (v ∷ vs) ws = ap (λ l. "-v" ∷ volume_text v ∷ l) (volume_args-append vs ws)

-- the options of the command line before its volumes
abbrev first_options : DockerInstanceParams → List String
first_options d =
    text_flag "--name" d.container_name
    ++ (text_flag "--gpus" d.gpu ++ (text_flag "--ipc" d.ipc ++ port_args d.ports))

in_pairs-first_options : (d : DockerInstanceParams) → in_pairs (first_options d) ≡ true
in_pairs-first_options d =
    in_pairs-append (text_flag "--name" d.container_name) _
      (in_pairs-text_flag "--name" d.container_name refl)
      (in_pairs-append (text_flag "--gpus" d.gpu) _ (in_pairs-text_flag "--gpus" d.gpu refl) (
        in_pairs-append (text_flag "--ipc" d.ipc) _ (in_pairs-text_flag "--ipc" d.ipc refl)
          (in_pairs-port_args d.ports)))

run_options_lem :
    (d : DockerInstanceParams) (vs : List DockerVolumeMapping) (v : DockerVolumeMapping)
    → d.volumes ≡ vs ++ v ∷ []
    → run_options d
      ≡ "run" ∷ ((first_options d ++ volume_args vs) ++ "-v" ∷ volume_text v ∷ env_args d.env)
unfolding volume_args
run_options_lem d vs v h = rw h (rw (volume_args-append vs (v ∷ [])) (simp append_assoc))

-- The image after the options.
with_image :
    (options env extra : List String) (mount image : String)
    → ("run" ∷ (options ++ "-v" ∷ mount ∷ env)) ++ (extra ++ "--detach" ∷ image ∷ [])
      ≡ "run" ∷ (options ++ "-v" ∷ mount ∷ ((env ++ (extra ++ "--detach" ∷ [])) ++ image ∷ []))
with_image options env extra mount image = simp append_assoc

extra_sound :
    (d : DockerInstanceParams) (args : List String) (o : Option String)
    → docker_arg_error d.extra_docker_args ≡ o
    → with_extra_args d o ≡ ok args
    → (all validate_docker_arg d.extra_docker_args ≡ true)
      × (args ≡ run_options d ++ (d.extra_docker_args ++ "--detach" ∷ trim d.image ∷ []))
extra_sound d args (some m) e h = cc
extra_sound d args none e h = (docker_arg_error_sound d.extra_docker_args e, ground (arith, h))

-- A command line of docker that is built ends in the extra arguments, all of them valid, and the image,
-- which is not blank: what follows it goes to the program in the container, and no extra argument does.
pub docker_args_sound :
    (payload : DockerPayload) (args : List String)
    → build_docker_run_args payload ≡ ok args
    → (is_blank payload.docker.image ≡ false)
      × (all validate_docker_arg payload.docker.extra_docker_args ≡ true)
      × (args
          ≡ run_options payload.docker
            ++ (payload.docker.extra_docker_args ++ "--detach" ∷ trim payload.docker.image ∷ []))
unfolding build_docker_run_args
docker_args_sound payload args h = elim (Bool-cases (is_blank payload.docker.image)) [
  | inl e ↦ ground (arith, h, e)
  | inr e ↦
      let (valid, same) =
        extra_sound payload.docker args (docker_arg_error payload.docker.extra_docker_args) refl
          (rw e at h) in
      (e, valid, same)
]

module _ (file_name : String → Option String) where
  merged_parts :
      (path name : String) (rt : DockerRuntimeConfig) (ov : DockerInstanceOverrides)
      (p : DockerPayload)
      → merge_docker_config file_name path name rt ov ≡ ok p
      → (p.docker ≡ merged_docker path (container_model_of file_name path ov) rt ov)
        × (p.vllm.model ≡ container_model_of file_name path ov)
        × (is_blank path ≡ false)
  unfolding merge_docker_config
  merged_parts path name rt ov p h = elim (Bool-cases (is_blank rt.image)) [
    | inl e ↦ ground (arith, h, e)
    | inr image ↦ elim (Bool-cases (is_blank path)) [
      | inl e ↦ ground (arith, h, e, image)
      | inr given ↦ elim (Bool-cases (is_blank ov.served_model_name && is_blank name)) [
        | inl e ↦ ground (arith, h, e, image, given)
        | inr e ↦ let h1 = rw (image, given, e) at h in (cc, cc, given)
      ]
    ]
  ]

  -- A command line of docker from a merged configuration mounts the model file, for reading only, at
  -- the path in the container that the configuration gives the server in it as its model: after `run`
  -- and some options, each with its value, stands `-v` with the two paths and `:ro`, and the image,
  -- which is not blank, stands after that, as the last argument.
  pub merged_command_mounts_model :
      (path name : String) (rt : DockerRuntimeConfig) (ov : DockerInstanceOverrides)
      (p : DockerPayload) (args : List String)
      → merge_docker_config file_name path name rt ov ≡ ok p
      → build_docker_run_args p ≡ ok args
      → (is_blank rt.image ≡ false)
        × (options rest : List String) × (in_pairs options ≡ true)
        × (args
            ≡ "run"
              ∷ (options
                  ++ "-v"
                    ∷ ((trim (trim path) <> (":" <> trim p.vllm.model)) <> ":ro")
                    ∷ (rest ++ trim rt.image ∷ [])))
  merged_command_mounts_model path name rt ov p args h k =
      let (docker, model, given) = merged_parts path name rt ov p h in
      let (image, valid, same) = docker_args_sound p args k in
      let v = model_volume path p.vllm.model in
      let volumes : p.docker.volumes ≡ cache_volumes rt ++ v ∷ [] = rw (docker, model) refl in
      let options = first_options p.docker ++ volume_args (cache_volumes rt) in
      let run = run_options_lem p.docker (cache_volumes rt) v volumes in
      let env = env_args p.docker.env in
      let extra = p.docker.extra_docker_args in
      let image_of : p.docker.image ≡ rt.image = rw docker refl in
      (
        rw image_of at image,
        options,
        env ++ (extra ++ "--detach" ∷ []),
        in_pairs-append (first_options p.docker) _ (in_pairs-first_options p.docker)
            (in_pairs-volume_args (cache_volumes rt)),
        same
            ∙ ap (λ o. o ++ (extra ++ "--detach" ∷ trim p.docker.image ∷ [])) run
            ∙ with_image options env extra (volume_text v) (trim p.docker.image)
            ∙ ap
                (λ i.
                  "run"
                  ∷ (options
                      ++ "-v"
                        ∷ volume_text v
                        ∷ ((env ++ (extra ++ "--detach" ∷ [])) ++ trim i ∷ [])))
                image_of,
      )

  -- Where an instance names no port of the host, the port of a container above 55535 makes one that
  -- wraps around: it is the port of the container less 55536.
  pub host_port_wraps :
      (path name : String) (rt : DockerRuntimeConfig) (ov : DockerInstanceOverrides)
      (p : DockerPayload)
      → merge_docker_config file_name path name rt ov ≡ ok p
      → ov.host_port ≡ 0
      → 55536 ≤ rt.container_port
      → rt.container_port < 65536
      → (m : ℕ) × (map (λ q. q.host) p.docker.ports ≡ m ∷ []) × (m + 55536 ≡ rt.container_port)
  host_port_wraps path name rt ov p h none_given low high =
      let (docker, model, given) = merged_parts path name rt ov p h in
      (
        rt.container_port - 55536,
        ap (λ d. map (λ q. q.host) d.ports) docker ∙ ap (λ m. m ∷ []) wrapped,
        omega (arith, low),
      )
    where
      wrapped : host_port_of rt ov ≡ rt.container_port - 55536
      wrapped = ground (arith, none_given, low, high)
