-- ===== src/Agent/Launch/Laws.antt =====
-- What the parameters and the arguments of a start promise.
use lightai_platform.Prelude.{
  String, ◌≡◌, refl, Bool, true, false, ◌&&◌, ◌||◌, Option, none, some, List, [], ◌∷◌, ◌++◌, ◌==◌,
  leb, ltb, nat_eq, map, any, all, unwrap_or, or_else, arith, Bool-cases, inl, inr, eq_refl, eq_iff,
}
use lightai_platform.Prelude.Text.{trim, one_of}
use lightai_platform.Prelude.Decimal.{codes, lower_codes, contains_codes, starts_with_codes}
use lightai_platform.Agent.Launch.{
  ok, LaunchPayload, InstanceLaunchParams, parsed_fields, no_fields, is_safe_host, validate_arg,
  arg_error, checked_args, from_payload, names_secret, sanitize_arg_for_display, summary_parts,
}

pub arg_error_sound : (args : List String) → arg_error args ≡ none → all validate_arg args ≡ true
unfolding arg_error all
arg_error_sound [] h = refl
arg_error_sound (arg ∷ args) h = ground (arith, h, arg_error_sound args)

-- host, port and arguments are as a start wants them
abbrev pub is_launchable : InstanceLaunchParams → Bool
is_launchable p =
    is_safe_host p.host && (ltb 0 p.port && leb p.port 65535) && all validate_arg p.extra_args

checked_sound :
    (params p : InstanceLaunchParams) (o : Option String)
    → arg_error params.extra_args ≡ o
    → is_safe_host params.host && (ltb 0 params.port && leb params.port 65535) ≡ true
    → checked_args params o ≡ ok p
    → is_launchable p ≡ true
checked_sound params p none e h k = ground (arith, e, h, k, arg_error_sound params.extra_args)
checked_sound params p (some m) e h k = cc

-- Parameters that are read have a host of safe characters, a port from 1 to 65535 and only extra
-- arguments that are neither blank nor longer than 256 bytes and have no control character.
pub from_payload_sound :
    (payload : LaunchPayload) (p : InstanceLaunchParams)
    → from_payload payload ≡ ok p
    → is_launchable p ≡ true
unfolding from_payload
from_payload_sound payload p h =
    let parsed = parsed_fields payload payload.params_json in
    let defaults = unwrap_or payload.defaults no_fields in
    let host = trim (unwrap_or (or_else parsed.host defaults.host) "127.0.0.1") in
    let port = unwrap_or (or_else parsed.port defaults.port) 8080 in
    let extra_args = unwrap_or parsed.extra_args [] in
    elim (Bool-cases (is_safe_host host)) [
      | inr e ↦ ground (arith, h, e)
      | inl safe ↦ elim (Bool-cases (nat_eq port 0 || ltb 65535 port)) [
        | inl e ↦ ground (arith, h, safe, e)
        | inr ranged ↦
            checked_sound
              (record {
                host = host;
                port = port;
                ctx_size = or_else parsed.ctx_size defaults.ctx_size;
                gpu_layers = or_else parsed.gpu_layers defaults.gpu_layers;
                threads = or_else parsed.threads defaults.threads;
                extra_args = extra_args;
              })
              p (arg_error extra_args) refl (ground (arith, safe, ranged))
              (ground (arith, h, safe, ranged))
      ]
    ]

redacted_is_plain : names_secret "[redacted]" ≡ false
unfolding names_secret any codes lower_codes contains_codes starts_with_codes
redacted_is_plain = refl

-- An argument that names a secret is not among the parts of a command line that are displayed, apart
-- from the program.
pub secrets_are_redacted :
    (program : String) (args : List String) (secret : String)
    → names_secret secret ≡ true
    → secret == program ≡ false
    → one_of (summary_parts program args) secret ≡ false
unfolding summary_parts one_of
secrets_are_redacted program args secret h other = ground (arith, other, hidden args)
  where
    hidden : (xs : List String) → one_of (map sanitize_arg_for_display xs) secret ≡ false
    hidden [] = refl
    hidden (x ∷ xs) =
        ground (arith, hidden xs, h, eq_iff secret x, eq_iff secret "[redacted]", redacted_is_plain)

-- The value of a flag that names a secret is displayed where it is an argument of its own that does
-- not itself name one.
pub flag_value_is_shown :
    (program flag value : String) (front back : List String)
    → names_secret flag ≡ true
    → names_secret value ≡ false
    → one_of (summary_parts program (front ++ flag ∷ value ∷ back)) value ≡ true
unfolding summary_parts one_of
flag_value_is_shown program flag value front back h k = ground (arith, shown front)
  where
    shown :
        (xs : List String)
        → one_of (map sanitize_arg_for_display (xs ++ flag ∷ value ∷ back)) value ≡ true
    shown [] = ground (arith, h, k, eq_refl value)
    shown (x ∷ xs) = ground (arith, shown xs)
