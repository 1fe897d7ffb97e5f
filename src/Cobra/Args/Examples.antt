-- ===== src/Cobra/Args/Examples.antt =====
-- Runs of the argument validator.
use natscli.Prelude.{
  true, false, List, [], ◌∷◌, ◌++◌, ◌≢◌, ◌↔◌, none, ◌≡◌, refl, codes, str_eq, length,
}
use natscli.Cobra.Args.Accepts.{Accepts, validate_args_iff, validate_args_defined}
use natscli.Cobra.Args.Completing.{declared, complete_arg_lem, Registered, register_arg_lem}
use natscli.Cobra.Args.{
  out_of_range, complete_arg, completer_at, register_arg, ArgMeta, add_arg, add_arg_enum,
  validate_args, accepted, missing, not_allowed, minimum, is_cumulative,
}

-- nats stream <action> <stream>
abbrev metas : List ArgMeta
unfolding add_arg add_arg_enum
metas =
    add_arg (add_arg_enum [] (codes "action") [] true (codes "add" ∷ codes "rm" ∷ []))
      (codes "stream") [] false []

three_calls :
    (validate_args metas (codes "rm" ∷ []) ≡ accepted)
    × (validate_args metas [] ≡ missing (codes "action"))
    × (validate_args metas (codes "ls" ∷ [])
        ≡ not_allowed (codes "action") (codes "add" ∷ codes "rm" ∷ []) (codes "ls"))
unfolding validate_args add_arg add_arg_enum minimum is_cumulative str_eq
three_calls = (refl, refl, refl)

validate_args_iff_example :
    (validate_args metas (codes "rm" ∷ []) ≡ accepted) ↔ Accepts metas (codes "rm" ∷ [])
validate_args_iff_example = validate_args_iff metas (codes "rm" ∷ [])

validate_args_defined_run : validate_args metas [] ≢ out_of_range
validate_args_defined_run = validate_args_defined metas []

complete_arg_run :
    complete_arg metas (codes "rm" ∷ []) ≡ completer_at (declared metas (length (codes "rm" ∷ [])))
complete_arg_run = complete_arg_lem metas (codes "rm" ∷ [])

abbrev stream_arg : ArgMeta
stream_arg = record {
  name = codes "stream";
  help = [];
  type_hint = [];
  dflt = [];
  required = true;
  cumulative = false;
  enum = [];
  complete = none;
}

register_arg_run :
    (n : ArgMeta) × (register_arg metas stream_arg ≡ metas ++ n ∷ []) × Registered stream_arg n
register_arg_run = register_arg_lem metas stream_arg
