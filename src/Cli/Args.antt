-- ===== src/Cli/Args.antt =====
-- `reorderFlagArgs`: internal/cli/args.go. The child of this module is about it.
pub mod Laws
use juno_exchange_kit.Base.{
  ◌||◌, ◌&&◌, ◌==◌, Bool, true, false, not, Option, none, some, List, [], ◌∷◌, ◌++◌, if◌then◌else◌,
}
use juno_exchange_kit.Base.Text.{Text, codes, is_empty, eq_text}

-- strings.HasPrefix (a, "-")
unfoldable pub has_dash : Text → Bool
has_dash [] = false
has_dash (c ∷ s) = c == b'-'

-- strings.Contains (a, "=")
unfoldable pub has_equals : Text → Bool
has_equals [] = false
has_equals (c ∷ s) = (c == b'=') || has_equals s

-- strings.TrimLeft (a, "-")
unfoldable pub trim_dashes : Text → Text
trim_dashes [] = []
trim_dashes (c ∷ s) = if c == b'-' then trim_dashes s else c ∷ s

unfoldable pub is_end_mark : Text → Bool
is_end_mark a = eq_text a (codes "--")

-- A dash alone is positional.
unfoldable pub is_flag : Text → Bool
is_flag a = has_dash a && not (eq_text a (codes "-"))

-- What the flag set knows of a name: no flag, or a flag that is Boolean or not.
abbrev pub FlagSet : Type 0
FlagSet = Text → Option Bool

-- A flag that the set has, that is not Boolean and is not written with its value.
unfoldable pub wants_value : FlagSet → Text → Bool
wants_value fs a =
    not (has_equals a)
    && not (is_empty (trim_dashes a))
    && elim (fs (trim_dashes a)) [ none ↦ false | some boolean ↦ not boolean ]

abbrev pub cons_flag : Text → List Text × List Text → List Text × List Text
cons_flag a (flags, positional) = (a ∷ flags, positional)

abbrev pub cons_positional : Text → List Text × List Text → List Text × List Text
cons_positional a (flags, positional) = (flags, a ∷ positional)

-- The loop, from an argument on: the flags with their values, and the others. `waits` tells that the
-- argument before is a flag that wants a value.
unfoldable pub split_args : FlagSet → Bool → List Text → List Text × List Text
split_args fs waits [] = ([], [])
split_args fs waits (a ∷ args) =
    let rest = split_args fs (is_flag a && wants_value fs a) args in
    if is_end_mark a
    then ([], a ∷ args)
    else if is_flag a || waits
    then cons_flag a rest
    else cons_positional a rest

-- `reorderFlagArgs`
unfoldable pub reorder_flag_args : FlagSet → List Text → List Text
reorder_flag_args fs args =
    let (flags, positional) = split_args fs false args in flags ++ positional
