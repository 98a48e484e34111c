-- ===== src/CommandLine.antt =====
-- Python's argparse, as far as the scripts use it: options with one value, flags, `choices`, and the
-- help option. It is the version of Python 3.8 to 3.11. All arguments behind a bare `--` are values,
-- which no script takes.
pub mod Words
pub mod Parser
pub mod Options
pub mod Values
pub mod Simulation
pub mod Types
pub mod RoundTrip
pub mod Release
mod Tests
use v_swarm_u.Base.{
  ℕ, String, Bool, true, false, ◌||◌, Option, none, some, List, [], ◌∷◌, map, flat_map, select,
  if◌then◌else◌,
}
use v_swarm_u.Base.Int.{ℤ}
use v_swarm_u.Base.Text.{codes}
use v_swarm_u.Base.Text.Number.{int_of}
use v_swarm_u.CommandLine.Words.{
  same, begins, is_dash, is_double_dash, is_single, has_space, is_negative_number, cut, first_two,
  behind_two,
}

-- What `add_argument` makes of an option: with `type=str`, with `type=int`, with
-- `action="store_true"`, and the option `-h`.
pub data OptionType : Type 0 where
  str_option int_option flag_option help_option : OptionType

-- `None`, a text, a number, a truth value, or the empty list, which argparse makes of an option with
-- a value that was given the value `--`.
pub data Value : Type 0 where
  absent : Value
  no_values : Value
  word : String → Value
  number : ℤ → Value
  switch : Bool → Value

pub record Opt : Type 0 where
  pub names : List String
  pub dest : String
  pub kind : OptionType
  pub choices : List String
  pub initial : Value

abbrev pub Table : Type 0
Table = List Opt

-- The options of a parser with the values that they have so far.
abbrev pub Namespace : Type 0
Namespace = List (Opt × Value)

-- The namespace that is returned, or the status with which argparse ends the script.
pub data Parsed : Type 0 where
  parsed : Namespace → Parsed
  exits : ℕ → Parsed

abbrev pub then_parse : Parsed → (Namespace → Parsed) → Parsed
then_parse (parsed ns) f = f ns
then_parse (exits status) f = exits status

abbrev pub takes_value : OptionType → Bool
takes_value str_option = true
takes_value int_option = true
takes_value flag_option = false
takes_value help_option = false

unfoldable pub one_of : String → List String → Bool
unfolding same
one_of s [] = false
one_of s (t ∷ ts) = same s t || one_of s ts

-- No `choices`, or one of them.
abbrev pub is_allowed : String → List String → Bool
is_allowed s [] = true
is_allowed s (t ∷ ts) = one_of s (t ∷ ts)

-- The value of an option for an argument; `none` is a usage error.
abbrev pub convert_to : OptionType → List String → String → Option Value
convert_to str_option choices s = if is_allowed s choices then some (word s) else none
convert_to int_option choices s = elim (int_of (codes s)) [ none ↦ none | some n ↦ some (number n) ]
convert_to _ choices s = none

-- `_get_values`, which takes `--` out of the arguments of an option.
abbrev pub get_values : String → Option Value → Option Value
get_values s converted = if same s "--" then some no_values else converted

unfoldable pub convert : Opt → String → Option Value
unfolding one_of same
convert o s = get_values s (convert_to o.kind o.choices s)

-- `setattr(namespace, dest, value)`, for a value and for a flag
unfoldable pub store : String → String → Namespace → Option Namespace
unfolding convert same
store dest s [] = some []
store dest s ((o, v) ∷ ns) =
    let rest = store dest s ns in
    let new = if same o.dest dest then convert o s else some v in
    elim new [ none ↦ none | some w ↦ elim rest [ none ↦ none | some more ↦ some ((o, w) ∷ more) ] ]

abbrev pub switched : OptionType → Value → Value
switched flag_option v = switch true
switched _ v = v

unfoldable pub set_flag : String → Namespace → Namespace
unfolding same
set_flag dest [] = []
set_flag dest ((o, v) ∷ ns) =
    (o, (if same o.dest dest then switched o.kind v else v)) ∷ set_flag dest ns

-- `_option_string_actions`, in the order of the registration
unfoldable pub option_named : Table → String → Option Opt
unfolding one_of
option_named [] name = none
option_named (o ∷ t) name = if one_of name o.names then some o else option_named t name

abbrev all_names : Table → List (String × Opt)
all_names t = flat_map (λ o. map (λ n. (n, o)) o.names) t

-- What `_parse_optional` takes an argument for: a value, an option with the value behind its `=`, or
-- an option that there is not.
pub data Token : Type 0 where
  value_token : String → Token
  option_token : Opt → String → Option String → Token
  unknown_token : Token

-- `_get_option_tuples`: the options that an argument may abbreviate.
unfoldable abbreviated : Table → String → List Token
unfolding begins cut same is_double_dash first_two behind_two
abbreviated t arg =
    if is_double_dash arg
    then elim (cut arg) [
      | none ↦ map (λ n. option_token n.1 n.0 none) (select (λ n. begins arg n.0) (all_names t))
      | some (front, value) ↦
          map (λ n. option_token n.1 n.0 (some value))
            (select (λ n. begins front n.0) (all_names t))
    ]
    else flat_map
        (λ n.
          if same n.0 (first_two arg)
          then option_token n.1 n.0 (some (behind_two arg)) ∷ []
          else if begins arg n.0
          then option_token n.1 n.0 none ∷ []
          else [])
        (all_names t)

abbrev unique : String → List Token → Option Token
unique arg [] =
    if is_negative_number arg || has_space arg then some (value_token arg) else some unknown_token
unique arg (token ∷ []) = some token
unique arg (_ ∷ _ ∷ _) = none

-- The option before a `=`, if there is one of exactly that name.
unfoldable explicit : Table → String → Option Token
unfolding cut option_named
explicit t arg = elim (cut arg) [
  | none ↦ none
  | some (name, value) ↦ elim (option_named t name) [
    | none ↦ none
    | some o ↦ some (option_token o name (some value))
  ]
]

-- `_parse_optional`; `none` is the error for an ambiguous abbreviation.
unfoldable parse_optional : Table → String → Option Token
unfolding abbreviated explicit option_named is_dash is_single is_negative_number has_space
parse_optional t arg =
    if is_dash arg
    then elim (option_named t arg) [
      | some o ↦ some (option_token o arg none)
      | none ↦ if is_single arg then some (value_token arg) else elim (explicit t arg) [
        | some token ↦ some token
        | none ↦ unique arg (abbreviated t arg)
      ]
    ]
    else some (value_token arg)

unfoldable pub tokens : Table → List String → Option (List Token)
unfolding parse_optional
tokens t [] = some []
tokens t (arg ∷ argv) =
    let others : Option (List Token) = elim (parse_optional t arg) [
      | none ↦ none
      | some first ↦ elim (tokens t argv) [ none ↦ none | some rest ↦ some (first ∷ rest) ]
    ] in
    if same arg "--" then some (unknown_token ∷ map value_token argv) else others
