-- ===== src/CommandLine/Parser.antt =====
-- The loop of argparse over the arguments, and what it returns.
use v_swarm_u.Base.{
  String, Bool, true, false, Option, none, some, List, [], ◌∷◌, ◌++◌, map, if◌then◌else◌,
}
use v_swarm_u.CommandLine.Words.{same, is_double_dash, is_empty, dash_and}
use v_swarm_u.CommandLine.{
  OptionType, Value, Opt, Table, Namespace, Parsed, then_parse, takes_value, store, set_flag,
  option_named, Token, tokens, help_option, parsed, exits, value_token, option_token, unknown_token,
}

-- An option with its value if it has one, behind flags that are written in the same word.
pub record Use : Type 0 where
  pub flags : List Opt
  pub last : Opt
  pub value : Option String

-- The options of a word like `-df`, behind one that takes no value.
unfoldable cluster : Table → Opt → String → Option Use
unfolding option_named dash_and is_empty
cluster t o String.[] = none
cluster t o (String.◌∷◌ c rest) = elim (option_named t (dash_and c)) [
  | none ↦ none
  | some next ↦
      let word_use : Option Use =
        if is_empty rest
        then some (record { flags = []; last = next; value = none })
        else if takes_value next.kind
        then some (record { flags = []; last = next; value = some rest })
        else cluster t next rest in
      elim word_use [ none ↦ none | some u ↦ some (record u { flags = o ∷ u.flags }) ]
]

-- An option with what stands behind its `=`, or behind its letter.
unfoldable pub use_of : Table → Opt → String → Option String → Option Use
unfolding cluster is_double_dash
use_of t o name none = some (record { flags = []; last = o; value = none })
use_of t o name (some s) =
    if takes_value o.kind
    then some (record { flags = []; last = o; value = some s })
    else if is_double_dash name
    then none
    else cluster t o s

abbrev pub apply_flag : OptionType → String → Namespace → Parsed
apply_flag help_option dest ns = exits 0
apply_flag _ dest ns = parsed (set_flag dest ns)

unfoldable pub apply_flags : List Opt → Namespace → Parsed
unfolding set_flag
apply_flags [] ns = parsed ns
apply_flags (o ∷ os) ns = then_parse (apply_flag o.kind o.dest ns) (apply_flags os)

-- The options of a word, and the value of the last of them.
unfoldable pub finish : Use → String → Namespace → Parsed
unfolding apply_flags store
finish u s ns =
    then_parse (apply_flags u.flags ns)
      (λ new. elim (store u.last.dest s new) [ none ↦ exits 2 | some stored ↦ parsed stored ])

-- The loop of `_parse_known_args` and the refusal of extra arguments. An option waits for its value
-- as `waiting`.
unfoldable pub consume : Table → List Token → Option Use → Bool → Namespace → Parsed
unfolding use_of finish apply_flags
consume t [] none extras ns = if extras then exits 2 else parsed ns
consume t [] (some u) extras ns = exits 2
consume t (value_token s ∷ rest) none extras ns = consume t rest none true ns
consume t (value_token s ∷ rest) (some u) extras ns =
    then_parse (finish u s ns) (consume t rest none extras)
consume t (unknown_token ∷ rest) none extras ns = consume t rest none true ns
consume t (unknown_token ∷ rest) (some u) extras ns = exits 2
consume t (option_token o name value ∷ rest) (some u) extras ns = exits 2
consume t (option_token o name value ∷ rest) none extras ns = elim (use_of t o name value) [
  | none ↦ exits 2
  | some u ↦ elim u.value [
    | some s ↦ then_parse (finish u s ns) (consume t rest none extras)
    | none ↦ elim (takes_value u.last.kind) [
      | true ↦ consume t rest (some u) extras ns
      | false ↦ then_parse (apply_flags (u.flags ++ (u.last ∷ [])) ns) (consume t rest none extras)
    ]
  ]
]

abbrev pub initial_values : Table → Namespace
initial_values t = map (λ o. (o, o.initial)) t

-- `parser.parse_args()`, for the arguments behind the name of the script.
unfoldable pub parse_args : Table → List String → Parsed
unfolding tokens consume
parse_args t argv = elim (tokens t argv) [
  | none ↦ exits 2
  | some ts ↦ consume t ts none false (initial_values t)
]

-- `args.dest`
unfoldable pub value_of : String → Namespace → Option Value
unfolding same
value_of dest [] = none
value_of dest ((o, v) ∷ ns) = if same o.dest dest then some v else value_of dest ns
