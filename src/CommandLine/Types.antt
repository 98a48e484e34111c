-- ===== src/CommandLine/Types.antt =====
-- The types of the values that argparse returns.
use v_swarm_u.Base.{
  ◌≡◌, refl, String, Bool, true, false, Option, none, some, List, [], ◌∷◌, ◌++◌, ap, ◌∙◌,
}
use mathlib.Core.Path.{subst}
use v_swarm_u.CommandLine.{
  OptionType, str_option, int_option, flag_option, help_option, Opt, Table, Namespace, Parsed,
  parsed, exits, then_parse, store, Token, value_token, option_token, unknown_token, takes_value,
  tokens,
}
use v_swarm_u.CommandLine.Parser.{
  Use, apply_flag, apply_flags, finish, use_of, consume, initial_values, parse_args,
}
use v_swarm_u.CommandLine.Values.{
  AllFit, options, IsTyped, options-set_flag, set_flag-AllFit, Stored, store-Stored,
}

-- What argparse returns is typed, if it returns.
abbrev pub Returns : Table → Parsed → Type 0
Returns t (parsed ns) = IsTyped t ns
Returns t (exits status) = Unit

then_parse-Returns :
    (t : Table) (p : Parsed) (f : Namespace → Parsed)
    → Returns t p
    → ((ns : Namespace) → IsTyped t ns → Returns t (f ns))
    → Returns t (then_parse p f)
then_parse-Returns t (parsed ns) f h k = k ns h
then_parse-Returns t (exits status) f h k = tt

apply_flag-Returns :
    (t : Table) (k : OptionType) (dest : String) (ns : Namespace)
    → IsTyped t ns
    → Returns t (apply_flag k dest ns)
apply_flag-Returns t help_option dest ns h = tt
apply_flag-Returns t str_option dest ns (e, h) =
    (options-set_flag dest ns ∙ e, set_flag-AllFit dest ns h)
apply_flag-Returns t int_option dest ns (e, h) =
    (options-set_flag dest ns ∙ e, set_flag-AllFit dest ns h)
apply_flag-Returns t flag_option dest ns (e, h) =
    (options-set_flag dest ns ∙ e, set_flag-AllFit dest ns h)

apply_flags-Returns :
    (t : Table) (os : List Opt) (ns : Namespace) → IsTyped t ns → Returns t (apply_flags os ns)
unfolding apply_flags
apply_flags-Returns t [] ns h = h
apply_flags-Returns t (o ∷ os) ns h =
    then_parse-Returns t (apply_flag o.kind o.dest ns) (apply_flags os)
      (apply_flag-Returns t o.kind o.dest ns h) (λ new k. apply_flags-Returns t os new k)

Stored-Returns :
    (t : Table) (stored : Option Namespace)
    → Stored t stored
    → Returns t (elim stored [ none ↦ exits 2 | some ns ↦ parsed ns ])
Stored-Returns t none h = tt
Stored-Returns t (some ns) h = h

finish-Returns :
    (t : Table) (u : Use) (s : String) (ns : Namespace) → IsTyped t ns → Returns t (finish u s ns)
unfolding finish
finish-Returns t u s ns h =
    then_parse-Returns t (apply_flags u.flags ns) _ (apply_flags-Returns t u.flags ns h) (λ new k.
      Stored-Returns t (store u.last.dest s new) (
        subst (λ (r : Table). Stored r (store u.last.dest s new)) k.0
          (store-Stored u.last.dest s new k.1)))

-- The step for an option, with what the loop does after it, and while it waits.
used-Returns :
    (t : Table) (used : Option Use) (after : Namespace → Parsed) (waits : Use → Parsed)
    (ns : Namespace)
    → IsTyped t ns
    → ((new : Namespace) → IsTyped t new → Returns t (after new))
    → ((u : Use) → Returns t (waits u))
    → Returns t (elim used [
      | none ↦ exits 2
      | some u ↦ elim u.value [
        | some s ↦ then_parse (finish u s ns) after
        | none ↦ elim (takes_value u.last.kind) [
          | true ↦ waits u
          | false ↦ then_parse (apply_flags (u.flags ++ (u.last ∷ [])) ns) after
        ]
      ]
    ])
used-Returns t none after waits ns h k w = tt
used-Returns t (some u) after waits ns h k w =
    elim u.value
      as (λ v. Returns t (elim v [
        | some s ↦ then_parse (finish u s ns) after
        | none ↦ elim (takes_value u.last.kind) [
          | true ↦ waits u
          | false ↦ then_parse (apply_flags (u.flags ++ (u.last ∷ [])) ns) after
        ]
      ])) [
        | some s ↦ then_parse-Returns t (finish u s ns) after (finish-Returns t u s ns h) k
        | none ↦
            elim (takes_value u.last.kind)
              as (λ b. Returns t (elim b [
                | true ↦ waits u
                | false ↦ then_parse (apply_flags (u.flags ++ (u.last ∷ [])) ns) after
              ])) [
                | true ↦ w u
                | false ↦
                    then_parse-Returns t (apply_flags (u.flags ++ (u.last ∷ [])) ns) after
                      (apply_flags-Returns t (u.flags ++ (u.last ∷ [])) ns h) k
              ]
      ]

consume-Returns :
    (t : Table) (ts : List Token) (waiting : Option Use) (extras : Bool) (ns : Namespace)
    → IsTyped t ns
    → Returns t (consume t ts waiting extras ns)
unfolding consume
consume-Returns t [] none true ns h = tt
consume-Returns t [] none false ns h = h
consume-Returns t [] (some u) extras ns h = tt
consume-Returns t (value_token s ∷ rest) none extras ns h = consume-Returns t rest none true ns h
consume-Returns t (value_token s ∷ rest) (some u) extras ns h =
    then_parse-Returns t (finish u s ns) (consume t rest none extras) (finish-Returns t u s ns h)
      (λ new k. consume-Returns t rest none extras new k)
consume-Returns t (unknown_token ∷ rest) none extras ns h = consume-Returns t rest none true ns h
consume-Returns t (unknown_token ∷ rest) (some u) extras ns h = tt
consume-Returns t (option_token o name value ∷ rest) (some u) extras ns h = tt
consume-Returns t (option_token o name value ∷ rest) none extras ns h =
    used-Returns t (use_of t o name value) (consume t rest none extras)
      (λ u. consume t rest (some u) extras ns) ns h
      (λ new k. consume-Returns t rest none extras new k)
      (λ u. consume-Returns t rest (some u) extras ns h)

options-initial : (t : Table) → options (initial_values t) ≡ t
options-initial [] = refl
options-initial (o ∷ t) = ap (λ r. o ∷ r) (options-initial t)

-- For any options whose defaults fit them, and any arguments: either argparse ends the script, or it
-- returns a namespace of exactly these options in which every value fits its option: an option with
-- `type=int` has a number, a flag a truth value, an option with `choices` one of its choices, and
-- `None` stands only where it is the default.
pub parse_args-Returns :
    (t : Table) (argv : List String) → AllFit (initial_values t) → Returns t (parse_args t argv)
unfolding parse_args
parse_args-Returns t argv h =
    elim (tokens t argv)
      as (λ ts.
        Returns t
          (elim ts [ none ↦ exits 2 | some all ↦ consume t all none false (initial_values t) ])) [
            | none ↦ tt
            | some ts ↦ consume-Returns t ts none false (initial_values t) (options-initial t, h)
          ]
