-- ===== src/CommandLine/Values.antt =====
-- The types of the values in a namespace, and what storing a value keeps of them.
use v_swarm_u.Base.{
  ◌≡◌, refl, String, Bool, true, false, Option, none, some, List, [], ◌∷◌, map, if◌then◌else◌, ap,
}
use mathlib.Core.Path.{subst}
use v_swarm_u.Base.Text.{codes}
use v_swarm_u.Base.Text.Number.{int_of}
use v_swarm_u.CommandLine.Words.{same}
use v_swarm_u.CommandLine.{
  OptionType, str_option, int_option, flag_option, help_option, Value, absent, no_values,
  get_values, word, number, switch, Opt, Table, Namespace, is_allowed, convert_to, convert, store,
  switched, set_flag,
}
use v_swarm_u.CommandLine.Parser.{value_of}

-- The values that an option can have: a word among its choices, a number, or a flag; `None` only if
-- it starts with that. The empty list is not tested.
abbrev FitsKind : OptionType → List String → Value → Value → Type 0
FitsKind k choices initial no_values = Unit
FitsKind str_option choices initial (word s) = is_allowed s choices ≡ true
FitsKind str_option choices initial absent = initial ≡ absent
FitsKind int_option choices initial (number n) = Unit
FitsKind flag_option choices initial (switch b) = Unit
FitsKind help_option choices initial absent = Unit
FitsKind _ choices initial _ = ⊥

abbrev Fits : Opt → Value → Type 0
Fits o v = FitsKind o.kind o.choices o.initial v

abbrev pub AllFit : Namespace → Type 0
AllFit [] = Unit
AllFit ((o, v) ∷ ns) = Fits o v × AllFit ns

abbrev pub options : Namespace → Table
options ns = map (λ e. e.0) ns

-- A namespace of these options, whose values fit.
abbrev pub IsTyped : Table → Namespace → Type 0
IsTyped t ns = (options ns ≡ t) × AllFit ns

-- A converted value, if there is one, fits.
abbrev Converted : OptionType → List String → Value → Option Value → Type 0
Converted k choices initial none = Unit
Converted k choices initial (some v) = FitsKind k choices initial v

allowed_word :
    (s : String) (choices : List String) (initial : Value) (b : Bool)
    → is_allowed s choices ≡ b
    → Converted str_option choices initial (if b then some (word s) else none)
allowed_word s choices initial true h = h
allowed_word s choices initial false h = tt

convert_to-Converted :
    (k : OptionType) (choices : List String) (initial : Value) (s : String)
    → Converted k choices initial (convert_to k choices s)
convert_to-Converted str_option choices initial s =
    allowed_word s choices initial (is_allowed s choices) refl
convert_to-Converted int_option choices initial s =
    elim (int_of (codes s))
      as (λ n.
        Converted int_option choices initial (elim n [ none ↦ none | some m ↦ some (number m) ])) [
          | none ↦ tt
          | some n ↦ tt
        ]
convert_to-Converted flag_option choices initial s = tt
convert_to-Converted help_option choices initial s = tt

get_values-Converted :
    (k : OptionType) (choices : List String) (initial : Value) (s : String) (v : Option Value)
    → Converted k choices initial v
    → Converted k choices initial (get_values s v)
get_values-Converted k choices initial s v h =
    elim (same s "--") as (λ b. Converted k choices initial (if b then some no_values else v)) [
      | true ↦ tt
      | false ↦ h
    ]

abbrev ConvertedFor : Opt → Option Value → Type 0
ConvertedFor o v = Converted o.kind o.choices o.initial v

convert-Converted : (o : Opt) (s : String) → ConvertedFor o (convert o s)
unfolding convert
convert-Converted o s =
    get_values-Converted o.kind o.choices o.initial s (convert_to o.kind o.choices s)
      (convert_to-Converted o.kind o.choices o.initial s)

switched-FitsKind :
    (k : OptionType) (choices : List String) (initial v : Value)
    → FitsKind k choices initial v
    → FitsKind k choices initial (switched k v)
switched-FitsKind str_option choices initial v h = h
switched-FitsKind int_option choices initial v h = h
switched-FitsKind flag_option choices initial v h = tt
switched-FitsKind help_option choices initial v h = h

pub options-set_flag : (dest : String) (ns : Namespace) → options (set_flag dest ns) ≡ options ns
unfolding set_flag
options-set_flag dest [] = refl
options-set_flag dest ((o, v) ∷ ns) = rw (options-set_flag dest ns) refl

pub set_flag-AllFit : (dest : String) (ns : Namespace) → AllFit ns → AllFit (set_flag dest ns)
unfolding set_flag
set_flag-AllFit dest [] h = tt
set_flag-AllFit dest ((o, v) ∷ ns) (h, hs) = (
  elim (same o.dest dest) as (λ b. Fits o (if b then switched o.kind v else v)) [
    | true ↦ switched-FitsKind o.kind o.choices o.initial v h
    | false ↦ h
  ],
  set_flag-AllFit dest ns hs,
)

-- What is stored is a namespace of the same options, whose values fit.
abbrev pub Stored : Table → Option Namespace → Type 0
Stored t none = Unit
Stored t (some ns) = IsTyped t ns

Stored-cons :
    (o : Opt) (t : Table) (new : Option Value) (rest : Option Namespace)
    → ConvertedFor o new
    → Stored t rest
    → Stored (o ∷ t) (elim new [
      | none ↦ none
      | some w ↦ elim rest [ none ↦ none | some more ↦ some ((o, w) ∷ more) ]
    ])
Stored-cons o t none rest h k = tt
Stored-cons o t (some w) none h k = tt
Stored-cons o t (some w) (some more) h (e, k) = (ap (λ r. o ∷ r) e, (h, k))

pub store-Stored :
    (dest s : String) (ns : Namespace) → AllFit ns → Stored (options ns) (store dest s ns)
unfolding store
store-Stored dest s [] h = (refl, tt)
store-Stored dest s ((o, v) ∷ ns) (h, hs) =
    Stored-cons o (options ns) (if same o.dest dest then convert o s else some v) (store dest s ns)
      (elim (same o.dest dest) as (λ b. ConvertedFor o (if b then convert o s else some v)) [
        | true ↦ convert-Converted o s
        | false ↦ h
      ])
      (store-Stored dest s ns hs)

-- The first option of a destination in a table, beside the value that a namespace has for it.
abbrev option_at : String → Table → Option Opt
option_at dest [] = none
option_at dest (o ∷ t) = if same o.dest dest then some o else option_at dest t

abbrev pub FitsAt : Option Opt → Option Value → Type 0
FitsAt (some o) (some v) = Fits o v
FitsAt none none = Unit
FitsAt _ _ = ⊥

value_of-FitsAt :
    (dest : String) (ns : Namespace)
    → AllFit ns
    → FitsAt (option_at dest (options ns)) (value_of dest ns)
unfolding value_of
value_of-FitsAt dest [] h = tt
value_of-FitsAt dest ((o, v) ∷ ns) (h, hs) =
    elim (same o.dest dest)
      as (λ b.
        FitsAt (if b then some o else option_at dest (options ns))
          (if b then some v else value_of dest ns)) [
            | true ↦ h
            | false ↦ value_of-FitsAt dest ns hs
          ]

pub IsTyped-FitsAt :
    (dest : String) (t : Table) (ns : Namespace)
    → IsTyped t ns
    → FitsAt (option_at dest t) (value_of dest ns)
IsTyped-FitsAt dest t ns (e, h) =
    subst (λ (r : Table). FitsAt (option_at dest r) (value_of dest ns)) e
      (value_of-FitsAt dest ns h)
