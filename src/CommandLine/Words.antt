-- ===== src/CommandLine/Words.antt =====
-- The tests that argparse makes on an argument.
use Prim.Native.Char.{Char, code}
use v_swarm_u.Base.{
  ◌≡◌, refl, arith, String, Bool, true, false, ◌&&◌, ◌||◌, Option, none, some, [], ◌∷◌, ◌==◌,
  if◌then◌else◌,
}
use v_swarm_u.Base.Text.{Text, codes}
use v_swarm_u.Base.Text.Number.{is_digit}

-- Equality of texts, and `t.startswith(s)`.
unfoldable pub same : String → String → Bool
same String.[] String.[] = true
same (String.◌∷◌ c s) (String.◌∷◌ d t) = code c == code d && same s t
same _ _ = false

-- Equal texts have the same codes.
pub same-eq : (s t : String) → same s t ≡ true → codes s ≡ codes t
unfolding same
same-eq String.[] String.[] h = refl
same-eq String.[] (String.◌∷◌ d t) h = cc
same-eq (String.◌∷◌ c s) String.[] h = cc
same-eq (String.◌∷◌ c s) (String.◌∷◌ d t) h = ground (arith, same-eq s t)

unfoldable pub begins : String → String → Bool
begins String.[] t = true
begins (String.◌∷◌ c s) String.[] = false
begins (String.◌∷◌ c s) (String.◌∷◌ d t) = code c == code d && begins s t

unfoldable pub is_dash : String → Bool
is_dash String.[] = false
is_dash (String.◌∷◌ c s) = code c == b'-'

unfoldable pub is_double_dash : String → Bool
unfolding is_dash
is_double_dash String.[] = false
is_double_dash (String.◌∷◌ c s) = code c == b'-' && is_dash s

unfoldable pub is_empty : String → Bool
is_empty String.[] = true
is_empty (String.◌∷◌ c s) = false

-- One character.
unfoldable pub is_single : String → Bool
unfolding is_empty
is_single String.[] = false
is_single (String.◌∷◌ c s) = is_empty s

unfoldable pub has_space : String → Bool
has_space String.[] = false
has_space (String.◌∷◌ c s) = code c == b' ' || has_space s

abbrev all_digits : Text → Bool
all_digits [] = true
all_digits (c ∷ s) = is_digit c && all_digits s

-- Digits, or digits with one point that has at least one behind it.
abbrev is_decimal : Bool → Text → Bool
is_decimal seen [] = seen
is_decimal seen (c ∷ []) = is_digit c
is_decimal seen (c ∷ d ∷ s) =
    let rest = is_decimal true (d ∷ s) in
    if is_digit c then rest else c == b'.' && all_digits (d ∷ s)

-- `^-\d+$|^-\d*\.\d+$`, with ASCII digits
unfoldable pub is_negative_number : String → Bool
is_negative_number String.[] = false
is_negative_number (String.◌∷◌ c s) = code c == b'-' && is_decimal false (codes s)

-- `s.split('=', 1)`; `none` if there is no `=`.
unfoldable pub cut : String → Option (String × String)
cut String.[] = none
cut (String.◌∷◌ c s) = elim (code c == b'=') [
  | true ↦ some ("", s)
  | false ↦ elim (cut s) [ none ↦ none | some (front, back) ↦ some (String.◌∷◌ c front, back) ]
]

-- `s[:2]` and `s[2:]`
unfoldable pub first_two : String → String
first_two String.[] = ""
first_two (String.◌∷◌ c String.[]) = String.◌∷◌ c String.[]
first_two (String.◌∷◌ c (String.◌∷◌ d s)) = String.◌∷◌ c (String.◌∷◌ d String.[])

unfoldable pub behind_two : String → String
behind_two String.[] = ""
behind_two (String.◌∷◌ c String.[]) = ""
behind_two (String.◌∷◌ c (String.◌∷◌ d s)) = s

-- `"-" + c`
unfoldable pub dash_and : Char → String
dash_and c = String.◌∷◌ "-" (String.◌∷◌ c String.[])
