-- ===== src/Base/Text/Number.antt =====
-- Python's `int` of a text, and that it reads back what `str` prints.
use mathlib.Core.List.{reverse, append-nil, append_assoc, reverse-append, reverse-reverse}
use Prim.Native.Nat.{ℕ, zero, suc, ◌+◌, ◌-◌, ◌*◌, ◌/◌, ◌%◌, ◌<◌}
use mathlib.Core.Path.{◌≡◌, refl, sym, ◌∙◌, ap}
use mathlib.Core.Bool.{Bool, true, false, ◌&&◌}
use mathlib.Core.Option.{Option, none, some}
use mathlib.Core.List.{[], ◌∷◌, ◌++◌}
use native.Mathlib.Omega.{arith}
use v_swarm_u.Base.Tests.{ltb, leb, ◌==◌, if◌then◌else◌, Bool-cases}
use mathlib.Core.Logic.{inl, inr}
use v_swarm_u.Base.Int.{ℤ, pos, negsuc}
use v_swarm_u.Base.Text.{Text, digits, show_ℕ, show, strip, strip_front, is_space}

abbrev pub is_digit : ℕ → Bool
is_digit c = leb 48 c && leb c 57

-- The digits of a number, with single underscores between them; `seen` says that the last
-- character was a digit.
unfoldable number_from : ℕ → Bool → Text → Option ℕ
number_from acc seen [] = if seen then some acc else none
number_from acc seen (c ∷ s) = elim (is_digit c) [
  | true ↦ number_from (acc * 10 + (c - 48)) true s
  | false ↦ elim (c == b'_' && seen) [ true ↦ number_from acc false s | false ↦ none ]
]

abbrev pub negated : ℕ → ℤ
negated zero = pos 0
negated (suc n) = negsuc n

abbrev signed : Text → Option ℤ
signed [] = none
signed (c ∷ s) =
    if c == b'-'
    then elim (number_from 0 false s) [ none ↦ none | some n ↦ some (negated n) ]
    else elim (number_from 0 false (if c == b'+' then s else c ∷ s)) [
      | none ↦ none
      | some n ↦ some (pos n)
    ]

-- Python's `int(s)`, where all digits are ASCII; `none` is a ValueError.
unfoldable pub int_of : Text → Option ℤ
unfolding strip number_from
int_of s = signed (strip s)

ltb-lt : (a b : ℕ) → ltb a b ≡ true → a < b
ltb-lt a b h = ground arith

read_digit :
    (acc d : ℕ) (seen : Bool) (rest : Text)
    → d < 10
    → number_from acc seen ((48 + d) ∷ rest) ≡ number_from (acc * 10 + d) true rest
unfolding number_from
read_digit acc d seen rest h =
    let digit : is_digit (48 + d) ≡ true = ground (arith, h) in
    rw (number_from, digit) (ap (λ k. number_from (acc * 10 + k) true rest) (omega arith))

-- The digits that are printed are read back, and what follows them is read on.
number_from-digits :
    (f n : ℕ) (seen : Bool) (rest : Text)
    → n < f
    → number_from 0 seen (digits f n ++ rest) ≡ number_from n true rest
unfolding number_from digits
number_from-digits zero n seen rest h = elim h [ ]
number_from-digits (suc f) n seen rest h = elim (Bool-cases (ltb n 10)) [
  | inl small ↦ rw small (
      read_digit 0 n seen rest (ltb-lt n 10 small)
      ∙ ap (λ m. number_from m true rest) (omega arith))
  | inr big ↦
      rw (big, append_assoc (digits f (n / 10)) ((48 + n % 10) ∷ []) rest)
        (number_from-digits f (n / 10) seen ((48 + n % 10) ∷ rest) (ground (arith, big))
          ∙ read_digit (n / 10) (n % 10) true rest (omega arith)
          ∙ ap (λ m. number_from m true rest) (omega arith))
]

abbrev Solid : ℕ → Type 0
Solid c = is_space c ≡ false

digit-Solid : (n : ℕ) → n < 10 → Solid (48 + n)
unfolding is_space
digit-Solid n h = ground arith

-- The text that is printed begins and ends with a character that is no space.
digits-first : (f n : ℕ) → n < f → (c : ℕ) × (s : Text) × (digits f n ≡ c ∷ s) × (is_digit c ≡ true)
unfolding digits
digits-first zero n h = elim h [ ]
digits-first (suc f) n h = elim (Bool-cases (ltb n 10)) [
  | inl small ↦ (48 + n, [], rw small refl, ground (arith, small))
  | inr big ↦
      let (c, s, e, d) = digits-first f (n / 10) (ground (arith, big)) in
      (c, s ++ ((48 + n % 10) ∷ []), rw (big, e) refl, d)
]

digits-last : (f n : ℕ) → (s : Text) × (digits (suc f) n ≡ s ++ ((48 + n % 10) ∷ []))
unfolding digits
digits-last f n = elim (Bool-cases (ltb n 10)) [
  | inl small ↦ ([], rw small (ap (λ m. (48 + m) ∷ []) (ground (arith, small))))
  | inr big ↦ (digits f (n / 10), rw big refl)
]

strip_front-Solid : (c : ℕ) (s : Text) → Solid c → strip_front (c ∷ s) ≡ c ∷ s
unfolding strip_front
strip_front-Solid c s h = rw h refl

strip_lem : (s : Text) → strip s ≡ reverse (strip_front (reverse (strip_front s)))
unfolding strip
strip_lem s = refl

strip-Solid :
    (c d : ℕ) (s t : Text) → Solid c → Solid d → c ∷ s ≡ t ++ (d ∷ []) → strip (c ∷ s) ≡ c ∷ s
strip-Solid c d s t hc hd e =
    let turned : reverse (c ∷ s) ≡ d ∷ reverse t = ap reverse e ∙ reverse-append t (d ∷ []) in
    rw
      (
        strip_lem (c ∷ s),
        strip_front-Solid c s hc,
        turned,
        strip_front-Solid d (reverse t) hd,
        ← turned,
        reverse-reverse (c ∷ s),
      )
      refl

is_digit-Solid : (c : ℕ) → is_digit c ≡ true → Solid c
unfolding is_space
is_digit-Solid c h = ground (arith, h)

dash-Solid : Solid b'-'
unfolding is_space
dash-Solid = refl

show_ℕ-digits : (n : ℕ) → show_ℕ n ≡ digits (suc n) n
unfolding show_ℕ
show_ℕ-digits n = refl

number_from-show_ℕ : (n : ℕ) → number_from 0 false (show_ℕ n) ≡ some n
unfolding number_from
number_from-show_ℕ n =
    rw (show_ℕ-digits n, ← append-nil (digits (suc n) n))
      (number_from-digits (suc n) n false [] (omega arith))

signed_pos :
    (c n : ℕ) (s : Text)
    → is_digit c ≡ true
    → number_from 0 false (c ∷ s) ≡ some n
    → signed (c ∷ s) ≡ some (pos n)
signed_pos c n s h e = ground (arith, h, e)

int_of-signed : (s : Text) → strip s ≡ s → int_of s ≡ signed s
unfolding int_of
int_of-signed s h = ap signed h

-- `int(str(n))` is n, for every integer.
pub int_of-show : (n : ℤ) → int_of (show n) ≡ some n
unfolding show
int_of-show (pos n) =
    let (c, s, e, d) = digits-first (suc n) n (omega arith) in
    let (t, l) = digits-last n n in
    let printed : show_ℕ n ≡ c ∷ s = show_ℕ-digits n ∙ e in
    let kept =
      strip-Solid c (48 + n % 10) s t (is_digit-Solid c d) (digit-Solid (n % 10) (omega arith))
        (sym e ∙ l) in
    rw printed
      (int_of-signed (c ∷ s) kept ∙ signed_pos c n s d (rw (← printed) (number_from-show_ℕ n)))
int_of-show (negsuc n) =
    let (t, l) = digits-last (suc n) (suc n) in
    let all : b'-' ∷ show_ℕ (suc n) ≡ (b'-' ∷ t) ++ ((48 + suc n % 10) ∷ []) =
      ap (λ u. b'-' ∷ u) (show_ℕ-digits (suc n) ∙ l) in
    let kept =
      strip-Solid b'-' (48 + suc n % 10) (show_ℕ (suc n)) (b'-' ∷ t) dash-Solid
        (digit-Solid (suc n % 10) (omega arith)) all in
    int_of-signed (b'-' ∷ show_ℕ (suc n)) kept ∙ rw (number_from-show_ℕ (suc n)) refl
