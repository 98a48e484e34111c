-- ===== src/Base/Text.antt =====
-- Text as a list of character codes: substring search, Python's `in`, and decimal printing.
pub mod Search
pub mod Number
use Prim.Native.Char.{code}
use Prim.Native.Nat.{ℕ, zero, suc, ◌+◌, ◌/◌, ◌%◌}
use Prim.Native.String.{String}
use mathlib.Core.Bool.{Bool, true, false, ◌&&◌, ◌||◌}
use mathlib.Core.List.{List, [], ◌∷◌, ◌++◌, reverse}
use v_swarm_u.Base.Tests.{ltb, leb, ◌==◌, if◌then◌else◌}
use v_swarm_u.Base.Int.{ℤ, pos, negsuc}

abbrev pub Text : Type 0
Text = List ℕ

abbrev pub codes : String → Text
codes String.[] = []
codes (String.◌∷◌ c s) = code c ∷ codes s

unfoldable pub starts_with : Text → Text → Bool
starts_with [] t = true
starts_with (c ∷ s) [] = false
starts_with (c ∷ s) (d ∷ t) = c == d && starts_with s t

-- Python's `s in t`.
unfoldable pub in_text : Text → Text → Bool
unfolding starts_with
in_text s [] = starts_with s []
in_text s (d ∷ t) = starts_with s (d ∷ t) || in_text s t

-- The decimal digits of a number, on fuel; `n + 1` rounds are enough.
digits : ℕ → ℕ → Text
digits zero n = []
digits (suc f) n =
    let front = digits f (n / 10) in
    if ltb n 10 then (48 + n) ∷ [] else front ++ ((48 + n % 10) ∷ [])

-- Python's `str(n)`.
unfoldable pub show_ℕ : ℕ → Text
unfolding digits
show_ℕ n = digits (suc n) n

unfoldable pub show : ℤ → Text
unfolding show_ℕ
show (pos n) = show_ℕ n
show (negsuc n) = b'-' ∷ show_ℕ (suc n)

unfoldable pub text_eqb : Text → Text → Bool
text_eqb [] [] = true
text_eqb (c ∷ s) (d ∷ t) = c == d && text_eqb s t
text_eqb _ _ = false

-- The characters that Python's `strip` removes at both ends.
is_space : ℕ → Bool
is_space c =
    (leb 9 c && leb c 13)
    || (leb 28 c && leb c 32)
    || c == 133
    || c == 160
    || c == 5760
    || (leb 8192 c && leb c 8202)
    || c == 8232
    || c == 8233
    || c == 8239
    || c == 8287
    || c == 12288

strip_front : Text → Text
strip_front [] = []
strip_front (c ∷ s) = if is_space c then strip_front s else c ∷ s

-- `s.strip()`
unfoldable pub strip : Text → Text
unfolding strip_front is_space
strip s = reverse (strip_front (reverse (strip_front s)))

-- The part of a text behind its last slash, Python's `s.split("/")[-1]`: `cur` is the part behind
-- the last slash so far.
after_slash : Text → Text → Text
after_slash cur [] = cur
after_slash cur (c ∷ s) = after_slash (if c == b'/' then s else cur) s

unfoldable pub base_name : Text → Text
unfolding after_slash
base_name s = after_slash s s
