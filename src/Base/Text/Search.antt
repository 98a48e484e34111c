-- ===== src/Base/Text/Search.antt =====
-- Substring search in texts that have printed numbers in them.
use Prim.Native.Nat.{ℕ, zero, suc, ◌+◌, ◌/◌, ◌%◌, ◌≤◌, ◌<◌}
use mathlib.Core.Path.{◌≡◌, refl}
use mathlib.Core.List.{[], ◌∷◌, ◌++◌}
use native.Mathlib.Omega.{arith}
use v_swarm_u.Base.Int.{ℤ, pos, negsuc}
use v_swarm_u.Base.Text.{Text, in_text, digits, show_ℕ, show}

-- Every character is a digit or stands before the digits.
abbrev Low : Text → Type 0
Low [] = Unit
Low (c ∷ s) = (c < 58) × Low s

Low-append : (s t : Text) → Low s → Low t → Low (s ++ t)
Low-append [] t hs ht = ht
Low-append (c ∷ s) t hs ht = (hs.0, Low-append s t hs.1 ht)

digits-Low : (f n : ℕ) → Low (digits f n)
unfolding digits
digits-Low zero n = tt
digits-Low (suc f) n = ground (
  arith,
  digits-Low f (n / 10),
  Low-append (digits f (n / 10)) ((48 + n % 10) ∷ []) (digits-Low f (n / 10)) (omega arith),
)

pub show_ℕ-Low : (n : ℕ) → Low (show_ℕ n)
unfolding show_ℕ
show_ℕ-Low n = digits-Low (suc n) n

pub show-Low : (z : ℤ) → Low (show z)
unfolding show
show-Low (pos n) = show_ℕ-Low n
show-Low (negsuc n) = (omega arith, show_ℕ-Low (suc n))

-- A text that begins with a later character is not found where it would begin in a low part.
pub in_text-Low :
    (c : ℕ) (s t u : Text) → 58 ≤ c → Low t → in_text (c ∷ s) (t ++ u) ≡ in_text (c ∷ s) u
unfolding in_text
in_text-Low c s [] u h low = refl
in_text-Low c s (d ∷ t) u h low = ground (arith, in_text-Low c s t u h low.1)
