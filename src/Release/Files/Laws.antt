-- ===== src/Release/Files/Laws.antt =====
-- The laws of files.
use v_swarm_u.Base.{◌≡◌, refl, true, none, some, [], ◌∷◌, arith, if◌then◌else◌}
use v_swarm_u.Base.Text.{Text, text_eqb}
use v_swarm_u.Release.Files.{Files, read, write, remove}

pub text_eqb_refl : (s : Text) → text_eqb s s ≡ true
unfolding text_eqb
text_eqb_refl [] = refl
text_eqb_refl (c ∷ s) = ground (arith, text_eqb_refl s)

pub text_eqb-eq : (s t : Text) → text_eqb s t ≡ true → s ≡ t
unfolding text_eqb
text_eqb-eq [] [] h = refl
text_eqb-eq [] (d ∷ t) h = cc
text_eqb-eq (c ∷ s) [] h = cc
text_eqb-eq (c ∷ s) (d ∷ t) h = ground (arith, text_eqb-eq s t)

pub read-write :
    (name other content : Text) (files : Files)
    → read name (write other content files)
      ≡ (if text_eqb other name then some content else read name files)
unfolding read write
read-write name other content files = refl

pub read-remove :
    (name other : Text) (files : Files)
    → read name (remove other files) ≡ (if text_eqb other name then none else read name files)
unfolding read remove
read-remove name other [] = ground arith
read-remove name other ((k, v) ∷ files) = ground (
  arith,
  read-remove name other files,
  text_eqb-eq k name,
  text_eqb-eq k other,
  text_eqb-eq other name,
  text_eqb_refl name,
  text_eqb_refl other,
  text_eqb_refl k,
)
