-- ===== src/Text/Tests.antt =====
-- Runs of the text functions, the source's own tests among them, and instances of the theorems.
use skype.Common.{◌≡◌, refl, some, [], ◌∷◌, codes}
use skype.Text.{split, split_first}

split_run : split (codes "a,b,,c") (codes ",") ≡ some (codes "a" ∷ codes "b" ∷ [] ∷ codes "c" ∷ [])
unfolding split
split_run = refl

split_first_run :
    split_first (codes "LOGIN marcos 1234") (codes " ") ≡ (codes "LOGIN", codes "marcos 1234")
unfolding split_first
split_first_run = refl
