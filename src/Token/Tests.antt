-- ===== src/Token/Tests.antt =====
-- Tokens of a few numbers.
use skype.Common.{◌≡◌, refl, true, [], ◌∷◌, codes, All, Lacks, length}
use skype.Token.{generate, random_char, is_token_char, generate-All}

some_token : generate (0 ∷ 60 ∷ 61 ∷ 71 ∷ []) ≡ codes "0y0A"
unfolding generate random_char
some_token = refl

generate-All_example :
    (length (generate (5 ∷ 60 ∷ [])) ≡ 2)
    × All (λ c. is_token_char c ≡ true) (generate (5 ∷ 60 ∷ []))
    × Lacks b' ' (generate (5 ∷ 60 ∷ []))
    × Lacks b'z' (generate (5 ∷ 60 ∷ []))
generate-All_example = generate-All (5 ∷ 60 ∷ [])
