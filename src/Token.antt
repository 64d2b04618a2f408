-- ===== src/Token.antt =====
-- src/server/token_gen.cpp: the token of a session, from the numbers that `rand` gives, one for each
-- character.
mod Tests
use skype.Common.{
  ℕ, zero, suc, ◌+◌, ◌-◌, ◌%◌, ◌≤◌, ◌<◌, Bool, true, false, ◌&&◌, ◌||◌, leb, ◌≡◌, ◌≢◌, refl, ap,
  List, [], ◌∷◌, Bytes, codes, length, map, arith, All, Lacks, take, Bool-cases, inl, inr,
}

abbrev pub charset : Bytes
charset = codes "0123456789ABCDEFGHIJKLMNOPQRSTUVWXYZabcdefghijklmnopqrstuvwxyz"

-- `charset[i]`, whose last byte is the zero behind the text.
unfoldable pub char_at : ℕ → Bytes → ℕ
char_at i [] = 0
char_at zero (c ∷ s) = c
char_at (suc i) (c ∷ s) = char_at i s

-- `strlen(charset) - 1` is 61.
unfoldable pub random_char : ℕ → ℕ
unfolding char_at
random_char number = char_at (number % (length charset - 1)) charset

unfoldable pub generate : List ℕ → Bytes
unfolding random_char
generate numbers = map random_char numbers

-- The characters of a token: digits and letters, but the last one.
abbrev pub is_token_char : ℕ → Bool
is_token_char c = leb b'0' c && leb c b'9' || leb b'A' c && leb c b'Z' || leb b'a' c && leb c b'y'

char_at-All :
    (n i : ℕ) (s : Bytes)
    → All (λ c. is_token_char c ≡ true) (take n s)
    → i < n
    → i < length s
    → is_token_char (char_at i s) ≡ true
unfolding char_at
char_at-All n i [] h l k = absurd (omega arith)
char_at-All zero i (c ∷ s) h l k = absurd (omega arith)
char_at-All (suc n) zero (c ∷ s) (p, h) l k = p
char_at-All (suc n) (suc i) (c ∷ s) (p, h) l k = char_at-All n i s h (omega arith) (omega arith)

abbrev every : Bytes → Bool
every [] = true
every (c ∷ s) = is_token_char c && every s

every-All : (s : Bytes) → every s ≡ true → All (λ c. is_token_char c ≡ true) s
every-All [] h = tt
every-All (c ∷ s) h = (ground arith, every-All s (ground arith))

no_space : (c : ℕ) → is_token_char c ≡ true → c ≢ b' '
no_space c h = ground arith

no_z : (c : ℕ) → is_token_char c ≡ true → c ≢ b'z'
no_z c h = ground arith

-- A token has as many characters as were asked for, all of them digits and letters, so that no
-- space stands in it, and none is a z.
pub generate-All :
    (numbers : List ℕ)
    → (length (generate numbers) ≡ length numbers)
      × All (λ c. is_token_char c ≡ true) (generate numbers)
      × Lacks b' ' (generate numbers)
      × Lacks b'z' (generate numbers)
unfolding generate random_char
generate-All [] = (refl, tt, tt, tt)
generate-All (n ∷ numbers) =
    let (l, h, s, z) = generate-All numbers in
    let c =
      char_at-All 61 (n % 61) charset (every-All (take 61 charset) refl) (omega arith)
        (omega arith) in
    (ap suc l, (c, h), (no_space (random_char n) c, s), (no_z (random_char n) c, z))
