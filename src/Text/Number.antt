-- ===== src/Text/Number.antt =====
-- `std::to_string(int)` and `std::stoi`, as string_utils.cpp and user_chat.cpp use them.
pub mod Print
pub mod Read
use skype.Common.{
  ℕ, zero, suc, ◌+◌, ◌-◌, ◌*◌, ◌/◌, ◌%◌, ◌^◌, Bool, ◌&&◌, ◌||◌, Option, none, some, [], ◌∷◌, Bytes,
  ltb, leb, ◌==◌, if◌then◌else◌, ◌>>=◌,
}
use skype.Common.Int.{ℤ, pos, negsuc}

-- The digits of `n` in front of `out`; `n` rounds are more than enough.
unfoldable pub digits : ℕ → ℕ → Bytes → Bytes
digits zero n out = out
digits (suc fuel) n out =
    let rest = digits fuel (n / 10) ((b'0' + n % 10) ∷ out) in
    if ltb n 10 then (b'0' + n) ∷ out else rest

unfoldable pub print_nat : ℕ → Bytes
unfolding digits
print_nat n = digits (suc n) n []

unfoldable pub print_int : ℤ → Bytes
unfolding print_nat
print_int (pos n) = print_nat n
print_int (negsuc n) = b'-' ∷ print_nat (suc n)

unfoldable pub is_digit : ℕ → Bool
is_digit c = leb b'0' c && leb c b'9'

-- `isspace`: the blank, and the five control characters from tab to carriage return.
unfoldable pub is_space : ℕ → Bool
is_space c = c == 32 || (leb 9 c && leb c 13)

unfoldable pub scan_digits : Bytes → ℕ → ℕ
unfolding is_digit
scan_digits [] n = n
scan_digits (c ∷ s) n =
    let rest = scan_digits s (n * 10 + (c - b'0')) in if is_digit c then rest else n

-- `stoi` throws where no digit stands.
unfoldable pub magnitude : Bytes → Option ℕ
unfolding scan_digits is_digit
magnitude [] = none
magnitude (c ∷ s) = if is_digit c then some (scan_digits (c ∷ s) 0) else none

-- It throws too where the value is no `int`.
unfoldable pub positive : ℕ → Option ℤ
positive n = if ltb n (2 ^ 31) then some (pos n) else none

unfoldable pub negative : ℕ → Option ℤ
negative zero = some (pos 0)
negative (suc n) = if ltb n (2 ^ 31) then some (negsuc n) else none

unfoldable pub signed : Bytes → Option ℤ
unfolding magnitude positive negative
signed [] = none
signed (c ∷ s) =
    if c == b'-'
    then magnitude s >>= negative
    else if c == b'+'
    then magnitude s >>= positive
    else (magnitude (c ∷ s) >>= positive)

unfoldable pub skip_spaces : Bytes → Bytes
unfolding is_space
skip_spaces [] = []
skip_spaces (c ∷ s) = let rest = skip_spaces s in if is_space c then rest else c ∷ s

unfoldable pub stoi : Bytes → Option ℤ
unfolding skip_spaces signed
stoi s = signed (skip_spaces s)
