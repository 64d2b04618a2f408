-- ===== src/Text/Number/Read.antt =====
-- `stoi` on printed numbers.
use skype.Common.{
  ℕ, zero, suc, ◌+◌, ◌*◌, ◌-◌, ◌/◌, ◌%◌, ◌^◌, ◌<◌, ◌≡◌, refl, ap, ◌∙◌, some, [], ◌∷◌, arith, Bytes,
  ◌>>=◌,
}
use skype.Common.Int.{ℤ, pos, negsuc, IsInt}
use skype.Text.Number.{
  digits, print_nat, print_int, scan_digits, magnitude, positive, negative, signed, skip_spaces,
  stoi,
}
use skype.Text.Number.Print.{IsDigit, digits_head}

stoi_lem : (s : Bytes) → stoi s ≡ signed (skip_spaces s)
unfolding stoi
stoi_lem s = refl

scan_step :
    (c : ℕ) (s : Bytes) (n : ℕ)
    → IsDigit c
    → scan_digits (c ∷ s) n ≡ scan_digits s (n * 10 + (c - b'0'))
unfolding scan_digits
scan_step c s n h = ground arith

scan-digits : (f n : ℕ) (out : Bytes) → n < f → scan_digits (digits f n out) 0 ≡ scan_digits out n
unfolding digits
scan-digits zero n out h = absurd (omega arith)
scan-digits (suc f) n out h = ground (
  arith,
  scan-digits f (n / 10) ((b'0' + n % 10) ∷ out),
  scan_step (b'0' + n % 10) out (n / 10),
  scan_step (b'0' + n) out 0,
)

pub scan-print_nat : (n : ℕ) → scan_digits (print_nat n) 0 ≡ n
unfolding print_nat scan_digits
scan-print_nat n = scan-digits (suc n) n [] (omega arith)

magnitude_of_digit :
    (c : ℕ) (s : Bytes) → IsDigit c → magnitude (c ∷ s) ≡ some (scan_digits (c ∷ s) 0)
unfolding magnitude
magnitude_of_digit c s h = ground arith

pub magnitude-print_nat : (n : ℕ) → magnitude (print_nat n) ≡ some n
unfolding print_nat scan_digits
magnitude-print_nat n =
    let (c, s, e, d) = digits_head (suc n) n [] (omega arith) in
    ground (arith, e, d, magnitude_of_digit c s, scan-digits (suc n) n [])

pub positive_lem : (n : ℕ) → n < 2 ^ 31 → positive n ≡ some (pos n)
unfolding positive
positive_lem n h = ground arith

negative_lem : (n : ℕ) → n < 2 ^ 31 → negative (suc n) ≡ some (negsuc n)
unfolding negative
negative_lem n h = ground arith

skip_of_digit : (c : ℕ) (s : Bytes) → IsDigit c → skip_spaces (c ∷ s) ≡ c ∷ s
unfolding skip_spaces
skip_of_digit c s h = ground arith

skip_of_minus : (s : Bytes) → skip_spaces (b'-' ∷ s) ≡ b'-' ∷ s
unfolding skip_spaces
skip_of_minus s = refl

signed_of_digit :
    (c : ℕ) (s : Bytes) → IsDigit c → signed (c ∷ s) ≡ (magnitude (c ∷ s) >>= positive)
unfolding signed
signed_of_digit c s h = ground arith

signed_of_minus : (s : Bytes) → signed (b'-' ∷ s) ≡ (magnitude s >>= negative)
unfolding signed
signed_of_minus s = refl

-- A text that begins with a digit is read as it stands.
stoi_of_digit : (c : ℕ) (s : Bytes) → IsDigit c → stoi (c ∷ s) ≡ (magnitude (c ∷ s) >>= positive)
stoi_of_digit c s h = unfold_stoi ∙ signed_of_digit c s h
  where
    unfold_stoi : stoi (c ∷ s) ≡ signed (c ∷ s)
    unfold_stoi = stoi_lem (c ∷ s) ∙ ap signed (skip_of_digit c s h)

stoi-print_nat : (n : ℕ) → stoi (print_nat n) ≡ (magnitude (print_nat n) >>= positive)
unfolding print_nat
stoi-print_nat n =
    let (c, s, e, d) = digits_head (suc n) n [] (omega arith) in rw e (stoi_of_digit c s d)

-- `stoi` undoes `to_string` on every `int`.
pub stoi-print_int : (z : ℤ) → IsInt z → stoi (print_int z) ≡ some z
unfolding print_int
stoi-print_int (pos n) h = cc (stoi-print_nat n, magnitude-print_nat n, positive_lem n h)
stoi-print_int (negsuc n) h = cc (
  stoi_lem (b'-' ∷ print_nat (suc n)),
  skip_of_minus (print_nat (suc n)),
  signed_of_minus (print_nat (suc n)),
  magnitude-print_nat (suc n),
  negative_lem n h,
)
