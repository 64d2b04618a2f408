-- ===== src/Text/Number/Print.antt =====
-- The shape of the numbers that `std::to_string` prints.
use skype.Common.{
  ℕ, zero, suc, ◌+◌, ◌/◌, ◌%◌, ◌≤◌, ◌<◌, ◌≡◌, ◌≢◌, refl, inl, inr, [], ◌∷◌, arith, Bytes, ltb,
  Bool-cases, All, Lacks,
}
use skype.Common.Int.{ℤ, pos, negsuc}
use skype.Text.Number.{digits, print_nat, print_int}

abbrev pub IsDigit : ℕ → Type 0
IsDigit c = (b'0' ≤ c) × (c ≤ b'9')

digits-IsDigit : (f n : ℕ) (out : Bytes) → n < f → All IsDigit out → All IsDigit (digits f n out)
unfolding digits
digits-IsDigit zero n out h k = absurd (omega arith)
digits-IsDigit (suc f) n out h k = ground (arith, digits-IsDigit f (n / 10) ((b'0' + n % 10) ∷ out))

pub print_nat-IsDigit : (n : ℕ) → All IsDigit (print_nat n)
unfolding print_nat
print_nat-IsDigit n = digits-IsDigit (suc n) n [] (omega arith) tt

-- The first byte of a printed number, and what follows it.
pub digits_head :
    (f n : ℕ) (out : Bytes) → n < f → (c : ℕ) × (s : Bytes) × (digits f n out ≡ c ∷ s) × IsDigit c
unfolding digits
digits_head zero n out h = absurd (omega arith)
digits_head (suc f) n out h = elim (Bool-cases (ltb n 10)) [
  | inl small ↦ (b'0' + n, out, rw small refl, (omega arith, ground arith))
  | inr large ↦
      let (c, s, e, d) = digits_head f (n / 10) ((b'0' + n % 10) ∷ out) (ground arith) in
      (c, s, rw large e, d)
]

Lacks-of_digits : (b : ℕ) (s : Bytes) → (¬ IsDigit b) → All IsDigit s → Lacks b s
Lacks-of_digits b [] h k = tt
Lacks-of_digits b (c ∷ s) h (k, ks) = (λ e. h (rw e at k), Lacks-of_digits b s h ks)

pub print_nat-Lacks : (b n : ℕ) → (¬ IsDigit b) → Lacks b (print_nat n)
print_nat-Lacks b n h = Lacks-of_digits b (print_nat n) h (print_nat-IsDigit n)

-- A byte that is no digit and no minus sign is in no printed integer.
pub print_int-Lacks : (b : ℕ) (z : ℤ) → (¬ IsDigit b) → b'-' ≢ b → Lacks b (print_int z)
unfolding print_int
print_int-Lacks b (pos n) h k = print_nat-Lacks b n h
print_int-Lacks b (negsuc n) h k = (k, print_nat-Lacks b (suc n) h)
