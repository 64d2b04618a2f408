-- ===== src/TextIo/RoundTrip.antt =====
-- The header and the text of src/shared/connection/text_io.cpp from one end to the other.
use skype.Common.{
  ℕ, zero, suc, ◌+◌, ◌-◌, ◌*◌, ◌/◌, ◌%◌, ◌^◌, ◌<◌, ◌≤◌, ◌≡◌, refl, ap, ◌∙◌, some, [], ◌∷◌, ◌++◌,
  Bytes, length, take, drop, replicate, arith, Lacks, length-append, length-replicate,
  take-append_left, drop-append_left, take_all, drop_all, append_assoc, some_inj, ◌>>=◌,
}
use skype.Common.Int.{pos}
use skype.Text.Number.{digits, print_nat, print_int, stoi, magnitude, scan_digits, positive}
use skype.Text.Number.Read.{stoi-print_int, scan-print_nat, positive_lem}
use skype.TextIo.{create_header, respond, read_header, c_string, receive_message, receive}

pow_suc : (k : ℕ) → 10 ^ suc (suc k) ≡ 10 * 10 ^ suc k
pow_suc k = omega arith

length-digits :
    (f n k : ℕ) (out : Bytes)
    → n < f
    → n < 10 ^ suc k
    → length (digits f n out) ≤ suc k + length out
unfolding digits
length-digits zero n k out h g = absurd (omega arith)
length-digits (suc f) n zero out h g = ground arith
length-digits (suc f) n (suc k) out h g =
    ground (arith, pow_suc k, length-digits f (n / 10) k ((b'0' + n % 10) ∷ out))

length-print_nat : (n : ℕ) → n < 2 ^ 31 → length (print_nat n) ≤ 10
unfolding print_nat
length-print_nat n h = omega (arith, length-digits (suc n) n 9 [] (omega arith) (omega arith))

length-create_header : (n : ℕ) → n < 2 ^ 31 → length (create_header n) ≡ 10
unfolding create_header
length-create_header n h = omega (
  arith,
  length-append (replicate (10 - length (print_nat n)) b'0') (print_nat n),
  length-replicate {A = ℕ} (10 - length (print_nat n)) b'0',
  length-print_nat n h,
)

-- Zeros in front of digits change nothing.
scan-zeros : (k : ℕ) (s : Bytes) → scan_digits (replicate k b'0' ++ s) 0 ≡ scan_digits s 0
unfolding scan_digits
scan-zeros zero s = refl
scan-zeros (suc k) s = scan-zeros k s

magnitude-zeros :
    (k : ℕ) (s : Bytes) → magnitude (replicate (suc k) b'0' ++ s) ≡ some (scan_digits s 0)
unfolding magnitude
magnitude-zeros k s = ap some (scan-zeros (suc k) s)

stoi-print_nat : (n : ℕ) → n < 2 ^ 31 → stoi (print_nat n) ≡ some (pos n)
unfolding print_int print_nat
stoi-print_nat n h = stoi-print_int (pos n) h

stoi-zero : (s : Bytes) → stoi (b'0' ∷ s) ≡ (magnitude (b'0' ∷ s) >>= positive)
unfolding stoi
stoi-zero s = refl

stoi-zeros : (k n : ℕ) → n < 2 ^ 31 → stoi (replicate k b'0' ++ print_nat n) ≡ some (pos n)
stoi-zeros zero n h = stoi-print_nat n h
stoi-zeros (suc k) n h =
    stoi-zero (replicate k b'0' ++ print_nat n)
    ∙ ap (λ o. o >>= positive) (magnitude-zeros k (print_nat n))
    ∙ ap positive (scan-print_nat n)
    ∙ positive_lem n h

stoi-create_header : (n : ℕ) → n < 2 ^ 31 → stoi (create_header n) ≡ some (pos n)
unfolding create_header
stoi-create_header n h = stoi-zeros (10 - length (print_nat n)) n h

pub c_string-Lacks : (s : Bytes) → Lacks 0 s → c_string s ≡ s
unfolding c_string
c_string-Lacks [] h = refl
c_string-Lacks (b ∷ s) (p, h) = ground (arith, c_string-Lacks s h)

take_of_length : (n : ℕ) (xs ys : Bytes) → length xs ≡ n → take n (xs ++ ys) ≡ xs
take_of_length n xs ys h = rw (← h) (take-append_left xs ys)

drop_of_length : (n : ℕ) (xs ys : Bytes) → length xs ≡ n → drop n (xs ++ ys) ≡ ys
drop_of_length n xs ys h = rw (← h) (drop-append_left xs ys)

-- The length that a header says, read back.
header_read : (n : ℕ) → n < 2 ^ 31 → read_header (create_header n) ≡ pos n
unfolding read_header
header_read n h = rw (length-create_header n h, stoi-create_header n h, read_header) refl

-- What is sent of a text without zero bytes, shorter than 2^31 - 1, is received as it was,
-- whatever bytes follow, if the first `recv` gives the whole header; what follows is left on the
-- stream.
pub receive-respond_text :
    (msg wire rest : Bytes)
    → Lacks 0 msg
    → length msg < 2 ^ 31 - 1
    → respond (some msg) ≡ some wire
    → receive 10 (wire ++ rest) ≡ (some msg, rest)
unfolding respond receive receive_message
receive-respond_text msg wire rest plain fits sent =
    let n = length msg in
    let header = create_header n in
    let long = length-create_header n (omega arith) in
    rw (← some_inj sent) (
      rw
        (
          append_assoc header msg rest,
          take_of_length 10 header (msg ++ rest) long,
          drop_of_length 10 header (msg ++ rest) long,
          header_read n (omega arith),
        )
        (rw (take-append_left msg rest, drop-append_left msg rest, c_string-Lacks msg plain) refl))

-- Where the peer closes behind a part of a text without zero bytes, shorter than 2^31 - 1, that
-- part is received as if it were the whole.
pub receive_cut :
    (part lost : Bytes)
    → Lacks 0 part
    → length (part ++ lost) < 2 ^ 31 - 1
    → receive 10 (create_header (length (part ++ lost)) ++ part) ≡ (some part, [])
unfolding receive receive_message
receive_cut part lost plain fits =
    let n = length (part ++ lost) in
    let header = create_header n in
    let long = length-create_header n (omega arith) in
    let short : length part ≤ n = omega (arith, length-append part lost) in
    rw
      (
        take_of_length 10 header part long,
        drop_of_length 10 header part long,
        header_read n (omega arith),
      )
      (rw (take_all n part short, drop_all n part short, c_string-Lacks part plain) refl)
