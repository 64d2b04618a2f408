-- ===== src/Stream/Packets.antt =====
-- The sizes that `make_packet_info` computes.
use skype.Common.{ℕ, ◌+◌, ◌*◌, ◌/◌, ◌%◌, ◌≤◌, ◌<◌, ◌≡◌, ◌⊎◌, inl, inr, arith, ltb, Bool-cases}
use native.Mathlib.Decide.{dec_le}
use native.Mathlib.Nat.{
  mul-le-mul_right, le-div_iff_mul-le, div-eq_of_lt-le, div-le_of_le-mul, div-add-mod, mod-lt,
}
use skype.Stream.{DataType, PacketInfo, grow_by, make_packet_info}

abbrev pub total : PacketInfo → ℕ
total i = i.nb_packets * i.packet_size + i.rem_size

square_le : (k n : ℕ) → 11 ≤ k → 9000 * k ≤ n + 9000 → 90000 ≤ n → n < 80_000_000 → k * k ≤ n
square_le k n h p q r = elim (dec_le k 81) [
  | yes small ↦ omega (arith, mul-le-mul_right k small)
  | no large ↦ omega (arith, mul-le-mul_right {m = k} {n = 8889} k (omega arith))
]

grow_by_cases :
    (n : ℕ)
    → (grow_by n ≡ 0) ⊎ ((1 ≤ grow_by n) × (9000 * (10 + grow_by n) ≤ n + 9000) × (90000 ≤ n))
unfolding grow_by
grow_by_cases n = elim (Bool-cases (ltb 90000 n)) [
  | inl more ↦ inr (rw more (ground arith), rw more (ground arith), ground arith)
  | inr few ↦ inl (rw few)
]

-- The number of packets squared is at most the size of the data.
packets_square : (n : ℕ) → 1000 ≤ n → n < 80_000_000 → (10 + grow_by n) * (10 + grow_by n) ≤ n
packets_square n h k = elim (grow_by_cases n) [
  | inl e ↦ rw e (omega arith)
  | inr (g, p, q) ↦ square_le (10 + grow_by n) n (omega arith) p q k
]

packets_bound : (n : ℕ) → n ≤ 9000 * (10 + grow_by n)
unfolding grow_by
packets_bound n = ground arith

module _ (n k : ℕ) (pos : 0 < k) (square : k * k ≤ n) where
  quotient_large : k ≤ n / k
  quotient_large = (le-div_iff_mul-le pos).1 square

  packet_pos : n % k < n / k
  packet_pos = omega (arith, quotient_large, mod-lt n pos)

  -- The number of packets that the source computes is the number that it wants.
  recount : n / (n / k) ≡ k
  recount =
      div-eq_of_lt-le (n / k) (omega (arith, div-add-mod n k))
        (omega (arith, div-add-mod n k, packet_pos))

-- Data below 80,000,000 bytes is cut without loss, and no packet is larger than 9000 bytes.
pub make_packet_info-total :
    (ty : DataType) (n : ℕ)
    → n < 80_000_000
    → (total (make_packet_info ty n) ≡ n)
      × ((make_packet_info ty n).packet_size ≤ 9000)
      × ((make_packet_info ty n).rem_size ≤ 9000)
unfolding make_packet_info
make_packet_info-total ty n h = elim (Bool-cases (ltb n 1000)) [
  | inl single ↦ rw single (omega arith, ground arith, omega arith)
  | inr several ↦
      let k = 10 + grow_by n in
      let square : k * k ≤ n = packets_square n (ground arith) h in
      let size : n / k ≤ 9000 = div-le_of_le-mul k (omega (arith, packets_bound n)) in
      rw several (
        rw (recount n k (omega arith) square) (omega (arith, div-add-mod n k)),
        size,
        omega (arith, packet_pos n k (omega arith) square),
      )
]
