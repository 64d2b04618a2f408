-- ===== src/Stream/Tests.antt =====
-- The packets of the source's own test, and instances of the theorems on the stream.
use skype.Common.{
  ℕ, ◌≡◌, ◌≢◌, ◌^◌, refl, true, Bool, inr, none, some, [], ◌∷◌, ◌++◌, map, Bytes, codes, arith,
  length, replicate, length-replicate,
}
use skype.Stream.{DataType, audio, video, PacketInfo, make_packet_info, make_header, read_header}
use skype.Stream.Transfer.{overflow, receive_data, respond, reception, receive}
use skype.Stream.Buffer.{receive_data-ne-overflow}
use skype.Stream.Delivery.{receive-respond}

abbrev packets : ℕ → ℕ → ℕ → PacketInfo
packets nb size rem = record {
  data_type = b'a';
  nb_packets = nb;
  packet_size = size;
  rem_size = rem;
}

make_packet_info_runs :
    (make_packet_info audio 84238 ≡ packets 10 8423 8)
    × (make_packet_info audio 98477 ≡ packets 11 8952 5)
    × (make_packet_info audio 198477 ≡ packets 23 8629 10)
    × (make_packet_info audio 900 ≡ packets 1 900 0)
    × (make_packet_info audio 4000 ≡ packets 10 400 0)
unfolding make_packet_info skype.Stream.grow_by skype.Stream.type_to_char
make_packet_info_runs = (refl, refl, refl, refl, refl)

abbrev three : Bytes
three = 1 ∷ 2 ∷ 3 ∷ []

abbrev all_send : ℕ → Bool
all_send call = true

receive-respond_example :
    ((respond all_send video three true).0 ≡ true)
    × (receive true (map some (respond all_send video three true).1 ++ none ∷ [])
        ≡ reception true (some (video, three)) (none ∷ []))
receive-respond_example =
    receive-respond all_send video three (none ∷ []) (λ k. refl) (inr refl) (omega arith)

unfoldable sevens : ℕ → Bytes
sevens n = replicate n 7

length-sevens : (n : ℕ) → length (sevens n) ≡ n
unfolding sevens
length-sevens n = length-replicate {A = ℕ} n 7

receive_data-ne-overflow_example :
    receive_data (packets 1 3 0) true (some (codes "abcdef") ∷ []) ≢ overflow
receive_data-ne-overflow_example =
    receive_data-ne-overflow (packets 1 3 0) true (some (codes "abcdef") ∷ []) (omega arith)

-- Two packets of 2^63 bytes: their sum is 0 in `std::size_t`.
abbrev wrapping : PacketInfo
wrapping = packets 2 (2 ^ 63) 0
