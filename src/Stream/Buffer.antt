-- ===== src/Stream/Buffer.antt =====
-- The buffer of `receive_data` and the datagrams that are written into it.
use skype.Common.{
  ℕ, zero, suc, ◌+◌, ◌*◌, ◌%◌, ◌^◌, ◌≤◌, ◌<◌, ◌≡◌, ◌≢◌, refl, Bool, false, inl, inr, none, some, [],
  ◌∷◌, ◌++◌, arith, Bytes, length, take, drop, replicate, length-append, length-take, length-drop,
  le→leb, lt→leb_false, leb, length-replicate, ◌==◌, Bool-cases,
}
use skype.Stream.{PacketInfo}
use skype.Stream.Packets.{total}
use skype.Stream.Transfer.{
  Events, Received, blocked, overflow, received, prefix_bytes, write_front, receive_remainder,
  receive_rest, receive_packets, alloc_limit, receive_data,
}

pub write_front_fits :
    (d buffer : Bytes)
    → length d ≤ length buffer
    → write_front d buffer ≡ some (d ++ drop (length d) buffer)
unfolding write_front
write_front_fits d buffer h = rw (le→leb (length d) (length buffer) h)

write_front_overflows : (d buffer : Bytes) → length buffer < length d → write_front d buffer ≡ none
unfolding write_front
write_front_overflows d buffer h = rw (lt→leb_false (length d) (length buffer) h)

-- Writing into a buffer leaves its size as it was.
pub length-written :
    (d buffer : Bytes)
    → length d ≤ length buffer
    → length (d ++ drop (length d) buffer) ≡ length buffer
length-written d buffer h =
    omega (arith, length-append d (drop (length d) buffer), length-drop (length d) buffer)

prefix-ne-overflow : (p : Bytes) (r : Received) → r ≢ overflow → prefix_bytes p r ≢ overflow
prefix-ne-overflow p blocked h = cc
prefix-ne-overflow p overflow h = absurd (h refl)
prefix-ne-overflow p (received v b es) h = cc

short : (n : ℕ) (d buffer : Bytes) → n ≤ length buffer → length (take n d) ≤ length buffer
short n d buffer h = omega (arith, length-take n d)

remainder-ne-overflow :
    (size : ℕ) (valid : Bool) (buffer : Bytes) (es : Events)
    → size ≤ length buffer
    → receive_remainder size valid buffer es ≢ overflow
unfolding receive_remainder
remainder-ne-overflow size valid buffer [] h = cc
remainder-ne-overflow size valid buffer (none ∷ es) h = cc
remainder-ne-overflow size valid buffer (some d ∷ es) h =
    rw (write_front_fits (take size d) buffer (short size d buffer h), receive_remainder) (cc)

rest-ne-overflow :
    (size : ℕ) (valid : Bool) (buffer : Bytes) (es : Events)
    → size ≤ length buffer
    → receive_rest size valid buffer es ≢ overflow
unfolding receive_rest
rest-ne-overflow size valid buffer es h = elim (Bool-cases (size == 0)) [
  | inl nothing ↦ rw nothing (cc)
  | inr more ↦ rw more (remainder-ne-overflow size valid buffer es h)
]

packets-ne-overflow :
    (n size rem : ℕ) (valid : Bool) (buffer : Bytes) (es : Events)
    → n * size + rem ≤ length buffer
    → receive_packets n size rem valid buffer es ≢ overflow
unfolding receive_packets
packets-ne-overflow zero size rem valid buffer es h =
    rest-ne-overflow rem valid buffer es (omega arith)
packets-ne-overflow (suc n) size rem valid buffer [] h = cc
packets-ne-overflow (suc n) size rem valid buffer (none ∷ es) h =
    prefix-ne-overflow (take size buffer) _ (
      packets-ne-overflow n size rem false (drop size buffer) es
        (omega (arith, length-drop size buffer)))
packets-ne-overflow (suc n) size rem valid buffer (some d ∷ es) h =
    let fits : length (take size d) ≤ length buffer = short size d buffer (omega arith) in
    let buffer' = take size d ++ drop (length (take size d)) buffer in
    rw (write_front_fits (take size d) buffer fits, receive_packets)
      (prefix-ne-overflow (take size buffer') _ (
        packets-ne-overflow n size rem valid (drop size buffer') es
          (omega (arith, length-drop size buffer', length-written (take size d) buffer fits))))

-- Where the sizes in the header add up below 2^64, no datagram is written past the end of the
-- buffer, whatever arrives.
pub receive_data-ne-overflow :
    (i : PacketInfo) (valid : Bool) (es : Events)
    → total i < 2 ^ 64
    → receive_data i valid es ≢ overflow
unfolding receive_data
receive_data-ne-overflow i valid es h = elim (Bool-cases (leb alloc_limit (total i % 2 ^ 64))) [
  | inl large ↦ rw large (cc)
  | inr small ↦ rw small (
      packets-ne-overflow i.nb_packets i.packet_size i.rem_size valid
        (replicate (total i % 2 ^ 64) 0) es
        (omega (arith, length-replicate {A = ℕ} (total i % 2 ^ 64) 0)))
]

packets_overflow :
    (m n size rem : ℕ) (valid : Bool) (buffer d : Bytes) (es : Events)
    → m ≡ suc n
    → length buffer < length (take size d)
    → receive_packets m size rem valid buffer (some d ∷ es) ≡ overflow
packets_overflow m n size rem valid buffer d es e h =
    rw e
      (unfold receive_packets in rw (write_front_overflows (take size d) buffer h, receive_packets))

-- A header whose sizes wrap around in std::size_t to a sum below the limit makes the receiver
-- write the first datagram past the end of its buffer, if that one is longer than the sum.
pub receive_data_overflows :
    (i : PacketInfo) (n : ℕ) (valid : Bool) (d : Bytes) (es : Events)
    → i.nb_packets ≡ suc n
    → total i % 2 ^ 64 < alloc_limit
    → total i % 2 ^ 64 < length (take i.packet_size d)
    → receive_data i valid (some d ∷ es) ≡ overflow
unfolding receive_data
receive_data_overflows i n valid d es e h k =
    let alloc = total i % 2 ^ 64 in
    rw (lt→leb_false alloc_limit alloc h) (
      packets_overflow i.nb_packets n i.packet_size i.rem_size valid (replicate alloc 0) d es e
        (omega (arith, length-replicate {A = ℕ} alloc 0)))
