-- ===== src/Stream/Transfer.antt =====
-- `respond` and `receive` of src/shared/connection/stream_io.cpp. `sendto` and `recvfrom` are the
-- system's: the first is a parameter that says which of its calls succeeds, the second a list of
-- what arrives, where `none` is an error.
use mathlib.Core.Option
use skype.Common.{
  ℕ, zero, suc, ◌+◌, ◌*◌, ◌%◌, ◌^◌, Bool, true, false, Option, none, some, List, [], ◌∷◌, ◌++◌,
  Bytes, length, take, drop, replicate, leb, ◌==◌, if◌then◌else◌,
}
use skype.Stream.{
  DataType, text, empty, done, char_to_type, PacketInfo, header_size, make_packet_info, make_header,
  read_header,
}

-- The request's validity, and the datagrams that left.
abbrev pub Sent : Type 0
Sent = Bool × List Bytes

-- The calls of `sendto` are numbered from `call` on.
module _ (sendto : ℕ → Bool) where
  unfoldable pub send_one : ℕ → Bytes → Sent → Sent
  send_one call packet (valid, out) =
      if sendto call then (valid, out ++ packet ∷ []) else (false, out)

  -- What is behind the packets, and what was sent; a call that fails does not end the loop.
  unfoldable pub send_packets : ℕ → ℕ → ℕ → Bytes → Sent → Bytes × Sent
  send_packets zero size call bytes sent = (bytes, sent)
  send_packets (suc n) size call bytes sent =
      send_packets n size (suc call) (drop size bytes) (send_one call (take size bytes) sent)

  unfoldable pub send_data : PacketInfo → Bytes → Sent → Sent
  send_data i bytes sent =
      let (rest, sent') = send_packets i.nb_packets i.packet_size 1 bytes sent in
      if i.rem_size == 0 then sent' else send_one (suc i.nb_packets) (take i.rem_size rest) sent'

  unfoldable pub send_header_and_data : PacketInfo → Bytes → Bool → Sent
  send_header_and_data i bytes false = (false, [])
  send_header_and_data i bytes true =
      if sendto 0 then send_data i bytes (true, make_header i ∷ []) else (false, [])

  -- What `respond` returns, and the datagrams that left; `valid` is the request's flag before.
  unfoldable pub respond : DataType → Bytes → Bool → Sent
  respond text bytes valid = (false, [])
  respond ty bytes valid =
      let i = make_packet_info ty (length bytes) in
      send_header_and_data i bytes (if length (make_header i) == header_size then valid else false)

-- What arrives at the socket, in order.
abbrev pub Events : Type 0
Events = List (Option Bytes)

-- `blocked`: the call still waits when all that arrives has been read. `overflow`: it has written
-- behind the end of its buffer. Else: the validity, the bytes, and what was not read.
pub data Received : Type 0 where
  blocked overflow : Received
  received : Bool → Bytes → Events → Received

abbrev pub prefix_bytes : Bytes → Received → Received
prefix_bytes p blocked = blocked
prefix_bytes p overflow = overflow
prefix_bytes p (received valid bytes es) = received valid (p ++ bytes) es

-- A datagram is written to the front of the buffer.
unfoldable pub write_front : Bytes → Bytes → Option Bytes
write_front d buffer =
    if leb (length d) (length buffer) then some (d ++ drop (length d) buffer) else none

-- The remainder packet; the buffer is the part from `data_pointer` on.
unfoldable pub receive_remainder : ℕ → Bool → Bytes → Events → Received
receive_remainder size valid buffer [] = blocked
receive_remainder size valid buffer (none ∷ es) = received false buffer es
receive_remainder size valid buffer (some d ∷ es) = elim (write_front (take size d) buffer) [
  | none ↦ overflow
  | some buffer' ↦ received valid buffer' es
]

unfoldable pub receive_rest : ℕ → Bool → Bytes → Events → Received
receive_rest size valid buffer es =
    if size == 0 then received valid buffer es else receive_remainder size valid buffer es

unfoldable pub receive_packets : ℕ → ℕ → ℕ → Bool → Bytes → Events → Received
receive_packets zero size rem_size valid buffer es = receive_rest rem_size valid buffer es
receive_packets (suc n) size rem_size valid buffer [] = blocked
receive_packets (suc n) size rem_size valid buffer (none ∷ es) =
    prefix_bytes (take size buffer) (receive_packets n size rem_size false (drop size buffer) es)
receive_packets (suc n) size rem_size valid buffer (some d ∷ es) =
    elim (write_front (take size d) buffer) [
      | none ↦ overflow
      | some buffer' ↦
          prefix_bytes (take size buffer')
            (receive_packets n size rem_size valid (drop size buffer') es)
    ]

abbrev pub alloc_limit : ℕ
alloc_limit = 1_000_000

-- The size is computed in `std::size_t`. Past the limit nothing is read.
unfoldable pub receive_data : PacketInfo → Bool → Events → Received
receive_data i valid es =
    let alloc_size = (i.nb_packets * i.packet_size + i.rem_size) % 2 ^ 64 in
    if leb alloc_limit alloc_size
    then received valid [] es
    else receive_packets i.nb_packets i.packet_size i.rem_size valid (replicate alloc_size 0) es

-- Datagrams of another size than the header's are passed over, errors too.
unfoldable pub wait_header : Events → Option (Bytes × Events)
wait_header [] = none
wait_header (none ∷ es) = wait_header es
wait_header (some d ∷ es) =
    let later = wait_header es in
    if leb header_size (length d) then some (take header_size d, es) else later

unfoldable pub receive_header : Bool → Events → Option (PacketInfo × Bool × Events)
receive_header valid [] = none
receive_header valid (none ∷ es) =
    some (record { data_type = 0; nb_packets = 0; packet_size = 0; rem_size = 0 }, false, es)
receive_header valid (some d ∷ es) =
    Option.map (λ (r : Bytes × Events). (read_header r.0, valid, r.1)) (wait_header (some d ∷ es))

-- What `receive` leaves in the request: its validity and the data that it set, if it set any.
pub data Reception : Type 0 where
  blocked overflow : Reception
  reception : Bool → Option (DataType × Bytes) → Events → Reception

abbrev pub keep_valid : DataType → Received → Reception
keep_valid ty blocked = Reception.blocked
keep_valid ty overflow = Reception.overflow
keep_valid ty (received true bytes es) = reception true (some (ty, bytes)) es
keep_valid ty (received false bytes es) = reception false none es

unfoldable pub receive_as : DataType → PacketInfo → Bool → Events → Reception
receive_as empty i valid es = reception valid (some (empty, [])) es
receive_as done i valid es = reception valid (some (done, [])) es
receive_as ty i valid es = keep_valid ty (receive_data i valid es)

unfoldable pub receive : Bool → Events → Reception
receive valid es = elim (receive_header valid es) [
  | none ↦ Reception.blocked
  | some (i, valid', rest) ↦ receive_as (char_to_type i.data_type) i valid' rest
]
