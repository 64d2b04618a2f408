-- ===== src/Stream.antt =====
-- src/shared/connection/stream_io.cpp with its header, and the data types of
-- include/shared/data/data.hpp: how audio and video data become datagrams and data again.
-- Sizes are `std::size_t` of 8 bytes, the low byte first.
pub mod Header
pub mod Packets
pub mod Transfer
pub mod Wire
pub mod Delivery
pub mod Buffer
mod Tests
use skype.Common.{
  ℕ, zero, suc, ◌+◌, ◌-◌, ◌*◌, ◌/◌, ◌%◌, ◌^◌, Bool, true, false, Option, none, some, List, [], ◌∷◌,
  ◌++◌, Bytes, length, take, drop, replicate, ltb, leb, ◌==◌, if◌then◌else◌,
}

pub data DataType : Type 0 where
  audio video text empty done : DataType

unfoldable pub type_to_char : DataType → ℕ
type_to_char audio = b'a'
type_to_char video = b'v'
type_to_char text = b't'
type_to_char empty = b'e'
type_to_char done = b'd'

unfoldable pub char_to_type : ℕ → DataType
char_to_type c =
    if c == b'a'
    then audio
    else if c == b'v'
    then video
    else if c == b't'
    then text
    else if c == b'd'
    then done
    else empty

pub record PacketInfo : Type 0 where
  pub data_type : ℕ
  pub nb_packets : ℕ
  pub packet_size : ℕ
  pub rem_size : ℕ

abbrev pub min_nb_packets : ℕ
min_nb_packets = 10

abbrev pub max_packet_size : ℕ
max_packet_size = 9000

abbrev pub single_package_threshold : ℕ
single_package_threshold = 1000

abbrev pub header_size : ℕ
header_size = 25

-- How many packets more than the ten are made.
unfoldable pub grow_by : ℕ → ℕ
grow_by n =
    let max_total_data = min_nb_packets * max_packet_size in
    if ltb max_total_data n then (n - max_total_data) / max_packet_size + 1 else 0

-- `std::floor` of a quotient of two `std::size_t` changes nothing.
unfoldable pub make_packet_info : DataType → ℕ → PacketInfo
unfolding type_to_char
make_packet_info ty n =
    if ltb n single_package_threshold
    then record { data_type = type_to_char ty; nb_packets = 1; packet_size = n; rem_size = 0 }
    else (let packets = min_nb_packets + grow_by n in
        record {
          data_type = type_to_char ty;
          nb_packets = n / (n / packets);
          packet_size = n / packets;
          rem_size = n % packets;
        })

-- The `count` low bytes of a number, the lowest first.
unfoldable pub le_bytes : ℕ → ℕ → Bytes
le_bytes zero v = []
le_bytes (suc count) v = v % 256 ∷ le_bytes count (v / 256)

unfoldable pub from_le : Bytes → ℕ
from_le [] = 0
from_le (b ∷ bs) = b + 256 * from_le bs

unfoldable pub push_to_header : Bytes → ℕ → Bytes
unfolding le_bytes
push_to_header header value = header ++ le_bytes 8 value

unfoldable pub make_header : PacketInfo → Bytes
unfolding push_to_header
make_header i =
    push_to_header (push_to_header (push_to_header (i.data_type ∷ []) i.nb_packets) i.packet_size)
      i.rem_size

unfoldable pub read_header_item : Bytes → ℕ → ℕ
unfolding from_le
read_header_item header p = from_le (take 8 (drop p header))

abbrev head_or_zero : Bytes → ℕ
head_or_zero [] = 0
head_or_zero (b ∷ bs) = b

unfoldable pub read_header : Bytes → PacketInfo
unfolding read_header_item
read_header header = record {
  data_type = head_or_zero header;
  nb_packets = read_header_item header 1;
  packet_size = read_header_item header 9;
  rem_size = read_header_item header 17;
}
