-- ===== src/TextIo.antt =====
-- src/shared/connection/text_io.cpp and src/shared/data/text_data.cpp: a text on a stream of bytes,
-- behind a header of ten digits. `send` and `recv` are the system's: what the peer has sent before it
-- closes is a list of bytes, and the first `recv` gives as many of them as a parameter says.
pub mod RoundTrip
pub mod Datagram
mod Tests
use skype.Common.{
  ℕ, zero, suc, ◌+◌, ◌-◌, ◌^◌, Bool, true, false, ◌==◌, ltb, Option, none, some, List, [], ◌∷◌,
  ◌++◌, Bytes, length, take, drop, replicate, is_nil, if◌then◌else◌,
}
use skype.Common.Int.{ℤ, pos, negsuc}
use skype.Text.Number.{print_nat, stoi}

abbrev pub header_length : ℕ
header_length = 10

-- The length of a message that fits an `int` has at most ten digits.
unfoldable pub create_header : ℕ → Bytes
create_header msg_length =
    let digits = print_nat msg_length in replicate (header_length - length digits) b'0' ++ digits

-- What is handed to `send`; a request without data sends nothing and is then not valid.
unfoldable pub respond : Option Bytes → Option Bytes
respond none = none
respond (some msg) = some (create_header (length msg) ++ msg)

-- `std::stoi` of the header, 0 where it throws, -1 where `recv` gave fewer bytes than a header has.
unfoldable pub read_header : Bytes → ℤ
read_header header =
    if length header == header_length
    then elim (stoi header) [ none ↦ pos 0 | some n ↦ n ]
    else negsuc 0

-- The text that a C string holds: the bytes before the first that is zero.
unfoldable pub c_string : Bytes → Bytes
c_string [] = []
c_string (b ∷ s) = let rest = c_string s in if b == 0 then [] else b ∷ rest

-- The message of the length that the header says, or what there is of it, and the bytes behind.
unfoldable pub receive_message : ℤ → Bytes → Option Bytes × Bytes
unfolding c_string
receive_message (pos n) stream = (some (c_string (take n stream)), drop n stream)
receive_message (negsuc n) stream = (none, stream)

-- `got` is how many bytes the first `recv` gives. That the buffer cannot be allocated (its size
-- overflows at 2^31 - 1) is a case of Received in Server/Loop, not of this function.
unfoldable pub receive : ℕ → Bytes → Option Bytes × Bytes
unfolding read_header receive_message
receive got stream = receive_message (read_header (take got stream)) (drop got stream)
