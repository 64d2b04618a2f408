-- ===== src/TextIo/Datagram.antt =====
-- src/shared/connection/udp_text_io.cpp with the addresses of src/shared/connection/connection.cpp: a
-- text in one datagram. An address of the system is a number's text and a port; inet_ntop and
-- inet_addr, which pass between the system's numbers and that text, are left out.
use skype.Common.{
  ℕ, ◌-◌, ◌%◌, ◌^◌, ◌<◌, ◌≤◌, ◌≡◌, ap, ◌∙◌, none, some, ◌∷◌, ◌++◌, Bytes, codes, take, arith, Lacks,
  length, take_all,
}
use skype.Common.Int.{ℤ, pos, negsuc}
use skype.Text.{split_first}
use skype.Text.Split.{split_first-append}
use skype.Text.Number.{print_nat, print_int, stoi}
use skype.Text.Number.Read.{stoi-print_int}
use skype.TextIo.{c_string}
use skype.TextIo.RoundTrip.{c_string-Lacks}

pub record SocketAddress : Type 0 where
  pub ip : Bytes
  pub port : ℕ

-- A number as the 16 bits that `htons` takes of it.
abbrev pub port_bits : ℤ → ℕ
port_bits (pos n) = n % 2 ^ 16
port_bits (negsuc n) = 2 ^ 16 - 1 - n % 2 ^ 16

unfoldable pub to_sockaddr_in : Bytes → Bytes → SocketAddress
to_sockaddr_in port address = record {
  ip = address;
  port = elim (stoi port) [ none ↦ 0 | some n ↦ port_bits n ];
}

abbrev pub buffer_size : ℕ
buffer_size = 512

-- The text of a datagram and the text of the address that it comes from.
unfoldable pub udp_receive : Bytes → SocketAddress → Bytes × Bytes
unfolding c_string
udp_receive datagram from =
    (c_string (take buffer_size datagram), from.ip ++ b':' ∷ print_nat from.port)

-- Where a text is sent, and the datagram.
unfoldable pub udp_respond : Bytes → Bytes → SocketAddress × Bytes
unfolding to_sockaddr_in
udp_respond address text =
    let (ip, port) = split_first address (codes ":") in (to_sockaddr_in port ip, text)

port-print_nat : (n : ℕ) → n < 2 ^ 16 → stoi (print_nat n) ≡ some (pos n)
unfolding print_int
port-print_nat n h = stoi-print_int (pos n) (omega arith)

-- A text without zero bytes, of at most 512 bytes, is received as it was sent; and what is sent to
-- the address that comes with it goes back to where it came from, if no colon stands in the
-- number's text and the port has 16 bits.
pub udp_respond-udp_receive :
    (text answer : Bytes) (from : SocketAddress)
    → Lacks 0 text
    → length text ≤ 512
    → Lacks b':' from.ip
    → from.port < 2 ^ 16
    → ((udp_receive text from).0 ≡ text)
      × (udp_respond (udp_receive text from).1 answer ≡ (from, answer))
unfolding udp_receive udp_respond to_sockaddr_in
udp_respond-udp_receive text answer from plain short bare fits = (
  ap c_string (take_all 512 text short) ∙ c_string-Lacks text plain,
  rw (split_first-append b':' from.ip (print_nat from.port) bare) (
      rw (port-print_nat from.port fits)
        (ap (λ (n : ℕ). (record { ip = from.ip; port = n }, answer)) (omega (arith, fits)))),
)

-- What is longer is cut behind 512 bytes.
udp_receive_cut :
    (text : Bytes) (from : SocketAddress)
    → Lacks 0 (take 512 text)
    → (udp_receive text from).0 ≡ take 512 text
unfolding udp_receive
udp_receive_cut text from plain = c_string-Lacks (take 512 text) plain
