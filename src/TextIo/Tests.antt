-- ===== src/TextIo/Tests.antt =====
-- Two texts on one stream.
use skype.Common.{◌≡◌, refl, some, [], ◌++◌, codes, arith}
use skype.Text.Number.{stoi, print_nat}
use skype.TextIo.{create_header, respond, receive}
use skype.TextIo.Datagram.{SocketAddress, udp_receive, udp_respond, udp_respond-udp_receive}
use skype.TextIo.RoundTrip.{receive-respond_text}

receive-respond_text_example :
    receive 10 (codes "0000000005hello" ++ codes "0000000002hi")
    ≡ (some (codes "hello"), codes "0000000002hi")
unfolding respond create_header print_nat
receive-respond_text_example =
    receive-respond_text (codes "hello") (codes "0000000005hello") (codes "0000000002hi")
      (omega arith) (omega arith) refl

-- A header that is no number is a message without bytes.
receive_no_number : receive 10 (codes "no number!rest") ≡ (some [], codes "rest")
unfolding receive stoi
receive_no_number = refl

abbrev client_address : SocketAddress
client_address = record { ip = codes "10.0.0.2"; port = 7000 }

udp_respond-udp_receive_example :
    ((udp_receive (codes "PING A") client_address).0 ≡ codes "PING A")
    × (udp_respond (udp_receive (codes "PING A") client_address).1 (codes "200 OK")
        ≡ (client_address, codes "200 OK"))
udp_respond-udp_receive_example =
    udp_respond-udp_receive (codes "PING A") (codes "200 OK") client_address (omega arith)
      (omega arith) (omega arith) (omega arith)
