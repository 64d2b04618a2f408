-- ===== src/Call/Tests.antt =====
-- Calls that are answered, given up and hung up.
use skype.Common.{
  ℕ, zero, suc, ◌<◌, ◌≡◌, refl, true, false, ◌||◌, Option, none, some, [], ◌∷◌, Bytes, codes, arith,
}
use skype.Common.Int.{pos, negsuc}
use skype.Text.{split_first}
use skype.Text.Number.{print_int}
use skype.Reply.{from_string}
use skype.Client.{Job, JobType, new_job}
use skype.Peer.{
  new_peer, connect_peer, ping_peer, handshake_peer, ping_initiator, send_server, take_address,
  invalid_to_handshake, await, connected, handshake_initiator, punch_web, hole_punch, udp_respond,
  udp_receive,
}
use skype.Call.{
  Call, Moment, Line, Dialled, Outcome, udp_connect, conclude_dial, ended, connect, hangup,
  await_call, contains, after_audio, after_video,
}
use skype.Call.Answered.{answered}
use skype.Call.Dialling.{Waits, Ends, udp_connect-answered, udp_connect-Ends}
use skype.Call.Callers.{Unique, await_call-Unique, hangup_keeps_callers}
use skype.Call.Connected.{connect_marks}

abbrev takes : Bytes → Bytes
takes text = codes "200 OK"

abbrev waiting : Moment
waiting = record { server = λ text. codes "203 Awaiting"; arrivals = []; hangup = false }

abbrev accepting : Moment
accepting = record {
  server = λ text. codes "201 5.5.5.5:80 WEB";
  arrivals = some (codes "200 OK") ∷ [];
  hangup = false;
}

abbrev third : ℕ → Moment
third zero = waiting
third (suc zero) = waiting
third (suc (suc n)) = accepting

third-Waits : (i : ℕ) → i < 2 → Waits third (codes "A") (codes "10.0.0.2") (third i)
third-Waits zero h = (refl, refl)
third-Waits (suc zero) h = (refl, refl)
third-Waits (suc (suc n)) h = absurd (omega arith)

udp_connect-answered_example :
    udp_connect takes third (pos 2) false (new_peer (codes "A") (codes "10.0.0.2"))
    ≡ some (
        ended true
          (record (answered (codes "A") (codes "10.0.0.2") (codes "5.5.5.5:80") (codes "WEB")) {
            status = connected;
          })
          3
          false)
udp_connect-answered_example =
    udp_connect-answered third (codes "A") (codes "10.0.0.2") takes (pos 2) refl 2
      (codes "5.5.5.5:80") (codes "WEB") (omega arith) third-Waits (omega arith) refl (refl, refl)

abbrev never : ℕ → Moment
never n = waiting

udp_connect-Ends_example :
    Ends (udp_connect takes never (pos 2) false (new_peer (codes "A") (codes "10.0.0.2")))
udp_connect-Ends_example =
    udp_connect-Ends takes never (pos 2) false (new_peer (codes "A") (codes "10.0.0.2"))

abbrev rung : Call
rung = record {
  callers = pos 7 ∷ pos 8 ∷ [];
  current = negsuc 0;
  hangup = false;
  connected = false;
  token = codes "A";
  audio = none;
  video = none;
  sounding = false;
  showing = false;
}

abbrev rings_again : Job
rings_again = record (new_job JobType.awaiting) { int_value = pos 7; bool_value = true }

await_call-Unique_example :
    Unique (await_call rings_again rung).1.callers
    × contains (pos 7) (await_call rings_again rung).1.callers ≡ true
unfolding contains
await_call-Unique_example = await_call-Unique rings_again rung (refl, (refl, tt))

hangup_keeps_callers_example :
    ((hangup rung).callers ≡ pos 7 ∷ pos 8 ∷ [])
    × ((await_call rings_again (hangup rung)).0.valid ≡ false)
unfolding contains
hangup_keeps_callers_example = hangup_keeps_callers rings_again rung refl refl refl refl

abbrev line : Line
line = record { server = takes; now = λ n. accepting; late = false }

abbrev to_mario : Job
to_mario = record (new_job JobType.connect) { argument = codes "A"; int_value = pos 2 }

abbrev nothing_done : Outcome
nothing_done = record { call = rung; posted = []; responses = [] }

abbrev or_nothing : Option Outcome → Outcome
or_nothing none = nothing_done
or_nothing (some o) = o

connect_marks_example :
    (a : Dialled) × (udp_connect takes line.now
        (pos 2)
        false
        (new_peer (codes "A") (codes "10.0.0.2"))
      ≡ some a)
    × (a.ok ≡ true)
    × ((a.hung || false) ≡ false)
unfolding connect after_audio after_video udp_connect conclude_dial connect_peer ping_peer
    ping_initiator handshake_peer handshake_initiator punch_web hole_punch udp_respond udp_receive
    send_server take_address invalid_to_handshake await new_peer print_int split_first from_string
connect_marks_example =
    connect_marks line line (codes "10.0.0.2") to_mario rung
      (or_nothing (connect line line (codes "10.0.0.2") to_mario rung)) refl refl refl
