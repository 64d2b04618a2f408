-- ===== src/Call.antt =====
-- src/client/user/call.cpp: the two peers of a call, one for sound and one for video.
-- The server and the other end change while a call waits: each round of a loop has its own Moment,
-- with what they answer then and whether the user has asked to hang up by then. The streams and the
-- playback, which run in threads of their own, are flags that say whether they were started.
pub mod Answered
pub mod Dialling
pub mod Callers
pub mod Connected
mod Tests
mod Dial
unfoldable pub use Dial.*
use skype.Common.{
  ℕ, zero, suc, ◌+◌, Bool, true, false, not, ◌||◌, ltb, leb, Option, none, some, List, [], ◌∷◌,
  ◌++◌, Bytes, codes, if◌then◌else◌,
}
use skype.Common.Int.{ℤ, pos, negsuc, ◌=ℤ◌}
use skype.Text.Number.{print_int}
use skype.Peer.{
  Peer, PeerStatus, idle, awaiting, accepted, connected, error, Arrivals, new_peer, reset,
  connect_peer, accept_peer, reject_peer, ping_peer, hangup_peer, handshake_peer, is_accepted,
}
use skype.Client.{Job, JobType, new_job}

-- `local_ip` is that of the machine, which a new peer reads.
pub record Call : Type 0 where
  pub callers : List ℤ
  pub current : ℤ
  pub hangup : Bool
  pub connected : Bool
  pub token : Bytes
  pub audio : Option Peer
  pub video : Option Peer
  pub sounding : Bool
  pub showing : Bool

-- `removeOne`
unfoldable pub remove_one : ℤ → List ℤ → List ℤ
remove_one k [] = []
remove_one k (j ∷ js) = if j =ℤ k then js else j ∷ remove_one k js

unfoldable pub contains : ℤ → List ℤ → Bool
contains k [] = false
contains k (j ∷ js) = j =ℤ k || contains k js

-- The call, the jobs posted for the client and the jobs for the interface.
pub record Outcome : Type 0 where
  pub call : Call
  pub posted : List Job
  pub responses : List Job

-- Sound, and video where its peer is there. The webcam is not modelled.
abbrev pub start_streams : Bool → Peer → Call → Call
start_streams true video c = record c { sounding = true; showing = true; video = some video }
start_streams false video c = record c { sounding = true; video = none }

abbrev pub drop_caller : Dialled → ℤ → Call → Call
drop_caller d k c = if d.removed then record c { callers = remove_one k c.callers } else c

-- The end of the thread of `connect`; `late` is a hangup that comes in behind the second dial.
unfoldable pub after_video : Bool → ℤ → List Job → Call → Dialled → Outcome
after_video late peer_id posted c v =
    let c' = drop_caller v peer_id (record c { video = some v.peer }) in
    if v.hung || late
    then record { call = record c' { hangup = false }; posted = posted ++ v.posted; responses = [] }
    else record {
      call = start_streams v.ok v.peer (record c' { connected = true });
      posted = posted ++ v.posted;
      responses = new_job (if v.ok then JobType.video_stream else JobType.video_failed) ∷ [];
    }

-- What `connect` meets: the answer to its CONNECT, the rounds of the dial, and a hangup behind it.
pub record Line : Type 0 where
  pub server : Bytes → Bytes
  pub now : ℕ → Moment
  pub late : Bool

-- The thread of `connect` behind the first dial.
unfoldable pub after_audio : Line → Bool → ℤ → Bytes → Call → Dialled → Option Outcome
after_audio video late peer_id local_ip c a =
    let c' = drop_caller a peer_id c in
    let dialled = udp_connect video.server video.now peer_id false (new_peer c.token local_ip) in
    if not a.ok
    then some (record {
      call = record c' { audio = none; hangup = a.hung || late };
      posted = a.posted;
      responses = new_job JobType.video_failed ∷ [];
    })
    else if a.hung || late
    then some (record {
      call = record c' { audio = some a.peer; hangup = false };
      posted = a.posted;
      responses = [];
    })
    else elim dialled [
      | none ↦ none
      | some v ↦
          some (after_video video.late peer_id a.posted (record c' { audio = some a.peer }) v)
    ]

unfoldable pub connect : Line → Line → Bytes → Job → Call → Option Outcome
connect audio video local_ip job c =
    let c' = record c { token = job.argument; hangup = false; audio = none; video = none } in
    elim (udp_connect audio.server audio.now job.int_value false (new_peer job.argument local_ip)) [
      | none ↦ none
      | some a ↦ after_audio video audio.late job.int_value local_ip c' a
    ]

-- The end of `accept`, once the peer for video is done.
unfoldable pub accept_end : Job → Call → Bool × Peer → Job × Outcome
accept_end job c (true, v) = (
  job,
  record {
    call = start_streams true v c;
    posted = [];
    responses = new_job JobType.video_stream ∷ [];
  },
)
accept_end job c (false, v) = (
  record job { command = JobType.video_failed },
  record { call = start_streams false v c; posted = []; responses = [] },
)

unfoldable pub accept : Moment → Moment → (ℕ → Moment) → Bytes → Job → Call → Option (Job × Outcome)
accept m video now local_ip job c =
    let c' = record c { hangup = false; audio = none; video = none } in
    let (ok, a) = udp_accept m job.int_value (new_peer job.argument local_ip) in
    if not ok
    then some (
      record job { command = JobType.audio_failed },
      record { call = c'; posted = []; responses = [] },
    )
    else elim (accept_video video now job.int_value (new_peer job.argument local_ip)) [
      | none ↦ none
      | some result ↦ some (accept_end job (record c' { audio = some a; connected = true }) result)
    ]

unfoldable pub reject : (Bytes → Bytes) → Job → Call → Call
reject server job c = elim c.audio [
  | none ↦ c
  | some a ↦ record c { audio = some (reject_peer server (print_int job.int_value) a) }
]

unfoldable pub remove_caller : ℤ → Call → Call
unfolding remove_one
remove_caller k c = record c { callers = remove_one k c.callers }

unfoldable pub await_call : Job → Call → Job × Call
unfolding remove_caller contains
await_call job c =
    if not job.bool_value
    then (record job { valid = true }, remove_caller job.int_value c)
    else if contains job.int_value c.callers
    then (record job { valid = false }, c)
    else (record job { valid = true }, record c { callers = c.callers ++ job.int_value ∷ [] })

-- Nothing else writes `m_current`.
unfoldable pub hangup : Call → Call
unfolding remove_caller
hangup c = record (remove_caller c.current c) {
  hangup = true;
  current = negsuc 0;
  connected = false;
  sounding = false;
  showing = false;
}
