-- ===== src/Awaiting/Tests.antt =====
-- Instances of the theorems on the users that wait.
use skype.Common.{◌≡◌, refl, [], ◌∷◌, Bytes, codes}
use skype.Common.Int.{ℤ, pos}
use skype.Awaiting.{
  AwaitingUser, AwaitingUsers, TimeoutStatus, created, pinged, detached, invalidated, timeout_round,
  set_status, visit, update_timeout_status,
}
use skype.Awaiting.Timeout.{timeout_round_twice}

abbrev waits : ℤ → AwaitingUser
waits k = record {
  id = k;
  peer_id = k;
  address = codes "9.9.9.9:50";
  local_address = codes "10.0.0.2:50";
  peer_address = [];
  peer_local_address = [];
}

abbrev two : TimeoutStatus → TimeoutStatus → AwaitingUsers
two s t = record {
  users = (pos 1, waits (pos 1)) ∷ (pos 2, waits (pos 2)) ∷ [];
  timeouts = (pos 1, s) ∷ (pos 2, t) ∷ [];
}

timeout_round_twice_example :
    (p : AwaitingUsers) × (timeout_round (two detached detached) ≡ invalidated p)
unfolding timeout_round visit update_timeout_status set_status
timeout_round_twice_example =
    timeout_round_twice (two pinged created) (two detached detached) (λ e. cc) refl

abbrev here : Bytes
here = codes "9.9.9.9:50"
