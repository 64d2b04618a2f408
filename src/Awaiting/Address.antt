-- ===== src/Awaiting/Address.antt =====
-- The addresses that the two ends of a call learn.
use skype.Common.{
  is_nil, Bool-cases, inl, inr, [], ◌∷◌, ℕ, ◌≡◌, refl, true, false, ◌++◌, Bytes, codes, same_text,
  if◌then◌else◌,
}
use skype.Common.Int.{ℤ}
use skype.Awaiting.{
  AwaitingUser, awaiting_user, set_peer_address, set_peer_local_address, own_address, peers_address,
  address_type, has_same_address, host, port,
}

-- The waiting user's entry once a user that is at `b`, with the local address `lb`, has accepted.
abbrev pub accepted : ℤ → ℤ → Bytes → Bytes → Bytes → Bytes → AwaitingUser
accepted user_id peer_id a la b lb =
    set_peer_local_address lb (set_peer_address b (awaiting_user user_id peer_id a la))

is_nil-append : (s : Bytes) (c : ℕ) (t : Bytes) → is_nil (s ++ c ∷ t) ≡ false
is_nil-append [] c t = refl
is_nil-append (d ∷ s) c t = refl

module _ (user_id peer_id : ℤ) (a la b lb : Bytes) where
  accepted_local :
      same_text (host a) (host b) ≡ true
      → (own_address (accepted user_id peer_id a la b lb) ≡ la ++ (codes ":" ++ port a))
        × (peers_address (accepted user_id peer_id a la b lb) ≡ lb ++ (codes ":" ++ port b))
        × (address_type (accepted user_id peer_id a la b lb) ≡ codes "LOCAL")
  unfolding own_address peers_address address_type has_same_address awaiting_user set_peer_address
      set_peer_local_address
  accepted_local h = rw h (refl, refl, refl)

  accepted_web :
      same_text (host a) (host b) ≡ false
      → (own_address (accepted user_id peer_id a la b lb) ≡ a)
        × (peers_address (accepted user_id peer_id a la b lb) ≡ b)
        × (address_type (accepted user_id peer_id a la b lb) ≡ codes "WEB")
  unfolding own_address peers_address address_type has_same_address awaiting_user set_peer_address
      set_peer_local_address
  accepted_web h = rw h (refl, refl, refl)

  -- An address that is not empty leaves the waiting user with one of the peer.
  pub accepted_peer :
      is_nil b ≡ false → is_nil (peers_address (accepted user_id peer_id a la b lb)) ≡ false
  accepted_peer h = elim (Bool-cases (same_text (host a) (host b))) [
    | inl same ↦ let (_, e, _) = accepted_local same in rw e (is_nil-append lb b':' (port b))
    | inr other ↦ let (_, e, _) = accepted_web other in rw e h
  ]

  -- Once a call is accepted, two users behind the same host learn each other's local address with
  -- the port of the public one and the type LOCAL; others learn the public addresses and the type
  -- WEB.
  pub accepted_addresses :
      (own_address (accepted user_id peer_id a la b lb)
        ≡ (if same_text (host a) (host b) then la ++ (codes ":" ++ port a) else a))
      × (peers_address (accepted user_id peer_id a la b lb)
          ≡ (if same_text (host a) (host b) then lb ++ (codes ":" ++ port b) else b))
      × (address_type (accepted user_id peer_id a la b lb)
          ≡ (if same_text (host a) (host b) then codes "LOCAL" else codes "WEB"))
  accepted_addresses = elim (Bool-cases (same_text (host a) (host b))) [
    | inl same ↦ rw same (accepted_local same)
    | inr other ↦ rw other (accepted_web other)
  ]
