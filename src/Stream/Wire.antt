-- ===== src/Stream/Wire.antt =====
-- The datagrams behind the header, as they are sent and as they are put together again.
use skype.Common.{
  ℕ, zero, suc, ◌+◌, ◌*◌, ◌≤◌, ◌≡◌, refl, sym, ap, ◌∙◌, Bool, true, inl, inr, some, List, [], ◌∷◌,
  ◌++◌, map, arith, append_assoc, append-nil, Bytes, length, take, drop, length-take, length-drop,
  take-append-drop, take-append_left, drop-append_left, take_all, drop_all, ◌==◌, ==_iff,
  Bool-cases, if◌then◌else◌,
}
use skype.Stream.{PacketInfo}
use skype.Stream.Buffer.{write_front_fits}
use skype.Stream.Transfer.{
  Sent, Events, received, prefix_bytes, write_front, receive_remainder, receive_rest,
  receive_packets, send_one, send_packets, send_data,
}

-- The datagrams behind the header.
abbrev pub wire : ℕ → ℕ → ℕ → Bytes → List Bytes
wire zero size rem bytes = if rem == 0 then [] else take rem bytes ∷ []
wire (suc n) size rem bytes = take size bytes ∷ wire n size rem (drop size bytes)

abbrev pub arrive : List Bytes → Events
arrive = map some

module _ (sendto : ℕ → Bool) (sends : (k : ℕ) → sendto k ≡ true) where
  send_one_lem :
      (call : ℕ) (packet : Bytes) (out : List Bytes)
      → send_one sendto call packet (true, out) ≡ (true, out ++ packet ∷ [])
  unfolding send_one
  send_one_lem call packet out = rw (sends call)

  -- `send_data` with its loop started anywhere.
  abbrev finish : ℕ → ℕ → Bytes × Sent → Sent
  finish rem call (rest, sent) =
      if rem == 0 then sent else send_one sendto call (take rem rest) sent

  send_packets-wire :
      (n size rem call last : ℕ) (bytes : Bytes) (out : List Bytes)
      → finish rem last (send_packets sendto n size call bytes (true, out))
        ≡ (true, out ++ wire n size rem bytes)
  unfolding send_packets
  send_packets-wire zero size rem call last bytes out = elim (Bool-cases (rem == 0)) [
    | inl e ↦ rw e (rw append-nil)
    | inr e ↦ rw e (send_one_lem last (take rem bytes) out)
  ]
  send_packets-wire (suc n) size rem call last bytes out =
      ap (λ (q : Sent). finish rem last (send_packets sendto n size (suc call) (drop size bytes) q))
        (send_one_lem call (take size bytes) out)
      ∙ send_packets-wire n size rem (suc call) last (drop size bytes) (out ++ take size bytes ∷ [])
      ∙ simp append_assoc

  pub send_data-wire :
      (i : PacketInfo) (bytes : Bytes) (out : List Bytes)
      → send_data sendto i bytes (true, out)
        ≡ (true, out ++ wire i.nb_packets i.packet_size i.rem_size bytes)
  unfolding send_data
  send_data-wire i bytes out =
      send_packets-wire i.nb_packets i.packet_size i.rem_size 1 (suc i.nb_packets) bytes out

write_whole : (d buffer : Bytes) → length buffer ≡ length d → write_front d buffer ≡ some d
write_whole d buffer h =
    write_front_fits d buffer (omega arith)
    ∙ ap (λ (r : Bytes). some (d ++ r)) (drop_all (length d) buffer (omega arith))
    ∙ rw append-nil

receive_remainder_lem :
    (size : ℕ) (bytes buffer : Bytes) (es : Events)
    → length bytes ≡ size
    → length buffer ≡ length bytes
    → receive_remainder size true buffer (some (take size bytes) ∷ es) ≡ received true bytes es
receive_remainder_lem size bytes buffer es h k =
    let whole : take size bytes ≡ bytes = take_all size bytes (omega arith) in
    unfold receive_remainder in rw (whole, whole, write_whole bytes buffer k, receive_remainder)

empty_lem : (bytes : Bytes) → length bytes ≡ 0 → bytes ≡ []
empty_lem [] h = refl
empty_lem (b ∷ bytes) h = absurd (omega arith)

receive_step :
    (n size rem : ℕ) (p buffer : Bytes) (es : Events)
    → length p ≡ size
    → size ≤ length buffer
    → receive_packets (suc n) size rem true buffer (some p ∷ es)
      ≡ prefix_bytes p (receive_packets n size rem true (drop size buffer) es)
unfolding receive_packets
receive_step n size rem p buffer es h k =
    let whole : take size p ≡ p = take_all size p (omega arith) in
    let after : write_front p buffer ≡ some (p ++ drop size buffer) =
      write_front_fits p buffer (omega arith) ∙ ap (λ (m : ℕ). some (p ++ drop m buffer)) h in
    let front : take size (p ++ drop size buffer) ≡ p =
      ap (λ (m : ℕ). take m (p ++ drop size buffer)) (sym h)
      ∙ take-append_left p (drop size buffer) in
    let back : drop size (p ++ drop size buffer) ≡ drop size buffer =
      ap (λ (m : ℕ). drop m (p ++ drop size buffer)) (sym h)
      ∙ drop-append_left p (drop size buffer) in
    rw (whole, after, receive_packets) (rw (front, back))

-- The loop of `receive_data` puts the pieces together again, whatever the buffer held.
pub receive_wire :
    (n size rem : ℕ) (bytes buffer : Bytes) (es : Events)
    → length bytes ≡ n * size + rem
    → length buffer ≡ length bytes
    → receive_packets n size rem true buffer (arrive (wire n size rem bytes) ++ es)
      ≡ received true bytes es
receive_wire zero size rem bytes buffer es h k =
    unfold receive_packets receive_rest in
    elim (Bool-cases (rem == 0)) [
      | inl e ↦
          let none_left : rem ≡ 0 = (==_iff rem 0).0 e in
          rw (e, empty_lem bytes (omega arith), empty_lem buffer (omega arith))
      | inr e ↦ rw e (receive_remainder_lem rem bytes buffer es (omega arith) k)
    ]
receive_wire (suc n) size rem bytes buffer es h k =
    receive_step n size rem (take size bytes) buffer
      (arrive (wire n size rem (drop size bytes)) ++ es) (omega (arith, length-take size bytes))
      (omega arith)
    ∙ ap (prefix_bytes (take size bytes)) (
        receive_wire n size rem (drop size bytes) (drop size buffer) es
          (omega (arith, length-drop size bytes))
          (omega (arith, length-drop size bytes, length-drop size buffer)))
    ∙ ap (λ (r : Bytes). received true r es) (take-append-drop size bytes)
