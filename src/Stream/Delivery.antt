-- ===== src/Stream/Delivery.antt =====
-- `respond` and `receive` of src/shared/connection/stream_io.cpp together.
use skype.Common.{
  ℕ, ◌+◌, ◌/◌, ◌%◌, ◌^◌, ◌≤◌, ◌<◌, ◌≡◌, refl, sym, ap, ◌∙◌, Bool, true, ◌⊎◌, inl, inr, some, [],
  ◌∷◌, ◌++◌, map, arith, Bytes, length, drop, replicate, length-replicate, take_all, le→leb,
  lt→leb_false,
}
use native.Mathlib.Nat.{div-le_self}
use skype.Stream.{
  grow_by, DataType, audio, video, type_to_char, char_to_type, PacketInfo, make_packet_info,
  make_header,
}
use skype.Stream.Header.{
  length-make_header, Fits, read_header-make_header, char_to_type-type_to_char,
}
use skype.Stream.Packets.{total, make_packet_info-total}
use skype.Stream.Transfer.{
  Events, received, alloc_limit, receive_data, send_header_and_data, respond, wait_header,
  receive_header, reception, keep_valid, receive_as, receive,
}
use skype.Stream.Wire.{wire, arrive, send_data-wire, receive_wire}

-- Audio and video are the types that carry data.
abbrev pub IsMedia : DataType → Type 0
IsMedia ty = (ty ≡ audio) ⊎ (ty ≡ video)

module _ (sendto : ℕ → Bool) (sends : (k : ℕ) → sendto k ≡ true) where
  header_and_data_wire :
      (i : PacketInfo) (bytes : Bytes)
      → send_header_and_data sendto i bytes true
        ≡ (true, make_header i ∷ wire i.nb_packets i.packet_size i.rem_size bytes)
  unfolding send_header_and_data
  header_and_data_wire i bytes =
      rw (sends 0) (send_data-wire sendto sends i bytes (make_header i ∷ []))

  respond_media :
      (ty : DataType) (bytes : Bytes)
      → IsMedia ty
      → respond sendto ty bytes true
        ≡ (let i = make_packet_info ty (length bytes) in send_header_and_data sendto i bytes true)
  unfolding respond
  respond_media ty bytes (inl e) = rw (e, respond) (rw length-make_header)
  respond_media ty bytes (inr e) = rw (e, respond) (rw length-make_header)

  -- With calls that succeed, the header leaves first, and the pieces of the data follow in order.
  pub respond-wire :
      (ty : DataType) (bytes : Bytes)
      → IsMedia ty
      → respond sendto ty bytes true ≡ (
          let i = make_packet_info ty (length bytes) in
          (true, make_header i ∷ wire i.nb_packets i.packet_size i.rem_size bytes))
  respond-wire ty bytes m =
      respond_media ty bytes m ∙ header_and_data_wire (make_packet_info ty (length bytes)) bytes

receive_header_lem :
    (i : PacketInfo) (es : Events)
    → Fits i
    → receive_header true (some (make_header i) ∷ es) ≡ some (i, true, es)
unfolding receive_header wait_header
receive_header_lem i es h =
    rw (le→leb 25 (length (make_header i)) (omega (arith, length-make_header i))) (
      rw (take_all 25 (make_header i) (omega (arith, length-make_header i)))
        (rw (read_header-make_header i h)))

receive_media :
    (ty : DataType) (i : PacketInfo) (es : Events)
    → IsMedia ty
    → i.data_type ≡ type_to_char ty
    → Fits i
    → receive true (some (make_header i) ∷ es) ≡ keep_valid ty (receive_data i true es)
unfolding receive
receive_media ty i es m e h =
    rw (receive_header_lem i es h, receive)
      (ap (λ (t : DataType). receive_as t i true es)
          (ap char_to_type e ∙ char_to_type-type_to_char ty)
        ∙ receive_as_media ty m)
  where
    receive_as_media :
        (t : DataType) → IsMedia t → receive_as t i true es ≡ keep_valid t (receive_data i true es)
    receive_as_media t (inl a) = unfold receive_as in rw (a, receive_as)
    receive_as_media t (inr v) = unfold receive_as in rw (v, receive_as)

make_packet_info_type :
    (ty : DataType) (n : ℕ) → (make_packet_info ty n).data_type ≡ type_to_char ty
unfolding make_packet_info
make_packet_info_type ty n = ground arith

receive_data-wire :
    (i : PacketInfo) (bytes : Bytes) (es : Events)
    → total i ≡ length bytes
    → length bytes < alloc_limit
    → receive_data i true (arrive (wire i.nb_packets i.packet_size i.rem_size bytes) ++ es)
      ≡ received true bytes es
unfolding receive_data
receive_data-wire i bytes es h k =
    let alloc : total i % 2 ^ 64 ≡ length bytes = omega (arith, h) in
    rw (alloc, lt→leb_false alloc_limit (length bytes) k)
      (receive_wire i.nb_packets i.packet_size i.rem_size bytes (replicate (length bytes) 0) es
        (sym h) (length-replicate (length bytes) 0))

receive_data_large :
    (i : PacketInfo) (es : Events)
    → alloc_limit ≤ total i % 2 ^ 64
    → receive_data i true es ≡ received true [] es
unfolding receive_data
receive_data_large i es h = rw (le→leb alloc_limit (total i % 2 ^ 64) h)

make_packet_info-Fits : (ty : DataType) (n : ℕ) → n < 80_000_000 → Fits (make_packet_info ty n)
make_packet_info-Fits ty n h =
    let (whole, small, small') = make_packet_info-total ty n h in
    record { nb_fits = nb_bound ty n h; size_fits = omega arith; rem_fits = omega arith }
  where
    nb_bound : (t : DataType) (m : ℕ) → m < 80_000_000 → (make_packet_info t m).nb_packets < 2 ^ 64
    nb_bound t m k = unfold make_packet_info in ground (arith, div-le_self m (m / (10 + grow_by m)))

-- Audio or video of less than 1,000,000 bytes, sent by calls that succeed and received in order,
-- arrives as the same type and the same bytes, and nothing behind it is read.
pub receive-respond :
    (sendto : ℕ → Bool) (ty : DataType) (bytes : Bytes) (es : Events)
    → ((k : ℕ) → sendto k ≡ true)
    → IsMedia ty
    → length bytes < alloc_limit
    → ((respond sendto ty bytes true).0 ≡ true)
      × (receive true (map some (respond sendto ty bytes true).1 ++ es)
          ≡ reception true (some (ty, bytes)) es)
receive-respond sendto ty bytes es sends m h =
    let i = make_packet_info ty (length bytes) in
    rw (respond-wire sendto sends ty bytes m) (
      refl,
      receive_media ty i _ m (make_packet_info_type ty (length bytes))
            (make_packet_info-Fits ty (length bytes) (omega arith))
          ∙ ap (keep_valid ty) (
              receive_data-wire i bytes es
                (make_packet_info-total ty (length bytes) (omega arith)).0 h),
    )

-- Audio or video of 1,000,000 bytes or more, up to 80,000,000, is received as valid data with no
-- bytes, and the datagrams behind the header are left unread.
pub receive-respond_large :
    (sendto : ℕ → Bool) (ty : DataType) (bytes : Bytes) (es : Events)
    → ((k : ℕ) → sendto k ≡ true)
    → IsMedia ty
    → alloc_limit ≤ length bytes
    → length bytes < 80_000_000
    → receive true (map some (respond sendto ty bytes true).1 ++ es)
      ≡ reception true (some (ty, [])) (map some (drop 1 (respond sendto ty bytes true).1) ++ es)
receive-respond_large sendto ty bytes es sends m h k =
    let i = make_packet_info ty (length bytes) in
    rw (respond-wire sendto sends ty bytes m) (
      receive_media ty i _ m (make_packet_info_type ty (length bytes))
        (make_packet_info-Fits ty (length bytes) k)
      ∙ ap (keep_valid ty)
          (receive_data_large i _ (omega (arith, (make_packet_info-total ty (length bytes) k).0))))
