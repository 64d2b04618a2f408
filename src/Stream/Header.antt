-- ===== src/Stream/Header.antt =====
-- The header of 25 bytes: `make_header` and `read_header`.
use skype.Common.{
  ℕ, zero, suc, ◌/◌, ◌^◌, ◌<◌, ◌≡◌, refl, sym, ap, ◌∙◌, [], ◌∷◌, ◌++◌, arith, append_assoc,
  append-nil, Bytes, length, take, drop, length-append, take-append_left, drop-append_left,
}
use native.Mathlib.Nat.{pow-suc}
use skype.Stream.{
  DataType, audio, video, text, empty, done, type_to_char, char_to_type, PacketInfo, le_bytes,
  from_le, push_to_header, make_header, read_header_item, read_header,
}

length-le_bytes : (n v : ℕ) → length (le_bytes n v) ≡ n
unfolding le_bytes
length-le_bytes zero v = refl
length-le_bytes (suc n) v = ap suc (length-le_bytes n (v / 256))

from_le-le_bytes : (n v : ℕ) → v < 256 ^ n → from_le (le_bytes n v) ≡ v
unfolding le_bytes from_le
from_le-le_bytes zero v h = omega arith
from_le-le_bytes (suc n) v h =
    let bound : v / 256 < 256 ^ n = omega (arith, pow-suc 256 n) in
    omega (arith, from_le-le_bytes n (v / 256) bound)

pub char_to_type-type_to_char : (ty : DataType) → char_to_type (type_to_char ty) ≡ ty
unfolding type_to_char char_to_type
char_to_type-type_to_char audio = refl
char_to_type-type_to_char video = refl
char_to_type-type_to_char text = refl
char_to_type-type_to_char empty = refl
char_to_type-type_to_char done = refl

make_header_lem :
    (i : PacketInfo)
    → make_header i
      ≡ i.data_type
        ∷ (le_bytes 8 i.nb_packets ++ (le_bytes 8 i.packet_size ++ le_bytes 8 i.rem_size))
unfolding make_header push_to_header
make_header_lem i = simp append_assoc

pub length-make_header : (i : PacketInfo) → length (make_header i) ≡ 25
length-make_header i = rw make_header_lem (
    omega (
      arith,
      length-append (le_bytes 8 i.nb_packets) (le_bytes 8 i.packet_size ++ le_bytes 8 i.rem_size),
      length-append (le_bytes 8 i.packet_size) (le_bytes 8 i.rem_size),
      length-le_bytes 8 i.nb_packets,
      length-le_bytes 8 i.packet_size,
      length-le_bytes 8 i.rem_size,
    ))

read_item :
    (pre post : Bytes) (v p : ℕ)
    → length pre ≡ p
    → v < 2 ^ 64
    → read_header_item (pre ++ (le_bytes 8 v ++ post)) p ≡ v
unfolding read_header_item
read_item pre post v p e h =
    ap (λ (q : ℕ). from_le (take 8 (drop q (pre ++ (le_bytes 8 v ++ post))))) (sym e)
    ∙ ap (λ (s : Bytes). from_le (take 8 s)) (drop-append_left pre (le_bytes 8 v ++ post))
    ∙ ap (λ (q : ℕ). from_le (take q (le_bytes 8 v ++ post))) (sym (length-le_bytes 8 v))
    ∙ ap from_le (take-append_left (le_bytes 8 v) post)
    ∙ from_le-le_bytes 8 v h

-- The sizes are `std::size_t`s.
pub record Fits (i : PacketInfo) : Type 0 where
  pub nb_fits : i.nb_packets < 2 ^ 64
  pub size_fits : i.packet_size < 2 ^ 64
  pub rem_fits : i.rem_size < 2 ^ 64

module _ (i : PacketInfo) (h : Fits i) where
  read_nb : read_header_item (make_header i) 1 ≡ i.nb_packets
  read_nb =
      ap (λ (s : Bytes). read_header_item s 1) (make_header_lem i)
      ∙ read_item (i.data_type ∷ []) (le_bytes 8 i.packet_size ++ le_bytes 8 i.rem_size)
          i.nb_packets 1 refl h.nb_fits

  read_size : read_header_item (make_header i) 9 ≡ i.packet_size
  read_size =
      ap (λ (s : Bytes). read_header_item s 9) (make_header_lem i)
      ∙ read_item (i.data_type ∷ le_bytes 8 i.nb_packets) (le_bytes 8 i.rem_size) i.packet_size 9
          (omega (arith, length-le_bytes 8 i.nb_packets)) h.size_fits

  regroup :
      make_header i
      ≡ (i.data_type ∷ (le_bytes 8 i.nb_packets ++ le_bytes 8 i.packet_size))
        ++ (le_bytes 8 i.rem_size ++ [])
  regroup = rw make_header_lem (simp (append_assoc, append-nil))

  read_rem : read_header_item (make_header i) 17 ≡ i.rem_size
  read_rem =
      ap (λ (s : Bytes). read_header_item s 17) regroup
      ∙ read_item (i.data_type ∷ (le_bytes 8 i.nb_packets ++ le_bytes 8 i.packet_size)) []
          i.rem_size 17
          (omega (
            arith,
            length-append (le_bytes 8 i.nb_packets) (le_bytes 8 i.packet_size),
            length-le_bytes 8 i.nb_packets,
            length-le_bytes 8 i.packet_size,
          ))
          h.rem_fits

  read_type : (read_header (make_header i)).data_type ≡ i.data_type
  unfolding read_header
  read_type = rw make_header_lem

-- A header that was made of sizes below 2^64 is read back as it was.
pub read_header-make_header : (i : PacketInfo) → Fits i → read_header (make_header i) ≡ i
unfolding read_header
read_header-make_header i h =
    ground (arith, read_type i h, read_nb i h, read_size i h, read_rem i h)
