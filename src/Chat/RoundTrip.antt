-- ===== src/Chat/RoundTrip.antt =====
-- `to_string` and `from_string` of a message with its header.
use skype.Common.{
  ◌<◌, ◌^◌, ◌≡◌, refl, ap, ◌∙◌, Bool, true, false, some, List, [], ◌∷◌, ◌++◌, append_assoc, arith,
  Bytes, codes, length, length-append, take-append_left, drop-append_left, take_all, le→leb, All,
  Lacks, same_text,
}
use skype.Common.Int.{ℤ, pos, IsInt}
use skype.Text.{split_at}
use skype.Text.Number.{print_nat, print_int, stoi}
use skype.Text.Number.Print.{print_nat-Lacks, print_int-Lacks}
use skype.Text.Number.Read.{stoi-print_int}
use skype.Text.Split.{intercalate, split-intercalate, split_first-append}
use skype.Chat.{
  UserChat, comma, colon, flag, to_string, load, from_fields, from_content, from_header,
  from_string,
}

-- The part of the printed message in front of its text.
abbrev pub info_fields : UserChat → List Bytes
info_fields c =
    print_int c.id
    ∷ c.created_at
    ∷ print_int c.sender
    ∷ print_int c.recipient
    ∷ flag c.delivered
    ∷ []

abbrev pub info : UserChat → Bytes
info c = intercalate (comma ∷ []) (info_fields c)

-- What the program stores: the numbers are `int`s, the time holds no comma, and the length of the
-- fields is an `int`.
pub record IsStored (c : UserChat) : Type 0 where
  pub id_fits : IsInt c.id
  pub sender_fits : IsInt c.sender
  pub recipient_fits : IsInt c.recipient
  pub time_plain : Lacks comma c.created_at
  pub info_fits : length (info c) < 2 ^ 31

pub to_string-info : (c : UserChat) → to_string c ≡ info c ++ c.text
unfolding to_string
to_string-info c = simp append_assoc

flag-Lacks : (b : Bool) → Lacks comma (flag b)
flag-Lacks true = omega arith
flag-Lacks false = omega arith

info_fields-Lacks : (c : UserChat) → Lacks comma c.created_at → All (Lacks comma) (info_fields c)
info_fields-Lacks c h =
    (number c.id, (h, (number c.sender, (number c.recipient, (flag-Lacks c.delivered, tt)))))
  where
    number : (z : ℤ) → Lacks comma (print_int z)
    number z = print_int-Lacks comma z (λ d. omega arith) (omega arith)

pub split_at-append : (s t : Bytes) → split_at (s ++ t) (length s) ≡ some (s, t)
unfolding split_at
split_at-append s t = simp (
  le→leb 0 (length (s ++ t)) (omega arith),
  le→leb (length s) (length (s ++ t)) (omega (arith, length-append s t)),
  take-append_left s t,
  drop-append_left s t,
  take_all (length (s ++ t)) t (omega (arith, length-append s t)),
)

same_text-flag : (b : Bool) → same_text (flag b) (codes "true") ≡ b
same_text-flag true = refl
same_text-flag false = refl

load_lem :
    (c d : UserChat) → IsStored c → (load (info_fields c) c.text d).0 ≡ record c { empty = d.empty }
unfolding load
load_lem c d h = simp (
  stoi-print_int c.id h.id_fits,
  stoi-print_int c.sender h.sender_fits,
  stoi-print_int c.recipient h.recipient_fits,
  same_text-flag c.delivered,
)

-- The text of a message with its header, as the server sends it.
abbrev pub framed : UserChat → Bytes
framed c = print_nat (length (info c)) ++ colon ∷ to_string c

stoi-header :
    (c : UserChat) → IsStored c → stoi (print_nat (length (info c))) ≡ some (pos (length (info c)))
stoi-header c h = unfold print_int in stoi-print_int (pos (length (info c))) h.info_fits

-- A message as the program stores them, printed behind the length of its fields, is read back with
-- every field but the flag empty, which stays as it was.
pub from_string-to_string :
    (c d : UserChat) → IsStored c → from_string d (framed c) ≡ record c { empty = d.empty }
unfolding from_string
from_string-to_string c d h =
    ap (λ (q : Bytes × Bytes). from_header d q.1 (stoi q.0))
      (split_first-append colon (print_nat (length (info c))) (to_string c)
        (print_nat-Lacks colon (length (info c)) (λ k. omega arith)))
    ∙ ap (from_header d (to_string c)) (stoi-header c h)
    ∙ ap (λ (s : Bytes). from_content d (split_at s (length (info c)))) (to_string-info c)
    ∙ ap (from_content d) (split_at-append (info c) c.text)
    ∙ ap (from_fields d c.text) (
        split-intercalate comma (print_int c.id)
          (c.created_at ∷ print_int c.sender ∷ print_int c.recipient ∷ flag c.delivered ∷ [])
          (info_fields-Lacks c h.time_plain))
    ∙ load_lem c d h
