-- ===== src/Chat/Response/Delivery.antt =====
-- The server's list of messages and the client's parser together.
use mathlib.Core.Option
use skype.Common.{
  ℕ, ◌+◌, ◌^◌, ◌<◌, ◌≡◌, refl, sym, ap, ◌∙◌, true, Option, none, some, List, [], ◌∷◌, ◌++◌, map,
  arith, Bytes, codes, length, length-append, All, All-append, Lacks, ◌>>=◌,
}
use skype.Text.{split, split_to_ints, split_at_positions, pieces, or_empty}
use skype.Text.Number.{print_nat}
use skype.Text.Number.Print.{print_nat-Lacks}
use skype.Text.Split.{split_first-append}
use skype.Text.Ints.{Small, ints_of, split_to_ints-split, split_to_ints-intercalate}
use skype.Chat.{UserChat, new_chat, comma, colon, from_string}
use skype.Chat.RoundTrip.{IsStored, framed, from_string-to_string}
use skype.Chat.Response.{build_response, parse_chat}
use skype.Chat.Response.Offsets.{
  frames, ends, behind_commas, respond_loop_lem, behind_commas-intercalate, pieces-frames,
}

-- A received message is the stored one, but reports that it is empty.
abbrev pub received : UserChat → UserChat
received c = record c { empty = true }

abbrev header_of : List UserChat → Bytes
header_of cs = codes "0" ++ behind_commas (ends 0 cs)

build_response_lem : (cs : List UserChat) → build_response cs ≡ header_of cs ++ colon ∷ frames cs
unfolding build_response
build_response_lem cs = rw respond_loop_lem

behind_commas-Lacks : (ns : List ℕ) → Lacks colon (behind_commas ns)
behind_commas-Lacks [] = tt
behind_commas-Lacks (n ∷ ns) =
    All-append _ (comma ∷ print_nat n) (behind_commas ns)
      (omega arith, print_nat-Lacks colon n (λ h. omega arith)) (behind_commas-Lacks ns)

ends-Small : (n : ℕ) (cs : List UserChat) → n + length (frames cs) < 2 ^ 31 → All Small (ends n cs)
ends-Small n [] h = tt
ends-Small n (c ∷ cs) h =
    let long = length-append (framed c) (frames cs) in
    (omega (arith, long), ends-Small (n + length (framed c)) cs (omega (arith, long)))

map-from_string :
    (cs : List UserChat)
    → All IsStored cs
    → map (from_string new_chat) (map framed cs) ≡ map received cs
map-from_string [] h = refl
map-from_string (c ∷ cs) (h, hs) = cc (from_string-to_string c new_chat h, map-from_string cs hs)

-- The two halves of `parse_chat` behind the status code.
parse_chat_lem :
    (header content : Bytes)
    → Lacks colon header
    → parse_chat (codes "201 " ++ (header ++ colon ∷ content)) ≡ (do
      positions ← split_to_ints header (codes ",")
      chats ← split_at_positions content positions
      some (map (from_string new_chat) chats))
unfolding parse_chat
parse_chat_lem header content h = rw (
  split_first-append 32 (codes "201") (header ++ colon ∷ content) (omega arith),
  split_first-append colon header content h,
)

header-ints :
    (cs : List UserChat)
    → length (frames cs) < 2 ^ 31
    → split_to_ints (header_of cs) (codes ",") ≡ some (0 ∷ ends 0 cs)
unfolding print_nat
header-ints cs h =
    ap (λ (s : Bytes). split_to_ints s (codes ",")) (sym (behind_commas-intercalate 0 (ends 0 cs)))
    ∙ split_to_ints-intercalate comma 0 (ends 0 cs) (λ d. omega arith)
        (omega arith, ends-Small 0 cs (omega arith))

split_at_positions_lem :
    (s : Bytes) (p : ℕ) (ps : List ℕ) → split_at_positions s (p ∷ ps) ≡ pieces s p ps
unfolding split_at_positions
split_at_positions_lem s p ps = refl

-- For messages as the program stores them, fewer than 2^31 bytes with their frames, the client
-- reads from the server's answer to CHAT or PENDING the messages that the server listed, in their
-- order and with every field, except that each of them reports to be empty.
pub parse_chat-build_response :
    (cs : List UserChat)
    → All IsStored cs
    → length (frames cs) < 2 ^ 31
    → parse_chat (codes "201 " ++ build_response cs) ≡ some (map received cs)
parse_chat-build_response cs h k =
    ap (λ (s : Bytes). parse_chat (codes "201 " ++ s)) (build_response_lem cs)
    ∙ parse_chat_lem (header_of cs) (frames cs) (omega arith, behind_commas-Lacks (ends 0 cs))
    ∙ rw (header-ints cs k, split_at_positions_lem, pieces-frames cs [] k)
        (ap some (map-from_string cs h))

-- A header of the answer in which a piece between commas is no number makes the client's parser
-- throw.
pub parse_chat_throws :
    (header content : Bytes) (ps : List Bytes)
    → Lacks colon header
    → split header (codes ",") ≡ some ps
    → ints_of ps ≡ none
    → parse_chat (codes "201 " ++ (header ++ colon ∷ content)) ≡ none
parse_chat_throws header content ps h e f =
    let emptied : split_to_ints header (codes ",") ≡ some [] =
      split_to_ints-split comma [] header
      ∙ ap (Option.map (λ (qs : List Bytes). or_empty (ints_of qs))) e
      ∙ ap (λ (r : Option (List ℕ)). some (or_empty r)) f in
    parse_chat_lem header content h ∙ unfold split_at_positions in rw emptied
