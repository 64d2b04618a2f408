-- ===== src/Chat/Response/Offsets.antt =====
-- What the server's loop writes: the framed messages, and the positions at which they end.
use skype.Common.{
  ℕ, ◌+◌, ◌-◌, ◌%◌, ◌^◌, ◌≤◌, ◌<◌, ◌≡◌, refl, sym, ap, ◌∙◌, some, List, [], ◌∷◌, ◌++◌, map,
  append_assoc, append-nil, arith, Bytes, length, length-append, take-append_left, drop-append_left,
  le→leb,
}
use skype.Text.{substr, through_int, pieces}
use skype.Text.Number.{print_nat}
use skype.Text.Split.{intercalate}
use skype.Chat.{UserChat, comma, colon, to_string}
use skype.Chat.RoundTrip.{info, framed, to_string-info}
use skype.Chat.Response.{respond_loop}

abbrev pub frames : List UserChat → Bytes
frames [] = []
frames (c ∷ cs) = framed c ++ frames cs

-- The sizes of the content after each message, from the size before the first.
abbrev pub ends : ℕ → List UserChat → List ℕ
ends n [] = []
ends n (c ∷ cs) = (n + length (framed c)) ∷ ends (n + length (framed c)) cs

abbrev pub behind_commas : List ℕ → Bytes
behind_commas [] = []
behind_commas (n ∷ ns) = (comma ∷ print_nat n) ++ behind_commas ns

header_length : (c : UserChat) → length (to_string c) - length c.text ≡ length (info c)
header_length c = rw to_string-info (omega (arith, length-append (info c) c.text))

framed_lem :
    (c : UserChat)
    → (print_nat (length (to_string c) - length c.text) ++ colon ∷ []) ++ to_string c ≡ framed c
framed_lem c =
    rw header_length (append_assoc (print_nat (length (info c))) (colon ∷ []) (to_string c))

pub respond_loop_lem :
    (cs : List UserChat) (response content : Bytes)
    → respond_loop cs response content
      ≡ (response ++ behind_commas (ends (length content) cs), content ++ frames cs)
unfolding respond_loop
respond_loop_lem [] response content = simp append-nil
respond_loop_lem (c ∷ cs) response content =
    let content' = content ++ framed c in
    ap (λ (k : Bytes). respond_loop cs (response ++ comma ∷ print_nat (length k)) k)
      (ap (λ (k : Bytes). content ++ k) (framed_lem c))
    ∙ respond_loop_lem cs (response ++ comma ∷ print_nat (length content')) content'
    ∙ simp (length-append content (framed c), append_assoc)

pub behind_commas-intercalate :
    (n : ℕ) (ns : List ℕ)
    → intercalate (comma ∷ []) (map print_nat (n ∷ ns)) ≡ print_nat n ++ behind_commas ns
behind_commas-intercalate n [] = sym (append-nil _)
behind_commas-intercalate n (m ∷ ns) = rw (behind_commas-intercalate m ns)

through_int_small : (n : ℕ) → n < 2 ^ 31 → through_int n ≡ n
unfolding through_int
through_int_small n h = ground arith

substr_middle : (pre s post : Bytes) → substr (pre ++ (s ++ post)) (length pre) (length s) ≡ some s
unfolding substr
substr_middle pre s post = simp (
  le→leb (length pre) (length (pre ++ (s ++ post))) (omega (arith, length-append pre (s ++ post))),
  drop-append_left pre (s ++ post),
  take-append_left s post,
)

pieces_step :
    (s : Bytes) (p q : ℕ) (qs : List ℕ) (piece : Bytes) (rest : List Bytes)
    → p ≤ q
    → q < 2 ^ 31
    → substr s p (q - p) ≡ some piece
    → pieces s q qs ≡ some rest
    → pieces s p (q ∷ qs) ≡ some (piece ∷ rest)
unfolding pieces
pieces_step s p q qs piece rest h k e f =
    let width : through_int ((q + 2 ^ 64 - p) % 2 ^ 64) ≡ q - p =
      ap through_int (omega arith) ∙ through_int_small (q - p) (omega arith) in
    rw (through_int_small p (omega arith), width, e, f)

-- The client cuts the content into the framed messages.
pub pieces-frames :
    (cs : List UserChat) (pre : Bytes)
    → length (pre ++ frames cs) < 2 ^ 31
    → pieces (pre ++ frames cs) (length pre) (ends (length pre) cs) ≡ some (map framed cs)
pieces-frames [] pre h = unfold pieces in refl
pieces-frames (c ∷ cs) pre h =
    let long = length-append pre (framed c ++ frames cs) in
    let long' = length-append (framed c) (frames cs) in
    pieces_step (pre ++ (framed c ++ frames cs)) (length pre) (length pre + length (framed c))
      (ends (length pre + length (framed c)) cs) (framed c) (map framed cs) (omega arith)
      (omega (arith, long, long'))
      (ap (substr _ (length pre)) (omega arith) ∙ substr_middle pre (framed c) (frames cs))
      (simp (append_assoc pre (framed c) (frames cs), length-append pre (framed c)) at
        (pieces-frames cs (pre ++ framed c) (rw (append_assoc pre (framed c) (frames cs)) h)))
