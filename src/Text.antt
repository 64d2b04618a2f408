-- ===== src/Text.antt =====
-- src/shared/utils/string_utils.cpp, over lists of bytes, and what it uses of `std::string`.
-- A call that throws or that has no end is `none`; positions are below 2^31, so that the source's
-- `int` positions do not wrap.
pub mod Number
pub mod Find
pub mod Split
pub mod Ints
pub mod Trim
mod Tests
use skype.Common.{
  ℕ, zero, suc, ◌+◌, ◌-◌, ◌%◌, ◌^◌, ltb, Bool, true, false, ◌&&◌, ◌||◌, not, Option, none, some,
  List, [], ◌∷◌, ◌++◌, arith, Bytes, length, take, drop, leb, ◌==◌, if◌then◌else◌, ◌>>=◌,
}
use skype.Common.Int.{ℤ, pos, negsuc, to_size}
use mathlib.Core.Option
use mathlib.Core.List.{map, reverse}
use Number.{stoi, is_space}

unfoldable pub starts_with : Bytes → Bytes → Bool
starts_with [] s = true
starts_with (d ∷ ds) [] = false
starts_with (d ∷ ds) (c ∷ s) = c == d && starts_with ds s

-- `s.find(delim)`: the first position at which the delimiter stands.
unfoldable pub find : Bytes → Bytes → Option ℕ
find delim [] = if starts_with delim [] then some 0 else none
find delim (c ∷ s) =
    if starts_with delim (c ∷ s) then some 0 else Option.map (λ (i : ℕ). suc i) (find delim s)

-- The loop of `split`, over the part of the text from `start` on; its rounds are counted by fuel.
unfoldable pub split_loop : ℕ → Bytes → Bytes → Option (List Bytes)
split_loop zero delim s = none
split_loop (suc fuel) delim s = elim (find delim s) [
  | none ↦ some (s ∷ [])
  | some end ↦
      Option.map (λ (ps : List Bytes). take end s ∷ ps)
        (split_loop fuel delim (drop (end + length delim) s))
]

unfoldable pub split : Bytes → Bytes → Option (List Bytes)
unfolding split_loop find starts_with
split s delim = split_loop (suc (length s)) delim s

-- The loop of `split_to_ints`: `stoi` throws at a piece that is no number.
unfoldable pub split_ints_loop : ℕ → Bytes → Bytes → Option (Option (List ℕ))
split_ints_loop zero delim s = none
split_ints_loop (suc fuel) delim s = elim (find delim s) [
  | none ↦ some (Option.map (λ v. to_size v ∷ []) (stoi s))
  | some end ↦ elim (stoi (take end s)) [
    | none ↦ some none
    | some v ↦
        Option.map (λ (r : Option (List ℕ)). Option.map (λ vs. to_size v ∷ vs) r)
          (split_ints_loop fuel delim (drop (end + length delim) s))
  ]
]

-- What is thrown is caught, and the result is then empty.
abbrev pub or_empty : Option (List ℕ) → List ℕ
or_empty none = []
or_empty (some vs) = vs

unfoldable pub split_to_ints : Bytes → Bytes → Option (List ℕ)
unfolding split_ints_loop find starts_with stoi
split_to_ints s delim = Option.map or_empty (split_ints_loop (suc (length s)) delim s)

unfoldable pub split_first : Bytes → Bytes → Bytes × Bytes
unfolding find starts_with
split_first [] delim = ([], [])
split_first (c ∷ s) delim = elim (find delim (c ∷ s)) [
  | none ↦ (c ∷ s, [])
  | some end ↦ (take end (c ∷ s), drop (end + length delim) (c ∷ s))
]

-- `substr(p, n)` throws if `p` is past the end.
unfoldable pub substr : Bytes → ℕ → ℕ → Option Bytes
substr s p n = if leb p (length s) then some (take n (drop p s)) else none

unfoldable pub split_at : Bytes → ℕ → Option (Bytes × Bytes)
unfolding substr
split_at s p = do first ← substr s 0 p; second ← substr s p (length s); some (first, second)

-- A `std::size_t` that goes through an `int` and back.
unfoldable pub through_int : ℕ → ℕ
through_int n = if ltb (n % 2 ^ 32) (2 ^ 31) then n % 2 ^ 32 else 2 ^ 64 - 2 ^ 32 + n % 2 ^ 32

-- The loop of the second `split_at`: piece `i` runs from position `i` to position `i + 1`; the
-- difference is taken in `std::size_t`, and both numbers are held as `int`.
unfoldable pub pieces : Bytes → ℕ → List ℕ → Option (List Bytes)
pieces s p [] = some []
pieces s p (q ∷ qs) = do
  piece ← substr s (through_int p) (through_int ((q + 2 ^ 64 - p) % 2 ^ 64))
  rest ← pieces s q qs
  some (piece ∷ rest)

-- With no position `t_pos.size() - 1` wraps around, and `t_pos.at(0)` throws.
unfoldable pub split_at_positions : Bytes → List ℕ → Option (List Bytes)
unfolding pieces substr through_int
split_at_positions s [] = none
split_at_positions s (p ∷ ps) = pieces s p ps

unfoldable pub to_int : Bytes → Bool × ℤ
unfolding stoi
to_int s = elim (stoi s) [ none ↦ (false, negsuc 0) | some v ↦ (true, v) ]

-- The loop of `last`: `end` is never computed anew, so that a delimiter is found in every round.
unfoldable pub last_loop : ℕ → Bytes → Bytes → ℕ → Option ℕ → Option Bytes
last_loop zero s delim start end = none
last_loop (suc fuel) s delim start none = some (drop start s)
last_loop (suc fuel) s delim start (some e) = last_loop fuel s delim (e + length delim) (some e)

unfoldable pub last : ℕ → Bytes → Bytes → Option Bytes
unfolding last_loop find starts_with
last fuel s delim = last_loop fuel s delim 0 (find delim s)

unfoldable pub concat_with : Bytes → List Bytes → Bytes
concat_with delim [] = []
concat_with delim (s ∷ ss) = (s ++ delim) ++ concat_with delim ss

-- `pop_back` of an empty text is undefined.
unfoldable pub pop_back : Bytes → Option Bytes
pop_back [] = none
pop_back (c ∷ []) = some []
pop_back (c ∷ d ∷ s) = Option.map (λ (r : Bytes). c ∷ r) (pop_back (d ∷ s))

unfoldable pub join : List Bytes → Bytes → Option Bytes
unfolding concat_with pop_back
join ss [] = some (concat_with [] ss)
join ss (d ∷ delim) = pop_back (concat_with (d ∷ delim) ss)

-- `isspace` already covers the three other tests of the source.
unfoldable pub trim_left : Bytes → Bytes
trim_left [] = []
trim_left (c ∷ s) =
    let rest = trim_left s in
    if not (is_space c) && not (c == b'\n') && not (c == b'\t') && not (c == b'\r')
    then c ∷ s
    else rest

unfoldable pub trim_right : Bytes → Bytes
unfolding trim_left
trim_right s = reverse (trim_left (reverse s))

unfoldable pub trim : Bytes → Bytes
unfolding trim_left trim_right is_space
trim s = trim_right (trim_left s)

unfoldable pub upper : ℕ → ℕ
upper c = if leb b'a' c && leb c b'z' then c - 32 else c

unfoldable pub to_upper : Bytes → Bytes
unfolding upper
to_upper s = map upper s
