-- ===== src/Poll/Slots.antt =====
-- src/shared/connection/connection_poll.cpp: the slots behind the listening socket.
use skype.Common.{
  ℕ, zero, suc, ◌-◌, ◌≡◌, refl, sym, ap, ◌∙◌, ◌<◌, Bool, false, not, ◌&&◌, List, [], ◌∷◌, ◌++◌,
  length, replicate, arith, All, length-append, append_assoc, leb, ◌⊎◌, inl, inr, Bool-cases,
}
use skype.Common.Int.{ℤ, ◌=ℤ◌, =ℤ_iff}
use skype.Poll.{
  max_connections, no_socket, write_slot, clear_socket, reposition_poll, reposition_from,
  count_sockets, first_ready,
}

abbrev pub Other : ℤ → ℤ → Type 0
Other s x = (x =ℤ s) ≡ false

pub write_slot-append :
    (s y : ℤ) (xs ys : List ℤ) → write_slot (length xs) s (xs ++ y ∷ ys) ≡ xs ++ s ∷ ys
unfolding write_slot
write_slot-append s y [] ys = refl
write_slot-append s y (x ∷ xs) ys = ap (λ l. x ∷ l) (write_slot-append s y xs ys)

pub reposition-free :
    (n : ℕ) → reposition_from no_socket (replicate n no_socket) ≡ no_socket ∷ replicate n no_socket
unfolding reposition_from
reposition-free zero = refl
reposition-free (suc n) = ap (λ l. no_socket ∷ l) (reposition-free n)

-- The free slot moves behind the sockets.
pub reposition-moves :
    (zs : List ℤ) (n : ℕ)
    → All (Other no_socket) zs
    → reposition_from no_socket (zs ++ replicate n no_socket)
      ≡ zs ++ no_socket ∷ replicate n no_socket
unfolding reposition_from
reposition-moves [] n h = reposition-free n
reposition-moves (z ∷ zs) n (p, h) = rw p (ap (λ l. z ∷ l) (reposition-moves zs n h))

pub reposition-append :
    (y : ℤ) (ys rest : List ℤ) (free : ℤ)
    → (y =ℤ no_socket) ≡ false
    → All (Other no_socket) ys
    → reposition_from y (ys ++ free ∷ rest) ≡ y ∷ (ys ++ reposition_from free rest)
unfolding reposition_from
reposition-append y [] rest free p h = rw p refl
reposition-append y (z ∷ ys) rest free p (q, h) =
    rw p (ap (λ l. y ∷ l) (reposition-append z ys rest free q h))

pub reposition_poll-append :
    (ys zs : List ℤ) (n : ℕ)
    → All (Other no_socket) ys
    → All (Other no_socket) zs
    → reposition_poll (ys ++ no_socket ∷ (zs ++ replicate n no_socket))
      ≡ ys ++ (zs ++ no_socket ∷ replicate n no_socket)
unfolding reposition_poll
reposition_poll-append [] zs n h k = reposition-moves zs n k
reposition_poll-append (y ∷ ys) zs n (p, h) k =
    reposition-append y ys (zs ++ replicate n no_socket) no_socket p h
    ∙ ap (λ l. y ∷ (ys ++ l)) (reposition-moves zs n k)

pub clear-free : (s : ℤ) (n : ℕ) → clear_socket s (replicate n no_socket) ≡ replicate n no_socket
unfolding clear_socket
clear-free s zero = refl
clear-free s (suc n) = ground (arith, clear-free s n)

pub clear-append :
    (s : ℤ) (xs ys : List ℤ)
    → All (Other s) xs
    → clear_socket s (xs ++ ys) ≡ xs ++ clear_socket s ys
unfolding clear_socket
clear-append s [] ys h = refl
clear-append s (x ∷ xs) ys (p, h) = rw p (ap (λ l. x ∷ l) (clear-append s xs ys h))

pub clear_self : (s : ℤ) (xs : List ℤ) → clear_socket s (s ∷ xs) ≡ no_socket ∷ clear_socket s xs
unfolding clear_socket
clear_self s xs = rw ((=ℤ_iff s s).1 refl) refl

pub count-append :
    (xs : List ℤ) (n : ℕ)
    → All (Other no_socket) xs
    → count_sockets (xs ++ replicate n no_socket) ≡ length xs
unfolding count_sockets
count-append [] zero h = refl
count-append [] (suc n) h = refl
count-append (x ∷ xs) n (p, h) = rw p (ap suc (count-append xs n h))

pub replicate-suc :
    (n m : ℕ) → n ≡ suc m → replicate n no_socket ≡ no_socket ∷ replicate m no_socket
replicate-suc n m e = rw e refl

-- The slots behind a write to the first free one.
pub write_slot-room :
    (own s : ℤ) (xs : List ℤ)
    → length xs < 9
    → write_slot (suc (length xs)) s (own ∷ (xs ++ replicate (9 - length xs) no_socket))
      ≡ own ∷ ((xs ++ s ∷ []) ++ replicate (9 - length (xs ++ s ∷ [])) no_socket)
unfolding write_slot
write_slot-room own s xs room =
    let free = 9 - length (xs ++ s ∷ []) in
    let more : 9 - length xs ≡ suc free = omega (arith, room, length-append xs (s ∷ [])) in
    ap (λ (l : List ℤ). own ∷ write_slot (length xs) s (xs ++ l))
      (replicate-suc (9 - length xs) free more)
    ∙ ap (λ (l : List ℤ). own ∷ l) (write_slot-append s no_socket xs (replicate free no_socket))
    ∙ ap (λ (l : List ℤ). own ∷ l) (sym (append_assoc xs (s ∷ []) (replicate free no_socket)))

-- The slots once a socket is cleared and the gap closed.
pub reposition-clear :
    (s : ℤ) (ys zs : List ℤ) (n : ℕ)
    → All (Other s) ys
    → All (Other s) zs
    → All (Other no_socket) ys
    → All (Other no_socket) zs
    → reposition_poll (clear_socket s ((ys ++ s ∷ zs) ++ replicate n no_socket))
      ≡ (ys ++ zs) ++ replicate (suc n) no_socket
reposition-clear s ys zs n before behind valid valid' =
    let free = replicate n no_socket in
    let cleared : clear_socket s ((ys ++ s ∷ zs) ++ free) ≡ ys ++ no_socket ∷ (zs ++ free) =
      ap (clear_socket s) (append_assoc ys (s ∷ zs) free)
      ∙ clear-append s ys (s ∷ (zs ++ free)) before
      ∙ ap (λ (l : List ℤ). ys ++ l)
          (clear_self s (zs ++ free)
            ∙ ap (λ (l : List ℤ). no_socket ∷ l)
                (clear-append s zs free behind ∙ ap (λ (l : List ℤ). zs ++ l) (clear-free s n))) in
    ap reposition_poll cleared
    ∙ reposition_poll-append ys zs n valid valid'
    ∙ sym (append_assoc ys zs (no_socket ∷ free))

pub leb-false : (xs : List ℤ) → length xs < 9 → leb max_connections (suc (length xs)) ≡ false
leb-false xs room = ground arith

pub reposition-packed :
    (x : ℤ) (xs : List ℤ) (n : ℕ)
    → (x =ℤ no_socket) ≡ false
    → All (Other no_socket) xs
    → reposition_from x (xs ++ replicate n no_socket) ≡ x ∷ (xs ++ replicate n no_socket)
unfolding reposition_from
reposition-packed x [] zero p h = refl
reposition-packed x [] (suc n) p h = rw p (ap (λ l. x ∷ l) (reposition-free n))
reposition-packed x (y ∷ xs) n p (q, h) = rw p (ap (λ l. x ∷ l) (reposition-packed y xs n q h))

pub reposition_poll-packed :
    (xs : List ℤ) (n : ℕ)
    → All (Other no_socket) xs
    → reposition_poll (xs ++ replicate n no_socket) ≡ xs ++ replicate n no_socket
unfolding reposition_poll
reposition_poll-packed [] zero h = refl
reposition_poll-packed [] (suc n) h = reposition-free n
reposition_poll-packed (x ∷ xs) n (p, h) = reposition-packed x xs n p h

pub first_ready-free :
    (ready : ℤ → Bool) (n : ℕ) → first_ready ready (replicate n no_socket) ≡ no_socket
unfolding first_ready
first_ready-free ready zero = refl
first_ready-free ready (suc n) = first_ready-free ready n

pub first_ready-cases :
    (ready : ℤ → Bool) (n : ℕ) (xs : List ℤ)
    → (first_ready ready (xs ++ replicate n no_socket) ≡ no_socket)
      ⊎ ((ys zs : List ℤ) × (xs ≡ ys ++ first_ready ready (xs ++ replicate n no_socket) ∷ zs))
unfolding first_ready
first_ready-cases ready n [] = inl (first_ready-free ready n)
first_ready-cases ready n (x ∷ xs) = elim (Bool-cases (not (x =ℤ no_socket) && ready x)) [
  | inl here ↦ inr ([], xs, rw here refl)
  | inr more ↦ elim (first_ready-cases ready n xs) [
    | inl none_ready ↦ inl (rw more none_ready)
    | inr (ys, zs, e) ↦ inr (x ∷ ys, zs, rw more (ap (λ l. x ∷ l) e))
  ]
]
