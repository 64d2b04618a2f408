-- ===== src/Client/Lines.antt =====
-- The text of the contacts that src/server/user_controllers.cpp sends, as lines and fields.
use mathlib.Core.List.{map}
use skype.Common.{
  ℕ, Bool, true, false, ◌≡◌, ◌≢◌, refl, sym, ap, ◌∙◌, none, some, List, [], ◌∷◌, ◌++◌, Bytes, codes,
  arith, append_assoc, All, All-append, Lacks,
}
use skype.Common.Int.{ℤ, pos, IsInt, ◌=ℤ◌}
use skype.Text.{concat_with}
use skype.Text.Split.{intercalate}
use skype.Text.Trim.{concat_with-intercalate, pop_back-append}
use skype.Text.Number.{print_int}
use skype.Text.Number.Print.{print_int-Lacks}
use skype.User.{User, to_string, online_text}
use skype.Server.{State}
use skype.Server.Calls.{call_awaits}
use skype.Server.Users.{contact_lines, awaiting_text, without_last}
use skype.Client.{Details}

-- A contact as `list_user_contacts` gives it, with a number that is no zero and a name that holds
-- none of the bytes that separate fields and contacts.
pub record IsShown (u : User) : Type 0 where
  pub fits : IsInt u.id
  pub nonzero : (u.id =ℤ pos 0) ≡ false
  pub no_password : u.password ≡ []
  pub no_address : u.address ≡ []
  pub no_comma : Lacks b',' u.username
  pub no_blank : Lacks b' ' u.username

-- What the client shows of a contact.
abbrev pub entry : {Db : Type 0} → State Db → User → ℤ × Details
entry s u = (
  u.id,
  record { username = u.username; id = u.id; online = u.online; awaiting = call_awaits u.id s },
)

abbrev pub fields : User → Bool → List Bytes
fields u waits =
    (codes "id:" ++ print_int u.id)
    ∷ (codes "username:" ++ u.username)
    ∷ (codes "online:" ++ online_text u.online)
    ∷ (codes "awaiting:" ++ online_text waits)
    ∷ []

abbrev pub line : {Db : Type 0} → State Db → User → Bytes
line s u = intercalate (codes ",") (fields u (call_awaits u.id s))

awaiting_text-online_text : (b : Bool) → awaiting_text b ≡ codes ",awaiting:" ++ online_text b
awaiting_text-online_text true = refl
awaiting_text-online_text false = refl

-- The bytes that separate fields and contacts.
pub data IsSeparator : ℕ → Type 0 where
  blank : (c : ℕ) → c ≡ b' ' → IsSeparator c
  comma : (c : ℕ) → c ≡ b',' → IsSeparator c

flag-Lacks : {c : ℕ} (b : Bool) → IsSeparator c → Lacks c (online_text b)
flag-Lacks true (blank c e) = omega arith
flag-Lacks true (comma c e) = omega arith
flag-Lacks false (blank c e) = omega arith
flag-Lacks false (comma c e) = omega arith

id-Lacks : {c : ℕ} (z : ℤ) → IsSeparator c → Lacks c (print_int z)
id-Lacks z (blank c e) = print_int-Lacks c z (λ d. omega arith) (omega arith)
id-Lacks z (comma c e) = print_int-Lacks c z (λ d. omega arith) (omega arith)

names-Lacks :
    {c : ℕ}
    → IsSeparator c
    → Lacks c (codes "id:")
      × Lacks c (codes "username:")
      × Lacks c (codes "online:")
      × Lacks c (codes "awaiting:")
names-Lacks (blank c e) = omega arith
names-Lacks (comma c e) = omega arith

pub fields-Lacks :
    (c : ℕ) (u : User) (b : Bool) → IsSeparator c → Lacks c u.username → All (Lacks c) (fields u b)
fields-Lacks c u b e h =
    let P = λ (d : ℕ). d ≢ c in
    let (id, name, here, waits) = names-Lacks e in
    (
      All-append P (codes "id:") (print_int u.id) id (id-Lacks u.id e),
      (
        All-append P (codes "username:") u.username name h,
        (
          All-append P (codes "online:") (online_text u.online) here (flag-Lacks u.online e),
          (All-append P (codes "awaiting:") (online_text b) waits (flag-Lacks b e), tt),
        ),
      ),
    )

to_string-fields :
    (u : User) (b : Bool)
    → u.password ≡ []
    → u.address ≡ []
    → to_string u ++ awaiting_text b ≡ intercalate (codes ",") (fields u b)
unfolding to_string
to_string-fields u b p q = rw (p, q, awaiting_text-online_text b) (simp append_assoc)

contact_lines-concat_with :
    {Db : Type 0} (us : List User) (s : State Db)
    → All IsShown us
    → contact_lines us s ≡ concat_with (codes " ") (map (line s) us)
unfolding contact_lines concat_with
contact_lines-concat_with [] s h = refl
contact_lines-concat_with (u ∷ us) s (p, h) =
    let waits = awaiting_text (call_awaits u.id s) in
    let rest = concat_with (codes " ") (map (line s) us) in
    ap (λ (t : Bytes). to_string u ++ (waits ++ (codes " " ++ t)))
      (contact_lines-concat_with us s h)
    ∙ sym (append_assoc (to_string u) waits (codes " " ++ rest))
    ∙ ap (λ (t : Bytes). t ++ (codes " " ++ rest))
        (to_string-fields u (call_awaits u.id s) p.no_password p.no_address)
    ∙ sym (append_assoc (line s u) (codes " ") rest)

-- What the server sends behind the code.
pub contact_lines-intercalate :
    {Db : Type 0} (u : User) (us : List User) (s : State Db)
    → All IsShown (u ∷ us)
    → without_last (contact_lines (u ∷ us) s) ≡ intercalate (codes " ") (map (line s) (u ∷ us))
contact_lines-intercalate u us s h =
    ap without_last (
      contact_lines-concat_with (u ∷ us) s h
      ∙ concat_with-intercalate (codes " ") (line s u) (map (line s) us))
    ∙ ap (λ o. elim o [ none ↦ [] | some t ↦ t ])
        (pop_back-append (intercalate (codes " ") (map (line s) (u ∷ us))) b' ')

intercalate-Lacks :
    (c d : ℕ) (ps : List Bytes) → d ≢ c → All (Lacks c) ps → Lacks c (intercalate (d ∷ []) ps)
intercalate-Lacks c d [] k h = tt
intercalate-Lacks c d (p ∷ []) k (h, _) = h
intercalate-Lacks c d (p ∷ q ∷ ps) k (h, hs) =
    All-append (λ b. b ≢ c) p (d ∷ intercalate (d ∷ []) (q ∷ ps)) h
      (k, intercalate-Lacks c d (q ∷ ps) k hs)

pub lines-Lacks :
    {Db : Type 0} (us : List User) (s : State Db)
    → All IsShown us
    → All (Lacks b' ') (map (line s) us)
lines-Lacks [] s h = tt
lines-Lacks (u ∷ us) s (p, h) = (
  intercalate-Lacks b' ' b',' (fields u (call_awaits u.id s)) (omega arith)
      (fields-Lacks b' ' u (call_awaits u.id s) (blank b' ' refl) p.no_blank),
  lines-Lacks us s h,
)
