-- ===== src/Client/Listing.antt =====
-- The contacts from the text of src/server/user_controllers.cpp to the map of
-- src/client/user/contacts.cpp.
use mathlib.Core.List.{map}
use skype.Common.{
  Bool, true, false, ◌≡◌, refl, sym, ap, ◌∙◌, List, [], ◌∷◌, ◌++◌, Bytes, codes, arith,
  append_assoc, append-nil, All, All-append, same_text,
}
use skype.Common.Int.{ℤ, pos, IsInt, ◌=ℤ◌}
use skype.Text.{split}
use skype.Text.Split.{split-intercalate}
use skype.Text.Number.{print_int}
use skype.Text.Number.Read.{stoi-print_int}
use skype.User.{User, online_text}
use skype.Server.{State}
use skype.Server.Calls.{call_awaits}
use skype.Server.Users.{contact_lines, without_last}
use skype.Client.{Details}
use skype.Client.Contacts.{
  ContactMap, put_contact, read_field, read_fields, pair_contact_details, read_contacts,
  contacts_of, contacts_in, read_contact,
}
use skype.Client.Lines.{
  IsShown, entry, fields, line, comma, fields-Lacks, lines-Lacks, contact_lines-intercalate,
}

read_flag : (b : Bool) → same_text (online_text b) (codes "true") ≡ b
read_flag true = refl
read_flag false = refl

read_fields-fields :
    (old : Details) (u : User) (b : Bool)
    → IsInt u.id
    → read_fields (fields u b) (pos 0, old)
      ≡ (u.id, record { username = u.username; id = u.id; online = u.online; awaiting = b })
unfolding read_fields read_field
read_fields-fields old u b h = rw (stoi-print_int u.id h, read_flag u.online, read_flag b) refl

read_line :
    {Db : Type 0} (old : Details) (u : User) (s : State Db) (m : ContactMap)
    → IsShown u
    → pair_contact_details old (line s u) m ≡ put_contact u.id (entry s u).1 m
unfolding pair_contact_details read_contact
read_line old u s m h =
    let waits = call_awaits u.id s in
    ap (read_contact old m) (
      split-intercalate b',' (codes "id:" ++ print_int u.id)
        ((codes "username:" ++ u.username)
          ∷ (codes "online:" ++ online_text u.online)
          ∷ (codes "awaiting:" ++ online_text waits)
          ∷ [])
        (fields-Lacks b',' u waits (comma b',' refl) h.no_comma))
    ∙ rw (read_fields-fields old u waits h.fits, h.nonzero) refl

-- The entries of a list, put into a map one by one.
put_all : ContactMap → ContactMap → ContactMap
put_all [] m = m
put_all ((k, d) ∷ es) m = put_all es (put_contact k d m)

read_lines :
    {Db : Type 0} (old : Details) (us : List User) (s : State Db) (m : ContactMap)
    → All IsShown us
    → read_contacts old (map (line s) us) m ≡ put_all (map (entry s) us) m
unfolding read_contacts put_all
read_lines old [] s m h = refl
read_lines old (u ∷ us) s m (p, h) =
    ap (read_contacts old (map (line s) us)) (read_line old u s m p)
    ∙ read_lines old us s (put_contact u.id (entry s u).1 m) h

abbrev Differs : ℤ → ℤ × Details → Type 0
Differs k e = (e.0 =ℤ k) ≡ false

abbrev pub Distinct : ContactMap → Type 0
Distinct [] = Unit
Distinct ((k, d) ∷ es) = All (λ e. (k =ℤ e.0) ≡ false) es × Distinct es

-- No key of the map is one of the entries'.
abbrev Apart : ContactMap → ContactMap → Type 0
Apart m = All (λ f. All (Differs f.0) m)

put_contact-append :
    (k : ℤ) (d : Details) (m : ContactMap)
    → All (Differs k) m
    → put_contact k d m ≡ m ++ (k, d) ∷ []
unfolding put_contact
put_contact-append k d [] h = refl
put_contact-append k d ((j, e) ∷ m) (p, h) = rw (p, put_contact-append k d m h) refl

Apart-append :
    (k : ℤ) (d : Details) (m es : ContactMap)
    → Apart m es
    → All (λ e. (k =ℤ e.0) ≡ false) es
    → Apart (m ++ (k, d) ∷ []) es
Apart-append k d m [] h g = tt
Apart-append k d m (f ∷ es) (p, h) (q, g) =
    (All-append (Differs f.0) m ((k, d) ∷ []) p (q, tt), Apart-append k d m es h g)

put_all-append : (es m : ContactMap) → Distinct es → Apart m es → put_all es m ≡ m ++ es
unfolding put_all
put_all-append [] m h g = sym (append-nil m)
put_all-append ((k, d) ∷ es) m (q, h) (p, g) =
    ap (put_all es) (put_contact-append k d m p)
    ∙ put_all-append es (m ++ (k, d) ∷ []) h (Apart-append k d m es g q)
    ∙ append_assoc m ((k, d) ∷ []) es

Apart-nil : (es : ContactMap) → Apart [] es
Apart-nil [] = tt
Apart-nil (e ∷ es) = (tt, Apart-nil es)

code_only : (old : Details) (m : ContactMap) → pair_contact_details old (codes "201") m ≡ m
unfolding pair_contact_details read_contact split read_fields read_field
code_only old m = refl

read_answer :
    {Db : Type 0} (old : Details) (us : List User) (s : State Db)
    → All IsShown us
    → read_contacts old (codes "201" ∷ map (line s) us) [] ≡ put_all (map (entry s) us) []
unfolding read_contacts
read_answer old us s h =
    ap (read_contacts old (map (line s) us)) (code_only old []) ∙ read_lines old us s [] h

-- The client reads the contacts that the server lists, each with its number, its name, whether it is
-- online and whether it waits for a call, in the server's order.
pub contacts_of-contact_lines :
    {Db : Type 0} (old : Details) (u : User) (us : List User) (s : State Db)
    → All IsShown (u ∷ us)
    → Distinct (map (entry s) (u ∷ us))
    → contacts_of old (codes "201 " ++ without_last (contact_lines (u ∷ us) s))
      ≡ map (entry s) (u ∷ us)
unfolding contacts_of contacts_in
contacts_of-contact_lines old u us s h g =
    let lines = map (line s) (u ∷ us) in
    ap (λ (t : Bytes). contacts_of old (codes "201 " ++ t)) (contact_lines-intercalate u us s h)
    ∙ ap (contacts_in old)
        (split-intercalate b' ' (codes "201") lines (omega arith, lines-Lacks (u ∷ us) s h))
    ∙ read_answer old (u ∷ us) s h
    ∙ put_all-append (map (entry s) (u ∷ us)) [] g (Apart-nil (map (entry s) (u ∷ us)))
