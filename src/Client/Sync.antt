-- ===== src/Client/Sync.antt =====
-- The list of contacts between client and server: LIST, and what ADD and REMOVE do to it.
use mathlib.Core.List.{map}
use skype.Common.{
  Bool, true, false, ◌≡◌, refl, ap, ◌∙◌, Option, some, ◌∷◌, ◌++◌, Bytes, codes, [], List, Lacks,
  All, arith, not, ◌||◌, ◌==◌, length, is_nil,
}
use skype.Text.{split}
use skype.Text.Split.{split_first_of_Lacks, split_first-append}
use skype.User.{User}
use skype.Command
use skype.Command.{get}
use skype.Reply.{r_200, r_202, append_message, get_message}
use skype.Server.{Postgres, State, set_reply, set_reply_message}
use skype.Server.Router.{require_login, validate_argument}
use skype.Server.Users
use skype.Server.Users.{contact_lines, without_last}
use skype.Client.{Link, Details, exchange, after_answer, valid_response, disp_contacts, new_job}
use skype.Client.Contacts.{
  ContactMap, list, change, update_contacts, contacts_of, jobs_of_change, contacts_in,
  read_contacts, read_contact, read_fields, pair_contact_details,
}
use skype.Client.Lines.{IsShown, entry}
use skype.Client.Listing.{Distinct, contacts_of-contact_lines}
use skype.Client.Served.{serve, route_known, route_unknown}

abbrev pub asking : Bytes → Link
asking text = record { valid = true; message = text }

module _ {S : Type 0} (server : Bytes → S → Option Bytes × S) where
  -- An exchange that is answered.
  pub exchange_answered :
      (command text answer : Bytes) (s s' : S)
      → server command s ≡ (some answer, s')
      → exchange server command (asking text) s ≡ (asking answer, s')
  unfolding exchange
  exchange_answered command text answer s s' h = ap (after_answer command) h

  list_answered :
      (old : Details) (m : ContactMap) (text answer : Bytes) (s s' : S)
      → server (codes "LIST " ++ text) s ≡ (some answer, s')
      → list server old m (asking text) s
        ≡ (true, (update_contacts old answer m, (asking answer, s')))
  unfolding list
  list_answered old m text answer s s' h =
      rw (exchange_answered (codes "LIST " ++ text) text answer s s' h, list) refl

no_contacts_in_refusal : (old : Details) → contacts_of old (get_message r_202) ≡ []
unfolding contacts_of contacts_in split get_message read_contacts pair_contact_details read_contact
    read_fields
no_contacts_in_refusal old = refl

or_true : (b : Bool) → (b || true) ≡ true
or_true true = refl
or_true false = refl

no_contacts_job : (m : ContactMap) → jobs_of_change m [] ≡ new_job disp_contacts ∷ []
unfolding jobs_of_change
no_contacts_job m = rw (or_true (not (length m == 0))) refl

pub filled : (t r : Bytes) → is_nil (t ++ b' ' ∷ r) ≡ false
filled [] r = refl
filled (c ∷ t) r = refl

module _ {Db : Type 0} (pg : Postgres Db) (fresh address : Bytes) where
  list_named : get (codes "LIST") ≡ Command.list
  unfolding get
  list_named = refl

  list_reply :
      (token : Bytes) (u : User) (us : List User) (s : State Db)
      → Lacks b' ' token
      → (pg.search_user_by_token token s.db).empty ≡ false
      → pg.list_user_contacts (pg.search_user_by_token token s.db) s.db ≡ u ∷ us
      → serve pg fresh address (codes "LIST " ++ token) s
        ≡ (some (codes "201 " ++ without_last (contact_lines (u ∷ us) s)), s)
  unfolding serve require_login validate_argument Users.list Users.list_contacts set_reply_message
      append_message
  list_reply token u us s bare known contacts =
      rw
        (route_known pg fresh address Command.list (codes "LIST") token token [] s (omega arith)
          list_named refl (split_first_of_Lacks b' ' token bare) known refl)
        (rw contacts (rw known refl))

  -- LIST with a token that the server knows, whose user has at least one contact, where each
  -- contact's text is plain and their numbers differ: the client then shows the contacts that the
  -- database gives, each with its number, its name, whether it is online and whether it waits for
  -- a call, and the server's state stays as it is.
  pub list_shows :
      (old : Details) (m : ContactMap) (token : Bytes) (u : User) (us : List User) (s : State Db)
      → Lacks b' ' token
      → (pg.search_user_by_token token s.db).empty ≡ false
      → pg.list_user_contacts (pg.search_user_by_token token s.db) s.db ≡ u ∷ us
      → All IsShown (u ∷ us)
      → Distinct (map (entry s) (u ∷ us))
      → (list (serve pg fresh address) old m (asking token) s).0 ≡ true
        × (list (serve pg fresh address) old m (asking token) s).1.0
          ≡ (map (entry s) (u ∷ us), jobs_of_change m (map (entry s) (u ∷ us)))
        × (list (serve pg fresh address) old m (asking token) s).1.1.1 ≡ s
  unfolding update_contacts
  list_shows old m token u us s bare known contacts shown distinct =
      let answer = codes "201 " ++ without_last (contact_lines (u ∷ us) s) in
      let e =
        list_answered (serve pg fresh address) old m token answer s s
          (list_reply token u us s bare known contacts) in
      (
        ap (λ r. r.0) e,
        ap (λ r. r.1.0) e
            ∙ ap (λ (es : ContactMap). (es, jobs_of_change m es))
                (contacts_of-contact_lines old u us s shown distinct),
        ap (λ r. r.1.1.1) e,
      )

  refused_list :
      (s : State Db)
      → (pg.search_user_by_token (codes "200") s.db).empty ≡ true
      → serve pg fresh address (codes "LIST " ++ get_message r_200) s
        ≡ (some (get_message r_202), s)
  unfolding serve require_login get_message set_reply
  refused_list s unknown =
      rw
        (route_unknown pg fresh address Command.list (codes "LIST") (codes "200 OK") (codes "200")
          (codes "OK") s (omega arith) list_named refl
          (split_first-append b' ' (codes "200") (codes "OK") (omega arith)) unknown)
        refl

  -- After ADD or REMOVE that the server has answered with 200 the client asks for the list with
  -- that answer where the token belongs: if no user has the token 200, the server refuses, and the
  -- client forgets all its contacts and has that shown.
  pub change_forgets :
      (command : Bytes) (old : Details) (m : ContactMap) (token name : Bytes) (s s' : State Db)
      → serve pg fresh address (command ++ (token ++ b' ' ∷ name)) s
        ≡ (some (get_message r_200), s')
      → (pg.search_user_by_token (codes "200") s'.db).empty ≡ true
      → change (serve pg fresh address) command old m (asking (token ++ b' ' ∷ name)) s
        ≡ (true, (([], new_job disp_contacts ∷ []), (asking (get_message r_202), s')))
  unfolding change update_contacts valid_response
  change_forgets command old m token name s s' done unknown =
      let server = serve pg fresh address in
      let ok = get_message r_200 in
      rw (filled token name) (
        rw
          (exchange_answered server (command ++ (token ++ b' ' ∷ name)) (token ++ b' ' ∷ name) ok s
            s' done)
          (rw (list_answered server old m ok (get_message r_202) s' s' (refused_list s' unknown))
            (rw (no_contacts_in_refusal old, no_contacts_job m) refl)))
