-- ===== src/Client/Contacts.antt =====
-- src/client/user/contacts.cpp: the contacts that are shown. The hash of contacts is a list in the
-- order of insertion; what a new `Details` holds before it is written is a parameter.
use skype.Common.{
  Bool, true, false, not, ◌||◌, ◌==◌, Option, none, some, List, [], ◌∷◌, ◌++◌, Bytes, codes,
  same_text, if◌then◌else◌, length, is_nil,
}
use skype.Common.Int.{ℤ, pos, ◌=ℤ◌}
use skype.Common.Dict.{lookup}
use skype.Text.{split, split_first}
use skype.Text.Number.{stoi}
use skype.Reply.{r_200, r_201}
use skype.Client.{Link, Details, Job, JobType, disp_contacts, new_job, exchange, succeeded}

abbrev pub ContactMap : Type 0
ContactMap = List (ℤ × Details)

-- `insert` of a hash.
unfoldable pub put_contact : ℤ → Details → ContactMap → ContactMap
put_contact k d [] = (k, d) ∷ []
put_contact k d ((j, e) ∷ m) = if j =ℤ k then (k, d) ∷ m else (j, e) ∷ put_contact k d m

-- The number that the loop keeps beside the details.
unfoldable pub read_field : Bytes → ℤ × Details → ℤ × Details
unfolding split_first
read_field field (id, d) =
    let (key, pair) = split_first field (codes ":") in
    if same_text key (codes "id")
    then elim (stoi pair) [ none ↦ (id, d) | some n ↦ (n, record d { id = n }) ]
    else if same_text key (codes "username")
    then (id, record d { username = pair })
    else if same_text key (codes "online")
    then (id, record d { online = same_text pair (codes "true") })
    else if same_text key (codes "awaiting")
    then (id, record d { awaiting = same_text pair (codes "true") })
    else (id, d)

unfoldable pub read_fields : List Bytes → ℤ × Details → ℤ × Details
unfolding read_field
read_fields [] e = e
read_fields (field ∷ fields) e = read_fields fields (read_field field e)

-- The contact of a list of fields; a split at a comma always ends.
unfoldable pub read_contact : Details → ContactMap → Option (List Bytes) → ContactMap
read_contact blank m none = m
read_contact blank m (some fields) =
    let (id, details) = read_fields fields (pos 0, blank) in
    if id =ℤ pos 0 then m else put_contact id details m

unfoldable pub pair_contact_details : Details → Bytes → ContactMap → ContactMap
pair_contact_details blank user m = read_contact blank m (split user (codes ","))

unfoldable pub read_contacts : Details → List Bytes → ContactMap → ContactMap
read_contacts blank [] m = m
read_contacts blank (user ∷ users) m = read_contacts blank users (pair_contact_details blank user m)

abbrev pub same_flag : Bool → Bool → Bool
same_flag true b = b
same_flag false b = not b

abbrev pub awaiting_job : Details → Job
awaiting_job contact = record (new_job JobType.awaiting) {
  int_value = contact.id;
  bool_value = contact.awaiting;
}

-- The job for a contact that differs from what was known of it.
unfoldable pub contact_job : Details → Option Details → Option Job
contact_job contact none = some (new_job disp_contacts)
contact_job contact (some old) =
    if not (same_flag old.online contact.online)
    then some (new_job disp_contacts)
    else if not (same_flag old.awaiting contact.awaiting)
    then some (awaiting_job contact)
    else none

-- The loop ends with its first job.
unfoldable pub first_job : ContactMap → ContactMap → List Job
unfolding contact_job lookup
first_job old [] = []
first_job old ((id, contact) ∷ m) = elim (contact_job contact (lookup contact.id old)) [
  | none ↦ first_job old m
  | some job ↦ job ∷ []
]

abbrev pub no_contacts : ContactMap → Bool
no_contacts [] = true
no_contacts (c ∷ m) = false

unfoldable pub jobs_of_change : ContactMap → ContactMap → List Job
unfolding first_job
jobs_of_change old new =
    if not (length old == length new) || no_contacts new
    then new_job disp_contacts ∷ []
    else first_job old new

-- The contacts that a text lists; its first word is read like the others.
unfoldable pub contacts_in : Details → Option (List Bytes) → ContactMap
contacts_in blank none = []
contacts_in blank (some users) = read_contacts blank users []

unfoldable pub contacts_of : Details → Bytes → ContactMap
contacts_of blank response = contacts_in blank (split response (codes " "))

unfoldable pub update_contacts : Details → Bytes → ContactMap → ContactMap × List Job
update_contacts blank response old =
    (contacts_of blank response, jobs_of_change old (contacts_of blank response))

module _ {S : Type 0} (server : Bytes → S → Option Bytes × S) where
  -- What `list` leaves behind: the contacts with the jobs that it posted, and the link.
  abbrev pub After : Type 0
  After = (ContactMap × List Job) × (Link × S)

  unfoldable pub list : Details → ContactMap → Link → S → Bool × After
  list blank m l s =
      let (l', s') = exchange server (codes "LIST " ++ l.message) l s in
      if not l'.valid
      then (false, ((m, []), (l', s')))
      else (true, (update_contacts blank l'.message m, (l', s')))

  -- `search` and `available`: the contacts stay as they are.
  unfoldable pub ask : Bytes → Link → S → Bool × (Link × S)
  ask command l s =
      if is_nil l.message
      then (false, (l, s))
      else (let (l', s') = exchange server (command ++ l.message) l s in
          (succeeded server r_201 l', (l', s')))

  unfoldable pub search : Link → S → Bool × (Link × S)
  unfolding ask
  search l s = ask (codes "SEARCH ") l s

  unfoldable pub available : Link → S → Bool × (Link × S)
  unfolding ask
  available l s = ask (codes "AVAILABLE ") l s

  -- `add_user` and `remove_user`. The list is asked for with the answer as the data of the request.
  unfoldable pub change : Bytes → Details → ContactMap → Link → S → Bool × After
  change command blank m l s =
      if is_nil l.message
      then (false, ((m, []), (l, s)))
      else (let (l', s') = exchange server (command ++ l.message) l s in
          if succeeded server r_200 l'
          then (true, (list blank m l' s').1)
          else (false, ((m, []), (l', s'))))

  unfoldable pub add_user : Details → ContactMap → Link → S → Bool × After
  unfolding change
  add_user blank m l s = change (codes "ADD ") blank m l s

  unfoldable pub remove_user : Details → ContactMap → Link → S → Bool × After
  unfolding change
  remove_user blank m l s = change (codes "REMOVE ") blank m l s

unfoldable pub display_contacts : ContactMap → ContactMap
display_contacts m = m
