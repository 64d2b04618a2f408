-- ===== src/User/Online.antt =====
-- `User::update`, the online flag and the list of updated fields.
use skype.Common.{
  ◌≡◌, refl, true, false, ◌||◌, ◌⊎◌, inl, inr, [], ◌∷◌, ◌++◌, Bytes, codes, same_text, Bool-cases,
  arith,
}
use skype.User.{User, Field, username, password, online, address, update, set_online}

-- No update sets a user offline: one that is online stays so, whatever the field and its value.
pub update_stays_online :
    (value : Bytes) (field : Field) (u : User)
    → u.online ≡ true
    → (update value field u).1.online ≡ true
unfolding update set_online
update_stays_online value online u h = ground (arith, h)
update_stays_online value username u h = h
update_stays_online value password u h = h
update_stays_online value address u h = h

-- An update is refused and changes nothing, or it is noted as the last updated field.
pub update_notes :
    (value : Bytes) (field : Field) (u : User)
    → (update value field u ≡ (false, u))
      ⊎ (((update value field u).0 ≡ true)
          × ((update value field u).1.updated_fields ≡ u.updated_fields ++ field ∷ []))
unfolding update set_online
update_notes value username u = inr (refl, refl)
update_notes value password u = inr (refl, refl)
update_notes value address u = inr (refl, refl)
update_notes value online u =
    elim (Bool-cases (same_text value (codes "true") || same_text value (codes "t"))) [
      | inl on ↦ rw on (inr (refl, refl))
      | inr other ↦
          elim (Bool-cases (same_text value (codes "false") || same_text value (codes "f"))) [
            | inl off ↦ rw (other, off) (inr (refl, refl))
            | inr neither ↦ rw (other, neither) (inl refl)
          ]
    ]
