-- ===== src/Database/Statements.antt =====
-- src/server/postgres.cpp: the statement of update_user.
use mathlib.Core.List.{map}
use skype.Common.{◌≡◌, refl, sym, ap, ◌∙◌, List, [], ◌∷◌, ◌++◌, Bytes, codes, append_assoc}
use skype.Text.{concat_with, pop_back}
use skype.Text.Split.{intercalate}
use skype.Text.Trim.{concat_with-intercalate, pop_back-append}
use skype.Text.Number.{print_int}
use skype.User.{Field, User}
use skype.Database.{Connection, or_else}
use skype.Database.Writes.{assignment, assignments, update_user_query}

module _ {Db : Type 0} (conn : Connection Db) where
  assignments-concat_with :
      (u : User) (fs : List Field)
      → assignments conn u fs ≡ concat_with (codes ",") (map (assignment conn u) fs)
  unfolding assignments concat_with
  assignments-concat_with u [] = refl
  assignments-concat_with u (f ∷ fs) = rw (assignments-concat_with u fs) (
      sym (
        append_assoc (assignment conn u f) (codes ",")
          (concat_with (codes ",") (map (assignment conn u) fs))))

  -- With at least one field to update, the statement sets the fields in their order, a comma
  -- between any two and none behind the last, each to its quoted value, in the row with the user's
  -- number.
  pub update_user_query-intercalate :
      (u : User) (f : Field) (fs : List Field)
      → u.updated_fields ≡ f ∷ fs
      → update_user_query conn u
        ≡ codes "UPDATE users SET "
          ++ (intercalate (codes ",") (map (assignment conn u) (f ∷ fs))
              ++ (codes " WHERE id = " ++ (conn.quote (print_int u.id) ++ codes ";")))
  unfolding update_user_query
  update_user_query-intercalate u f fs e =
      let assigned = intercalate (codes ",") (map (assignment conn u) (f ∷ fs)) in
      let tail = codes " WHERE id = " ++ (conn.quote (print_int u.id) ++ codes ";") in
      ap (λ (t : Bytes). or_else [] (pop_back t) ++ tail)
        (ap (λ (gs : List Field). codes "UPDATE users SET " ++ assignments conn u gs) e
          ∙ ap (λ (t : Bytes). codes "UPDATE users SET " ++ t)
              (assignments-concat_with u (f ∷ fs)
                ∙ concat_with-intercalate (codes ",") (assignment conn u f)
                    (map (assignment conn u) fs))
          ∙ sym (append_assoc (codes "UPDATE users SET ") assigned (codes ",")))
      ∙ ap (λ o. or_else [] o ++ tail)
          (pop_back-append (codes "UPDATE users SET " ++ assigned) b',')
      ∙ append_assoc (codes "UPDATE users SET ") assigned tail
