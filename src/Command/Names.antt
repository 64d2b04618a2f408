-- ===== src/Command/Names.antt =====
-- The texts of the commands.
use skype.Common.{
  ◌≡◌, ◌≢◌, refl, sym, ◌∙◌, inl, inr, none, some, List, [], ◌∷◌, Bytes, same_text, eq_of_same_text,
  Bool-cases, Option-cases, ap, ltb, some_inj,
}
use skype.Reply.{at}
use skype.Command.{
  Name, create, login, send, connect, accept, search, add, remove, available, reject, list, ping,
  exit, unknown, hangup, pending, chat, delivered, get, to_string, find_name, argument_count,
  has_argument, m_commands,
}

-- Every entry of the table is printed as its own text.
abbrev Printed : List (Bytes × Name) → Type 0
Printed [] = Unit
Printed ((text, cmd) ∷ m) = (to_string cmd ≡ text) × Printed m

at-Printed :
    (m : List (Bytes × Name)) (text : Bytes) (cmd : Name)
    → Printed m
    → at m text ≡ some cmd
    → to_string cmd ≡ text
at-Printed [] text cmd h e = cc
at-Printed ((s, c) ∷ m) text cmd (h, hs) e = elim (Bool-cases (same_text s text)) [
  | inl same ↦ rw (← some_inj (rw same at e)) (h ∙ eq_of_same_text s text same)
  | inr other ↦ at-Printed m text cmd hs (rw other at e)
]

m_commands-Printed : Printed m_commands
unfolding to_string find_name
m_commands-Printed = (
  refl,
  (
    refl,
    (
      refl,
      (
        refl,
        (
          refl,
          (
            refl,
            (
              refl,
              (refl, (refl, (refl, (refl, (refl, (refl, (refl, (refl, (refl, (refl, tt)))))))))),
            ),
          ),
        ),
      ),
    ),
  ),
)

get_missing : (text : Bytes) → at m_commands text ≡ none → get text ≡ unknown
unfolding get
get_missing text h = rw h refl

get_found : (text : Bytes) (cmd : Name) → at m_commands text ≡ some cmd → get text ≡ cmd
unfolding get
get_found text cmd h = rw h refl

-- A text that names a command is the text that the command is printed as.
pub to_string-get :
    (text : Bytes) (cmd : Name) → get text ≡ cmd → cmd ≢ unknown → to_string cmd ≡ text
to_string-get text cmd h k = elim (Option-cases (at m_commands text)) [
  | inl missing ↦ absurd (k (sym h ∙ get_missing text missing))
  | inr (c, found) ↦
      at-Printed m_commands text cmd m_commands-Printed
        (found ∙ ap some (sym (get_found text c found) ∙ h))
]

-- The command that is printed is read back; a command has arguments to check exactly if the client counts some.
pub get-to_string :
    (cmd : Name) → (get (to_string cmd) ≡ cmd) × (has_argument cmd ≡ ltb 0 (argument_count cmd))
unfolding get to_string find_name has_argument argument_count
get-to_string create = (refl, refl)
get-to_string login = (refl, refl)
get-to_string send = (refl, refl)
get-to_string connect = (refl, refl)
get-to_string accept = (refl, refl)
get-to_string search = (refl, refl)
get-to_string add = (refl, refl)
get-to_string remove = (refl, refl)
get-to_string available = (refl, refl)
get-to_string reject = (refl, refl)
get-to_string list = (refl, refl)
get-to_string ping = (refl, refl)
get-to_string exit = (refl, refl)
get-to_string unknown = (refl, refl)
get-to_string hangup = (refl, refl)
get-to_string pending = (refl, refl)
get-to_string chat = (refl, refl)
get-to_string delivered = (refl, refl)
