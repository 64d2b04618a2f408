-- ===== src/Reply.antt =====
-- src/shared/reply.cpp: the numbered answers of the server.
pub mod Code
mod Tests
use skype.Common.{
  ◌≡◌, refl, Option, none, some, List, [], ◌∷◌, ◌++◌, Bytes, codes, same_text, if◌then◌else◌,
}

-- `None` of the source is `unknown`.
pub data ReplyCode : Type 0 where
  r_200 r_201 r_202 r_203 r_300 r_301 r_302 r_303 r_304 r_305 r_306 r_307 r_500 r_501 r_502
        unknown :
      ReplyCode

abbrev pub m_replies : ReplyCode → Option Bytes
m_replies r_200 = some (codes "200 OK")
m_replies r_201 = some (codes "201")
m_replies r_202 = some (codes "202 Invalid token. Please login")
m_replies r_203 = some (codes "203 Awaiting")
m_replies r_300 = some (codes "300 Not OK")
m_replies r_301 = some (codes "301 User not found")
m_replies r_302 = some (codes "302 User already exist")
m_replies r_303 = some (codes "303 Recipient not found")
m_replies r_304 = some (codes "304 Sender not found")
m_replies r_305 = some (codes "305 Invalid chat id")
m_replies r_306 = some (codes "306 Already awaiting. Please HANGUP before connecting")
m_replies r_307 = some (codes "307 Connection requests not found for this user")
m_replies r_500 = some (codes "500 Internal server error")
m_replies r_501 = some (codes "501 Invalid command or wrong number of arguments")
m_replies r_502 = some (codes "502 Empty argument")
m_replies unknown = none

abbrev pub m_codes : List (Bytes × ReplyCode)
m_codes =
    (codes "200", r_200)
    ∷ (codes "201", r_201)
    ∷ (codes "202", r_202)
    ∷ (codes "203", r_203)
    ∷ (codes "300", r_300)
    ∷ (codes "301", r_301)
    ∷ (codes "302", r_302)
    ∷ (codes "303", r_303)
    ∷ (codes "304", r_304)
    ∷ (codes "305", r_305)
    ∷ (codes "306", r_306)
    ∷ (codes "307", r_307)
    ∷ (codes "500", r_500)
    ∷ (codes "501", r_501)
    ∷ (codes "502", r_502)
    ∷ []

-- `at` of a dictionary with text keys; it throws where the key is missing.
abbrev pub at {ℓ} : {V : Type ℓ} → List (Bytes × V) → Bytes → Option V
at [] k = none
at ((j, v) ∷ m) k = if same_text j k then some v else at m k

unfoldable pub get_message : ReplyCode → Bytes
get_message code = elim (m_replies code) [ none ↦ [] | some text ↦ text ]

unfoldable pub append_message : ReplyCode → Bytes → Option Bytes
append_message code msg = elim (m_replies code) [
  | none ↦ none
  | some text ↦ some (text ++ (codes " " ++ msg))
]

unfoldable pub from_string : Bytes → ReplyCode
from_string text = elim (at m_codes text) [ none ↦ unknown | some code ↦ code ]
