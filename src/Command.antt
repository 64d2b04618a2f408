-- ===== src/Command.antt =====
-- src/shared/server_commands.cpp: the commands of the protocol.
pub mod Names
mod Tests
use skype.Common.{
  ℕ, Bool, Option, none, some, List, [], ◌∷◌, Bytes, codes, ltb, leb, ◌&&◌, ◌==◌, if◌then◌else◌,
}
use skype.Reply.{at}

pub data Name : Type 0 where
  create login send connect accept search add remove available reject list ping exit unknown hangup
        pending chat delivered :
      Name

-- The numbers of the enumeration; `None` of the source is `unknown`.
abbrev pub value : Name → ℕ
value create = 0
value login = 1
value send = 2
value connect = 3
value accept = 4
value search = 10
value add = 11
value remove = 12
value available = 13
value reject = 14
value list = 20
value ping = 21
value exit = 23
value unknown = 24
value hangup = 25
value pending = 30
value chat = 32
value delivered = 33

abbrev pub m_commands : List (Bytes × Name)
m_commands =
    (codes "CREATE", create)
    ∷ (codes "LOGIN", login)
    ∷ (codes "LIST", list)
    ∷ (codes "SEARCH", search)
    ∷ (codes "ADD", add)
    ∷ (codes "REMOVE", remove)
    ∷ (codes "PING", ping)
    ∷ (codes "AVAILABLE", available)
    ∷ (codes "EXIT", exit)
    ∷ (codes "SEND", send)
    ∷ (codes "CHAT", chat)
    ∷ (codes "PENDING", pending)
    ∷ (codes "REJECT", reject)
    ∷ (codes "CONNECT", connect)
    ∷ (codes "ACCEPT", accept)
    ∷ (codes "HANGUP", hangup)
    ∷ (codes "DELIVERED", delivered)
    ∷ []

unfoldable pub get : Bytes → Name
get text = elim (at m_commands text) [ none ↦ unknown | some cmd ↦ cmd ]

unfoldable pub has_argument : Name → Bool
has_argument cmd = ltb (value cmd) (value list)

unfoldable pub has_zero_or_more_arguments : Name → Bool
has_zero_or_more_arguments cmd = leb (value pending) (value cmd)

-- The loop of `to_string`, over the commands in some order.
unfoldable pub find_name : List (Bytes × Name) → Name → Bytes
find_name [] cmd = []
find_name ((text, c) ∷ m) cmd = if value c == value cmd then text else find_name m cmd

unfoldable pub to_string : Name → Bytes
unfolding find_name
to_string cmd = find_name m_commands cmd

unfoldable pub argument_count : Name → ℕ
argument_count cmd =
    if leb (value list) (value cmd)
    then 0
    else if ltb (value cmd) (value list) && leb (value search) (value cmd)
    then 1
    else 2
