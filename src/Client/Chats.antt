-- ===== src/Client/Chats.antt =====
-- src/client/user/chat.cpp: the messages that the client asks for and sends.
use skype.Common.{Bool, Option, some, List, [], ◌++◌, Bytes, codes, if◌then◌else◌}
use skype.Chat.{UserChat}
use skype.Chat.Response.{parse_chat}
use skype.Reply.{r_200, r_201}
use skype.Client.{Link, exchange, succeeded}

module _ {S : Type 0} (server : Bytes → S → Option Bytes × S) where
  -- `get_pending` and `get_all`; `none` is what `parse_chat` throws.
  unfoldable pub fetch : Bytes → Link → S → Option (List UserChat) × (Link × S)
  fetch command l s =
      let (l', s') = exchange server (command ++ l.message) l s in
      (if succeeded server r_201 l' then parse_chat l'.message else some [], (l', s'))

  unfoldable pub get_pending : Link → S → Option (List UserChat) × (Link × S)
  unfolding fetch
  get_pending l s = fetch (codes "PENDING ") l s

  unfoldable pub get_all : Link → S → Option (List UserChat) × (Link × S)
  unfolding fetch
  get_all l s = fetch (codes "CHAT ") l s

  -- `send` and `deliver`.
  unfoldable pub tell : Bytes → Link → S → Bool × (Link × S)
  tell command l s =
      let (l', s') = exchange server (command ++ l.message) l s in
      (succeeded server r_200 l', (l', s'))

  unfoldable pub send : Link → S → Bool × (Link × S)
  unfolding tell
  send l s = tell (codes "SEND ") l s

  unfoldable pub deliver : Link → S → Bool × (Link × S)
  unfolding tell
  deliver l s = tell (codes "DELIVERED ") l s
