-- ===== src/Chat/Response.antt =====
-- The list of messages on the wire: `ChatControllers::build_response` of
-- src/server/chat_controller.cpp and `Chat::parse_chat` of src/client/user/chat.cpp.
pub mod Offsets
pub mod Delivery
use skype.Common.{ℕ, ◌-◌, Option, none, some, List, [], ◌∷◌, ◌++◌, map, Bytes, codes, length, ◌>>=◌}
use skype.Text.{split_first, split_to_ints, split_at_positions}
use skype.Text.Number.{print_nat}
use skype.Chat.{UserChat, new_chat, comma, colon, to_string, from_string}

-- One round adds the framed message to the content, and the content's new size to the header.
unfoldable pub respond_loop : List UserChat → Bytes → Bytes → Bytes × Bytes
respond_loop [] response content = (response, content)
respond_loop (c ∷ cs) response content =
    let chat_str = to_string c in
    let chat_header = print_nat (length chat_str - length c.text) ++ colon ∷ [] in
    let content' = content ++ (chat_header ++ chat_str) in
    respond_loop cs (response ++ comma ∷ print_nat (length content')) content'

unfoldable pub build_response : List UserChat → Bytes
unfolding respond_loop
build_response cs =
    let (response, content) = respond_loop cs (codes "0") [] in response ++ colon ∷ content

-- `none`: the split at the positions throws, and nothing in the client catches it.
unfoldable pub parse_chat : Bytes → Option (List UserChat)
parse_chat s =
    let response = (split_first s (codes " ")).1 in
    let (header, content) = split_first response (codes ":") in
    do
      positions ← split_to_ints header (codes ",")
      chats ← split_at_positions content positions
      some (map (from_string new_chat) chats)
