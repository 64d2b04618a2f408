-- ===== src/Chat/Tests.antt =====
-- Instances of the theorems on messages, and the order of the source's own test.
use skype.Common.{◌≡◌, true, false, some, [], ◌∷◌, ◌++◌, Bytes, codes, arith}
use skype.Common.Int.{pos}
use skype.Text.Number
use skype.Text.Number.{stoi, print_int}
use skype.Chat.{
  UserChat, new_chat, from_string, less, greater, compare_fields, lesser_than, time_fields, colon,
}
use skype.Chat.RoundTrip.{IsStored}
use skype.Chat.Response.{build_response, parse_chat}
use skype.Chat.Response.Delivery.{received, parse_chat-build_response}

abbrev chat_at : Bytes → UserChat
chat_at time = record {
  id = pos 7;
  created_at = time;
  sender = pos 1;
  recipient = pos 2;
  text = codes "hi, you";
  delivered = true;
  empty = false;
}

abbrev morning : Bytes
morning = codes "2022-04-20 10:30:05.1"

abbrev stored : UserChat
stored = chat_at (codes "2022")

stored-IsStored : IsStored stored
unfolding print_int Number.print_nat
stored-IsStored = record {
  id_fits = omega arith;
  sender_fits = omega arith;
  recipient_fits = omega arith;
  time_plain = (omega arith, (omega arith, (omega arith, (omega arith, tt))));
  info_fits = omega arith;
}

parse_chat-build_response_example :
    parse_chat (codes "201 " ++ build_response (stored ∷ stored ∷ []))
    ≡ some (received stored ∷ received stored ∷ [])
unfolding print_int Number.print_nat skype.Chat.to_string
parse_chat-build_response_example =
    parse_chat-build_response (stored ∷ stored ∷ []) (stored-IsStored, (stored-IsStored, tt))
      (omega arith)
