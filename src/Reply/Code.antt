-- ===== src/Reply/Code.antt =====
-- The code in front of an answer.
use skype.Common.{◌≡◌, refl, some, some_inj, Bytes, codes}
use skype.Text.{split_first, find, starts_with}
use skype.Reply.{
  ReplyCode, r_200, r_201, r_202, r_203, r_300, r_301, r_302, r_303, r_304, r_305, r_306, r_307,
  r_500, r_501, r_502, unknown, append_message, get_message, from_string,
}

-- The first word of every answer, with or without a message behind it, is read back as the code
-- that the answer was made of.
pub from_string-get_message :
    (code : ReplyCode) (msg text : Bytes)
    → append_message code msg ≡ some text
    → (from_string (split_first text (codes " ")).0 ≡ code)
      × (from_string (split_first (get_message code) (codes " ")).0 ≡ code)
unfolding append_message get_message from_string split_first find starts_with
from_string-get_message r_200 msg text h = rw (← some_inj h) (refl, refl)
from_string-get_message r_201 msg text h = rw (← some_inj h) (refl, refl)
from_string-get_message r_202 msg text h = rw (← some_inj h) (refl, refl)
from_string-get_message r_203 msg text h = rw (← some_inj h) (refl, refl)
from_string-get_message r_300 msg text h = rw (← some_inj h) (refl, refl)
from_string-get_message r_301 msg text h = rw (← some_inj h) (refl, refl)
from_string-get_message r_302 msg text h = rw (← some_inj h) (refl, refl)
from_string-get_message r_303 msg text h = rw (← some_inj h) (refl, refl)
from_string-get_message r_304 msg text h = rw (← some_inj h) (refl, refl)
from_string-get_message r_305 msg text h = rw (← some_inj h) (refl, refl)
from_string-get_message r_306 msg text h = rw (← some_inj h) (refl, refl)
from_string-get_message r_307 msg text h = rw (← some_inj h) (refl, refl)
from_string-get_message r_500 msg text h = rw (← some_inj h) (refl, refl)
from_string-get_message r_501 msg text h = rw (← some_inj h) (refl, refl)
from_string-get_message r_502 msg text h = rw (← some_inj h) (refl, refl)
from_string-get_message unknown msg text h = cc

pub get_message_code :
    (code : ReplyCode) → from_string (split_first (get_message code) (codes " ")).0 ≡ code
unfolding get_message from_string split_first find starts_with
get_message_code r_200 = refl
get_message_code r_201 = refl
get_message_code r_202 = refl
get_message_code r_203 = refl
get_message_code r_300 = refl
get_message_code r_301 = refl
get_message_code r_302 = refl
get_message_code r_303 = refl
get_message_code r_304 = refl
get_message_code r_305 = refl
get_message_code r_306 = refl
get_message_code r_307 = refl
get_message_code r_500 = refl
get_message_code r_501 = refl
get_message_code r_502 = refl
get_message_code unknown = refl
