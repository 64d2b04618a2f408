-- ===== src/User/Tests.antt =====
-- Instances of the theorems on `User::update`.
use skype.Common.{true, false, [], codes}
use skype.Common.Int.{pos}
use skype.User.{User}

abbrev martha : User
martha = record {
  id = pos 5;
  username = codes "martha";
  password = codes "1234";
  online = true;
  address = codes "127.0.0.1";
  empty = false;
  updated_fields = [];
}
