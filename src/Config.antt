-- ===== src/Config.antt =====
-- src/shared/config.cpp: the configuration, the defaults with what the lines of a file change. The
-- text of the file is an argument, and the map is a list of pairs.
pub mod Keys
mod Tests
use skype.Common.{
  Bool, true, false, ◌||◌, ◌==◌, Option, none, some, List, [], ◌∷◌, ◌++◌, Bytes, codes, same_text,
  is_nil, if◌then◌else◌, ◌>>=◌,
}
use skype.Common.Int.{ℤ, negsuc}
use skype.Text.{split, split_first, trim}
use skype.Text.Number.{stoi}

abbrev pub ConfigMap : Type 0
ConfigMap = List (Bytes × Bytes)

abbrev pub defaults : ConfigMap
defaults =
    (codes "ENV", codes "DEV")
    ∷ (codes "TCP_PORT", codes "5000")
    ∷ (codes "UDP_PORT", codes "7000")
    ∷ (codes "SERVER_ADDRESS", codes "127.0.0.1")
    ∷ (codes "LOCAL_IP", codes "127.0.0.1")
    ∷ (codes "REMOTE_IP", codes "206.189.0.154")
    ∷ (codes "HEADER_LENGTH", codes "10")
    ∷ (codes "DB_USER", codes "postgres")
    ∷ (codes "DB_PASSWORD", codes "postgres")
    ∷ (codes "DB_ADDRESS", codes "localhost")
    ∷ (codes "DB_NAME", codes "skype")
    ∷ (codes "DB_PORT", codes "5432")
    ∷ (codes "LOGGER_LEVEL", codes "trace")
    ∷ (codes "DEBUG_ENABLE", codes "0")
    ∷ []

-- `at`; `none` is what it throws.
unfoldable pub value_at : Bytes → ConfigMap → Option Bytes
value_at k [] = none
value_at k ((j, v) ∷ m) = if same_text j k then some v else value_at k m

unfoldable pub key_exists : Bytes → ConfigMap → Bool
key_exists k [] = false
key_exists k ((j, v) ∷ m) = same_text j k || key_exists k m

-- `m_config[key] = value`
unfoldable pub assign : Bytes → Bytes → ConfigMap → ConfigMap
assign k w [] = (k, w) ∷ []
assign k w ((j, v) ∷ m) = if same_text j k then (j, w) ∷ m else (j, v) ∷ assign k w m

-- A comment, or nothing.
abbrev pub is_skipped : Bytes → Bool
is_skipped [] = true
is_skipped (c ∷ s) = c == b'#'

unfoldable pub load_pair : Bytes → Bytes → ConfigMap → ConfigMap
load_pair key pair m = if key_exists key m then assign key pair m else m

unfoldable pub load_line : Bytes → ConfigMap → ConfigMap
unfolding load_pair
load_line line m =
    let val = trim line in
    let (key, pair) = split_first val (codes "=") in
    if is_skipped val then m else load_pair (trim key) (trim pair) m

unfoldable pub load_lines : List Bytes → ConfigMap → ConfigMap
unfolding load_line
load_lines [] m = m
load_lines (line ∷ lines) m = load_lines lines (load_line line m)

unfoldable pub set_server_address : ConfigMap → Option ConfigMap
unfolding value_at assign
set_server_address m = do
  env ← value_at (codes "ENV") m
  ip ← value_at (if same_text env (codes "PROD") then codes "REMOTE_IP" else codes "LOCAL_IP") m
  some (assign (codes "SERVER_ADDRESS") ip m)

unfoldable pub load_config_contents : Bytes → ConfigMap → Option ConfigMap
unfolding load_lines set_server_address
load_config_contents contents m = do
  lines ← split contents (codes "\n")
  set_server_address (load_lines lines m)

-- `get` for texts and for numbers.
unfoldable pub get_str : Bytes → ConfigMap → Bytes
unfolding value_at
get_str k m = elim (value_at k m) [ none ↦ [] | some v ↦ v ]

unfoldable pub get_int : Bytes → ConfigMap → ℤ
unfolding value_at
get_int k m = elim (value_at k m) [
  | none ↦ ℤ.pos 0
  | some v ↦ elim (stoi v) [ none ↦ negsuc 0 | some n ↦ n ]
]

unfoldable pub get_db : ConfigMap → Option Bytes
unfolding value_at
get_db m = do
  user ← value_at (codes "DB_USER") m
  password ← value_at (codes "DB_PASSWORD") m
  address ← value_at (codes "DB_ADDRESS") m
  port ← value_at (codes "DB_PORT") m
  name ← value_at (codes "DB_NAME") m
  some (
      codes "postgresql://"
      ++ (user
          ++ (codes ":"
              ++ (password
                  ++ (codes "@" ++ (address ++ (codes ":" ++ (port ++ (codes "/" ++ name)))))))))
