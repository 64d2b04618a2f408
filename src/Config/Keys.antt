-- ===== src/Config/Keys.antt =====
-- The keys of the configuration of src/shared/config.cpp, and its server address.
use skype.Common.{
  Bool, true, false, ◌||◌, ◌≡◌, refl, ap, sym, ◌∙◌, Option, some, List, [], ◌∷◌, Bytes, codes,
  same_text, if◌then◌else◌, ◌>>=◌, Bool-cases, inl, inr, same_text_refl, eq_of_same_text, map,
}
use skype.Text.{split_first, trim}
use skype.Text.Split.{split-Spells}
use skype.Config.{
  ConfigMap, defaults, value_at, key_exists, assign, is_skipped, load_pair, load_line, load_lines,
  set_server_address, load_config_contents,
}

abbrev pub keys : ConfigMap → List Bytes
keys m = map (λ e. e.0) m

keys-assign : (k w : Bytes) (m : ConfigMap) → key_exists k m ≡ true → keys (assign k w m) ≡ keys m
unfolding assign key_exists
keys-assign k w [] h = absurd (cc h)
keys-assign k w ((j, v) ∷ m) h = elim (Bool-cases (same_text j k)) [
  | inl same ↦ rw same refl
  | inr other ↦ rw other (ap (λ l. j ∷ l) (keys-assign k w m (rw other at h)))
]

keys-load_pair : (k w : Bytes) (m : ConfigMap) → keys (load_pair k w m) ≡ keys m
unfolding load_pair
keys-load_pair k w m = elim (Bool-cases (key_exists k m)) [
  | inl known ↦ rw known (keys-assign k w m known)
  | inr unknown ↦ rw unknown refl
]

keys-load_line : (line : Bytes) (m : ConfigMap) → keys (load_line line m) ≡ keys m
unfolding load_line
keys-load_line line m = elim (Bool-cases (is_skipped (trim line))) [
  | inl skipped ↦ rw skipped refl
  | inr read ↦
      let (key, pair) = split_first (trim line) (codes "=") in
      rw read (keys-load_pair (trim key) (trim pair) m)
]

keys-load_lines : (lines : List Bytes) (m : ConfigMap) → keys (load_lines lines m) ≡ keys m
unfolding load_lines
keys-load_lines [] m = refl
keys-load_lines (line ∷ lines) m = keys-load_lines lines (load_line line m) ∙ keys-load_line line m

-- A key that is there has a value, whatever the values are.
abbrev pub has_key : Bytes → List Bytes → Bool
has_key k [] = false
has_key k (j ∷ js) = same_text j k || has_key k js

value_at-keys :
    (k : Bytes) (m : ConfigMap) → has_key k (keys m) ≡ true → (v : Bytes) × (value_at k m ≡ some v)
unfolding value_at
value_at-keys k [] h = absurd (cc h)
value_at-keys k ((j, v) ∷ m) h = elim (Bool-cases (same_text j k)) [
  | inl same ↦ (v, rw same refl)
  | inr other ↦ let (w, e) = value_at-keys k m (rw other at h) in (w, rw other e)
]

key_exists-keys : (k : Bytes) (m : ConfigMap) → key_exists k m ≡ has_key k (keys m)
unfolding key_exists
key_exists-keys k [] = refl
key_exists-keys k ((j, v) ∷ m) = ap (λ b. same_text j k || b) (key_exists-keys k m)

value_at-assign : (k w : Bytes) (m : ConfigMap) → value_at k (assign k w m) ≡ some w
unfolding value_at assign
value_at-assign k w [] = rw (same_text_refl k) refl
value_at-assign k w ((j, v) ∷ m) = elim (Bool-cases (same_text j k)) [
  | inl same ↦ rw same (rw same refl)
  | inr other ↦ rw other (rw other (value_at-assign k w m))
]

value_at-assign_ne :
    (k j w : Bytes) (m : ConfigMap)
    → same_text j k ≡ false
    → value_at k (assign j w m) ≡ value_at k m
unfolding value_at assign
value_at-assign_ne k j w [] h = rw h refl
value_at-assign_ne k j w ((i, v) ∷ m) h = elim (Bool-cases (same_text i j)) [
  | inl same ↦
      let differs : same_text i k ≡ false = rw (eq_of_same_text i j same) h in
      rw same (rw differs refl)
  | inr other ↦ rw other (
      ap (λ (o : Option Bytes). if same_text i k then some v else o) (value_at-assign_ne k j w m h))
]

-- The address that the environment asks for.
abbrev pub environment_key : Bytes → Bytes
environment_key env = if same_text env (codes "PROD") then codes "REMOTE_IP" else codes "LOCAL_IP"

abbrev pub environment_address : ConfigMap → Option Bytes
environment_address m = value_at (codes "ENV") m >>= λ env. value_at (environment_key env) m

environment_key-other :
    (env : Bytes) → same_text (codes "SERVER_ADDRESS") (environment_key env) ≡ false
environment_key-other env = elim (Bool-cases (same_text env (codes "PROD"))) [
  | inl e ↦ rw e refl
  | inr e ↦ rw e refl
]

environment_key-known : (env : Bytes) → has_key (environment_key env) (keys defaults) ≡ true
environment_key-known env = elim (Bool-cases (same_text env (codes "PROD"))) [
  | inl e ↦ rw e refl
  | inr e ↦ rw e refl
]

-- Where the map has the keys of the defaults, the address is set and the keys stay.
set_server_address-keys :
    (m : ConfigMap)
    → keys m ≡ keys defaults
    → (m' : ConfigMap) × (set_server_address m ≡ some m')
      × (keys m' ≡ keys defaults)
      × (value_at (codes "SERVER_ADDRESS") m' ≡ environment_address m')
unfolding set_server_address
set_server_address-keys m same =
    let (env, e) = value_at-keys (codes "ENV") m (rw same refl) in
    let (ip, a) = value_at-keys (environment_key env) m (rw same (environment_key-known env)) in
    let m' = assign (codes "SERVER_ADDRESS") ip m in
    let e' = value_at-assign_ne (codes "ENV") (codes "SERVER_ADDRESS") ip m refl in
    let a' =
      value_at-assign_ne (environment_key env) (codes "SERVER_ADDRESS") ip m
        (environment_key-other env) in
    (
      m',
      rw e (rw a refl),
      keys-assign (codes "SERVER_ADDRESS") ip m
            (rw (key_exists-keys (codes "SERVER_ADDRESS") m) (rw same refl))
          ∙ same,
      value_at-assign (codes "SERVER_ADDRESS") ip m
          ∙ sym (
              ap (λ (o : Option Bytes). o >>= λ env'. value_at (environment_key env') m') (e' ∙ e)
              ∙ a'
              ∙ a),
    )

-- Whatever a file says, its configuration loads over the defaults and has their keys, none more
-- and none less, and the server's address is the remote or the local one, as the environment says.
pub load_config_contents-keys :
    (contents : Bytes)
    → (m : ConfigMap) × (load_config_contents contents defaults ≡ some m)
      × (keys m ≡ keys defaults)
      × (value_at (codes "SERVER_ADDRESS") m ≡ environment_address m)
unfolding load_config_contents
load_config_contents-keys contents =
    let (p, ps, e, _) = split-Spells b'\n' [] contents in
    let (m, loaded, same, address) =
      set_server_address-keys (load_lines (p ∷ ps) defaults) (keys-load_lines (p ∷ ps) defaults) in
    (m, rw e loaded, same, address)
