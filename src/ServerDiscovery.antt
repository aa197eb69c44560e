-- ===== src/ServerDiscovery.antt =====
-- src/StrServerDiscovery.h and src/StrServerDiscovery.cpp: the server that the player was last
-- connected to, as the browser of the other mod has stored it, and the password of a server's
-- settings. A file is its bytes, and the text that `std::getline` cuts into lines. The search of the
-- regular expression for the saved servers is a parameter. `Trim` has the text of that of Config.cpp.
pub mod Values
pub mod Stored
pub mod Reasonable
use iedsync_together.Prelude.{
  ℕ, ◌+◌, ◌-◌, ◌≡◌, refl, Bool, true, false, not, ◌&&◌, ◌||◌, List, [], ◌∷◌, Option, none, some,
  leb, ltb, ◌==◌, if◌then◌else◌, length, take, is_some, ◌>>=◌,
}
use iedsync_together.Text.{
  Bytes, codes, equal, find, is_empty, rfind, starts_with, substr, substr_count,
}
use iedsync_together.Text.Number.{stoul, is_digit}
use iedsync_together.Text.Split.{split}
use iedsync_together.ProxyResolver.{equals_insensitive}
use iedsync_together.Config.{RemotePeer}
use iedsync_together.Config.Load.{trim}
use iedsync_together.ServerDiscovery.Values.{StorageFile, read_latest_local_storage_value}

unfoldable pub every : (ℕ → Bool) → Bytes → Bool
every test [] = true
every test (c ∷ cs) = test c && every test cs

-- `std::isalnum` in the "C" locale, a dot, a dash or an underscore.
abbrev pub is_host_char : ℕ → Bool
is_host_char c =
    is_digit c
    || leb b'A' c && leb c b'Z'
    || leb b'a' c && leb c b'z'
    || c == b'.'
    || c == b'-'
    || c == b'_'

unfoldable pub is_safe_host : Bytes → Bool
unfolding every
is_safe_host host = not (is_empty host || ltb 253 (length host)) && every is_host_char host

-- The host of a trimmed address; `none` where the port is out of its range.
unfoldable pub host_of : Bytes → Option Bytes
unfolding every
host_of value = elim (rfind value (codes ":")) [
  | none ↦ some value
  | some separator ↦
      let port_text = substr value (separator + 1) in
      if not (is_empty port_text) && every is_digit port_text
      then elim (stoul 10 port_text) [
        | none ↦ none
        | some parsed ↦
            if parsed == 0 || ltb 65535 parsed then none else some (trim (take separator value))
      ]
      else some value
]

unfoldable pub parse_str_address : Bytes → ℕ → Option RemotePeer
unfolding host_of is_safe_host
parse_str_address text port =
    let value = trim text in
    if is_empty value
      || is_some (find value (codes "|"))
      || is_some (find value (codes "/"))
      || is_some (find value (codes "\\"))
    then none
    else host_of value >>= λ host.
        if not (is_safe_host host) then none else some (record { host = host; port = port })

-- The host and the password of one match of the pattern of the saved servers.
pub record SavedServer : Type 0 where
  pub host : Bytes
  pub password : Bytes

unfoldable pub first_password : Bytes → List SavedServer → Option Bytes
unfolding equals_insensitive
first_password host [] = none
first_password host (server ∷ servers) =
    let rest = first_password host servers in
    if equals_insensitive server.host host && not (is_empty server.password)
    then some server.password
    else rest

-- `directory` is `none` where there is none; `matches` are the matches of the pattern, in order.
unfoldable pub read_password_from_saved_server_list :
    Option (List StorageFile) → (Bytes → List SavedServer) → RemotePeer → Option Bytes
unfolding first_password
read_password_from_saved_server_list directory matches peer =
    read_latest_local_storage_value directory (codes "savedServerList") >>= λ saved.
    if is_empty saved then none else first_password peer.host (matches saved)

pub record ClientState : Type 0 where
  pub remote_peer : Option RemotePeer
  pub password : Option Bytes
  pub raw_address : Bytes

-- The stored password, if there is one that is not empty.
abbrev pub filled : Option Bytes → Option Bytes
filled none = none
filled (some value) = if is_empty value then none else some value

-- `state.rawAddress` and `state.remotePeer`.
unfoldable pub read_address : Option Bytes → ℕ → Bytes × Option RemotePeer
unfolding parse_str_address
read_address none port = ([], none)
read_address (some address) port = (address, parse_str_address address port)

unfoldable pub read_client_state :
    Option (List StorageFile) → (Bytes → List SavedServer) → ℕ → ClientState
unfolding read_address read_password_from_saved_server_list
read_client_state directory matches port =
    let (raw, peer) =
      read_address (read_latest_local_storage_value directory (codes "last_connected_address"))
        port in
    record {
      remote_peer = peer;
      raw_address = raw;
      password =
          elim (filled
            (read_latest_local_storage_value directory (codes "last_connected_password"))) [
              | some password ↦ some password
              | none ↦ peer >>= read_password_from_saved_server_list directory matches
            ];
    }

-- Up to the first byte zero, as `c_str()` is read.
abbrev pub c_str : Bytes → Bytes
c_str [] = []
c_str (c ∷ cs) = let rest = c_str cs in if c == 0 then [] else c ∷ rest

abbrev pub is_same_word : Bytes → Bytes → Bool
is_same_word left right = equals_insensitive (c_str left) (c_str right)

-- `value.substr(0, value.find_first_of(";#"))`.
abbrev pub before_comment : Bytes → Bytes
before_comment [] = []
before_comment (c ∷ cs) =
    let rest = before_comment cs in if c == b';' || c == b'#' then [] else c ∷ rest

abbrev pub ends_with_bracket : Bytes → Bool
ends_with_bracket line = equal (substr line (length line - 1)) (codes "]")

-- The section that a line in brackets opens.
unfoldable pub section_of : Bytes → Option Bytes
section_of line =
    if starts_with line (codes "[") && ends_with_bracket line
    then some (substr_count line 1 (length line - 2))
    else none

-- The value of a line of the key.
unfoldable pub value_of : Bytes → Bytes → Option Bytes
value_of key line = find line (codes "=") >>= λ separator.
    if not (is_same_word (trim (take separator line)) key)
    then none
    else some (trim (before_comment (trim (substr line (separator + 1)))))

unfoldable pub read_ini_lines : Bytes → Bytes → Bool → List Bytes → Option Bytes
unfolding section_of value_of
read_ini_lines section key in_section [] = none
read_ini_lines section key in_section (raw ∷ lines) =
    let line = trim raw in
    elim (is_empty line || starts_with line (codes ";") || starts_with line (codes "#")) [
      | true ↦ read_ini_lines section key in_section lines
      | false ↦ elim (section_of line) [
        | some current ↦ read_ini_lines section key (is_same_word current section) lines
        | none ↦ elim (if in_section then value_of key line else none) [
          | some value ↦ some value
          | none ↦ read_ini_lines section key in_section lines
        ]
      ]
    ]

-- `file` is `none` where the file cannot be opened.
unfoldable pub read_ini_value : Option Bytes → Bytes → Bytes → Option Bytes
unfolding read_ini_lines
read_ini_value file section key =
    file >>= λ contents. read_ini_lines section key false (split contents b'\n')

unfoldable pub read_server_password_from_config : Option Bytes → Option Bytes
unfolding read_ini_value
read_server_password_from_config file =
    filled (read_ini_value file (codes "GameServer") (codes "sPassword"))
