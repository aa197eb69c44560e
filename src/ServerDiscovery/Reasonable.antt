-- ===== src/ServerDiscovery/Reasonable.antt =====
-- What src/StrServerDiscovery.cpp lets through of what is stored.
use iedsync_together.Prelude.{
  ℕ, zero, suc, ◌+◌, ◌-◌, ◌≡◌, ◌⊎◌, inl, inr, refl, Bool, true, false, not, List, [], ◌∷◌, ◌++◌,
  Option, none, some, if◌then◌else◌, if-every, ◌>>=◌, length, take, drop, Option-cases, Every,
  Every-append, arith,
}
use iedsync_together.Text.{Bytes, codes, is_empty, starts_with}
use iedsync_together.Config.{RemotePeer}
use iedsync_together.Config.Load.{trim}
use iedsync_together.ServerDiscovery.{
  SavedServer, filled, host_of, is_safe_host, parse_str_address, first_password,
  read_password_from_saved_server_list, read_address, read_client_state,
}
use iedsync_together.ServerDiscovery.Values.{
  is_reasonable_local_storage_value, read_varint, marked_value, value_at, try_offsets,
  try_read_chromium_local_storage_value, StorageFile, StoredValue, values_in, number_values,
  or_zero, values_of, sets_error, read_local_storage_values, is_earlier, latest_of, last_sorted,
  read_latest_local_storage_value,
}

-- A predicate of the value, if there is one.
abbrev pub OfSome {ℓ} : {A : Type ℓ} → (A → Type 0) → Option A → Type 0
OfSome P none = Unit
OfSome P (some a) = P a

abbrev pub IsReasonable : Bytes → Type 0
IsReasonable value = is_reasonable_local_storage_value value ≡ true

marked_value-IsReasonable :
    (count : ℕ) (bytes : Bytes) → OfSome IsReasonable (marked_value count bytes)
unfolding marked_value
marked_value-IsReasonable count [] = tt
marked_value-IsReasonable count (mark ∷ behind) =
    if-every (OfSome IsReasonable) _ none _ (λ _. tt)
      (λ _. if-every (OfSome IsReasonable) _ (some (take count behind)) none (λ h. h) (λ _. tt))

value_at-IsReasonable : (bytes : Bytes) → OfSome IsReasonable (value_at bytes)
unfolding value_at
value_at-IsReasonable bytes = behind (read_varint bytes)
  where
    behind :
        (read : Option (ℕ × ℕ))
        → OfSome IsReasonable
            (elim read [ none ↦ none | some (count, size) ↦ marked_value count (drop size bytes) ])
    behind none = tt
    behind (some (count, size)) = marked_value-IsReasonable count (drop size bytes)

first-IsReasonable :
    (value rest : Option Bytes)
    → OfSome IsReasonable value
    → OfSome IsReasonable rest
    → OfSome IsReasonable (elim value [ some v ↦ some v | none ↦ rest ])
first-IsReasonable none rest v r = r
first-IsReasonable (some value) rest v r = v

try_offsets-IsReasonable :
    (rounds : ℕ) (bytes : Bytes) → OfSome IsReasonable (try_offsets rounds bytes)
unfolding try_offsets
try_offsets-IsReasonable zero bytes = tt
try_offsets-IsReasonable (suc rounds) [] = tt
try_offsets-IsReasonable (suc rounds) (c ∷ cs) =
    first-IsReasonable (value_at (c ∷ cs)) (try_offsets rounds cs) (value_at-IsReasonable (c ∷ cs))
      (try_offsets-IsReasonable rounds cs)

values_in-IsReasonable :
    (key : Bytes) (skip : ℕ) (bytes : Bytes)
    → Every (OfSome IsReasonable) (values_in key skip bytes)
unfolding values_in try_read_chromium_local_storage_value
values_in-IsReasonable key skip [] = tt
values_in-IsReasonable key zero (c ∷ cs) =
    either _ _ (starts_with (c ∷ cs) key)
      (
        try_offsets-IsReasonable 8 (drop (length key) (c ∷ cs)),
        values_in-IsReasonable key (length key - 1) cs,
      )
      (values_in-IsReasonable key zero cs)
  where
    either :
        (xs ys : List (Option Bytes)) (here : Bool)
        → Every (OfSome IsReasonable) xs
        → Every (OfSome IsReasonable) ys
        → Every (OfSome IsReasonable) (elim here [ true ↦ xs | false ↦ ys ])
    either xs ys true x y = x
    either xs ys false x y = y
values_in-IsReasonable key (suc skip) (c ∷ cs) = values_in-IsReasonable key skip cs

abbrev IsFine : StoredValue → Type 0
IsFine stored = OfSome IsReasonable stored.value

number_values-IsFine :
    (modified order : ℕ) (values : List (Option Bytes))
    → Every (OfSome IsReasonable) values
    → Every IsFine (number_values modified order values)
unfolding number_values
number_values-IsFine modified order [] h = tt
number_values-IsFine modified order (value ∷ values) (v, vs) =
    (v, number_values-IsFine modified (order + 1) values vs)

values_of-IsFine :
    (key : Bytes) (order : ℕ) (file : StorageFile) → Every IsFine (values_of key order file)
unfolding values_of
values_of-IsFine key order file =
    if-every (Every IsFine) _ [] _ (λ _. tt) (λ _. read (Option-cases file.content))
  where
    read :
        (file.content ≡ none) ⊎ ((bytes : Bytes) × (file.content ≡ some bytes))
        → Every IsFine (elim file.content [
          | none ↦ []
          | some bytes ↦ number_values (or_zero file.modified) order (values_in key zero bytes)
        ])
    read (inl closed) = rw closed tt
    read (inr (bytes, opened)) =
        rw opened (number_values-IsFine _ order _ (values_in-IsReasonable key zero bytes))

read_local_storage_values-IsFine :
    (key : Bytes) (files : List StorageFile) (order : ℕ)
    → Every IsFine (read_local_storage_values key order files)
unfolding read_local_storage_values
read_local_storage_values-IsFine key [] order = tt
read_local_storage_values-IsFine key (file ∷ files) order =
    if-every (Every IsFine) (sets_error file (values_of key order file)) (values_of key order file)
      (values_of key order file
        ++ read_local_storage_values key (order + length (values_of key order file)) files)
      (λ failed. values_of-IsFine key order file)
      (λ fine.
        Every-append IsFine (values_of key order file) _ (values_of-IsFine key order file)
          (read_local_storage_values-IsFine key files _))

latest_of-IsFine :
    (values : List StoredValue) (best : StoredValue)
    → IsFine best
    → Every IsFine values
    → IsFine (latest_of best values)
unfolding latest_of
latest_of-IsFine [] best b h = b
latest_of-IsFine (value ∷ values) best b (v, vs) =
    latest_of-IsFine values (if is_earlier best value then value else best)
      (if-every IsFine (is_earlier best value) value best (λ _. v) (λ _. b)) vs

last_sorted-IsReasonable :
    (values : List StoredValue) → Every IsFine values → OfSome IsReasonable (last_sorted values)
unfolding last_sorted
last_sorted-IsReasonable [] h = tt
last_sorted-IsReasonable (value ∷ values) (v, vs) = latest_of-IsFine values value v vs

read_latest-IsReasonable :
    (directory : Option (List StorageFile)) (key : Bytes)
    → OfSome IsReasonable (read_latest_local_storage_value directory key)
unfolding read_latest_local_storage_value
read_latest-IsReasonable none key = tt
read_latest-IsReasonable (some files) key =
    last_sorted-IsReasonable _ (read_local_storage_values-IsFine key files 0)

-- A host of 1 to 253 letters, digits, dots, dashes and underscores, and the port given.
abbrev pub IsSafePeer : ℕ → RemotePeer → Type 0
IsSafePeer port peer = (is_safe_host peer.host ≡ true) × (peer.port ≡ port)

parse_str_address-IsSafePeer :
    (address : Bytes) (port : ℕ) → OfSome (IsSafePeer port) (parse_str_address address port)
unfolding parse_str_address
parse_str_address-IsSafePeer address port =
    if-every (OfSome (IsSafePeer port)) _ none _ (λ _. tt) (λ _. hosted (host_of (trim address)))
  where
    hosted :
        (found : Option Bytes)
        → OfSome (IsSafePeer port) (
            found >>= λ host.
            if not (is_safe_host host) then none else some (record { host = host; port = port }))
    hosted none = tt
    hosted (some host) =
        if-every (OfSome (IsSafePeer port)) (not (is_safe_host host)) none
          (some (record { host = host; port = port })) (λ _. tt)
          (λ (safe : not (is_safe_host host) ≡ false). (ground (arith, safe), refl))

abbrev pub IsFull : Bytes → Type 0
IsFull password = is_empty password ≡ false

first_password-IsFull :
    (host : Bytes) (servers : List SavedServer) → OfSome IsFull (first_password host servers)
unfolding first_password
first_password-IsFull host [] = tt
first_password-IsFull host (server ∷ servers) =
    if-every (OfSome IsFull) _ (some server.password) _ (λ h. ground (arith, h))
      (λ _. first_password-IsFull host servers)

filled-IsFull : (value : Option Bytes) → OfSome IsFull (filled value)
filled-IsFull none = tt
filled-IsFull (some value) = if-every (OfSome IsFull) _ none (some value) (λ _. tt) (λ h. h)

read_address-IsSafe :
    (address : Option Bytes) (port : ℕ)
    → OfSome IsReasonable address
    → (((read_address address port).0 ≡ []) ⊎ IsReasonable (read_address address port).0)
      × OfSome (IsSafePeer port) (read_address address port).1
unfolding read_address
read_address-IsSafe none port h = (inl refl, tt)
read_address-IsSafe (some address) port h = (inr h, parse_str_address-IsSafePeer address port)

saved-IsFull :
    (directory : Option (List StorageFile)) (matches : Bytes → List SavedServer) (peer : RemotePeer)
    → OfSome IsFull (read_password_from_saved_server_list directory matches peer)
unfolding read_password_from_saved_server_list
saved-IsFull directory matches peer =
    listed (read_latest_local_storage_value directory (codes "savedServerList"))
  where
    listed :
        (list : Option Bytes)
        → OfSome IsFull (
            list >>= λ saved.
            if is_empty saved then none else first_password peer.host (matches saved))
    listed none = tt
    listed (some saved) =
        if-every (OfSome IsFull) (is_empty saved) none (first_password peer.host (matches saved))
          (λ _. tt) (λ _. first_password-IsFull peer.host (matches saved))

-- Whatever the files of the local storage hold, and whatever the pattern finds in them: the raw address
-- is empty or a printable text of at most 2048 bytes, the server's host has 1 to 253 letters, digits,
-- dots, dashes and underscores, its port is the one given, and a password is not empty.
pub read_client_state-IsSafe :
    (directory : Option (List StorageFile)) (matches : Bytes → List SavedServer) (port : ℕ)
    → let state = read_client_state directory matches port in
      ((state.raw_address ≡ []) ⊎ IsReasonable state.raw_address)
      × OfSome (IsSafePeer port) state.remote_peer
      × OfSome IsFull state.password
unfolding read_client_state
read_client_state-IsSafe directory matches port =
    let address = read_latest_local_storage_value directory (codes "last_connected_address") in
    let (raw, peer) =
      read_address-IsSafe address port
        (read_latest-IsReasonable directory (codes "last_connected_address")) in
    (raw, peer, chosen _ (filled-IsFull _) (read_address address port).1)
  where
    chosen :
        (password : Option Bytes)
        → OfSome IsFull password
        → (peer : Option RemotePeer)
        → OfSome IsFull (elim password [
          | some password ↦ some password
          | none ↦ peer >>= read_password_from_saved_server_list directory matches
        ])
    chosen none h none = tt
    chosen none h (some peer) = saved-IsFull directory matches peer
    chosen (some password) h peer = h
