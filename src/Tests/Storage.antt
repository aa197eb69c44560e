-- ===== src/Tests/Storage.antt =====
-- The discovery of the server at concrete inputs.
use iedsync_together.Prelude.{none, false, ◌≡◌, ◌⊎◌, refl, true, [], ◌∷◌, ◌++◌, Option, some, List}
use iedsync_together.Text.{Bytes, codes, starts_with}
use iedsync_together.ProxyResolver.{equals_insensitive}
use iedsync_together.ServerDiscovery.{SavedServer, read_client_state}
use iedsync_together.ServerDiscovery.Values.{
  StorageFile, is_reasonable_local_storage_value, all_printable, read_varint_from, read_varint,
  marked_value, value_at, try_offsets, try_read_chromium_local_storage_value, values_in,
  number_values, values_of, sets_error, read_local_storage_values, latest_of, last_sorted,
  read_latest_local_storage_value,
}
use iedsync_together.ServerDiscovery.Stored.{stored, try_read_chromium_local_storage_value-stored}
use iedsync_together.ServerDiscovery.Reasonable.{
  OfSome, IsReasonable, IsSafePeer, IsFull, read_client_state-IsSafe,
}
use iedsync_together.Config.{Config}
use iedsync_together.Udp.Starting.{UdpHost, Disk, UdpTransport, start_udp}
use iedsync_together.Udp.Starting.Distinct.{IsUdpTransport, start_udp-IsUdpTransport}
use iedsync_together.Tests.Printing.{numerals}
use iedsync_together.Tests.Data.{windows, config, transport, there}

abbrev address : Bytes
address = codes "a.b:10"

address_fits : is_reasonable_local_storage_value address ≡ true
unfolding is_reasonable_local_storage_value all_printable
address_fits = refl

try_read_chromium_local_storage_value-stored_example :
    try_read_chromium_local_storage_value (stored address ++ codes "x") ≡ some address
try_read_chromium_local_storage_value-stored_example =
    try_read_chromium_local_storage_value-stored address (codes "x") address_fits

abbrev directory : Option (List StorageFile)
directory = some (
    record {
      is_regular_file = some true;
      extension = codes ".LOG";
      modified = some 7;
      content = some (codes "0last_connected_address" ++ stored address);
    }
    ∷ [])

latest_address :
    read_latest_local_storage_value directory (codes "last_connected_address") ≡ some address
unfolding sets_error read_latest_local_storage_value read_local_storage_values values_of
    equals_insensitive values_in starts_with try_read_chromium_local_storage_value try_offsets
    value_at read_varint read_varint_from marked_value is_reasonable_local_storage_value
    all_printable number_values last_sorted latest_of
latest_address = refl

abbrev saved : Bytes → List SavedServer
saved text = record { host = codes "a.b"; password = codes "pw" } ∷ []

read_client_state-IsSafe_example :
    (((read_client_state directory saved 34712).raw_address ≡ [])
      ⊎ IsReasonable (read_client_state directory saved 34712).raw_address)
    × OfSome (IsSafePeer 34712) (read_client_state directory saved 34712).remote_peer
    × OfSome IsFull (read_client_state directory saved 34712).password
read_client_state-IsSafe_example = read_client_state-IsSafe directory saved 34712

abbrev host : UdpHost
host = record {
  wsa_starts = true;
  makes_socket = true;
  binds = true;
  instance_id = codes "9-A";
  player_name = some (codes "Bert");
  computer_name = none;
  getaddrinfo =
      λ name port. some (record { is_inet = true; is_long_enough = true; address = there } ∷ []);
}

abbrev disk : Disk
disk = record { local_storage = directory; matches = saved; server_config = none }

abbrev udp_config : Config
udp_config = record (config false) {
  auto_remote_from_str = true;
  remote_peers = record { host = codes "c"; port = 5 } ∷ [];
}

abbrev stopped : UdpTransport
stopped = record {
  transport = record (transport false) { running = false; has_socket = false };
  last_refresh = 0;
}

stopped-IsUdpTransport : IsUdpTransport stopped.transport
stopped-IsUdpTransport = record { distinct = (tt, tt); socket = refl }

start_udp-IsUdpTransport_example :
    IsUdpTransport (start_udp host disk 100 udp_config true stopped).0.transport
    × ((start_udp host disk 100 udp_config true stopped).1
        ≡ (start_udp host disk 100 udp_config true stopped).0.transport.running)
start_udp-IsUdpTransport_example =
    start_udp-IsUdpTransport host disk 100 udp_config true stopped stopped-IsUdpTransport
