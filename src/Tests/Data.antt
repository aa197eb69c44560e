-- ===== src/Tests/Data.antt =====
-- A small game: a shield and a sword, two players, and two transports with one secret.
use iedsync_together.Prelude.{
  ℕ, ◌+◌, ◌%◌, refl, Bool, true, false, [], ◌∷◌, ◌++◌, none, some, replicate, arith, Every, ltb,
  ◌==◌, if◌then◌else◌, length,
}
use iedsync_together.Text.{codes}
use iedsync_together.Config.{Config, auto}
use iedsync_together.Engine.{Engine, Actor, Form}
use iedsync_together.FormIdentity.Slots.{FormIdentity, SlotState}
use iedsync_together.FormIdentity.Slots.RoundTrip.{IsIdentity, IsSlot}
use iedsync_together.ProxyResolver.{World, ProcessLists}
use iedsync_together.SyncService.{Service, Snapshot}
use iedsync_together.SyncService.Remote.{Update}
use iedsync_together.SyncService.Remote.Delivery.{IsSendable}
use iedsync_together.Udp.{Windows, Endpoint, Peer, Transport}
use iedsync_together.Tests.Printing.{numerals}

abbrev pub shield : FormIdentity
shield = record { plugin = codes "S.esm"; local_form_id = 11 }

pub shield-IsIdentity : IsIdentity shield
shield-IsIdentity = record {
  plugin_bytes = (omega arith, (omega arith, (omega arith, (omega arith, (omega arith, tt)))));
  plugin_ne_nil = λ e. ground arith;
  id_pos = omega arith;
  id_le = omega arith;
}

abbrev pub worn : SlotState
worn = some shield ∷ replicate 18 none

pub worn-IsSlot : Every IsSlot worn
worn-IsSlot = (
  shield-IsIdentity,
  (
    tt,
    (
      tt,
      (
        tt,
        (
          tt,
          (tt, (tt, (tt, (tt, (tt, (tt, (tt, (tt, (tt, (tt, (tt, (tt, (tt, (tt, tt)))))))))))))),
        ),
      ),
    ),
  ),
)

abbrev pub update : Update
update = record { instance_id = codes "7-F"; sender = codes "Ann"; slots = worn; revision = 3 }

pub update-IsSendable : IsSendable update
update-IsSendable = record {
  id_plain = (refl, (refl, (refl, tt)));
  id_ne_nil = λ e. ground arith;
  name_bytes = (omega arith, (omega arith, (omega arith, tt)));
  name_ne_nil = λ e. ground arith;
  slots_ok = (refl, worn-IsSlot);
  revision_le = omega arith;
}

instance abbrev pub windows : Windows
windows = record {
  hmac_sha256 = λ secret content. some ((length content + length secret) % 256 ∷ 77 ∷ []);
  inet_ntop = λ address. codes "h" ++ numerals.dec address;
}

abbrev pub config : Bool → Config
config relay = record {
  network_enabled = true;
  transport_mode = auto;
  udp_fallback = true;
  require_str_bridge = false;
  auto_discovery = true;
  relay_mode = relay;
  auto_remote_from_str = false;
  auto_shared_secret_from_str = false;
  suppress_remote_npc_displays = true;
  local_port = 28300;
  peer_port = 28300;
  auto_remote_port = 28300;
  capture_interval_ms = 1000;
  resend_interval_ms = 5000;
  discovery_interval_ms = 3000;
  peer_timeout_ms = 15000;
  peer_host = [];
  remote_peers = [];
  shared_secret = codes "pw";
}

abbrev pub here : Endpoint
here = record { s_addr = 1; port = 5 }

abbrev pub there : Endpoint
there = record { s_addr = 2; port = 5 }

abbrev pub bert : Peer
bert = record { address = there; name = codes "Bert"; instance_id = codes "8-E"; last_seen = 100 }

abbrev pub transport : Bool → Transport
transport relay = record {
  config = config relay;
  running = true;
  has_socket = true;
  broadcast = record { s_addr = 255; port = 5 };
  configured_peers = there ∷ [];
  shared_secret = codes "pw";
  instance_id = codes "9-A";
  peers = (codes "k", bert) ∷ [];
}

-- The proxy of Ann, and the form of the shield.
abbrev pub ann : Actor
ann = record {
  form_id = 0xFF000010;
  is_player_ref = false;
  base = some 0xFF000011;
  name = some (codes "ann");
}

abbrev pub shield_form : Form
shield_form = record { form_id = 11; local_form_id = 11; file = some (codes "S.esm"); actor = none }

abbrev pub ann_form : Form
ann_form = record { form_id = 0xFF000010; local_form_id = 16; file = none; actor = some ann }

abbrev pub engine : Engine
engine = record {
  lookup_by_id =
      λ id. if id == 11 then some shield_form else if id == 0xFF000010 then some ann_form else none;
  data_handler = some (λ id plugin. if id == 11 then some shield_form else none);
}

abbrev pub lists : ProcessLists
lists = record {
  high = some ann ∷ none ∷ [];
  middle_high = some ann ∷ [];
  middle_low = [];
  low = [];
}

abbrev pub world : World
world = record {
  Distance = ℕ;
  less = ltb;
  distance = λ actor. actor.form_id;
  lists = some lists;
  engine = engine;
  around = record { has_player = true; has_vm = true; is_installed = true };
}

abbrev pub snapshot : Snapshot
snapshot = record {
  slots = worn;
  revision = 2;
  character_name = codes "Ann";
  last_proxy = 0xFF000010;
}

abbrev pub service : Service
service = record {
  resend_interval_ms = 5000;
  suppress = true;
  running = true;
  capture_pending = false;
  local_slots = worn;
  has_local_slots = true;
  revision = 4;
  last_send = 1000;
  snapshots = (codes "7-F", snapshot) ∷ [];
  blocked = 5 ∷ [];
}
