-- ===== src/Lib.antt =====
-- IEDSyncTogether, a plugin that shows each player the equipment displays of the other players of a
-- Skyrim Together game: a model of its core.
--
-- The game's start calls the parts in the order of src/main.cpp. The displays of the local player go
-- two ways. The probe (src/LocalCaptureProbe.cpp) reads them off the scene, the codec
-- (src/LocalIEDState.cpp) writes them as a text, and the adapter to the plugin message service
-- (src/STRPMAdapter.cpp) sends it; the adapter of another player reads it back, keeps it and hands it
-- to the renderer (src/RemoteIEDRenderer.cpp), which sets the displays up on the proxy of the sender
-- and keeps their transforms. The slots alone are captured from Immersive Equipment Displays
-- (src/IEDBridge.cpp), written as identities of forms (src/FormIdentity.cpp) and sent in a packet by
-- the service (src/SyncService.cpp) over a transport (src/UdpTransport.cpp, src/StrTransport.cpp). A
-- received packet becomes a snapshot of its player, bound to the actor that stands for that player
-- (src/ProxyResolver.cpp), and the displays plugin asks the service for the slots of an actor.
--
-- The files:
--   Prelude, Text, Dict: Boolean tests, lists over native numbers, `std::string`, the parsing of
--     numbers, `Split`, and maps.
--   FormIdentity: `HexEncode`, `HexDecode`, `EncodeSlots`, `DecodeSlots`, `MakeFormIdentity`,
--     `ResolveFormIdentity`.
--   Packet: `ReadField` and the layout of a packet, which the transports share.
--   Engine, ProxyResolver: what is read of the game, and the search for a player's proxy.
--   Scene: the scene graph below an actor, the transforms, and the operations on floating-point
--     numbers.
--   LocalIedState: `EncodeLocalIEDState` and `DecodeLocalIEDState`.
--   CaptureProbe: `VisitIEDObjects`, `CompleteCapture` and the other members of the probe.
--   Renderer: its Nodes (`SlotNode`, `CustomNode`), Calls (the script calls), Apply (`Apply`,
--     `ClearProxy`, `Reset`) and Watchdog (`WatchdogTick`), and in Steps its calls in any order.
--   IedBridge: the request for the 19 slots and its answers, `SetActorBlocked`.
--   Config: the settings, and in Load how they are read from the files (src/Config.cpp).
--   ServerDiscovery: the server and the password that are stored on disk (src/StrServerDiscovery.cpp);
--     in Values the reading of the local storage.
--   SyncService: its Remote (`HandlePacket`), Capture (`OnLocalCapture`, `SendNetworkPayload`, the
--     transports of `Start`), Proxies (`RefreshProxyMitigation`, `Reset`,
--     `Tick`) and Query (`QueryRemoteSlot`).
--   Udp: its Auth (the signatures and `MarkRelayed`), Peers (greetings, peers, destinations), Sending
--     (`Send`, `RelayGameplayPacket`, `Stop`), Receiver (`ReceiverLoop`) and Starting (`Start`, the
--     peers and the secret that the server discovery gives, `MaintenanceLoop`).
--   StrTransport: `Start` with its checks of the service, `Stop`, `Send` and `OnMessage`.
--   Strpm: the adapter of the plugin messages; the outgoing half with, in Delivered, its calls in any
--     order, in Loading its start and stop, and in Incoming what it receives.
--   Game: what src/main.cpp does when the game has loaded and when a save is loaded, the path of a
--     captured state, and the exported query.
--   Tests: the theorems at concrete inputs.
--
-- A string is a list of bytes, a form id or an address a number, and a machine integer wraps where it
-- is counted on. Each call is one step on the members of its class; the mutexes and the game's thread
-- make it so, and a task that a callback queues is a value that is run later. What a call sends,
-- blocks or asks of the script engine is in its result, and an exception that the code does not catch
-- is `none`. A hash map is a list of entries in some order. The loop of `Split` runs on fuel, one round
-- more than the text has bytes, and ends within it; the loops with a fixed number of rounds count them,
-- and all others are over lists and trees. The printing of numbers, the printing and reading of
-- floating-point numbers, their comparison and difference, and std::sort are interfaces with laws,
-- which Tests fills. The HMAC digest, the text of an address, the reading of a key of a settings file,
-- the search of a regular expression, the libraries of the message service and what the script engine
-- answers are functions without laws, as is what the calls of Windows give. Not modelled: logging,
-- threads and sockets, the registration with the plugin host, and what the engine draws.
pub mod Prelude
pub mod Text
pub mod FormIdentity
pub mod Packet
pub mod Engine
pub mod ProxyResolver
pub mod IedBridge
pub mod LocalIedState
pub mod Scene
pub mod Renderer
pub mod Dict
pub mod Config
pub mod SyncService
pub mod Udp
pub mod Strpm
pub mod CaptureProbe
pub mod Game
pub mod ServerDiscovery
pub mod StrTransport
pub mod Tests
