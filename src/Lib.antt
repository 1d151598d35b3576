-- ===== src/Lib.antt =====
-- Verification of the C++ client of the Crimson Desert online modification (client/src): the code
-- that is loaded into the game, finds the game's data, talks to a relay server and keeps players,
-- cutscenes and puzzles in step.
--
-- The parts and how they interact. At the start `ResolveOffsets` fills the global offsets, from the
-- cache or by a scan; the inventory hook, the cutscene sync and the puzzle sync read them to find the
-- functions that they hook and the memory that they read. The session owns the client of the relay
-- server: its worker thread connects, receives frames, and hands packets to `OnPacket`, which calls
-- the other parts; these give packets to the client's queue.
--
-- Common: numbers, lists, texts and bits that the modules share.
-- Net.Json: nlohmann::json as a parameter, a record of the functions that the client calls, with the
--   laws that it documents; Net.Json.Sample is a small library that fulfils them.
-- Net.Protocol: net/protocol.h and protocol.cpp. `packet_type_to_string`, `serialize_packet` and
--   their inverses are PacketTypeToString, SerializePacket and theirs.
-- Net.Base64, Net.Frame, Net.Send, Net.Receive, Net.Worker: net/client.cpp. `base64` is Base64;
--   `send_frame` is the frame that SendFrame builds and `parse_frame` one round of the inner loop of
--   ReceiveLoop; `send_all` and `flush_send_queue` are SendAll and FlushSendQueue over a list of the
--   socket's answers; `on_chunks` is ReceiveLoop over what recv brings, its callbacks listed as
--   events; `handshake`, `do_connect_once` and `worker_loop` are the functions of these names.
-- Game.Memory: game/memory.h and memory.cpp. Memory is a function from addresses to bytes;
--   `safe_read` and `safe_write` are SafeRead and SafeWrite.
-- Game.Offsets: game/offsets.h.
-- Game.Pattern, Game.Cache, Game.Walk, Game.Resolve: game/scanner.cpp, with CompilePattern and
--   ScanPattern, LoadFromCache and SaveOffsetCache, WalkEntityLayout, and ResolveOffsets.
--   Game.Float compares floats, which are bit patterns.
-- Inventory: inventory/inventory_hook.cpp. `append_beacon_item` is AppendBeaconItem and
--   `hooked_use_item` the hook of the item use.
-- Ui.Modal: ui/modal.cpp, the page of the overlay that Open, Close, Toggle and the buttons choose;
--   `render` is Render with the button that is clicked in that frame.
-- Sync.Cutscene and Sync.Puzzle: sync/cutscene_sync.cpp and sync/puzzle_sync.cpp.
-- Sync.Player: sync/player_sync.cpp and the player's state of net/protocol.h. The table of the other
--   players is a Common.Table, the std::map with text keys. Gameplay is ReadLocalGameplay, Wire is
--   EmitGameplayJson and ParseGameplay, Update is ApplyStateUpdate and ApplyAnimationUpdate, Writes is
--   ApplyGameplayWrites, Motion is ApplyRemoteState and ApplyTraversal, Send is SendLocalState and Tick;
--   Reach has a step for each call. Game.Float.Arith is the arithmetic of IEEE floats, rounded to
--   nearest, on the same bit patterns that Game.Float compares.
-- Sync.Combat: sync/combat_sync.cpp, each handler under its name; Hooks is InstallHooks and
--   RemoveHooks over a record for MinHook with the laws that it documents. The code that MinHook
--   patches belongs to the state of that record, not to the memory.
-- Proxy: proxy/dxgi_proxy.cpp, each exported function under its name; `references` is what Windows
--   counts for the loaded library.
-- Render: hooks/render_hook.cpp. `deliver` follows a message from one window procedure to the next,
--   as CallWindowProc does.
-- Startup: dllmain.cpp, the calls of InitThread, Shutdown and DllMain in their order.
-- Session: session.cpp, with `on_packet` for OnPacket and `tick` for Tick, over the values that OnPacket
--   takes from the JSON, which `message_of` of Session.Packets takes. Session.Parts joins the session
--   with the two synchronisers: `perform` is what a call of the session does to them, `receive_packet`
--   a packet from OnPacket to their states, and `tell_combat` the SetHost of JOIN_ACK and
--   HOST_REASSIGN.
-- The modules below these prove what their names say; those named Tests and Sample hold examples.
--
-- Parameters. The answers of the system and of the socket calls, the drawn masks, the regions that
-- VirtualQuery reports and the addresses that fault are arguments, as are the answers of the hook
-- library, the hash of the game's binary (one value for all calls of GameBinaryHash in a start), the
-- JSON library, sin and cos, and the pointers of dxgi.dll.
--
-- Bounds and fuel. Machine words are numbers with their wrap-around written out: addresses and frame
-- lengths wrap at 2^64, patterns of 32 bits keep their low bits. A payload of 2^63 bytes or more
-- cannot be held by a std::string; the receive buffer is taken to stay below 2^31 bytes, since
-- ReceiveLoop erases what it has parsed by a `long`. Floats are exact: a sum, product or quotient is
-- rounded once from a whole number of smallest units. `drain` takes fuel, the length of the buffer,
-- which suffices since each frame takes two bytes or more; `find_offset` and `scan_flag` take the
-- rounds of their loops, and `attempts` those of the start-up. `deliver` takes the depth of the
-- calls, of which two suffice. Times are whole milliseconds.
--
-- Not modelled: the drawing of the overlay and of its theme; the creation of the dummy swap chain and
-- the log, which only call the system; the order of the threads: a handler is one step; where a
-- packet makes a handler throw, what it has changed until then; the relay server, which is another
-- program in another language.
pub mod Common
pub mod Net
pub mod Game
pub mod Sync
pub mod Proxy
pub mod Render
pub mod Startup
pub mod Ui
pub mod Inventory
pub mod Session
