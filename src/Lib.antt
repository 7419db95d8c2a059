-- ===== src/Lib.antt =====
-- A cooperative multiplayer mod for one game: every process keeps a registry of networked elements,
-- and a session joins up to four processes, one host and three clients, over GameNetworkingSockets.
--
-- Parts. An element has a 32-bit id: the host allocates from the lower half of 65536 ids, a client
-- from its band of the upper half, and either side registers what it receives as mirrors under the
-- sender's id. A mirror manager owns the elements of one type and keeps its map and the registry in
-- step; when a peer leaves, its mirrors are drained. The session stores the latest pose of each peer
-- slot, queues the reliable messages, relays what a client sends to the other clients and gives
-- connections their slots. On the game thread the feed reads the queue: three kinds of messages go to
-- the handshake, which learns the slots, the ids and the nicknames of the peers, and the others pass a
-- gate on their way to the engine side, whose calls are a list of actions here.
--
-- Files, and the code they are about (paths below votv-coop/ of the repository's src/):
--   ElementId             include/coop/element/element.h, registry.h and src/coop/element/registry.cpp:
--                         the constants, the range predicates, BandBase and BandEnd.
--   Registry              Element and Registry: AllocHostId, AllocLocalId, FreeId, RegisterMirror,
--                         UnregisterMirror, SetLocalPeerBand, the destructor of an element, the
--                         counts and SnapshotActorsByType, each by its name in snake case.
--   Mirror                MirrorManager of include/coop/element/mirror_manager.h, and ElementDeleter.
--   Protocol              include/coop/net/protocol.h: WriteHeader, ParseHeader,
--                         PeekProtocolVersion, the pose packets and their checks.
--   Lanes                 src/coop/net/session_lanes.h.
--   Session               src/coop/net/session.cpp and session_relay.cpp: sends and relays.
--   Session/Receive       HandleMessage and the readers of what it stores.
--   Session/Status        HandleConnStatusChanged of session_status.cpp.
--   Session/Stream        the pose stream and the round-trip sampling of NetThread.
--   Session/Life          Start and Stop, and the runs from Start on.
--   Session/Reach         the runs of a session as sequences of events.
--   Players               src/coop/players_registry.cpp and include/coop/element/player.h: the player
--                         elements by slot, and the id that the net thread reads.
--   Handshake             src/coop/player_handshake.cpp: HandleJoinMessage, HandlePlayerJoined,
--                         HandleAssignPeerSlot, BroadcastPlayerJoinedFromHost, MaybeSendJoinToSlot
--                         and the nicknames; Handshake/Nickname is SanitizeNickname.
--   Feed                  src/coop/event_feed.cpp: Update and OnSessionStart; Feed/Gates has the
--                         cases of its switch, Feed/Payloads the structs that it copies out.
--   Feed/Served           the loop over the inbox as a queue.
--   Feed/Reach            the runs from Start to before Stop: net thread and game thread interleaved.
--   Damage                src/coop/player_damage.cpp.
--   Items                 src/coop/item_activate.cpp: the flashlight, its replay to late joiners and its
--                         application to a puppet.
--   Examples              the theorems at concrete inputs.
--   Base                  helpers on lists, maps and numbers.
--
-- State. A process is a heap of element objects at addresses and the registry's table and stacks; a
-- pointer is an address, and a destroyed object's address is empty. A session is a record of the
-- fields of the class Session; what it asks of GameNetworkingSockets is a list of effects, the latest
-- first, and the answers of the calls that can fail are functions of the number of calls made before.
-- Every critical section of a mutex, and every step of the net thread, is one transition. Bytes and
-- words are natural numbers; counters wrap around as written; a float is its 32-bit pattern.
--
-- Bounds. The loops run over four slots, over lists or over the 65536 ids, by structural recursion;
-- the feed's loop over the inbox runs on fuel, and what the net thread does before each of its reads
-- is a parameter. One read more than there are messages, with those that arrive meanwhile, is enough.
--
-- Not modelled: the engine (reflection, actors, hooks, the game thread), whose answers are parameters
-- and whose calls are lists; the synchronisation of props, npcs and weather above the feed; the net
-- pump, which calls the parts in each tick; the pings on the nameplates; log lines; and the names and
-- parents of elements, which no operation here reads. GameNetworkingSockets is outside the repository;
-- a run assumes of it that a reported handle is not 0 and that a connection it calls new has no slot
-- yet. The two Win32 conversions of nicknames are a parameter; the delivery of a Join assumes that they
-- leave ASCII strings as they are.
pub mod Base
pub mod ElementId
pub mod Registry
pub mod Mirror
pub mod Players
pub mod Protocol
pub mod Lanes
pub mod Session
pub mod Examples
pub mod Handshake
pub mod Feed
pub mod Damage
pub mod Items
