-- ===== src/Lib.antt =====
-- Cordn: a coordinator for MLS groups over Nostr. Clients publish key packages, leave welcomes and
-- join requests for each other, and post group messages, which the coordinator numbers per group,
-- keeps, and hands on to live subscriptions. It never looks into the MLS payloads.
--
-- Storage (packages/coordinator/src/storage/inMemoryStorage.ts, storage.ts, src/types.ts): the maps
-- of `InMemoryCoordinatorStorage`, each an association list in the order of its keys.
--   Storage/Inbox: what welcomes and join requests share, a queue of pending records to an owner:
--     `fetchPending…` with its acknowledgements, and `deleteExpired…`.
--   Storage/KeyPackages: the methods on key packages, with consumption by reference and identity.
--   Storage/Welcomes, Storage/JoinRequests: the two queues; join requests are capped and renewed.
--   Storage/Groups: the log of each group, with its cursors.
--   Storage/Sqlite (sqliteStorage.ts): `SqliteCoordinatorStorage`, a table being the list of its rows
--     by rising id, a statement a function on it, and a transaction a step. Its children are named
--     for the tables: JoinRequests, Groups (with the routing), Welcomes and KeyPackages, which keep
--     encodings in their rows. Each has a Refinement, the relation between the tables and the maps
--     in memory, and Runs, the calls on both; Storage/Simulation runs two storages side by side.
-- Coordinator (packages/coordinator/src/coordinator.ts): the class over the storage.
--   Coordinator/MessageQueue: `AsyncMessageQueue`, with waiting readers and compaction. A promise is
--     a number, and a method returns the promises that it settles.
--   Coordinator/Subscriptions: `postGroupMessage`, `subscribe…` and the sets and counts of
--     subscribers. A subscriber object is a number with its state in the `Hub`. Calls run one at a
--     time, as the code is single threaded, and their interleavings are lists of calls.
--   Coordinator/Welcomes, Coordinator/JoinRequests: `storeWelcome` and `storeJoinRequest`, with the
--     clock's reading as an argument, no order of readings being assumed.
-- Server (packages/server/src): the methods that clients call, and what guards them.
--   Server/RateLimit (rateLimit.ts): the token bucket, with tokens counted exactly in units of
--     1/60000 of a token where the source has floats.
--   Server/Methods (coordinatorMethods.ts): publishing under the quota, removing key packages,
--     storing join requests, and the limiter in front of a method.
--   Server/Adapter: all the methods, behind the limiter, over one store, with the coordinator's cleanup
--     timer. A request, a read, the end of a stream or a tick of the timer is an event, and a run a list
--     of events. Coordinator/Subscriptions/Departure has what an unsubscription leaves.
--   Server/Streaming: the handler of `subscribeManyGroupMessages`, a state machine with one phase to an
--     await, over the hub. What the SDK's stream answers comes with the events. Its children: Phases, the
--     effect on the subscriber's queue; Open, Closed and Ending, the handler before its clean-up and from
--     then on; Start, its start; Reached, every step; Teardown, the end.
-- Core (packages/core/src):
--   Core/GroupRef (groupRef.ts): group references, TLV entries under bech32. The parser runs on fuel,
--     one step to an entry, and starts with the number of bytes, which is enough, since an entry
--     takes two bytes at least. UTF-8, hex and bech32 are parameters with their laws.
--   Core/LastResortKeyPackage (lastResortKeyPackage.ts): the mark of a last-resort key package, with the
--     shifts of 32 bits written out and offsets in the integers of Prelude/Int, since a length may come
--     out negative. The loop over the dictionary runs on fuel, one step to a component; the number of
--     bytes and one more is enough where no length field has eight bytes, and no fuel is for some that do.
--   Core/MlsCodec (mlsCodec.ts): decoding to the last byte, over the codecs of ts-mls as records with
--     their laws. A message of ts-mls is tagged by its wire format, a welcome or another.
-- Client (packages/cli/src):
--   Client/PendingEpochOperations (pendingEpochOperations.ts): the commits that wait to come back,
--     confirmed, rejected or dropped. A confirmation that fails midway is a value.
--   Client/Pubkey (`normalizePubkey` of groupMetadata.ts) and Client/AdminPolicy (adminPolicy.ts): who
--     may administer a group, and the callback that ts-mls asks about commits and proposals.
--   Client/GroupMetadata (groupMetadata.ts): the extension with a group's metadata, normalised, encoded
--     and decoded. UTF-8, hexadecimal digits and `trim` are a record of functions.
--   Client/GroupSync (groupSync.ts): `ingestGroupMessages`. What ts-mls and the text codecs do is a
--     record of functions; a throw is a value, with the group as it was left. The metadata is read from
--     a state's extensions by Client/GroupMetadata, which may throw. Of a group's state it has the
--     fields that ingestion reads or writes, and `localStateApplied` of the pending operations is a map.
--   Client/MultiDevice (multiDevice.ts): `walkGroupChain`, on the source's own bound of 1000 hops.
-- Prelude holds the shared helpers, Result the errors that code may throw, Tests the runs on small
-- inputs.
--
-- Numbers are natural numbers: cursors, counts and times of the source are integers that it never
-- takes below 0. Every loop but the two on fuel and the walk's runs over a list. Key packages,
-- welcomes and events are type parameters, and their decoders and readers (ts-mls, nostr-tools,
-- packages/core) are function parameters; so is the search for the mark of a last resort in the
-- server's methods, although Core/LastResortKeyPackage has it.
--
-- Not modelled: SQL itself, the migrations of old databases, logging and metrics, and the rest of
-- packages/core and of the client in packages/cli: the session, its store and its transport. What
-- interleaves at a client's await is left out.
pub mod Prelude
pub mod Result
pub mod Storage
pub mod Coordinator
pub mod Server
pub mod Tests
pub mod Client
pub mod Core
