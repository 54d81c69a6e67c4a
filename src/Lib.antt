-- ===== src/Lib.antt =====
-- The node of chromatindb (db/): a replicated store of signed, encrypted blobs in namespaces. A
-- client or a peer hands a blob to the engine (db/engine), which checks limits, resolves the signer
-- from the owner map or the delegations, verifies the signature and calls the storage (db/storage),
-- which keeps eight ordered maps of libmdbx in step. Payloads and integers on the wire are those of
-- db/wire and db/util. Peers and clients speak over
-- connections (db/net): a handshake gives session keys, then frames go out through a queue and come in
-- through the message loop.
--
-- Which file models what:
--   Prelude      lists, bytes, slices and Boolean tests that all parts share
--   Endian       db/util/endian.h: big-endian integers and overflow-checked sizes
--   Codec        db/wire/codec.h and codec.cpp: the blob record, expiry, and the payloads for
--                tombstones, delegations, published keys, names and batches (BOMB)
--   External     what the code takes from libraries: `Mdbx` is libmdbx as ordered maps, `Crypto` is
--                SHA3, ML-DSA-87, ChaCha20-Poly1305 and the FlatBuffers codec of a blob. `Transport` is
--                the codec of a transport message, HKDF, ML-KEM and signing. All are records of
--                operations and laws, instance arguments of what uses them. `Sorted`
--                and `Samples` have concrete instances
--   Storage      db/storage/storage.cpp: `Layout` has keys, values and the record of the maps,
--                `Cursor` the walks through the sequence map, `Query` the readers, `Write` is
--                `store_blob`, `Erase` is `delete_blob_data`, `Owners` is
--                `register_owner_pubkey`, `Expiry` is `run_expiry_scan`, `Progress` has the sync
--                cursors
--   Reconcile    db/sync/reconciliation.cpp: the file has `process_ranges`, `Local` the rounds of
--                `reconcile_local`, `Wire` the messages. `none` is what the source leaves undefined
--   Frame        db/net/framing.cpp, db/net/auth_helpers.h and db/net/role.h: frames, counter nonces
--                and the authentication payload
--   Connection   db/net/connection.cpp: the file has the state and the frames, `Queue` the sending side
--                from `send_message` to `drain_send_queue` and `close_gracefully`, `Loop` the message
--                loop and the reassembly of chunks. `Steps` lets them take turns
--   Handshake    db/net/handshake.cpp: session keys and messages; `Paths` is `do_handshake` of
--                db/net/connection.cpp with its five paths
--   Sync         db/sync/sync_protocol.cpp: what is listed, handed out and taken in; `Wire` the messages
--   Acl          db/acl/access_control.cpp and `to_hex` of db/util/hex.h
--   Peer         db/peer: the file has peer_types.h and the token bucket, `Dispatch` the part of
--                message_dispatcher.cpp that changes the peer itself, `Connected` the arrival and the
--                end of a connection in connection_manager.cpp, `Push` blob_push_manager.cpp, and
--                `Requests` the answers to reads, tests for existence, quotas and node info.
--                `Exchange` has from pex_manager.cpp the peers kept in peers.json and the
--                addresses dialled
--   Engine       db/engine/engine.cpp: `Config` has limits and results, `Checks`, `Resolve` and
--                `Ingest` are the steps of `BlobEngine::ingest`, `Delete` is `delete_blob`
--
-- State and effects. A buffer is a list of bytes, a `std::array` one of fixed length, and a machine
-- integer a natural number with the wrap-around written out; `size_t` has 64 bits. A write
-- transaction is a function from store to store. `Io` says what the environment does in an
-- operation: the nonce that is drawn, the size of the database file, and whether a call of libmdbx
-- throws, in which case the transaction is given up. `Storage.read_fails` says for which keys a
-- reader's own transaction throws at present; the reader then answers as for a missing key, and what
-- the rest of the node does may change it. A coroutine of the engine waits for the thread
-- pool at numbered points; `World.others i` is what the rest of the node does to the store in wait
-- `i`, so a theorem that holds for every `World` holds for every interleaving at those points. A
-- coroutine of a connection is a function on its state, which has the bytes still to be read, the
-- bytes written, and the queue; a ticket stands for a waiting sender, and `results` for what the
-- waiters were told. `Network` says which writes fail and what the clock shows. What a handshake
-- draws at random is an argument.
--
-- Bounds and fuel. Loops are over lists or count down; the rounds of `reconcile_local` are the
-- source's own limit of 64. Two loops run on fuel: sending chunks has the length of the payload,
-- since each takes a byte at least, and reading them one more than the length of the input, since
-- each frame takes four. The laws of `Mdbx` and `Crypto` are the documented behaviour of those
-- libraries: lookups after updates, keys in order, decryption of what was encrypted under the same
-- key, nonce and associated data, a tag of 16 bytes, digests of 32, and the decoding of an encoded
-- blob with a 32-byte hint.
--
-- Not modelled: logging, the thread checks, the environment of libmdbx itself (opening, compaction,
-- backup), the command line client, sockets, timers, the accepting and dialling of connections, and
-- of db/peer most request handlers, the messages of peer exchange and the rounds of the sync
-- orchestrator. These last build on the parts modelled here.
pub mod Acl
pub mod Codec
pub mod Connection
pub mod Endian
pub mod Engine
pub mod External
pub mod Frame
pub mod Handshake
pub mod Peer
pub mod Prelude
pub mod Reconcile
pub mod Storage
pub mod Sync
