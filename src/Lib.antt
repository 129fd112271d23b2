-- ===== src/Lib.antt =====
-- BlazeList: a server that keeps cards and tags as chains of hashed versions, and clients that hold
-- a copy and synchronise with it. A card's tags are closed under the tags' `implies` relation, a
-- graph without cycles. Every change moves the server's root: a hash over 256 buckets of entity
-- hashes, with a sequence number by which clients ask for what changed since.
--
-- How the parts interact. A client builds the next version of a card or tag with the protocol
-- library, which hashes it, and sends a request. The handler calls one storage operation, which runs
-- in a transaction: it checks the chain of versions, writes rows, checks the implications of the
-- whole batch, recomputes the buckets and the root, and stamps the new sequence on what changed.
-- A client that is behind gets a change set and merges it into its lists.
--
-- Which file models which part:
--   Prelude                 names passed on; Result for Rust's Result, Btree for BTreeMap and BTreeSet
--                           as ascending lists, Int for i64 and i128 values, Sort for the stable sort
--   Protocol/NonNegative    protocol/src/non_negative_i64/
--   Protocol/Types, Bytes   protocol/src/hash/hash.rs: the bytes that are hashed; Bytes/Digits and
--                           Bytes/Unique: what the bytes determine
--   Protocol/Entity         the Entity trait and verify, as a record of functions
--   Protocol/Card, Tag      protocol/src/card/card.rs and protocol/src/tag/tag.rs
--   Protocol/Graph          protocol/src/tag/graph.rs: TagGraph; Graph/Cycle: detect_cycle, with the
--                           search's invariant and its end in the files below it
--   Protocol/Extract        protocol/src/types/response.rs: the extraction of a response
--   Protocol/Messages       protocol/src/types/, protocol/src/root/: requests, responses, errors
--   Protocol/Deleted, Version  protocol/src/deleted_entity/, protocol/src/version/
--   Server/Table, Db        server/src/storage/sqlite/schema.rs and helpers.rs: tables as row lists;
--                           Table/Keys and Table/Distinct: primary keys and a unique column
--   Server/Live             the live tags and cards as functions of their identifiers, with what the
--                           tables should keep: IsKeyed, IsSound
--   Server/Write            server/src/storage/sqlite/write.rs
--   Server/Root             server/src/storage/sqlite/root.rs; Root/History: the numbers in its history
--   Server/Implications     server/src/storage/sqlite/implications.rs
--   Server/Storage, Reads, History  server/src/storage/sqlite/mod.rs: what writes, what reads, and the
--                           history of sequence numbers; Storage/Effects, Stamps, Roots, Deletions,
--                           Soundness, Operations: their steps against the live view; Applied, Conforms,
--                           Rows, Touches, Marks, Moves, Orderly: what the writes of a request do to rows
--                           and their sequence numbers; Reads/Changes: what changed since a number
--   Server/Handler          server/src/handler.rs: handle_request; Handler/Valid, Sequence, Atomic:
--                           what each request keeps
--   Client/Priority         clients/lib/src/priority.rs
--   Client/Filter, SortOrder  clients/lib/src/filter.rs
--   Client/Sync             clients/lib/src/sync.rs
--   Client/Links            clients/lib/src/display.rs: the links between cards and their counts
--   Client/DueDates         clients/lib/src/due_date.rs: statuses and quick picks
--   Client/Requests         clients/lib/src/client.rs and error.rs: the Client trait
--   Web/Burst               clients/wasm/src/state/pending_priority.rs: moves pushed as one version
--   Web/Queue, Push         clients/wasm/src/state/sync.rs: the flush of the offline queue, and the push
--                           of one edit; Queue/Steps: what a round may do; Queue/Watched: a transport
--                           that is watched for a lost connection
--   Web/Drag                clients/wasm/src/state/drag.rs: where a dragged card goes
--   System                  the server and a client together: Trace for requests one after the other,
--                           Converge for a client that catches up, Answers for what a client is answered
--   Tests                   runs on sample data and instances of the theorems
--
-- How code becomes definitions. A UUID and a hash are the natural numbers that their 16 and 32 bytes
-- spell, most significant byte first; a time is its number of milliseconds; a text is the list of its
-- bytes. An i64 is an integer in range, and a cast to u64 wraps around as written in Bytes. A vector
-- used as a stack is a list with its top in front. An SQL table is the list of its rows in order of
-- insertion, and a transaction that fails leaves the tables as they were. An operation that writes
-- takes the tables and the clock's reading and returns its result with the new tables. A panic is
-- `none`.
--
-- Parameters: BLAKE3 is a function from bytes to hashes, the random draw of a priority a function of
-- its bound, lower-case conversion a function on texts, the expression that finds identifiers in a
-- text a function to their list, the day of the week a function of the date, and a client's transport a function from the state of the other side.
-- Nothing is assumed of them, but that the days of the week run in a cycle of seven. That a client uses one identifier for a chain of versions, none for both
-- a card and a tag, and pushes normalised implications is a hypothesis where it is needed
-- (Storage/Conforms): the server does not check it.
--
-- Bounds and fuel. The loop of closure_of runs on fuel for the roots and the edges, since it enters
-- each tag once and each edge pushes at most one tag. The search of detect_cycle runs on fuel for each
-- start anew: below one start it enters each white tag once and looks at each edge once, so its rounds
-- are at most one for each key and two for each edge. The loop of expand_linked_cards runs on fuel for
-- the identifiers that cards mention and the cards' own. Counts stop at 2^63 - 1, where making the next
-- version panics; a root's sequence number past 2^63 - 1 does not read back, which is an SQL error; the
-- canonical bytes are compared for fields in the ranges of their Rust types.
--
-- Not modelled: the network transports, the handshake and framing and the command line, which are
-- input and output; the views, timers, settings and storage of the browser application; the migration
-- of old database files, which is SQL; the text of errors, and failures of SQLite itself on the disk or
-- at a lock; Markdown, HTML, texts and colours on the screen; the development seeder.
pub mod Prelude
pub mod Protocol
pub mod Server
pub mod Client
pub mod Web
pub mod System
mod Tests
