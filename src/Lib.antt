-- ===== src/Lib.antt =====
-- The browser client of transmission-ui, a web interface for the Transmission daemon.
--
-- The client is a store (ui/src/state/store.ts) that polls the daemon over its RPC protocol, keeps the
-- rows of the list, the inspector's payload, the session and the free space, and runs the bulk removal;
-- pure helpers (ui/src/lib) compute what the list shows. A simulated daemon (ui/sim) answers the same protocol
-- for development: a tick moves the torrents on, and a handler serves the requests that the client sends.
--
-- Files:
--   Prelude      shared notation: texts as lists of UTF-16 code units, JavaScript's Map and Set as
--                association lists in insertion order (Prelude/Keyed with its laws in Sets and Maps),
--                String.split and join (Split), white space (Spaces), decimal numerals (Decimal),
--                comparators and Array.sort (Comparison), signed numbers (Int)
--   Types        ui/src/rpc/types.ts: the records of the RPC protocol. A ratio is in millionths.
--   Json         the JSON values that a settings object holds
--   Paths        ui/src/lib/paths.ts and `relDir` of ui/src/lib/model.ts
--   Orphans      ui/src/api/orphans.ts: the shapes of the scan, and in Scan the reader of its streamed
--                answer (scanOrphans); Scan/Chunks compares it with a reading line by line
--   Store        ui/src/state/store.ts: the snapshot `snap` and the module variables, with a child for
--                each part: Url (syncUrl), Merge (mergeTorrents), Detail (refreshDetail), Polling
--                (pollOnce and its callers), Actions (the small setters), Removal (removeSequence),
--                Layout (the sidebar), Initial (the first snapshot), Steps (what may happen next)
--   Client       ui/src/rpc/client.ts: `rpc`, with Handshake on the session id and Calls on what each
--                answer means
--   Trackers     ui/src/lib/trackers.ts: the name of a tracker; Suffixes has a search without the loop
--   Listing      ui/src/lib/model.ts: Status (statusView, classifyAnnounce, usedTrackers, rank), Filters
--                (FILTERS, filterFn, ADV, advFn), Sort (sortFn), Folders (folderTree), Labels
--                (labelCounts) and Health (computeHealth). A comparator is modelled by the sign of its
--                number (Prelude/Comparison).
--   Review       ui/src/dialogs/OrphanReview.tsx: the review window (decide, run, dismiss); Steps has its
--                events, Marked is on what a run asks to delete, Keeps on the Keep requests
--   Format       ui/src/lib/format.ts: the texts of durations and relative times; Durations has a reader
--                of durations
--   Bencode      ui/src/lib/bencode.ts: `decode`, with Total on its fuel, and parseTorrent in Torrent
--   Types/Detail ui/src/rpc/types.ts: TorrentDetail and the records in it
--   Sim          ui/sim: the state of the simulated daemon (state.ts); Derive (derive.ts) with Totals on its
--                accounts, Pieces with Order, Bits and Strip on the bitfield, Rand (rand.ts) with Shuffles,
--                Fields (simFieldsFor), Ids (normalizeIds) with Named, Queue (promoteQueue, queueMove) with
--                Starts, Pairs, Verifies and Promotion, Goals (seedGoal, etaOf), Edit (what a request writes
--                to a torrent) with Bytes, Adding (addTorrent) with Names and Arrivals, Requests, Handlers
--                and Dispatch (handle) with Errors, Kept and Present, Rates with Budget (applySessionCaps), Advance with Counts and Sound (advance),
--                Announce with Again (announce, flapTrackers), and Tick
--   Inspector    ui/src/inspector/Inspector.tsx: Pieces, the strip that shows a bitfield; Cells is on its parts
--   Methods      ui/src/rpc/methods.ts: the calls of the daemon, with the method and the parameters of each
--   Menu         ui/src/list/actions.ts: the menus of a row and of the view; Harmless is on what their calls
--                do in the simulator
--   Rows         ui/src/list/List.tsx: the rows shown, the clicks and the selection, with its box in
--                Box; Columns has the headers and the filter popup, Progress a bulk removal
--
-- An asynchronous function is cut at its awaits: what it does up to the first is one definition, what it
-- does with an answer is another. Store/Steps has one rule for each event (a call of the interface, an
-- answer or an error of the daemon, a timer), and `Reach` is a sequence of events in any order, so that
-- late answers and interleavings are all covered.
--
-- Loops are recursion on the list they visit, where they visit one. The others recurse on fuel: the
-- decimal numerals on the number plus one, as a number has fewer digits; trackerName on the length of the
-- host plus one, as each round takes a dot off; the scan's inner loop on the length of the buffer plus one,
-- as each round takes a newline off; `decode` on twice the length of the buffer plus one, as a value takes
-- at least one byte and a loop calls for a value before it takes one.
--
-- Not modelled: React's rendering, the browser's storage and history, the HTTP transport, the Go backend,
-- and the clock; where the code reads them, they are arguments. JSON.parse, the URL parser, the collation of
-- the locale, TextDecoder and the browser's numbers in a .torrent file are parameters. Of the simulator (ui/sim)
-- the drift of the peers and the fixtures of the world (data.ts) are not modelled: `tick` takes as parameters the
-- drift, the reveal of a magnet, Math.sin, what the length of a step multiplies out to and the products of doubles
-- that scale a rate to a cap, and `add_torrent` what newTorrent builds, what fromMetainfo reads, URLSearchParams
-- and the digest.
pub mod Bencode
pub mod Client
pub mod Format
pub mod Inspector
pub mod Json
pub mod Listing
pub mod Menu
pub mod Methods
pub mod Orphans
pub mod Paths
pub mod Prelude
pub mod Review
pub mod Rows
pub mod Sim
pub mod Store
pub mod Trackers
pub mod Types
