-- ===== src/Lib.antt =====
-- Verification of kuula, a fantasy console whose carts are Lua programs. A host (desktop, phone or
-- headless) paces the frames, hands the console the buttons and the network events of each, and shows
-- what the cart drew. This library models the frame of the console, the parts that keep a cart within
-- its limits, and the two protocols between consoles.
--
-- Parts:
-- - Meter: the cycle meter of a cart, crates/kuula-core/src/meter.rs (Meter, Category, FrameProfile and
--   `mod price` in Meter/Price and Meter/Price/Shape). Meter/Guest is crates/kuula-lua/src/meter.rs: what
--   a binding's `charge` and the instruction `hook` do with the meter, and how `trip` kills the guest.
--   A cart's run is a list of priced calls and instruction intervals, with its errors swallowed.
-- - Net: crates/kuula-core/src/net.rs. Commands and events with their checks in Net, the cart's
--   `NetState` in Net/State, the host's `Link` in Net/Link over a transport that is a record of
--   operations with a law, and the transport in memory, crates/kuula-core/src/net/memory.rs, in
--   Net/Memory, which is an instance of it. A link drops a transport where the code drops the box.
-- - Wire: the bytes. Wire/Play is crates/kuula-net/src/proto.rs with `read_frame` and `read_frames` of
--   crates/kuula-net/src/session.rs; Wire/Deploy is crates/kuula-net/src/deploy/wire.rs with
--   `read_offer` of crates/kuula-net/src/deploy/receiver.rs.
-- - Gfx: Gfx/Resources is the buffer slab and the ledger of crates/kuula-core/src/resources.rs over the
--   sizes of crates/kuula-core/src/buf.rs; Gfx/Pen is the colours, fill patterns and colour table of
--   crates/kuula-core/src/pen.rs. Gfx/Palette is the
--   palette of crates/kuula-core/src/palette.rs.
-- - Pacing: the scheduler of crates/kuula-host-common/src/pacing.rs.
-- - Input: the buttons of a frame and the chord of Start and Select, crates/kuula-core/src/input.rs, and
--   its patience with a person, crates/kuula-host-common/src/chord.rs, in Input/Menu.
-- - Manifest: crates/kuula-core/src/manifest.rs and manifest/license.rs over what the TOML library reads
--   and the SPDX list knows, two operations of the record Library.
-- - Shell: crates/kuula-core/src/shell.rs and shell/network.rs, the data that a shell's cart and its host
--   exchange.
-- - Console: crates/kuula-core/src/console.rs and console/net_side.rs. Console/Carts loads and steps a
--   cart, Console/Frame replaces carts and carries out a shell's requests, Console/Step is `step_with` and
--   `step_linked` in the order of the code, Console/Hosted is a console from its start with what its host
--   does to it, and Console/Network is what passes between a cart's network
--   state and the host's link. Guests, cart sources, stores, drawing and sound are the record Runtime. A
--   guest is Polite when it changes the network state by the calls of the `net` table alone.
-- - Saves: crates/kuula-core/src/save.rs: the store in memory, and the one that writes through to a
--   store that is a record of operations (SaveStore), any disk.
-- - Snapshot: the names, limits and entries of crates/kuula-core/src/snapshot.rs.
-- - Session: the task `run` of crates/kuula-net/src/session.rs. One turn is one choice of its `select!`,
--   and the record World says what the reader and the caller have queued before that turn and how the
--   connection answers in it.
-- - Pairing: the approved ids of crates/kuula-net/src/deploy/store.rs in a file's bytes, and the limiter
--   of crates/kuula-net/src/deploy/receiver.rs in Pairing/Limiter. Reading an id is a parameter, whose
--   law (IsCanonical) says that an id that is read has 64 ASCII characters, none before `0`, and reads as
--   itself.
-- - Receiver: one connection of the deploy receiver, crates/kuula-net/src/deploy/receiver.rs, from the end
--   of its handshake: Receiver/Reading reads the package in chunks, Receiver/Transfer stages it, checks
--   it, installs it and answers. The directories are functions from names to contents. The record World
--   says how the connection, the file system and the console answer; the hash, the checks of a package
--   and the texts are the record Library, of which nothing is assumed.
-- - Driver: crates/kuula-net/src/transport.rs: the thread between a cart's link and the network. Driver has
--   the channels and the commands, Driver/Rounds the pump and the loop; the endpoint, its listeners,
--   joins and sessions are the record Nets, of which nothing is assumed. The link's calls and the rounds
--   of the loop are the steps of Op, in any order.
-- - Codec: base64 of crates/kuula-core/src/codec/mod.rs.
-- - Prelude: numbers, lists, results, bytes, UTF-8 and the saturating operations that these share.
--
-- How the code is modelled: a struct is a record and a method a function from the record to its result
-- and the new record. Integers are natural numbers with the saturation or the wrap of the code written
-- out; `usize` has 64 bits. Counters that only count up (events sent, received and dropped, polls,
-- transports built) are taken not to reach the limit of their word. A `String` is its bytes, and the
-- text of an error is the data that it is formatted from. `read_frames` has as much fuel as the stream
-- has bytes and one more: every frame takes at least one byte. `serve` of Session has fuel for its turns:
-- two for each frame that comes in them and one for each command are enough. `receive_data` has as much fuel as the package
-- has bytes: a round that goes on takes at least one. The handles of the slab are their raw
-- bits, and a slab has fewer than 2 ^ 32 slots where a theorem says so.
--
-- Not modelled: `Link::over`, floating point (`price::pattern`, the contents of buffers, the values of
-- the codec), deadlines, the handshake exchange and the blocking calls of a session, the sender of a deploy, connections,
-- what dropping a session or a listener does to the network, the files of saves and keys, directories
-- and archives, audio, drawing and the Lua runtime; vendored libraries.
pub mod Prelude
pub mod Meter
pub mod Net
pub mod Gfx
pub mod Pacing
pub mod Input
pub mod Wire
pub mod Shell
pub mod Manifest
pub mod Console
pub mod Saves
pub mod Snapshot
pub mod Session
pub mod Pairing
pub mod Receiver
pub mod Driver
pub mod Codec
