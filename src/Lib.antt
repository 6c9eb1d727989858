-- ===== src/Lib.antt =====
-- Verification of avicoin, a Bitcoin-like node in Rust.
--
-- The program: a node listens for connections and dials the peers of its configuration. Each
-- connection has a thread that reads and a thread that writes; all threads share one node, behind a
-- mutex, with its table of peers and its log. The reader cuts the byte stream into messages and
-- handles them: it advances the handshake of the peer and puts replies into the queue of the peer's
-- writer. Beside this stand the transactions and blocks that the network is about: their bytes,
-- their hashes and Merkle roots, and mining.
--
-- Which file models what:
--   Prelude, Outcome   the shared names; `Result` with `?`, panics and one constructor for each error
--   Words, Text        little-endian words and byte arrays; ASCII and UTF-8
--   Reader             src/byte_reader.rs, a method on `&mut self` returns the reader with its result
--   Util               src/util.rs, with the SHA-256 of the sha2 crate as the record `Sha256`
--   Transaction        src/transaction.rs, a `String` is its bytes
--   Merkle, Block      src/block.rs, with `U256` of the primitive-types crate as `U256Crate`
--   Net                what is used of std::net and std::sync::mpsc: addresses and bounded channels
--   Messages           src/messages: the payloads in Kinds, the header in Frame
--   Node               src/node.rs: Handshake, Peers and Log; the lock makes each method one step
--   Protocol           src/protocol.rs: the receive loop and its handlers; Session for `Registered`,
--                      ReadLoop, WriteLoop and Connection for the threads of a connection, each on
--                      its own: the socket, the clock and other threads are lists of what happens at
--                      each turn
--   Protocol/System    src/protocol.rs: all connections of a node at once
--   Start              src/main.rs, what the operating system does is in the arguments
--   Config, Wallet     src/config.rs and src/wallet.rs, with the parsers, the file system and the
--                      secp256k1 crate as arguments
--   Node/Peers/Map     what each call of the peer table is for, on a map from ids to peers
--   Protocol/System/Refines   the turns of the threads as such calls
--   Protocol/OneEnd, Pair     two nodes at the two ends of one connection
--   Tests              concrete inputs for the theorems
--   UnitTests          the inline test modules of the sources: what each test asserts, on the model,
--                      with the list of the tests of a file that pass
--
-- Bounds and fuel: numbers are natural numbers with the wrap-around of their width written out, and
-- `IsTransaction`, `IsBlock` and `IsVersion` say what the Rust types promise. `usize` has 64 bits.
-- The Merkle loop has the number of leaves as fuel, since each round halves the level; the receive
-- loop has one more than the length of its buffer, since a message takes at least 24 bytes. A nonce
-- search counts down the nonces that are left. Sizes that `Vec::with_capacity` multiplies by are those
-- of the Rust types on 64 bits.
--
-- Threads: in Protocol/System a state has the shared node, the channels and, for each connection, how
-- far its reading and its writing thread have come. `Move` has one constructor for each kind of turn
-- that a thread takes, with the functions of Session, ReadLoop and Connection for what the turn does;
-- `Step` lets any thread take the next turn, `Reach` has the states that a node comes to, and `Run` the
-- runs behind a state. A turn of the reader is one chunk of bytes with its handlers: what several
-- threads do to the table in between, call by call, is Node/Peers/Runs. A turn of the writer is one
-- round of its loop: a message, a timeout or the end of its queue; the ping that may come first is seen
-- by the socket only, so it stands in WriteLoop. A socket that was shut down has no more bytes, and ids do not run out: 2^64 connections are not reached.
--
-- Not modelled: what is printed to the terminal; poisoned locks. A write that fails is taken to have
-- written nothing. `broadcast` is modelled with the peer table, and no thread calls it.
pub mod Prelude
pub mod Outcome
pub mod Words
pub mod Reader
pub mod Text
pub mod Util
pub mod Transaction
pub mod Merkle
pub mod Block
pub mod Net
pub mod Messages
pub mod Node
pub mod Protocol
pub mod Start
pub mod Config
pub mod Wallet
pub mod Tests
pub mod UnitTests
