-- ===== src/Node.antt =====
-- src/node.rs: the state that the threads of a node share. One mutex guards all of it, so each method
-- is one step. A method on `&mut self` returns the new state with its result.
pub mod Log
pub mod Handshake
pub mod Peers
use avicoin.Prelude.{ℕ, List, []}
use avicoin.Net.{SocketAddr}
use Log.{push, log_capacity}
use Peers.{PeerTable, empty_table}

pub record Config : Type 0 where
  pub host_address : SocketAddr
  pub addresses_to_connect : List SocketAddr

-- `E` is the type of log entries, which are texts to the program.
pub record Node (E : Type 0) : Type 0 where
  pub config : Config
  pub peers : PeerTable
  pub log : Log.Log E
  pub nonce : ℕ

module _ {E : Type 0} where
  -- `nonce` is what `rand::rng().next_u64()` returned.
  unfoldable pub shared : Config → ℕ → Node E
  shared config nonce = record {
    config = config;
    peers = empty_table;
    log = record { entries = []; capacity = log_capacity };
    nonce = nonce;
  }

  unfoldable pub record_entry : Node E → E → Node E
  record_entry node entry = record node { log = push node.log entry }
