-- ===== src/UnitTests/Log.antt =====
-- The tests of src/node.rs on the log and the handshake; numbers stand for entries.
use avicoin.Prelude.{ℕ, zero, suc, ◌+◌, ◌≡◌, refl, true, Option, none, some, List, [], ◌∷◌, length}
use avicoin.Net.{SocketAddr}
use avicoin.Node.{Config, shared, record_entry}
use avicoin.Node.Handshake.{
  Handshake, HandshakeEvent, awaiting_version, awaiting_verack, ready, is_ready,
}
use avicoin.Node.Handshake
use avicoin.Node.Log.{new_log, push, push_all, evict, log_capacity}
use avicoin.UnitTests.{is_err}

abbrev address : ℕ → SocketAddr
address port = SocketAddr.v4 (127 ∷ 0 ∷ 0 ∷ 1 ∷ []) port

abbrev config : Config
config = record { host_address = address 34352; addresses_to_connect = [] }

abbrev TheLogEvictsTheOldestEntriesAndKeepsTheRestInOrder : Type 0
TheLogEvictsTheOldestEntriesAndKeepsTheRestInOrder =
    let log = push_all {E = ℕ} (new_log 3) (1 ∷ 2 ∷ 3 ∷ 4 ∷ 5 ∷ []) in
    (log.entries ≡ 3 ∷ 4 ∷ 5 ∷ []) × (length log.entries ≡ 3)

abbrev ALogShorterThanItsCapacityEvictsNothing : Type 0
ALogShorterThanItsCapacityEvictsNothing = (push {E = ℕ} (new_log 3) 1).entries ≡ 1 ∷ []

abbrev first_of : List ℕ → Option ℕ
first_of [] = none
first_of (n ∷ ns) = some n

-- So many numbers from one on, as entries.
abbrev numbers : ℕ → ℕ → List ℕ
numbers zero first = []
numbers (suc n) first = first ∷ numbers n (suc first)

abbrev TheDefaultLogHoldsTheCapacityTheGlossaryDocuments : Type 0
TheDefaultLogHoldsTheCapacityTheGlossaryDocuments =
    let log = push_all {E = ℕ} (new_log log_capacity) (numbers (log_capacity + 10) 0) in
    (log_capacity ≡ 512) × (length log.entries ≡ 512) × (first_of log.entries ≡ some 10)

abbrev RecordingReachesTheNodesLog : Type 0
RecordingReachesTheNodesLog =
    (record_entry {E = ℕ} (record_entry (shared config 0) 1) 2).log.entries ≡ 1 ∷ 2 ∷ []

abbrev AHandshakeOutOfOrderIsRefusedRatherThanRestarted : Handshake → HandshakeEvent → Type 0
AHandshakeOutOfOrderIsRefusedRatherThanRestarted state event =
    is_err (Handshake.advance state event) ≡ true

-- They pass.
log_tests_pass :
    TheLogEvictsTheOldestEntriesAndKeepsTheRestInOrder
    × ALogShorterThanItsCapacityEvictsNothing
    × TheDefaultLogHoldsTheCapacityTheGlossaryDocuments
    × RecordingReachesTheNodesLog
    × (AHandshakeOutOfOrderIsRefusedRatherThanRestarted awaiting_version HandshakeEvent.verack
        × AHandshakeOutOfOrderIsRefusedRatherThanRestarted awaiting_verack HandshakeEvent.version
        × AHandshakeOutOfOrderIsRefusedRatherThanRestarted ready HandshakeEvent.verack
        × AHandshakeOutOfOrderIsRefusedRatherThanRestarted ready HandshakeEvent.version)
unfolding push_all push evict new_log record_entry shared Handshake.advance
log_tests_pass = ((refl, refl), refl, (refl, refl, refl), refl, (refl, refl, refl, refl))
