-- ===== src/Tests/Start.antt =====
-- The theorems on the configuration and the wallet at concrete inputs.
use avicoin.Prelude.{
  length, ℕ, ◌-◌, ◌<◌, ◌^◌, ◌≡◌, refl, none, some, Option, List, [], ◌∷◌, false, true, arith,
}
use avicoin.Outcome.{Result, ok, panic}
use avicoin.Words.{Bytes}
use avicoin.Net.{SocketAddr, Channels}
use avicoin.Messages.Kinds.{Version, Version-Payload}
use avicoin.Messages.{Message, version_message, try_parse_message}
use avicoin.Node.{shared, record_entry}
use avicoin.Protocol.Session.{World, Registered}
use avicoin.Protocol.ReadLoop.{end_of_stream}
use avicoin.Protocol.WriteLoop.{disconnected}
use avicoin.Protocol.Connection.{Socket, handle_connection}
use avicoin.Start.{Listener, announced, start}
use avicoin.Start.Advertised.{start-advertised}
use avicoin.Tests.{zero_sha}
use avicoin.Config.{
  Args, default_file, not_found, get_config, read_file_config, resolve, parse_address, parse_all,
}
use avicoin.Config.Precedence.{Resolved, resolve-Resolved}
use avicoin.Transaction.{Transaction}
use avicoin.Wallet.{Secp256k1, Wallet, send}
use avicoin.Wallet.Funds.{send_overspends}

-- A parser of addresses that reads everything as one of them.
abbrev parse : Bytes → Option SocketAddr
parse text = some (SocketAddr.v4 (127 ∷ 0 ∷ 0 ∷ 1 ∷ []) 34352)

abbrev args : Args
args = record { host_address = none; addresses_to_connect = (49 ∷ []) ∷ [] }

abbrev here : SocketAddr
here = SocketAddr.v4 (127 ∷ 0 ∷ 0 ∷ 1 ∷ []) 34352

resolve-Resolved_example :
    Resolved parse default_file args
      (record { host_address = here; addresses_to_connect = here ∷ [] })
unfolding resolve parse_address parse_all
resolve-Resolved_example =
    resolve-Resolved parse none args
      (record { host_address = here; addresses_to_connect = here ∷ [] }) refl

-- Keys are numbers, and a signature is the key.
abbrev toy : Secp256k1
toy = record {
  SecretKey = ℕ;
  PublicKey = ℕ;
  generate_keypair = λ s. (s, s);
  sign_ecdsa = λ d k. k ∷ [];
}

abbrev purse : Wallet toy
purse = record { private_key = 3; public_key = 3 }

send_overspends_example :
    (fee : ℕ) × (fee < 2 ^ 64)
    × (tx : Transaction) × (send toy false purse (2 ^ 64 - 1) fee (97 ∷ []) ≡ ok tx)
    × (tx.outputs ≡ record { value = 2 ^ 64 - 1; destiny_pub_key = 97 ∷ [] } ∷ [])
    × (send toy true purse (2 ^ 64 - 1) fee (97 ∷ []) ≡ panic)
send_overspends_example =
    send_overspends toy purse (2 ^ 64 - 1) (97 ∷ []) (omega arith) (omega arith)

-- A bound listener that has port 1 in place of the one that was asked for.
abbrev bound_to : SocketAddr
bound_to = SocketAddr.v4 (127 ∷ 0 ∷ 0 ∷ 1 ∷ []) 1

abbrev bind : SocketAddr → Result Listener
bind address = ok (record { local_addr = ok bound_to })

abbrev channels : Channels
channels c = record { capacity = 0; queued = []; connected = false }

abbrev started : World
started = announced bound_to (record {
  node = shared (record { host_address = here; addresses_to_connect = here ∷ [] }) 3;
  channels = channels;
})

starts_well :
    start parse (λ text. none) bind not_found args 3 channels
    ≡ ok (record { local_addr = ok bound_to }, started)
unfolding start get_config read_file_config resolve parse_address parse_all
starts_well = refl

-- A connection that writes its version and a ping, and whose peer hangs up.
abbrev dialled_peer : Registered
dialled_peer = record { id = 0; address = here }

abbrev socket : Socket
socket = record {
  try_clone = ok tt;
  set_write_timeout = ok tt;
  set_read_timeout = ok tt;
  reads = record { arrival = end_of_stream; late = false; meanwhile = λ w. w } ∷ [];
  opened = ok tt;
  started = 0;
  writes =
      record {
        now = 0;
        random = 5;
        ping_written = ok tt;
        pinged_at = 0;
        received = disconnected;
        written = ok tt;
      }
      ∷ [];
}

start-advertised_example :
    (opening : Bytes) × (rest : List Bytes) × (m : Message Version) × ((handle_connection zero_sha
        dialled_peer socket started).1
      ≡ opening ∷ rest)
    × (try_parse_message zero_sha opening ≡ ok (some (version_message m), length opening))
    × (ok m.payload.listen_address ≡ ok bound_to)
    × (m.payload.nonce ≡ 3)
unfolding shared record_entry
start-advertised_example =
    start-advertised parse (λ text. none) bind not_found args 3 channels zero_sha
      (record { local_addr = ok bound_to }) started started dialled_peer socket starts_well
      ((refl, (omega arith, (omega arith, (omega arith, (omega arith, tt))))), omega arith)
      (omega arith) refl refl
      (record { cloned = refl; writes_bounded = refl; reads_bounded = refl; taken = refl })
