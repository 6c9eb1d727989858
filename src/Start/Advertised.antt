-- ===== src/Start/Advertised.antt =====
-- The address that a started node tells its peers, and the connections that it dials.
use avicoin.Prelude.{ℕ, ◌≡◌, refl, ap, sym, ◌∙◌, subst, Option, some, List, [], ◌∷◌, length, arith}
use avicoin.Outcome.{Result, ok, err, panic, >>=-succeeds}
use avicoin.Words.{Bytes, IsU64}
use avicoin.Util.{Sha256}
use avicoin.Net.{SocketAddr, Channels}
use avicoin.Messages.Kinds.{Version, new_version, Version-Payload}
use avicoin.Messages.{Message, version_message, try_parse_message}
use avicoin.Messages.RoundTrip.{IsPlain}
use avicoin.Messages.Exchange.{version-Carried}
use avicoin.Node.{Config, shared, record_entry}
use avicoin.Node.Peers.{empty_table}
use avicoin.Config.{FileConfig, FileRead, Args, get_config}
use avicoin.Protocol.Session.{World, Registered}
use avicoin.Protocol.Connection.{Socket, handle_connection}
use avicoin.Protocol.Connection.Opening.{IsPrepared, opening-written}
use avicoin.Protocol.Replies.{framed-Carried}
use avicoin.Protocol.Greeting.{alone}
use avicoin.Start.{Listener, bound, announced, start}

announced-facts :
    (host : SocketAddr) (addresses : List SocketAddr) (w : World)
    → w.node.config.addresses_to_connect ≡ addresses
    → ((announced host w).node.config
        ≡ record { host_address = host; addresses_to_connect = addresses })
      × ((announced host w).node.nonce ≡ w.node.nonce)
      × ((announced host w).node.peers ≡ w.node.peers)
unfolding record_entry
announced-facts host [] w e = rw e (refl, refl, refl)
announced-facts host (a ∷ addresses) w e = rw e (refl, refl, refl)

bound-ok : (r : Result Listener) (l : Listener) → bound r ≡ ok l → r ≡ ok l
bound-ok (ok x) l e = e
bound-ok (err p) l e = cc
bound-ok panic l e = cc

-- What a node that has started has come from: a configuration that resolved, a listener bound at the
-- address of that configuration, and the address that the listener reports.
pub record Started (parse : Bytes → Option SocketAddr) (from_str : Bytes → Option FileConfig)
    (bind : SocketAddr → Result Listener) (file : FileRead) (args : Args) (nonce : ℕ)
    (listener : Listener) (w : World) : Type 0 where
  pub config : Config
  pub configured : get_config parse from_str file args ≡ ok config
  pub listens : bind config.host_address ≡ ok listener
  pub reported : listener.local_addr ≡ ok w.node.config.host_address
  pub to_dial : w.node.config.addresses_to_connect ≡ config.addresses_to_connect
  pub nonce_drawn : w.node.nonce ≡ nonce
  pub nobody_yet : w.node.peers ≡ empty_table

module _ (parse : Bytes → Option SocketAddr) (from_str : Bytes → Option FileConfig)
    (bind : SocketAddr → Result Listener) (file : FileRead) (args : Args) (nonce : ℕ)
    (channels : Channels) where
  -- A node that starts listens at the address of its configuration, has no peers, and takes the
  -- address that the listener reports for its own, not the one that was configured.
  pub start-Started :
      (listener : Listener) (w : World)
      → start parse from_str bind file args nonce channels ≡ ok (listener, w)
      → Started parse from_str bind file args nonce listener w
  unfolding start shared
  start-Started listener w e =
      let (config, e1, c) = >>=-succeeds (get_config parse from_str file args) _ (sym e) in
      let (l, e2, b) = >>=-succeeds (bound (bind config.host_address)) _ e1 in
      let (host, e3, h) = >>=-succeeds l.local_addr _ e2 in
      let begun : World = record { node = shared config nonce; channels = channels } in
      let (a, n, p) = announced-facts host config.addresses_to_connect begun refl in
      let same_l : l ≡ listener = cc in
      let same_w : announced host begun ≡ w = cc in
      record {
        config = config;
        configured = c;
        listens = bound-ok (bind config.host_address) listener (b ∙ ap ok same_l);
        reported =
            ap (λ (x : Listener). x.local_addr) (sym same_l)
            ∙ h
            ∙ ap (λ (x : Config). ok x.host_address) (sym a)
            ∙ ap (λ (x : World). ok x.node.config.host_address) same_w;
        to_dial =
            ap (λ (x : World). x.node.config.addresses_to_connect) (sym same_w)
            ∙ ap (λ (x : Config). x.addresses_to_connect) a;
        nonce_drawn = ap (λ (x : World). x.node.nonce) (sym same_w) ∙ n;
        nobody_yet = ap (λ (x : World). x.node.peers) (sym same_w) ∙ p;
      }

  -- The first message that a connection of a started node writes, where its socket could be prepared
  -- and took the message, parses to a version with the address that the listener reports and the number
  -- that the node has drawn, whatever else has become of the node by then.
  pub start-advertised :
      (sha : Sha256) (listener : Listener) (w w' : World) (registered : Registered) (s : Socket)
      → start parse from_str bind file args nonce channels ≡ ok (listener, w)
      → IsPlain w.node.config.host_address
      → IsU64 nonce
      → w'.node.config ≡ w.node.config
      → w'.node.nonce ≡ w.node.nonce
      → IsPrepared s
      → (opening : Bytes) × (rest : List Bytes) × (m : Message Version) × ((handle_connection sha
            registered s w').1
          ≡ opening ∷ rest)
        × (try_parse_message sha opening ≡ ok (some (version_message m), length opening))
        × (ok m.payload.listen_address ≡ listener.local_addr)
        × (m.payload.nonce ≡ nonce)
  unfolding new_version
  start-advertised sha listener w w' registered s e plain n same_config same_nonce is_prepared =
      let st = start-Started listener w e in
      let host = ap (λ (c : Config). c.host_address) same_config in
      let v = new_version w'.node.nonce w'.node.config.host_address in
      let c = version-Carried sha v (record {
        protocol_version = omega arith;
        nonce = subst IsU64 (sym (same_nonce ∙ st.nonce_drawn)) n;
        listen_address = subst IsPlain (sym host) plain;
      }) in
      let printed = framed-Carried sha v version_message c in
      (
        c.bytes,
        _,
        c.message,
        opening-written sha registered s w' c.bytes is_prepared printed,
        alone sha v version_message c c.bytes printed,
        ap (λ (x : Version). ok x.listen_address) c.unchanged ∙ ap ok host ∙ sym st.reported,
        ap (λ (x : Version). x.nonce) c.unchanged ∙ same_nonce ∙ st.nonce_drawn,
      )
