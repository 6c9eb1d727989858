-- ===== src/Config/Precedence.antt =====
-- Which address and which peers a configuration has.
use avicoin.Prelude.{sym, ◌≡◌, ◌≢◌, refl, subst, ap, Option, none, some, List, [], ◌∷◌, map}
use avicoin.Outcome.{ok, >>=-succeeds}
use avicoin.Words.{Bytes}
use avicoin.Net.{SocketAddr}
use avicoin.Node.{Config}
use avicoin.Config.{
  FileConfig, Args, default_host_address, host_address_field, addresses_to_connect_field, or_else,
  unwrap_or, default_file, parse_address, parsed_address, parse_all, chosen, resolve,
}

-- Where a text comes from: the argument, or the file, or the default.
pub data FirstOf (arg file : Option Bytes) (default : Bytes) : Bytes → Type 0 where
  from_args : (a : Bytes) → arg ≡ some a → FirstOf arg file default a
  from_file : (a : Bytes) → arg ≡ none → file ≡ some a → FirstOf arg file default a
  from_default : arg ≡ none → file ≡ none → FirstOf arg file default default

-- Where the list of peers comes from: the arguments where they name any, else the file, else nowhere.
pub data PeersFrom (args : List Bytes) (file : Option (List Bytes)) : List Bytes → Type 0 where
  args_name_peers : args ≢ [] → PeersFrom args file args
  file_names_peers :
      (peers : List Bytes) → args ≡ [] → file ≡ some peers → PeersFrom args file peers
  nobody_names_peers : args ≡ [] → file ≡ none → PeersFrom args file []

first_of :
    (arg file : Option Bytes) (default : Bytes)
    → FirstOf arg file default (unwrap_or (or_else arg file) default)
first_of none none default = from_default refl refl
first_of none (some a) default = from_file a refl refl
first_of (some a) file default = from_args a refl

module _ (parse : Bytes → Option SocketAddr) where
  chosen-PeersFrom :
      (args : List Bytes) (file : Option (List Bytes))
      → PeersFrom args file (chosen parse args file)
  chosen-PeersFrom (a ∷ as') file = args_name_peers λ e. cc
  chosen-PeersFrom [] (some peers) = file_names_peers peers refl refl
  chosen-PeersFrom [] none = nobody_names_peers refl refl

  parsed_address-ok :
      (value field : Bytes) (o : Option SocketAddr) (a : SocketAddr)
      → parsed_address parse value field o ≡ ok a
      → o ≡ some a
  parsed_address-ok value field none a e = cc
  parsed_address-ok value field (some b) a e = cc

  parse_address-ok :
      (value field : Bytes) (a : SocketAddr)
      → parse_address parse value field ≡ ok a
      → parse value ≡ some a
  unfolding parse_address
  parse_address-ok value field a e = parsed_address-ok value field (parse value) a e

  parse_all-ok :
      (values : List Bytes) (addresses : List SocketAddr)
      → parse_all parse values ≡ ok addresses
      → map parse values ≡ map some addresses
  unfolding parse_all
  parse_all-ok [] addresses e =
      let none_left : ◌≡◌ {A = List SocketAddr} [] addresses = cc e in ap (map some) none_left
  parse_all-ok (value ∷ values) addresses e =
      let (a, e1, ea) =
        >>=-succeeds (parse_address parse value addresses_to_connect_field) _ (sym e) in
      let (rest, e2, er) = >>=-succeeds (parse_all parse values) _ e1 in
      cc (parse_address-ok value addresses_to_connect_field a ea, parse_all-ok values rest er, e2)

  -- What a configuration has: the address of the first source that names one, and every peer of the
  -- arguments, or, where those name none, of the file, each parsed, in order.
  pub record Resolved (file : FileConfig) (args : Args) (c : Config) : Type 0 where
    pub host : Bytes
    pub host_source : FirstOf args.host_address file.server.host_address default_host_address host
    pub host_parsed : parse host ≡ some c.host_address
    pub peers : List Bytes
    pub peers_source : PeersFrom args.addresses_to_connect file.server.addresses_to_connect peers
    pub peers_parsed : map parse peers ≡ map some c.addresses_to_connect

  -- A configuration that resolves has the address of the arguments, else of the file, else the default,
  -- and all the peers of the arguments, or, where those name none, all of the file: none is dropped.
  pub resolve-Resolved :
      (file : Option FileConfig) (args : Args) (c : Config)
      → resolve parse file args ≡ ok c
      → Resolved (unwrap_or file default_file) args c
  unfolding resolve
  resolve-Resolved file args c e =
      let server = (unwrap_or file default_file).server in
      let host = unwrap_or (or_else args.host_address server.host_address) default_host_address in
      let peers = chosen parse args.addresses_to_connect server.addresses_to_connect in
      let (address, e1, ea) =
        >>=-succeeds (parse_address parse host host_address_field) _ (sym e) in
      let (addresses, e2, er) = >>=-succeeds (parse_all parse peers) _ e1 in
      let same : record { host_address = address; addresses_to_connect = addresses } ≡ c = cc e2 in
      subst (Resolved (unwrap_or file default_file) args) same (record {
        host = host;
        host_source = first_of args.host_address server.host_address default_host_address;
        host_parsed = parse_address-ok host host_address_field address ea;
        peers = peers;
        peers_source = chosen-PeersFrom args.addresses_to_connect server.addresses_to_connect;
        peers_parsed = parse_all-ok peers addresses er;
      })
