-- ===== src/Config.antt =====
-- src/config.rs: the configuration from arguments, file and defaults. The parsers of addresses and of
-- TOML, and the file system, are arguments.
pub mod Precedence
use avicoin.Prelude.{ℕ, ◌≡◌, Bool, true, false, Option, none, some, List, [], ◌∷◌, codes}
use avicoin.Outcome.{
  Result, ok, err, panic, ◌>>=◌, invalid_address, config_unreadable, config_not_understood,
}
use avicoin.Words.{Bytes}
use avicoin.Net.{SocketAddr}
use avicoin.Node.{Config}

-- `FileServerConfig`, the one table that a `FileConfig` has.
pub record FileServerConfig : Type 0 where
  pub host_address : Option Bytes
  pub addresses_to_connect : Option (List Bytes)

pub record FileConfig : Type 0 where
  pub server : FileServerConfig

pub record Args : Type 0 where
  pub host_address : Option Bytes
  pub addresses_to_connect : List Bytes

-- `FileConfig::default()`.
abbrev pub default_file : FileConfig
default_file = record { server = record { host_address = none; addresses_to_connect = none } }

-- "127.0.0.1:34352".
abbrev pub default_host_address : Bytes
default_host_address = 49 ∷ 50 ∷ 55 ∷ 46 ∷ 48 ∷ 46 ∷ 48 ∷ 46 ∷ 49 ∷ 58 ∷ 51 ∷ 52 ∷ 51 ∷ 53 ∷ 50 ∷ []

-- The names of the two fields, for the errors.
abbrev pub host_address_field : Bytes
host_address_field = 104 ∷ 111 ∷ 115 ∷ 116 ∷ 95 ∷ 97 ∷ 100 ∷ 100 ∷ 114 ∷ 101 ∷ 115 ∷ 115 ∷ []

abbrev pub addresses_to_connect_field : Bytes
addresses_to_connect_field =
    97 ∷ 100 ∷ 100 ∷ 114 ∷ 101 ∷ 115 ∷ 115 ∷ 101 ∷ 115 ∷ 95 ∷ 116 ∷ 111 ∷ 95 ∷ 99 ∷ 111 ∷ 110 ∷ 110
    ∷ 101 ∷ 99 ∷ 116 ∷ []

abbrev pub or_else {ℓ} : {A : Type ℓ} → Option A → Option A → Option A
or_else none o = o
or_else (some a) o = some a

abbrev pub unwrap_or {ℓ} : {A : Type ℓ} → Option A → A → A
unwrap_or none b = b
unwrap_or (some a) b = a

-- What `fs::read_to_string` returns.
pub data FileRead : Type 0 where
  content : Bytes → FileRead
  not_found unreadable : FileRead

abbrev pub understood : Option FileConfig → Result (Option FileConfig)
understood none = err config_not_understood
understood (some file) = ok (some file)

unfoldable pub read_file_config :
    (Bytes → Option FileConfig) → FileRead → Result (Option FileConfig)
read_file_config from_str (content text) = understood (from_str text)
read_file_config from_str not_found = ok none
read_file_config from_str unreadable = err config_unreadable

module _ (parse : Bytes → Option SocketAddr) where
  abbrev pub parsed_address : Bytes → Bytes → Option SocketAddr → Result SocketAddr
  parsed_address value field none = err (invalid_address field value)
  parsed_address value field (some address) = ok address

  unfoldable pub parse_address : Bytes → Bytes → Result SocketAddr
  parse_address value field = parsed_address value field (parse value)

  -- `.map(…).collect::<Result<Vec<_>>>()`.
  unfoldable pub parse_all : List Bytes → Result (List SocketAddr)
  parse_all [] = ok []
  parse_all (value ∷ values) = do
    address ← parse_address value addresses_to_connect_field
    addresses ← parse_all values
    ok (address ∷ addresses)

  -- An argument that was given, however often, hides the file's list.
  abbrev pub chosen : List Bytes → Option (List Bytes) → List Bytes
  chosen [] file = unwrap_or file []
  chosen (a ∷ as') file = a ∷ as'

  unfoldable pub resolve : Option FileConfig → Args → Result Config
  resolve file args =
      let server = (unwrap_or file default_file).server in
      let host_address =
        unwrap_or (or_else args.host_address server.host_address) default_host_address in
      let addresses_to_connect = chosen args.addresses_to_connect server.addresses_to_connect in
      (do
        host ← parse_address host_address host_address_field
        addresses ← parse_all addresses_to_connect
        ok (record { host_address = host; addresses_to_connect = addresses }))

  -- `args` is what the command line was parsed to.
  unfoldable pub get_config : (Bytes → Option FileConfig) → FileRead → Args → Result Config
  get_config from_str file args = do read ← read_file_config from_str file; resolve read args
