-- ===== src/UnitTests/Config.antt =====
-- The tests of src/config.rs. The parser of addresses reads the texts "127.0.0.1:" and four digits; the
-- file is what its TOML stands for.
use avicoin.Prelude.{
  ℕ, ◌+◌, ◌*◌, ◌-◌, ◌≡◌, refl, true, Option, none, some, List, [], ◌∷◌, ◌++◌, length, drop, take,
  bytes_eq, ltb, if◌then◌else◌,
}
use avicoin.Outcome.{Result, ok, err, invalid_address, config_not_understood}
use avicoin.Words.{Bytes}
use avicoin.Net.{SocketAddr}
use avicoin.Node.{Config}
use avicoin.Config.{
  FileConfig, Args, content, not_found, unreadable, host_address_field, addresses_to_connect_field,
  resolve, parse_address, parse_all, read_file_config,
}
use avicoin.UnitTests.{is_err}

abbrev this_host : Bytes
this_host = 49 ∷ 50 ∷ 55 ∷ 46 ∷ 48 ∷ 46 ∷ 48 ∷ 46 ∷ 49 ∷ 58 ∷ []

-- The number that four or five digits write.
abbrev number_of : Bytes → ℕ → ℕ
number_of [] n = n
number_of (d ∷ digits) n = number_of digits (n * 10 + (d - 48))

abbrev parse : Bytes → Option SocketAddr
parse text =
    if ltb 13 (length text)
    then (if bytes_eq (take 10 text) this_host
        then some (SocketAddr.v4 (127 ∷ 0 ∷ 0 ∷ 1 ∷ []) (number_of (drop 10 text) 0))
        else none)
    else none

abbrev args : Option Bytes → List Bytes → Args
args host peers = record { host_address = host; addresses_to_connect = peers }

abbrev addr : ℕ → SocketAddr
addr port = SocketAddr.v4 (127 ∷ 0 ∷ 0 ∷ 1 ∷ []) port

abbrev text : Bytes → Bytes
text digits = this_host ++ digits

abbrev full_file : Option FileConfig
full_file = some (record {
  server = record {
    host_address = some (text (53 ∷ 48 ∷ 48 ∷ 48 ∷ []));
    addresses_to_connect = some (text (53 ∷ 48 ∷ 48 ∷ 49 ∷ []) ∷ []);
  };
})

abbrev named : SocketAddr → List SocketAddr → Result Config
named host peers = ok (record { host_address = host; addresses_to_connect = peers })

abbrev DefaultsApplyWhenNothingElseIsSupplied : Type 0
DefaultsApplyWhenNothingElseIsSupplied = resolve parse none (args none []) ≡ named (addr 34352) []

abbrev AFileOverridesTheDefaultsAndAbsentArgumentsLeaveItIntact : Type 0
AFileOverridesTheDefaultsAndAbsentArgumentsLeaveItIntact =
    resolve parse full_file (args none []) ≡ named (addr 5000) (addr 5001 ∷ [])

abbrev APartialFileOverridesOnlyWhatItNames : Type 0
APartialFileOverridesOnlyWhatItNames =
    let file : FileConfig = record {
      server = record {
        host_address = some (text (53 ∷ 48 ∷ 48 ∷ 48 ∷ []));
        addresses_to_connect = none;
      };
    } in
    resolve parse (some file) (args none []) ≡ named (addr 5000) []

abbrev AnEmptyFileIsLegalAndChangesNothing : Type 0
AnEmptyFileIsLegalAndChangesNothing =
    let file : FileConfig = record {
      server = record { host_address = none; addresses_to_connect = none };
    } in
    resolve parse (some file) (args none []) ≡ named (addr 34352) []

abbrev ArgumentsOverrideTheFile : Type 0
ArgumentsOverrideTheFile =
    resolve parse full_file
      (args (some (text (57 ∷ 48 ∷ 48 ∷ 48 ∷ []))) ((text (57 ∷ 48 ∷ 48 ∷ 49 ∷ [])) ∷ []))
    ≡ named (addr 9000) (addr 9001 ∷ [])

abbrev SeveralPeersAreAllKept : Type 0
SeveralPeersAreAllKept =
    resolve parse none (
      args none (
        (text (53 ∷ 48 ∷ 48 ∷ 49 ∷ []))
        ∷ (text (53 ∷ 48 ∷ 48 ∷ 50 ∷ []))
        ∷ (text (53 ∷ 48 ∷ 48 ∷ 51 ∷ []))
        ∷ []))
    ≡ named (addr 34352) (addr 5001 ∷ addr 5002 ∷ addr 5003 ∷ [])

abbrev AnUnparseableAddressIsRejectedNamingTheFieldAndValue : Args → Bytes → Bytes → Type 0
AnUnparseableAddressIsRejectedNamingTheFieldAndValue given expected_field expected_value =
    resolve parse none given ≡ err (invalid_address expected_field expected_value)

abbrev AMissingConfigFileIsNotAnError : Type 0
AMissingConfigFileIsNotAnError = read_file_config (λ toml. none) not_found ≡ ok none

abbrev APresentButUnparseableConfigFileIsAnError : Type 0
APresentButUnparseableConfigFileIsAnError =
    read_file_config (λ toml. none)
      (content (
        116 ∷ 104 ∷ 105 ∷ 115 ∷ 32 ∷ 105 ∷ 115 ∷ 32 ∷ 110 ∷ 111 ∷ 116 ∷ 32 ∷ 116 ∷ 111 ∷ 109 ∷ 108
        ∷ 32 ∷ 123 ∷ 123 ∷ 123 ∷ []))
    ≡ err config_not_understood

abbrev AnUnreadableConfigFileIsAnError : Type 0
AnUnreadableConfigFileIsAnError = is_err (read_file_config (λ toml. full_file) unreadable) ≡ true

abbrev AnEmptyHostArgumentIsRejectedRatherThanIgnored : Type 0
AnEmptyHostArgumentIsRejectedRatherThanIgnored =
    is_err (resolve parse none (args (some []) [])) ≡ true

-- They pass.
config_tests_pass :
    DefaultsApplyWhenNothingElseIsSupplied
    × AFileOverridesTheDefaultsAndAbsentArgumentsLeaveItIntact
    × APartialFileOverridesOnlyWhatItNames
    × AnEmptyFileIsLegalAndChangesNothing
    × ArgumentsOverrideTheFile
    × SeveralPeersAreAllKept
    × (AnUnparseableAddressIsRejectedNamingTheFieldAndValue
          (args
            (some
              (110 ∷ 111 ∷ 116 ∷ 45 ∷ 97 ∷ 110 ∷ 45 ∷ 97 ∷ 100 ∷ 100 ∷ 114 ∷ 101 ∷ 115 ∷ 115 ∷ []))
            [])
          host_address_field
          (110 ∷ 111 ∷ 116 ∷ 45 ∷ 97 ∷ 110 ∷ 45 ∷ 97 ∷ 100 ∷ 100 ∷ 114 ∷ 101 ∷ 115 ∷ 115 ∷ [])
        × AnUnparseableAddressIsRejectedNamingTheFieldAndValue
            (args none (
              (text (53 ∷ 48 ∷ 48 ∷ 49 ∷ []))
              ∷ (112 ∷ 111 ∷ 114 ∷ 116 ∷ 45 ∷ 105 ∷ 115 ∷ 45 ∷ 109 ∷ 105 ∷ 115 ∷ 115 ∷ 105 ∷ 110
                  ∷ 103 ∷ [])
              ∷ []))
            addresses_to_connect_field
            (112 ∷ 111 ∷ 114 ∷ 116 ∷ 45 ∷ 105 ∷ 115 ∷ 45 ∷ 109 ∷ 105 ∷ 115 ∷ 115 ∷ 105 ∷ 110 ∷ 103
              ∷ []))
    × AMissingConfigFileIsNotAnError
    × APresentButUnparseableConfigFileIsAnError
    × AnUnreadableConfigFileIsAnError
    × AnEmptyHostArgumentIsRejectedRatherThanIgnored
unfolding resolve parse_address parse_all bytes_eq read_file_config
config_tests_pass = (refl, refl, refl, refl, refl, refl, (refl, refl), refl, refl, refl, refl)
