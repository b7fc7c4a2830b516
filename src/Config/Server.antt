-- ===== src/Config/Server.antt =====
-- user/server/config.go.
use Prim.Native.String.{String}
use bdr.Common.{ℕ, Bool, false, List, [], Option}
use bdr.Config.{
  required, default_port, is_missing, port_is_missing, add_if, reported, or_default, Prints,
}

pub record Config : Type 0 where
  pub port : ℕ
  pub ip_address : String
  pub target_dev_path : String
  pub journal_path : String
  pub prints : Prints
  pub benchmark : Bool

unfoldable pub validate_args :
    Option String → Option ℕ → Option String → Option String → Option (List String)
validate_args target_device_path port ip_address journal_path =
    let missing_args = [] in
    let missing_args =
      add_if (is_missing target_device_path) "--target-device (target device path)" missing_args in
    let missing_args = add_if (port_is_missing port) "--port (port to listen on)" missing_args in
    let missing_args =
      add_if (is_missing ip_address) "--address (IP address to listen on)" missing_args in
    let missing_args =
      add_if (is_missing journal_path) "--journal (path to a device to store journal)"
        missing_args in
    reported missing_args

-- What `pflag.Parse` finds on the command line.
pub record Flags : Type 0 where
  pub port : Option ℕ
  pub address : Option String
  pub target_device : Option String
  pub journal : Option String
  pub verbose : Option Bool
  pub debug : Option Bool
  pub no_print : Option Bool
  pub benchmark : Option Bool

unfoldable pub new_config : Flags → Config
new_config flags = record {
  port = or_default default_port flags.port;
  ip_address = or_default required flags.address;
  target_dev_path = or_default required flags.target_device;
  journal_path = or_default required flags.journal;
  prints = record {
    verbose = or_default false flags.verbose;
    debug = or_default false flags.debug;
    no_print = or_default false flags.no_print;
  };
  benchmark = or_default false flags.benchmark;
}
