-- ===== src/Config/Client.antt =====
-- user/client/config.go.
use Prim.Native.String.{String}
use bdr.Common.{ℕ, Bool, false, not, List, [], Option}
use bdr.Config.{
  required, default_port, is_missing, port_is_missing, add_if, reported, or_default, Prints,
}

pub record Config : Type 0 where
  pub char_device_path : String
  pub under_device_path : String
  pub ip_address : String
  pub port : ℕ
  pub prints : Prints
  pub initial_replication : Bool
  pub full_replicate : Bool
  pub full_scan : Bool
  pub benchmark : Bool

unfoldable pub validate_args :
    Option String → Option String → Option String → Option ℕ → Option (List String)
validate_args char_device_path under_device_path ip_address port =
    let missing_args = [] in
    let missing_args =
      add_if (is_missing char_device_path) "--control-device (character device path)"
        missing_args in
    let missing_args =
      add_if (is_missing under_device_path) "--source-device (underlying device path)"
        missing_args in
    let missing_args = add_if (is_missing ip_address) "--address (IP address)" missing_args in
    let missing_args = add_if (port_is_missing port) "--port (port)" missing_args in
    reported missing_args

-- What `pflag.Parse` finds on the command line.
pub record Flags : Type 0 where
  pub control_device : Option String
  pub source_device : Option String
  pub address : Option String
  pub port : Option ℕ
  pub verbose : Option Bool
  pub debug : Option Bool
  pub no_print : Option Bool
  pub no_replication : Option Bool
  pub benchmark : Option Bool
  pub full_scan : Option Bool
  pub full_replication : Option Bool

unfoldable pub new_config : Flags → Config
new_config flags = record {
  char_device_path = or_default required flags.control_device;
  under_device_path = or_default required flags.source_device;
  ip_address = or_default required flags.address;
  port = or_default default_port flags.port;
  prints = record {
    verbose = or_default false flags.verbose;
    debug = or_default false flags.debug;
    no_print = or_default false flags.no_print;
  };
  initial_replication = not (or_default false flags.no_replication);
  full_replicate = or_default false flags.full_replication;
  full_scan = or_default false flags.full_scan;
  benchmark = or_default false flags.benchmark;
}
