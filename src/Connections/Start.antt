-- ===== src/Connections/Start.antt =====
-- user/server/server.go: `NewServer` and the start of `main`, with what they hold open.
use Prim.Native.String.{String}
use bdr.Common.{
  ℕ, Bool, true, false, not, ◌==◌, bit_and, ◌^◌, List, [], Option, none, some, M, Outcome, ok, err,
  panic, pure, throw, ◌>>=◌, ◌>>◌, ◌≡◌, ◌≢◌, arith, io_failure, missing_arguments,
}
use bdr.Device.{Disk}
use bdr.Journal.{Journal}
use bdr.Server.{Server, State}
use bdr.Config.Server.{Flags, new_config, validate_args}

-- Whether the replica's device and the listener are open.
pub record Held : Type 0 where
  pub target_device : Bool
  pub listener : Bool

-- How the calls of the start go: the mode that `Stat` gives of the two paths, the replica's device,
-- or none if it cannot be opened, and whether `Listen` works. `journal` is the device at the journal's
-- path, and `link` is as in the server's state.
pub record World : Type 0 where
  pub target_mode : Option ℕ
  pub journal_mode : Option ℕ
  pub target : Option Disk
  pub listens : Bool
  pub journal : Journal
  pub link : List Bool

-- `os.ModeDevice`.
abbrev mode_device : ℕ
mode_device = 2 ^ 26

-- `IsDevice` of user/utils/utils.go, with the error or the mode that `Stat` gives.
unfoldable pub is_device : Option ℕ → M Held Bool
is_device none = throw io_failure
is_device (some mode) = pure (not (bit_and mode mode_device == 0))

-- `log.Fatalf` where the path is no device.
abbrev has_to_be_device : Bool → M Held (Unit {0})
has_to_be_device true = pure tt
has_to_be_device false = throw io_failure

abbrev target_opened : Option Disk → M Held Disk
target_opened none h = (err io_failure, h)
target_opened (some d) h = (ok d, record h { target_device = true })

abbrev listening : Bool → M Held (Unit {0})
listening true h = (ok tt, record h { listener = true })
listening false h = (err io_failure, record h { target_device = false })

unfoldable pub new_server : World → M Held Server
new_server w = do
  d ← target_opened w.target
  listening w.listens
  pure (record {
    target = d;
    journal = w.journal;
    state = State.disconnected;
    client_info = record { device_size = 0; write_info_size = 0; buffer_byte_size = 0 };
    sent = [];
    link = w.link;
  })

abbrev accepted : Option (List String) → M Held Server → M Held Server
accepted none rest = rest
accepted (some missing_args) rest = throw missing_arguments

-- `main`, up to `Run`; an error is a `log.Fatalf`.
unfoldable pub start : Flags → World → M Held Server
unfolding new_server is_device
start flags w =
    let config = new_config flags in
    accepted
      (validate_args (some config.target_dev_path) (some config.port) (some config.ip_address)
        (some config.journal_path))
      (do
        b ← is_device w.target_mode
        has_to_be_device b
        b ← is_device w.journal_mode
        has_to_be_device b
        new_server w)

-- `Close`, on what `NewServer` opened.
unfoldable pub close_files : Held → Held
close_files h = record h { target_device = false; listener = false }

abbrev pub nothing : Held
nothing = record { target_device = false; listener = false }

-- The path is there and is a device.
abbrev pub IsDevice : Option ℕ → Type 0
IsDevice none = ⊥
IsDevice (some mode) = bit_and mode mode_device ≢ 0

-- How the start may end.
abbrev pub Ends : Flags → World → Outcome Server × Held → Type 0
Ends flags w (ok s, h) =
    (let config = new_config flags in
      validate_args (some config.target_dev_path) (some config.port) (some config.ip_address)
        (some config.journal_path)
      ≡ none)
    × IsDevice w.target_mode
    × IsDevice w.journal_mode
    × (w.target ≡ some s.target)
    × (s.state ≡ State.disconnected)
    × (h ≡ record { target_device = true; listener = true })
Ends flags w (err e, h) = h ≡ nothing
Ends flags w (panic, h) = ⊥

-- The server is started only with accepted arguments and two devices, on the replica's device, in the disconnected
-- state, with the device and the listener open; where a step of the start fails nothing is left open.
pub start-Ends : (flags : Flags) (w : World) → Ends flags w (start flags w nothing)
unfolding start
start-Ends flags w = ground arith
