-- ===== src/Client/Start.antt =====
-- user/client/client.go: `NewClient`, `SendInitPacket`, the start of `main`, and the end of `Run`. What
-- the client holds open is explicit; `encode` is the macro `_IOC` of the kernel's headers.
use Prim.Native.String.{String}
use bdr.Common.{
  ℕ, Bool, true, false, if◌then◌else◌, List, [], ◌∷◌, Option, none, some, M, Outcome, ok, err,
  panic, pure, throw, ◌>>=◌, ◌>>◌, io_failure, missing_arguments, device,
}
use bdr.Device.{Disk}
use bdr.Pause.{new_pause_controller}
use bdr.Benchmark.{new_benchmark_stats}
use bdr.Config.Client.{Config, Flags, new_config, validate_args}
use bdr.Ring.Queue.Reading.{Put}
use bdr.Ioctl.{get_target_info, number}
use bdr.Chardev.{Context, Call, Reply, target_info, chardev_ioctl}
use bdr.Client.{
  Client, TargetInfo, Attempt, Dial, writing, send_packet, begin_run, initiate_shutdown,
}
use bdr.Client.Listen.{init_packet}
pub mod Opened

-- Which of the character device, the mapping, the connection and the source device are open.
pub record Held : Type 0 where
  pub char_device : Bool
  pub mapping : Bool
  pub connection : Bool
  pub under_device : Bool

-- How the calls of the start go: `char_device` is what the kernel module keeps behind the file, and
-- `under` the source device, or none if the file cannot be opened; `call` is for the first ioctl,
-- `maps` and `dials` for `Mmap` and `Dial`, and `sized` for the size of the device. The rest is as in
-- the client's state.
pub record World : Type 0 where
  pub char_device : Option Context
  pub call : Call
  pub maps : Bool
  pub dials : Bool
  pub under : Option Disk
  pub sized : Bool
  pub kernel : List (List Put)
  pub link : List Attempt
  pub ioctls : List Attempt
  pub redials : List Dial

abbrev close_char_device : Held → Held
close_char_device h = record h { char_device = false }

abbrev close_connection : Held → Held
close_connection h = record h { connection = false }

abbrev hold : (Held → Held) → M Held (Unit {0})
hold f h = (ok tt, f h)

-- `if err != nil { close...; return nil, err }`.
abbrev opened : {A : Type 0} → (Held → Held) → Option A → M Held A
opened close none h = (err io_failure, close h)
opened close (some x) h = (ok x, h)

abbrev succeeded : (Held → Held) → Bool → M Held (Unit {0})
succeeded close true h = (ok tt, h)
succeeded close false h = (err io_failure, close h)

-- The ioctl has put the information there, or has failed.
abbrev told : (Held → Held) → Reply → M Held TargetInfo
told close (target_info t) h = (ok t, h)
told close _ h = (err io_failure, close h)

module _ (encode : ℕ → ℕ → ℕ → ℕ → ℕ) where
  unfoldable pub new_client : Config → World → M Held Client
  new_client config w = do
    x ← opened (λ h. h) w.char_device
    hold (λ h. record h { char_device = true })
    t ← told close_char_device (chardev_ioctl encode (number get_target_info) w.call x).0
    succeeded close_char_device w.maps
    hold (λ h. record h { mapping = true })
    succeeded close_char_device w.dials
    hold (λ h. record h { connection = true })
    d ← opened (λ h. close_connection (close_char_device h)) w.under
    hold (λ h. record h { under_device = true })
    pure (record {
      target_info = t;
      under = d;
      ring = x.ring;
      kernel = w.kernel;
      state = writing;
      monitor = new_pause_controller;
      terminated = false;
      stats = new_benchmark_stats config.benchmark;
      sent = [];
      link = w.link;
      ioctls = w.ioctls;
      dials = w.redials;
    })

  -- `SendInitPacket`; `sized` says that `GetDeviceSize` succeeds.
  unfoldable pub send_init_packet : Bool → Client → M Held Client
  send_init_packet true c = pure (send_packet (init_packet c) c)
  send_init_packet false c = throw device

  abbrev accepted : Option (List String) → M Held Client → M Held Client
  accepted none rest = rest
  accepted (some missing_args) rest = throw missing_arguments

  -- `main`, up to the goroutines of `Run`; an error is a `log.Fatalf`.
  unfoldable pub start : Flags → World → M Held Client
  unfolding new_client send_init_packet
  start flags w =
      let config = new_config flags in
      accepted
        (validate_args (some config.char_device_path) (some config.under_device_path)
          (some config.ip_address) (some config.port))
        (do c ← new_client config w; c ← send_init_packet w.sized c; pure (begin_run config c))

-- `CloseClientConn` and `CloseResources`, where what was never opened is nil.
unfoldable pub close_client_conn : Held → Held
close_client_conn h = if h.connection then close_connection h else h

abbrev close_under : Held → Held
close_under h = if h.under_device then record h { under_device = false } else h

abbrev close_char : Held → Held
close_char h = if h.char_device then close_char_device h else h

abbrev unmap : Held → Held
unmap h = if h.mapping then record h { mapping = false } else h

unfoldable pub close_resources : Held → Held
close_resources h = unmap (close_char (close_under h))

-- The end of `Run`, once a signal or the client itself ends it.
unfoldable pub finish_run : Client × Held → Client × Held
unfolding close_client_conn close_resources
finish_run (c, h) = (initiate_shutdown c, close_resources (close_client_conn h))
