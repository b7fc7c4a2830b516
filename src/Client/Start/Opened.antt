-- ===== src/Client/Start/Opened.antt =====
-- What the start of user/client/client.go leaves open, and what the client begins with.
use bdr.Common.{ℕ, ◌≡◌, refl, true, false, none, some, ok, err, panic, Outcome, arith, [], All}
use bdr.Config.Client.{Config}
use bdr.Client.{Client}
use bdr.Device.{Disk}
use bdr.Benchmark.{new_benchmark_stats}
use bdr.Pause.{new_pause_controller}
use bdr.Chardev.{Context, target_info_of, IsDocumented}
use bdr.Chardev.Served.{chardev_ioctl-target_info_of}
use bdr.Client.Sending.{IsHarmless, Delivers, send_packet-Delivers}
use bdr.Client.Rescan.{Restarts, start_hashing-Restarts}
use bdr.Client.Listen.{init_packet}
use bdr.Client.{writing, start_hashing, begin_run, delivered}
use bdr.Client.Start.{start, send_init_packet}
use bdr.Config.Client.{Flags, new_config, validate_args}
use bdr.Client.Start.{Held, World, new_client, close_client_conn, close_resources}

abbrev pub nothing : Held
nothing = record { char_device = false; mapping = false; connection = false; under_device = false }

abbrev pub everything : Held
everything = record { char_device = true; mapping = true; connection = true; under_device = true }

-- How `NewClient` may end.
abbrev pub Ends : Outcome Client × Held → Type 0
Ends (ok c, h) = (h ≡ everything) × (close_resources (close_client_conn h) ≡ nothing)
Ends (err e, h) = (h.char_device ≡ false) × (h.connection ≡ false) × (h.under_device ≡ false)
Ends (panic, h) = ⊥

-- However the calls of `NewClient` go, from nothing open: where it fails, no file and no connection is
-- left open (the mapping may be); where it succeeds all four are open, and the calls at the end of
-- `Run` close them all.
pub new_client-Ends :
    (encode : ℕ → ℕ → ℕ → ℕ → ℕ) (config : Config) (w : World)
    → Ends (new_client encode config w nothing)
unfolding new_client close_client_conn close_resources
new_client-Ends encode config w = ground arith

-- The client that `NewClient` returns.
abbrev pub fresh_client : Config → World → Context → Disk → Client
fresh_client config w x d = record {
  target_info = target_info_of x;
  under = d;
  ring = x.ring;
  kernel = w.kernel;
  state = writing;
  monitor = new_pause_controller;
  terminated = false;
  stats = new_benchmark_stats config.benchmark;
  sent = [];
  link = w.link;
  ioctls = w.ioctls;
  dials = w.redials;
}

-- All calls of the start succeed, up to calls of `Encode` and of `ioctl` that are tried again.
pub record Opens (w : World) (x : Context) (d : Disk) : Type 0 where
  pub char_device : w.char_device ≡ some x
  pub under : w.under ≡ some d
  pub copies : w.call.copies ≡ true
  pub maps : w.maps ≡ true
  pub dials : w.dials ≡ true
  pub sized : w.sized ≡ true
  pub link : All IsHarmless w.link
  pub ioctls : All IsHarmless w.ioctls

-- The arguments are accepted, and no flag is given against the scan with a journal.
abbrev pub AsksForScan : Flags → Type 0
AsksForScan flags =
    let config = new_config flags in
    (validate_args (some config.char_device_path) (some config.under_device_path)
        (some config.ip_address) (some config.port)
      ≡ none)
    × (config.full_scan ≡ false)
    × (config.full_replicate ≡ false)
    × (config.initial_replication ≡ true)

module _ (encode : ℕ → ℕ → ℕ → ℕ → ℕ) (documented : IsDocumented encode) where
  pub new_client-Opens :
      (config : Config) (w : World) (x : Context) (d : Disk)
      → Opens w x d
      → new_client encode config w nothing ≡ (ok (fresh_client config w x d), everything)
  unfolding new_client
  new_client-Opens config w x d o =
      rw
        (
          o.char_device,
          chardev_ioctl-target_info_of encode documented w.call x o.copies,
          o.maps,
          o.dials,
          o.under,
        )
        refl

  -- The client whose arguments are accepted, and that has no flag against the scan with a journal.
  pub start-Restarts :
      (flags : Flags) (w : World) (x : Context) (d : Disk)
      → AsksForScan flags
      → Opens w x d
      → (c : Client) × (c' : Client) × (start encode flags w nothing ≡ (ok c', everything))
        × Delivers
            (init_packet (fresh_client (new_config flags) w x d))
            (fresh_client (new_config flags) w x d)
            c
        × Restarts c c'
  unfolding start send_init_packet begin_run
  start-Restarts flags w x d (valid, scan, replicate, initial) o =
      let config = new_config flags in
      let c0 = fresh_client config w x d in
      let (link, e, h) = send_packet-Delivers (init_packet c0) c0 refl o.link in
      let c1 = delivered (init_packet c0) link c0 in
      (
        c1,
        start_hashing c1,
        rw (valid, new_client-Opens config w x d o, o.sized, e, scan, replicate, initial) refl,
        (link, refl, h),
        start_hashing-Restarts c1 refl h o.ioctls,
      )
