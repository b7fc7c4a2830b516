-- ===== src/Server.antt =====
-- user/server/server.go: the server's state, and the steps that its goroutines share.
use bdr.Common.{ℕ, List, [], ◌∷◌, ◌++◌, Bool, true, if◌then◌else◌, M, Outcome, ok, err}
use bdr.Common.{panic, server_failure, ltb, length, take}
use bdr.Networking.{Extent, InitInfo, Packet}
use bdr.Device.{Disk}
use bdr.Journal.{Journal}

pub data State : Type 0 where
  hashing writing disconnected destroying_replica journal_overflow replicating : State

-- `target` is the device behind `TargetDevFd`, `sent` what `Encoder` put on the wire, and `link`
-- says which of the next calls of `Encode` succeed (all of them, once it is used up). Until
-- `CreateJournal` the journal is a nil pointer in the source, which no code reads then; here the
-- field keeps the device at `Config.JournalPath`.
pub record Server : Type 0 where
  pub target : Disk
  pub journal : Journal
  pub state : State
  pub client_info : InitInfo
  pub sent : List Packet
  pub link : List Bool

abbrev pub on_target : {A : Type 0} → M Disk A → M Server A
on_target m s = let (o, d) = m s.target in (o, record s { target = d })

abbrev pub on_journal : {A : Type 0} → M Journal A → M Server A
on_journal m s = let (o, j) = m s.journal in (o, record s { journal = j })

-- A call that opens the path of the journal, and does not use the open journal.
abbrev pub on_journal_path : {A : Type 0} → M Disk A → M Server A
on_journal_path m s =
    let (o, d) = m s.journal.disk in
    let j : Journal = s.journal in (o, record s { journal = record j { disk = d } })

abbrev pub set_state : State → M Server (Unit {0})
set_state state s = (ok tt, record s { state = state })

abbrev pub set_journal : Journal → M Server (Unit {0})
set_journal j s = (ok tt, record s { journal = j })

abbrev pub link_ok : List Bool → Bool
link_ok [] = true
link_ok (b ∷ bs) = b

abbrev pub link_rest : List Bool → List Bool
link_rest [] = []
link_rest (b ∷ bs) = bs

unfoldable pub send_packet : Packet → M Server (Unit {0})
send_packet packet s =
    let s' = record s { link = link_rest s.link } in
    if link_ok s.link
    then (ok tt, record s' { sent = s'.sent ++ packet ∷ [] })
    else (err server_failure, s')

-- `info.Data[:info.Size]`, of a slice without spare capacity.
abbrev pub data_to_write : Extent → Outcome (List ℕ)
data_to_write info =
    if ltb (length info.bytes) info.size then panic else ok (take info.size info.bytes)
