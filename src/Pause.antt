-- ===== src/Pause.antt =====
-- user/pause/pause.go: one goroutine that others pause and resume through a channel of one place.
use bdr.Common.{Bool, true, false, Option, none, some, if◌then◌else◌, ◌&&◌}
pub mod Safety

pub data PauseState : Type 0 where
  running paused : PauseState

-- What `stateChan` holds. Its capacity is 1, and the locks keep two senders apart.
pub record PauseController : Type 0 where
  pub state_chan : Option PauseState

unfoldable pub new_pause_controller : PauseController
new_pause_controller = record { state_chan = none }

unfoldable pub drain_channel : PauseController → PauseController
drain_channel p = record { state_chan = none }

-- A send on the drained channel does not block.
unfoldable pub pause : PauseController → PauseController
unfolding drain_channel
pause p = let q = drain_channel p in record q { state_chan = some paused }

unfoldable pub resume : PauseController → PauseController
unfolding drain_channel
resume p = let q = drain_channel p in record q { state_chan = some running }

abbrev pub is_paused_state : PauseState → Bool
is_paused_state running = false
is_paused_state paused = true

-- The first half of `IsPaused`, on its own: the state is taken out, if there is one.
unfoldable pub take_state : PauseController → Option PauseState × PauseController
take_state p = (p.state_chan, record { state_chan = none })

-- The second half: the state is put back.
unfoldable pub put_back : PauseState → PauseController → PauseController
put_back s p = record { state_chan = some s }

abbrev answered : Option PauseState × PauseController → Bool × PauseController
unfolding put_back
answered (none, p) = (false, p)
answered (some s, p) = (is_paused_state s, put_back s p)

-- A call of `IsPaused` that nothing comes between. Safety has its two halves as steps.
unfoldable pub is_paused : PauseController → Bool × PauseController
unfolding take_state put_back
is_paused p = answered (take_state p)

-- Where the waiting goroutine is after one `select`: it has the result, or waits in
-- `waitUntilResumed`.
pub data Wait : Type 0 where
  returned : Bool → Wait
  waiting : Wait

abbrev pub received : PauseState → Wait
received running = returned false
received paused = waiting

abbrev default_or_receive : Option PauseState → Wait × PauseController
default_or_receive none = (returned false, record { state_chan = none })
default_or_receive (some s) = (received s, record { state_chan = none })

-- `select` takes the case of the closed `termChan` where it is the only one that is ready, or where
-- it is chosen before a state that is there.
abbrev takes_term : Bool → Bool → Option PauseState → Bool
takes_term closed choice none = closed
takes_term closed choice (some s) = closed && choice

-- The `select` of `WaitIfPaused`. `closed` says that `termChan` is closed, and `choice` which case
-- is taken where both are ready.
unfoldable pub wait_if_paused : Bool → Bool → PauseController → Wait × PauseController
wait_if_paused closed choice p =
    if takes_term closed choice p.state_chan
    then (returned true, p)
    else default_or_receive p.state_chan

abbrev stay_or_receive : Option PauseState → Wait × PauseController
stay_or_receive none = (waiting, record { state_chan = none })
stay_or_receive (some s) = (received s, record { state_chan = none })

-- One round of the loop of `waitUntilResumed`; with neither case ready it goes on waiting.
unfoldable pub wait_until_resumed : Bool → Bool → PauseController → Wait × PauseController
wait_until_resumed closed choice p =
    if takes_term closed choice p.state_chan
    then (returned true, p)
    else stay_or_receive p.state_chan
