-- ===== src/Pause/Safety.antt =====
-- Any interleaving of `Pause`, `Resume`, `IsPaused` and one goroutine that waits.
use bdr.Common.{◌≡◌, refl, ap, subst, Bool, true, false, Option, none, some}
use bdr.Pause.{PauseState, running, paused, PauseController, Wait, returned, waiting}
use bdr.Pause.{
  new_pause_controller, take_state, put_back, pause, resume, is_paused, wait_if_paused,
  wait_until_resumed, received,
}

-- The waiting goroutine works, is blocked in `waitUntilResumed`, or has ended; `looking` is the state
-- that a call of `IsPaused` has taken out of the channel and not yet put back, and `last` the command
-- that was given last. A new controller runs.
pub data Waiter : Type 0 where
  working blocked ended : Waiter

pub record System : Type 0 where
  pub controller : PauseController
  pub waiter : Waiter
  pub looking : Option PauseState
  pub last : PauseState

abbrev pub start : System
start = record {
  controller = new_pause_controller;
  waiter = working;
  looking = none;
  last = running;
}

abbrev after : Wait → Waiter
after (returned true) = ended
after (returned false) = working
after waiting = blocked

abbrev pub paused_now : System → System
paused_now s = record s { controller = pause s.controller; last = paused }

abbrev pub resumed_now : System → System
resumed_now s = record s { controller = resume s.controller; last = running }

abbrev pub waited : Wait × PauseController → System → System
waited r s = record s { controller = r.1; waiter = after r.0 }

abbrev pub taken_now : System → System
taken_now s = let (o, p) = take_state s.controller in record s { controller = p; looking = o }

abbrev pub put_back_now : PauseState → System → System
put_back_now state s = record s { controller = put_back state s.controller; looking = none }

-- `Pause` and `Resume` take the lock for writing, which waits for the calls of `IsPaused`, which hold it
-- for reading, several at a time; the waiting goroutine takes no lock. A call that finds the channel
-- empty is over at once and changes nothing. `c` and `d` are whether the termination channel is
-- closed, and the choice of `select`.
pub data Step (s : System) : System → Type 0 where
  pauses : s.looking ≡ none → Step s (paused_now s)
  resumes : s.looking ≡ none → Step s (resumed_now s)
  looks : s.looking ≡ none → Step s (taken_now s)
  looks_away : (state : PauseState) → s.looking ≡ some state → Step s (put_back_now state s)
  enters : (c d : Bool) → s.waiter ≡ working → Step s (waited (wait_if_paused c d s.controller) s)
  wakes :
      (c d : Bool) → s.waiter ≡ blocked → Step s (waited (wait_until_resumed c d s.controller) s)

pub data Reach : System → Type 0 where
  here : Reach start
  next : {s t : System} → Reach s → Step s t → Reach t

-- Where the state is. A call of `IsPaused` that holds it holds the last command, and the channel is
-- empty. Else the channel holds the last command, or the waiting goroutine has taken it: it is blocked
-- only under a pause, and works so only without one.
pub data Tells : Option PauseState → Waiter → Option PauseState → PauseState → Type 0 where
  told : {w : Waiter} {l : PauseState} → Tells (some l) w none l
  held : Tells none blocked none paused
  free : Tells none working none running
  over : {o k : Option PauseState} {l : PauseState} → Tells o ended k l
  seen : {w : Waiter} {l : PauseState} → Tells none w (some l) l

abbrev pub IsTold : System → Type 0
IsTold s = Tells s.controller.state_chan s.waiter s.looking s.last

wait_if_paused-Tells :
    (c d : Bool) {o k : Option PauseState} {w : Waiter} {l : PauseState}
    → w ≡ working
    → Tells o w k l
    → let r = wait_if_paused c d (record { state_chan = o }) in Tells r.1.state_chan (after r.0) k l
unfolding wait_if_paused
wait_if_paused-Tells true true e (told {l = l}) = over
wait_if_paused-Tells true false e (told {l = running}) = free
wait_if_paused-Tells true false e (told {l = paused}) = held
wait_if_paused-Tells false d e (told {l = running}) = free
wait_if_paused-Tells false d e (told {l = paused}) = held
wait_if_paused-Tells c d e held = cc
wait_if_paused-Tells true d e free = over
wait_if_paused-Tells false d e free = free
wait_if_paused-Tells c d e over = cc
wait_if_paused-Tells true d e seen = seen
wait_if_paused-Tells false d e seen = seen

wait_until_resumed-Tells :
    (c d : Bool) {o k : Option PauseState} {w : Waiter} {l : PauseState}
    → w ≡ blocked
    → Tells o w k l
    → let r = wait_until_resumed c d (record { state_chan = o }) in
      Tells r.1.state_chan (after r.0) k l
unfolding wait_until_resumed
wait_until_resumed-Tells true true e (told {l = l}) = over
wait_until_resumed-Tells true false e (told {l = running}) = free
wait_until_resumed-Tells true false e (told {l = paused}) = held
wait_until_resumed-Tells false d e (told {l = running}) = free
wait_until_resumed-Tells false d e (told {l = paused}) = held
wait_until_resumed-Tells true d e held = over
wait_until_resumed-Tells false d e held = held
wait_until_resumed-Tells c d e free = cc
wait_until_resumed-Tells c d e over = cc
wait_until_resumed-Tells true d e seen = seen
wait_until_resumed-Tells false d e seen = seen

take_state-Tells :
    {o k : Option PauseState} {w : Waiter} {l : PauseState}
    → k ≡ none
    → Tells o w k l
    → let r = take_state (record { state_chan = o }) in Tells r.1.state_chan w r.0 l
unfolding take_state
take_state-Tells e told = seen
take_state-Tells e held = held
take_state-Tells e free = free
take_state-Tells e over = over
take_state-Tells e seen = cc

pause-Tells :
    {o k : Option PauseState} {w : Waiter} {l : PauseState} (l' : PauseState)
    → k ≡ none
    → Tells o w k l
    → Tells (some l') w k l'
pause-Tells l' e told = told
pause-Tells l' e held = told
pause-Tells l' e free = told
pause-Tells l' e over = over
pause-Tells l' e seen = cc

put_back-Tells :
    {o k : Option PauseState} {w : Waiter} {l : PauseState} (state : PauseState)
    → k ≡ some state
    → Tells o w k l
    → Tells (some state) w none l
put_back-Tells state e told = cc
put_back-Tells state e held = cc
put_back-Tells state e free = cc
put_back-Tells state e over = over
put_back-Tells state e (seen {w = w} {l = l}) = subst (λ o. Tells o w none l) e told

Step-IsTold : {s t : System} → Step s t → IsTold s → IsTold t
unfolding pause resume put_back
Step-IsTold (pauses e) h = pause-Tells paused e h
Step-IsTold (resumes e) h = pause-Tells running e h
Step-IsTold (looks e) h = take_state-Tells e h
Step-IsTold (looks_away state e) h = put_back-Tells state e h
Step-IsTold (enters c d e) h = wait_if_paused-Tells c d e h
Step-IsTold (wakes c d e) h = wait_until_resumed-Tells c d e h

Reach-IsTold : {s : System} → Reach s → IsTold s
unfolding new_pause_controller
Reach-IsTold here = free
Reach-IsTold (next r p) = Step-IsTold p (Reach-IsTold r)

-- As the last command says, but for a call of `IsPaused` that holds the state.
abbrev pub received_or : Wait → Option PauseState → PauseState → Wait
received_or w none l = received l
received_or w (some state) l = w

Tells-received :
    {o k : Option PauseState} {w : Waiter} {l : PauseState}
    → Tells o w k l
    → (d : Bool)
    → (w ≡ working
        → (wait_if_paused false d (record { state_chan = o })).0 ≡ received_or (returned false) k l)
      × (w ≡ blocked
          → (wait_until_resumed false d (record { state_chan = o })).0 ≡ received_or waiting k l)
unfolding wait_if_paused wait_until_resumed
Tells-received told d = (λ e. refl, λ e. refl)
Tells-received held d = (λ e. cc, λ e. refl)
Tells-received free d = (λ e. refl, λ e. cc)
Tells-received over d = (λ e. cc, λ e. cc)
Tells-received seen d = (λ e. refl, λ e. refl)

pub waits_as_told :
    {s : System}
    → Reach s
    → (d : Bool)
    → (s.waiter ≡ working
        → (wait_if_paused false d s.controller).0 ≡ received_or (returned false) s.looking s.last)
      × (s.waiter ≡ blocked
          → (wait_until_resumed false d s.controller).0 ≡ received_or waiting s.looking s.last)
waits_as_told {s = s} r d = Tells-received (Reach-IsTold r) d

answered-kept : (o : Option PauseState) → (is_paused (record { state_chan = o })).1.state_chan ≡ o
unfolding is_paused
answered-kept none = refl
answered-kept (some s) = refl

-- A call of `IsPaused` that nothing comes between leaves the channel as it was.
pub is_paused-kept : (p : PauseController) → (is_paused p).1 ≡ p
unfolding is_paused
is_paused-kept p = ap (λ o. record { state_chan = o }) (answered-kept p.state_chan)
