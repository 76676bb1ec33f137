-- ===== src/Sched.antt =====
-- crates/kernel-sched/src/lib.rs: the state machine of the scheduler.
-- A method returns the new state beside its result, and `none` where the code would panic: an
-- index out of range, a failed `debug_assert!`, an overflow under overflow checks.
pub mod Slots
pub mod Counts
pub mod Model
pub mod Invariant
pub mod Register
pub mod Rotate
pub mod Exit
pub mod Run
mod Tests
use paranuk_os.Base.{
  ℕ, zero, suc, ◌+◌, ◌%◌, Bool, true, false, not, Option, none, some, List, [], ◌∷◌, Result, ok,
  err, ◌>>=◌, ◌>>◌, assert, add_word, sub_word, ltb, leb, ◌==◌, if◌then◌else◌, get_elem?, get_or,
  set?, replicate, position,
}

abbrev pub max_threads : ℕ
max_threads = 16

-- `usize::MAX`
abbrev pub no_thread : ℕ
no_thread = 18446744073709551615

pub data ThreadState : Type 0 where
  unused ready running exited : ThreadState

pub data ThreadKind : Type 0 where
  normal idle boot : ThreadKind

pub data SchedError : Type 0 where
  no_free_slot : SchedError
  invalid_id : ℕ → SchedError
  no_current_thread idle_already_registered nothing_to_run : SchedError

pub data Decision : Type 0 where
  keep : Decision
  switch : ℕ → ℕ → Decision

pub record SchedStats : Type 0 where
  pub ticks : ℕ
  pub switches : ℕ
  pub ready_len : ℕ
  pub live : ℕ

pub record Scheduler : Type 0 where
  pub states : List ThreadState
  pub kinds : List ThreadKind
  pub queue : List ℕ
  pub head : ℕ
  pub len : ℕ
  pub current : ℕ
  pub idle_id : ℕ
  pub ticks : ℕ
  pub switches : ℕ

-- `*state == ThreadState::Unused`, and so on.
abbrev pub is_unused : ThreadState → Bool
is_unused unused = true
is_unused _ = false

abbrev pub is_exited : ThreadState → Bool
is_exited exited = true
is_exited _ = false

abbrev pub is_idle : ThreadKind → Bool
is_idle idle = true
is_idle _ = false

pub new : Scheduler
new = record {
  states = replicate max_threads unused;
  kinds = replicate max_threads normal;
  queue = replicate max_threads no_thread;
  head = 0;
  len = 0;
  current = no_thread;
  idle_id = no_thread;
  ticks = 0;
  switches = 0;
}

pub enqueue : Scheduler → ℕ → Option Scheduler
enqueue s id = do
  assert (ltb s.len max_threads)
  end ← add_word s.head s.len
  queue ← set? s.queue (end % max_threads) id
  len ← add_word s.len 1
  some (record s { queue = queue; len = len })

pub dequeue : Scheduler → Option (Scheduler × ℕ)
dequeue s = do
  assert (ltb 0 s.len)
  id ← get_elem? s.queue s.head
  queue ← set? s.queue s.head no_thread
  next ← add_word s.head 1
  len ← sub_word s.len 1
  some (record s { queue = queue; head = next % max_threads; len = len }, id)

pub set_state : Scheduler → ℕ → ThreadState → Option Scheduler
set_state s id state = do states ← set? s.states id state; some (record s { states = states })

pub set_kind : Scheduler → ℕ → ThreadKind → Option Scheduler
set_kind s id kind = do kinds ← set? s.kinds id kind; some (record s { kinds = kinds })

pub register_boot : Scheduler → ℕ → Option (Scheduler × Result SchedError (Unit {0}))
unfolding set_state set_kind
register_boot s id = if leb max_threads id then some (s, err (invalid_id id)) else do
  s1 ← set_state s id running
  s2 ← set_kind s1 id boot
  some (record s2 { current = id }, ok tt)

pub register_idle : Scheduler → ℕ → Option (Scheduler × Result SchedError (Unit {0}))
unfolding set_state set_kind
register_idle s id =
    if leb max_threads id
    then some (s, err (invalid_id id))
    else if not (s.idle_id == no_thread)
    then some (s, err idle_already_registered)
    else do
      state ← get_elem? s.states id
      if not (is_unused state) then some (s, err (invalid_id id)) else do
        s1 ← set_state s id ready
        s2 ← set_kind s1 id idle
        some (record s2 { idle_id = id }, ok tt)

-- The `?` after `register_idle(id)`.
abbrev then_id :
    ℕ → Scheduler × Result SchedError (Unit {0}) → Option (Scheduler × Result SchedError ℕ)
then_id id (s, ok _) = some (s, ok id)
then_id id (s, err e) = some (s, err e)

pub register_idle_any : Scheduler → Option (Scheduler × Result SchedError ℕ)
register_idle_any s = elim (position is_unused s.states) [
  | none ↦ some (s, err no_free_slot)
  | some id ↦ do out ← register_idle s id; then_id id out
]

pub create : Scheduler → Option (Scheduler × Result SchedError ℕ)
unfolding set_state set_kind
create s = elim (position is_unused s.states) [
  | none ↦ some (s, err no_free_slot)
  | some id ↦ do
    s1 ← set_state s id ready
    s2 ← set_kind s1 id normal
    s3 ← enqueue s2 id
    some (s3, ok id)
]

pub state : Scheduler → ℕ → Result SchedError ThreadState
state s id = elim (get_elem? s.states id) [ none ↦ err (invalid_id id) | some x ↦ ok x ]

pub kind : Scheduler → ℕ → Result SchedError ThreadKind
kind s id = elim (get_elem? s.kinds id) [ none ↦ err (invalid_id id) | some x ↦ ok x ]

-- How many slots are not `Unused`.
abbrev pub live_count : List ThreadState → ℕ
live_count [] = 0
live_count (x ∷ xs) = (if is_unused x then 0 else 1) + live_count xs

pub stats : Scheduler → SchedStats
stats s = record {
  ticks = s.ticks;
  switches = s.switches;
  ready_len = s.len;
  live = live_count s.states;
}

pub rotate : Scheduler → Option (Scheduler × Decision)
unfolding set_state
rotate s = if s.current == no_thread then some (s, keep) else do
  kind ← get_elem? s.kinds s.current
  if s.len == 0 then some (s, keep) else do
    s1 ← set_state s s.current ready
    s2 ← if is_idle kind then some s1 else enqueue s1 s.current
    (s3, to) ← dequeue s2
    s4 ← set_state s3 to running
    switches ← add_word s4.switches 1
    some (record s4 { current = to; switches = switches }, switch s.current to)

pub on_tick : Scheduler → Bool → Option (Scheduler × Decision)
on_tick s reschedule = do
  ticks ← add_word s.ticks 1
  if not reschedule
      then some (record s { ticks = ticks }, keep)
      else rotate (record s { ticks = ticks })

pub yield_current : Scheduler → Option (Scheduler × Decision)
yield_current s = rotate s

-- The first branch of `pick_after_stop`: the head of the ready queue.
pub run_queued : Scheduler → Option (Scheduler × Result SchedError ℕ)
unfolding set_state
run_queued s = do (s1, to) ← dequeue s; s2 ← set_state s1 to running; some (s2, ok to)

-- The second: the idle thread.
pub run_idle : Scheduler → Option (Scheduler × Result SchedError ℕ)
unfolding set_state
run_idle s = do s1 ← set_state s s.idle_id running; some (s1, ok s.idle_id)

pub pick_after_stop : Scheduler → Option (Scheduler × Result SchedError ℕ)
unfolding run_queued run_idle
pick_after_stop s =
    if ltb 0 s.len
    then run_queued s
    else if not (s.idle_id == no_thread)
    then run_idle s
    else some (s, err nothing_to_run)

-- The `?` after `pick_after_stop()`, and the switch.
switch_to : ℕ → Scheduler × Result SchedError ℕ → Option (Scheduler × Result SchedError Decision)
switch_to from (s, err e) = some (s, err e)
switch_to from (s, ok to) = do
  switches ← add_word s.switches 1
  some (record s { current = to; switches = switches }, ok (switch from to))

pub exit_current : Scheduler → Option (Scheduler × Result SchedError Decision)
unfolding set_state switch_to
exit_current s =
    if s.current == no_thread
    then some (s, err no_current_thread)
    else do s1 ← set_state s s.current exited; out ← pick_after_stop s1; switch_to s.current out

pub take_reapable : Scheduler → Option (Scheduler × Option ℕ)
unfolding set_state set_kind
take_reapable s = elim (position is_exited s.states) [
  | none ↦ some (s, none)
  | some id ↦ do s1 ← set_state s id unused; s2 ← set_kind s1 id normal; some (s2, some id)
]

-- `ready_queue`: the items at the offsets `off`, …, `off + n - 1` behind `head`.
abbrev pub slots : List ℕ → ℕ → ℕ → ℕ → List ℕ
slots queue head off zero = []
slots queue head off (suc n) =
    get_or queue ((head + off) % max_threads) no_thread ∷ slots queue head (suc off) n

abbrev pub ready_queue : Scheduler → List ℕ
ready_queue s = slots s.queue s.head 0 s.len
