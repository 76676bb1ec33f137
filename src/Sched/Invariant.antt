-- ===== src/Sched/Invariant.antt =====
-- crates/kernel-sched/src/lib.rs: the invariant of the scheduler's arrays, and the abstract
-- scheduler that they stand for.
use mathlib.Core.Path.{fun_ext}
use paranuk_os.Base.{
  ℕ, ◌<◌, ◌≡◌, refl, inl, List, some, arith, length, get_or, set, get_or-set, get_or-replicate,
}
use paranuk_os.Sched.Slots.{IsRing, length-slots}
use paranuk_os.Sched.Counts.{count, length-lt_of_absent}
use paranuk_os.Sched.Model.{Model, update, IsCoherent}
use paranuk_os.Sched.{
  Scheduler, ThreadState, unused, ThreadKind, normal, max_threads, new, ready_queue, set_state,
  set_kind,
}

abbrev pub state_at : Scheduler → ℕ → ThreadState
state_at s i = get_or s.states i unused

abbrev pub kind_at : Scheduler → ℕ → ThreadKind
kind_at s i = get_or s.kinds i normal

abbrev pub view : Scheduler → Model
view s = record {
  state = state_at s;
  kind = kind_at s;
  queue = ready_queue s;
  current = s.current;
  idle_id = s.idle_id;
  ticks = s.ticks;
  switches = s.switches;
}

pub record IsValid (s : Scheduler) : Type 0 where
  pub ring : IsRing s
  pub states_len : length s.states ≡ max_threads
  pub kinds_len : length s.kinds ≡ max_threads
  pub coherent : IsCoherent (view s)

-- The states after `states[id] = state` and `kinds[id] = kind`.
abbrev pub put_state : Scheduler → ℕ → ThreadState → Scheduler
put_state s id x = record s { states = set s.states id x }

abbrev pub put_kind : Scheduler → ℕ → ThreadKind → Scheduler
put_kind s id x = record s { kinds = set s.kinds id x }

pub set_state-put_state :
    (s : Scheduler) (id : ℕ) (x : ThreadState)
    → id < length s.states
    → set_state s id x ≡ some (put_state s id x)
unfolding set_state
set_state-put_state s id x h = ground arith

pub set_kind-put_kind :
    (s : Scheduler) (id : ℕ) (x : ThreadKind)
    → id < length s.kinds
    → set_kind s id x ≡ some (put_kind s id x)
unfolding set_kind
set_kind-put_kind s id x h = ground arith

pub state_at-set :
    (xs : List ThreadState) (id : ℕ) (x : ThreadState)
    → id < length xs
    → (λ j. get_or (set xs id x) j unused) ≡ update (λ j. get_or xs j unused) id x
state_at-set xs id x h = fun_ext (λ j. get_or-set xs id j x unused h)

pub kind_at-set :
    (xs : List ThreadKind) (id : ℕ) (x : ThreadKind)
    → id < length xs
    → (λ j. get_or (set xs id x) j normal) ≡ update (λ j. get_or xs j normal) id x
kind_at-set xs id x h = fun_ext (λ j. get_or-set xs id j x normal h)

-- A thread that is not in the queue leaves room for it there.
pub len-lt_of_absent :
    (s : Scheduler) (i : ℕ)
    → IsValid s
    → i < max_threads
    → count i (ready_queue s) ≡ 0
    → s.len < max_threads
len-lt_of_absent s i v lt e = omega (
  arith,
  length-slots s.queue s.head 0 s.len,
  length-lt_of_absent max_threads i (ready_queue s) (λ j. ground (arith, v.coherent.queued j))
      (λ j le. ground (arith, v.coherent.queued j, v.coherent.in_range j)) e lt,
)

pub new-IsValid : IsValid new
unfolding new
new-IsValid = record {
  ring = record { queue_len = refl; head_in = omega arith; len_in = omega arith };
  states_len = refl;
  kinds_len = refl;
  coherent = record {
    queued = λ i. ground (arith, get_or-replicate max_threads i unused);
    in_range = λ i le. get_or-replicate max_threads i unused;
    running_only = λ i r. ground (arith, get_or-replicate max_threads i unused);
    current_in = inl refl;
    idle_in = inl refl;
    idle_only = λ i r. ground (arith, get_or-replicate max_threads i normal);
  };
}
