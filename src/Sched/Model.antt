-- ===== src/Sched/Model.antt =====
-- What crates/kernel-sched/src/lib.rs promises, with no arrays: tables from thread ids to states
-- and kinds, and the ready queue as a list, oldest first.
pub mod Preserve
use paranuk_os.Base.{
  ℕ, suc, ◌+◌, ◌≤◌, ◌<◌, ◌≡◌, ◌⊎◌, Bool, true, false, not, ◌&&◌, List, [], ◌∷◌, ◌++◌, Result, ok,
  err, ◌==◌, if◌then◌else◌,
}
use paranuk_os.Sched.Counts.{count}
use paranuk_os.Sched.{
  ThreadState, unused, ready, running, exited, ThreadKind, normal, boot, SchedError,
  no_current_thread, nothing_to_run, Decision, keep, switch, max_threads, no_thread, is_unused,
  is_idle,
}

pub record Model : Type 0 where
  pub state : ℕ → ThreadState
  pub kind : ℕ → ThreadKind
  pub queue : List ℕ
  pub current : ℕ
  pub idle_id : ℕ
  pub ticks : ℕ
  pub switches : ℕ

abbrev pub update {ℓ} : {A : Type ℓ} → (ℕ → A) → ℕ → A → ℕ → A
update f i x j = if i == j then x else f j

-- The current thread goes behind the queue, unless it is the idle thread.
abbrev pub requeued : Model → List ℕ
requeued m = if is_idle (m.kind m.current) then [] else m.current ∷ []

abbrev pub turn : Model → List ℕ → Model × Decision
turn m [] = (m, keep)
turn m (to ∷ rest) = (
  record m {
    state = update (update m.state m.current ready) to running;
    queue = rest ++ requeued m;
    current = to;
    switches = m.switches + 1;
  },
  switch m.current to,
)

-- Round robin: the oldest ready thread runs next.
abbrev pub rotate : Model → Model × Decision
rotate m = if m.current == no_thread then (m, keep) else turn m m.queue

abbrev pub tick : Model → Bool → Model × Decision
tick m true = rotate (record m { ticks = m.ticks + 1 })
tick m false = (record m { ticks = m.ticks + 1 }, keep)

-- `m` is the state in which the current thread is marked `exited` already.
abbrev pub leave : Model → List ℕ → Model × Result SchedError Decision
leave m (to ∷ rest) = (
  record m {
    state = update m.state to running;
    queue = rest;
    current = to;
    switches = m.switches + 1;
  },
  ok (switch m.current to),
)
leave m [] = if m.idle_id == no_thread then (m, err nothing_to_run) else (
  record m {
    state = update m.state m.idle_id running;
    current = m.idle_id;
    switches = m.switches + 1;
  },
  ok (switch m.current m.idle_id),
)

abbrev pub exit : Model → Model × Result SchedError Decision
exit m =
    if m.current == no_thread
    then (m, err no_current_thread)
    else leave (record m { state = update m.state m.current exited }) m.queue

abbrev pub admit : Model → ℕ → Model
admit m id = record m {
  state = update m.state id ready;
  kind = update m.kind id normal;
  queue = m.queue ++ (id ∷ []);
}

abbrev pub admit_idle : Model → ℕ → Model
admit_idle m id = record m {
  state = update m.state id ready;
  kind = update m.kind id ThreadKind.idle;
  idle_id = id;
}

abbrev pub admit_boot : Model → ℕ → Model
admit_boot m id = record m {
  state = update m.state id running;
  kind = update m.kind id boot;
  current = id;
}

abbrev pub reap : Model → ℕ → Model
reap m id = record m { state = update m.state id unused; kind = update m.kind id normal }

abbrev pub is_ready : ThreadState → Bool
is_ready ready = true
is_ready _ = false

abbrev pub is_runnable : ThreadState → Bool
is_runnable ready = true
is_runnable running = true
is_runnable _ = false

-- How often a thread is to stand in the ready queue.
abbrev pub waiting : Model → ℕ → ℕ
waiting m i = if is_ready (m.state i) && not (is_idle (m.kind i)) then 1 else 0

-- The invariants that the head of the file lists: the queue holds exactly the ready threads other
-- than the idle thread, each once; the running thread is the current one; the idle thread is
-- always ready or running.
pub record IsCoherent (m : Model) : Type 0 where
  pub queued : (i : ℕ) → count i m.queue ≡ waiting m i
  pub in_range : (i : ℕ) → max_threads ≤ i → m.state i ≡ unused
  pub running_only : (i : ℕ) → m.state i ≡ running → i ≡ m.current
  pub current_in :
      (m.current ≡ no_thread) ⊎ ((m.current < max_threads) × (m.state m.current ≡ running))
  pub idle_in :
      (m.idle_id ≡ no_thread)
      ⊎ ((m.idle_id < max_threads)
          × (is_idle (m.kind m.idle_id) ≡ true)
          × (is_runnable (m.state m.idle_id) ≡ true))
  pub idle_only : (i : ℕ) → is_idle (m.kind i) ≡ true → (i ≡ m.idle_id) × (i < max_threads)

pub Model-eq :
    {m n : Model}
    → m.state ≡ n.state
    → m.kind ≡ n.kind
    → m.queue ≡ n.queue
    → m.current ≡ n.current
    → m.idle_id ≡ n.idle_id
    → m.ticks ≡ n.ticks
    → m.switches ≡ n.switches
    → m ≡ n
Model-eq a b c d e f g = λ i. record {
  state = a i;
  kind = b i;
  queue = c i;
  current = d i;
  idle_id = e i;
  ticks = f i;
  switches = g i;
}
