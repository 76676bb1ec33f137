-- ===== src/Sched/Rotate.antt =====
-- crates/kernel-sched/src/lib.rs: `rotate`, and the tick and the yield that call it.
use mathlib.Core.Path.{fun_ext}
use mathlib.Core.List.{append-nil}
use native.Mathlib.Decide.{ℕ_discrete}
use paranuk_os.Base.{
  ℕ, ◌+◌, ◌<◌, ◌≡◌, refl, sym, subst, ap, ◌∙◌, inl, inr, Bool, true, false, List, ◌∷◌, ◌++◌, some,
  arith, length, get_or, set, length-set, get_or-set, get_elem?-eq-get_or, Bool-cases, lt→ltb,
  if◌then◌else◌, word,
}
use paranuk_os.Sched.Slots.{
  IsRing, enqueued, dequeued, enqueue-enqueued, enqueued-IsRing, ready_queue-enqueued,
  dequeue-dequeued, dequeued-IsRing, ready_queue-dequeued,
}
use paranuk_os.Sched.Counts.{count}
use paranuk_os.Sched.Model.{Model, Model-eq, update, IsCoherent, requeued}
use paranuk_os.Sched.Model
use paranuk_os.Sched.Model.Preserve.{turn-IsCoherent}
use paranuk_os.Sched.Invariant.{state_at, kind_at, view, IsValid, put_state, len-lt_of_absent}
use paranuk_os.Sched.{
  Scheduler, ThreadState, unused, ready, running, ThreadKind, normal, Decision, keep, switch, slots,
  max_threads, no_thread, is_idle, ready_queue, rotate, on_tick,
}

-- The states inside `rotate`: the current thread is ready again; then, but for the idle thread,
-- at the end of the queue; then the head of the queue is taken out, and runs.
abbrev requeue : Scheduler → Scheduler
requeue s =
    if is_idle (kind_at s s.current)
    then put_state s s.current ready
    else enqueued (put_state s s.current ready) s.current

abbrev next : Scheduler → ℕ
next s = get_or (requeue s).queue (requeue s).head no_thread

abbrev rotated : Scheduler → Scheduler
rotated s = record (put_state (dequeued (requeue s)) (next s) running) {
  current = next s;
  switches = s.switches + 1;
}

abbrev first : Scheduler → ℕ
first s = get_or s.queue s.head no_thread

abbrev others : Scheduler → List ℕ
others s = ready_queue (dequeued s)

module _ (s : Scheduler) (v : IsValid s) (lt : s.current < max_threads) (pos : 0 < s.len) where
  room : s.len < max_threads
  room =
      len-lt_of_absent s s.current v lt
        (ground (arith, v.coherent.queued s.current, v.coherent.current_in))

  requeue-IsRing : IsRing (requeue s)
  requeue-IsRing = elim (Bool-cases (is_idle (kind_at s s.current))) [
    | inl e ↦ rw e v.ring
    | inr e ↦ rw e (enqueued-IsRing (put_state s s.current ready) s.current v.ring room)
  ]

  requeue-len : 0 < (requeue s).len
  requeue-len = ground arith

  ready_queue-requeue : ready_queue (requeue s) ≡ ready_queue s ++ requeued (view s)
  ready_queue-requeue = elim (Bool-cases (is_idle (kind_at s s.current))) [
    | inl e ↦ rw e (sym (append-nil (ready_queue s)))
    | inr e ↦ rw e (ready_queue-enqueued (put_state s s.current ready) s.current v.ring room)
  ]

  split : ready_queue s ++ requeued (view s) ≡ next s ∷ ready_queue (dequeued (requeue s))
  split = sym ready_queue-requeue ∙ ready_queue-dequeued (requeue s) requeue-IsRing requeue-len

  next-first : next s ≡ first s
  next-first = ground (arith, split, ready_queue-dequeued s v.ring pos)

  ready_queue-rotated : ready_queue (rotated s) ≡ others s ++ requeued (view s)
  ready_queue-rotated = ground (arith, split, ready_queue-dequeued s v.ring pos)

  -- What `requeue` leaves alone, and what it does to the states.
  requeue-rest :
      ((requeue s).states ≡ set s.states s.current ready)
      × ((requeue s).kinds ≡ s.kinds)
      × ((requeue s).idle_id ≡ s.idle_id)
      × ((requeue s).ticks ≡ s.ticks)
      × ((requeue s).switches ≡ s.switches)
  requeue-rest = ground arith

  next-in : next s < max_threads
  next-in = ground (
    arith,
    next-first,
    ready_queue-dequeued s v.ring pos,
    v.coherent.queued (next s),
    v.coherent.in_range (next s),
    ap (count (next s)) (ready_queue-dequeued s v.ring pos),
  )

  state_at-rotated :
      state_at (rotated s) ≡ update (update (state_at s) s.current ready) (first s) running
  state_at-rotated = fun_ext λ j. ground (
    arith,
    ap (λ (st : List ThreadState). get_or (set st (next s) running) j unused) requeue-rest.0,
    get_or-set (set s.states s.current ready) (next s) j running unused
        (omega (arith, length-set s.states s.current ready, v.states_len, next-in)),
    get_or-set s.states s.current j ready unused (omega (arith, v.states_len)),
    next-first,
  )

  rotated-view : view (rotated s) ≡ (Model.turn (view s) (first s ∷ others s)).0
  rotated-view =
      Model-eq state_at-rotated
        (ap {B = ℕ → ThreadKind} (λ (k : List ThreadKind) i. get_or k i normal) requeue-rest.1)
        ready_queue-rotated next-first (requeue-rest.2) (requeue-rest.3) refl

  queue-eq : ready_queue s ≡ first s ∷ others s
  queue-eq = ready_queue-dequeued s v.ring pos

  rotated-IsValid : IsValid (rotated s)
  rotated-IsValid = record {
    ring = dequeued-IsRing (requeue s) requeue-IsRing requeue-len;
    states_len =
        length-set (requeue s).states (next s) running
        ∙ ap length requeue-rest.0
        ∙ length-set s.states s.current ready
        ∙ v.states_len;
    kinds_len = ap length requeue-rest.1 ∙ v.kinds_len;
    coherent =
        subst IsCoherent (sym rotated-view)
          (turn-IsCoherent (view s) v.coherent (first s ∷ others s) lt queue-eq);
  }

  rotate-rotated : s.switches + 1 < word → rotate s ≡ some (rotated s, switch s.current (next s))
  unfolding rotate
  rotate-rotated h = ground (
    arith,
    get_elem?-eq-get_or s.kinds s.current normal,
    v.kinds_len,
    v.states_len,
    enqueue-enqueued (put_state s s.current ready) s.current v.ring room,
    dequeue-dequeued (requeue s) requeue-IsRing requeue-len,
    requeue-rest,
    next-in,
    length-set s.states s.current ready,
    ap length requeue-rest.0,
  )

-- On a valid scheduler whose switch counter can still grow, `rotate` never panics, gives the state
-- and the decision of the abstract round robin, and keeps the scheduler valid. The
-- abstract round robin keeps the current thread, idle or not, when the queue is empty.
pub rotate_refines :
    (s : Scheduler)
    → IsValid s
    → s.switches + 1 < word
    → (t : Scheduler) × (d : Decision) × (rotate s ≡ some (t, d))
      × ((view t, d) ≡ Model.rotate (view s))
      × IsValid t
unfolding rotate
rotate_refines s v h = elim (ℕ_discrete s.current no_thread) [
  | yes e ↦ (s, keep, ground arith, ground arith, v)
  | no ne ↦
      let lt : s.current < max_threads = ground (arith, v.coherent.current_in) in
      elim (ℕ_discrete s.len 0) [
        | yes e ↦ (
          s,
          keep,
          ground (arith, get_elem?-eq-get_or s.kinds s.current normal, v.kinds_len),
          ground (arith, ap (slots s.queue s.head 0) e),
          v,
        )
        | no pos ↦
            let some_len : 0 < s.len = omega arith in
            (
              rotated s,
              switch s.current (next s),
              rotate-rotated s v lt some_len h,
              ground (
                arith,
                rotated-view s v lt some_len,
                queue-eq s v lt some_len,
                next-first s v lt some_len,
              ),
              rotated-IsValid s v lt some_len,
            )
      ]
]

abbrev pub ticked : Scheduler → Scheduler
ticked s = record s { ticks = s.ticks + 1 }

ticked-IsValid : (s : Scheduler) → IsValid s → IsValid (ticked s)
ticked-IsValid s v = record {
  ring = v.ring;
  states_len = v.states_len;
  kinds_len = v.kinds_len;
  coherent = record {
    queued = v.coherent.queued;
    in_range = v.coherent.in_range;
    running_only = v.coherent.running_only;
    current_in = v.coherent.current_in;
    idle_in = v.coherent.idle_in;
    idle_only = v.coherent.idle_only;
  };
}

-- A clock tick counts, and turns the round robin exactly when rescheduling is on. On a valid
-- scheduler whose two counters can still grow it never panics and keeps the scheduler valid. With an
-- empty queue the round robin keeps the current thread, idle or not.
pub on_tick_refines :
    (s : Scheduler) (reschedule : Bool)
    → IsValid s
    → s.ticks + 1 < word
    → s.switches + 1 < word
    → (t : Scheduler) × (d : Decision) × (on_tick s reschedule ≡ some (t, d))
      × ((view t, d) ≡ Model.tick (view s) reschedule)
      × IsValid t
unfolding on_tick
on_tick_refines s true v h k =
    let (t, d, e, f, w) = rotate_refines (ticked s) (ticked-IsValid s v) k in
    (t, d, rw (lt→ltb (s.ticks + 1) word h) e, f, w)
on_tick_refines s false v h k =
    (ticked s, keep, rw (lt→ltb (s.ticks + 1) word h), refl, ticked-IsValid s v)
