-- ===== src/Sched/Exit.antt =====
-- crates/kernel-sched/src/lib.rs: `exit_current` and `pick_after_stop`.
pub mod Stranded
use mathlib.Core.Path.{fun_ext}
use native.Mathlib.Decide.{ℕ_discrete}
use paranuk_os.Base.{
  ℕ, suc, ◌+◌, ◌-◌, ◌%◌, ◌≤◌, ◌<◌, ◌≡◌, ◌≢◌, refl, sym, subst, ap, ◌∙◌, ◌⊎◌, inl, inr, Bool, true,
  false, List, [], ◌∷◌, ◌++◌, Option, some, none, arith, Result, ok, err, length, get_or, set, set?,
  length-set, get_or-set, get_elem?-eq-get_or, Bool-cases, ltb, ◌==◌, if◌then◌else◌, word,
}
use paranuk_os.Sched.Slots.{
  IsRing, enqueued, dequeued, dequeue-dequeued, dequeued-IsRing, ready_queue-dequeued,
}
use paranuk_os.Sched.Counts.{count}
use paranuk_os.Sched.Model.{Model, Model-eq, update, IsCoherent}
use paranuk_os.Sched.Model
use paranuk_os.Sched.Model.Preserve.{leave-IsCoherent}
use paranuk_os.Sched.Invariant.{state_at, kind_at, view, IsValid, put_state, state_at-set}
use paranuk_os.Sched.{
  Scheduler, ThreadState, unused, ready, running, exited, ThreadKind, normal, Decision, keep,
  switch, SchedError, no_current_thread, nothing_to_run, slots, max_threads, no_thread, is_idle,
  ready_queue, exit_current, pick_after_stop,
}

-- The states after an exit that goes on with the head of the queue, and with the idle thread.
abbrev stopped : Scheduler → Scheduler
stopped s = put_state s s.current exited

abbrev first : Scheduler → ℕ
first s = get_or s.queue s.head no_thread

abbrev to_first : Scheduler → Scheduler
to_first s = record (put_state (dequeued (stopped s)) (first s) running) {
  current = first s;
  switches = s.switches + 1;
}

abbrev to_idle : Scheduler → Scheduler
to_idle s = record (put_state (stopped s) s.idle_id running) {
  current = s.idle_id;
  switches = s.switches + 1;
}

-- Two writes to the table of states.
state_at-set-set :
    (xs : List ThreadState) (i k : ℕ) (x y : ThreadState)
    → i < length xs
    → k < length xs
    → (λ j. get_or (set (set xs i x) k y) j unused)
      ≡ update (update (λ j. get_or xs j unused) i x) k y
state_at-set-set xs i k x y h l = fun_ext λ j. ground (
  arith,
  get_or-set (set xs i x) k j y unused (omega (arith, length-set xs i x)),
  get_or-set xs i j x unused h,
)

module _ (s : Scheduler) (v : IsValid s) (lt : s.current < max_threads)
    (busy : is_idle (kind_at s s.current) ≡ false) (h : s.switches + 1 < word) where
  stopped_model : Model
  stopped_model = record (view s) { state = update (state_at s) s.current exited }

  exit-leave : Model.exit (view s) ≡ Model.leave stopped_model (ready_queue s)
  unfolding stopped_model
  exit-leave = let e : (s.current == no_thread) ≡ false = ground arith in rw e

  module _ (pos : 0 < s.len) where
    queue-eq : ready_queue s ≡ first s ∷ ready_queue (dequeued s)
    queue-eq = ready_queue-dequeued s v.ring pos

    first-in : first s < max_threads
    first-in = ground (
      arith,
      v.coherent.queued (first s),
      v.coherent.in_range (first s),
      ap (count (first s)) queue-eq,
    )

    exit_current-first : exit_current s ≡ some (to_first s, ok (switch s.current (first s)))
    unfolding exit_current pick_after_stop
    exit_current-first = ground (
      arith,
      v.states_len,
      first-in,
      length-set s.states s.current exited,
      dequeue-dequeued (stopped s) v.ring pos,
    )

    view-first :
        view (to_first s) ≡ (Model.leave stopped_model (first s ∷ ready_queue (dequeued s))).0
    unfolding stopped_model
    view-first =
        Model-eq
          (state_at-set-set s.states s.current (first s) exited running
            (omega (arith, v.states_len)) (omega (arith, v.states_len, first-in)))
          refl refl refl refl refl refl

    exit-first : (view (to_first s), ok (switch s.current (first s))) ≡ Model.exit (view s)
    unfolding stopped_model
    exit-first =
        ap
          (λ (m : Model).
            let p : Model × Result SchedError Decision = (m, ok (switch s.current (first s))) in p)
          view-first
        ∙ sym (ap (Model.leave stopped_model) queue-eq)
        ∙ sym exit-leave

    first-IsValid : IsValid (to_first s)
    first-IsValid = record {
      ring = dequeued-IsRing (stopped s) v.ring pos;
      states_len =
          length-set (set s.states s.current exited) (first s) running
          ∙ length-set s.states s.current exited
          ∙ v.states_len;
      kinds_len = v.kinds_len;
      coherent = subst IsCoherent (sym view-first) (
          unfold stopped_model in
          leave-IsCoherent (view s) v.coherent (first s ∷ ready_queue (dequeued s)) lt busy queue-eq
            refl);
    }

  module _ (none_ready : s.len ≡ 0) (idle_set : s.idle_id < max_threads) where
    exit_current-idle : exit_current s ≡ some (to_idle s, ok (switch s.current s.idle_id))
    unfolding exit_current pick_after_stop
    exit_current-idle = ground (arith, v.states_len, length-set s.states s.current exited)

    leave-idle : Model.leave stopped_model [] ≡ (
      record stopped_model {
        state = update (update (state_at s) s.current exited) s.idle_id running;
        current = s.idle_id;
        switches = s.switches + 1;
      },
      ok (switch s.current s.idle_id),
    )
    unfolding stopped_model
    leave-idle = let e : (s.idle_id == no_thread) ≡ false = ground arith in rw e

    view-idle : view (to_idle s) ≡ (Model.leave stopped_model []).0
    unfolding stopped_model
    view-idle =
        Model-eq
          (state_at-set-set s.states s.current s.idle_id exited running
            (omega (arith, v.states_len)) (omega (arith, v.states_len)))
          refl refl refl refl refl refl
        ∙ ap (λ (p : Model × Result SchedError Decision). p.0) (sym leave-idle)

    exit-idle : (view (to_idle s), ok (switch s.current s.idle_id)) ≡ Model.exit (view s)
    exit-idle =
        ap
          (λ (m : Model).
            let p : Model × Result SchedError Decision = (m, ok (switch s.current s.idle_id)) in p)
          view-idle
        ∙ ap
            (λ (p : Model × Result SchedError Decision).
              let q : Model × Result SchedError Decision = (p.0, ok (switch s.current s.idle_id)) in
              q)
            leave-idle
        ∙ sym leave-idle
        ∙ sym (ap (Model.leave stopped_model) (ap (slots s.queue s.head 0) none_ready))
        ∙ sym exit-leave

    idle-IsValid : IsValid (to_idle s)
    idle-IsValid = record {
      ring = v.ring;
      states_len =
          length-set (set s.states s.current exited) s.idle_id running
          ∙ length-set s.states s.current exited
          ∙ v.states_len;
      kinds_len = v.kinds_len;
      coherent = subst IsCoherent (sym view-idle) (
          unfold stopped_model in
          leave-IsCoherent (view s) v.coherent [] lt busy (ap (slots s.queue s.head 0) none_ready)
            (ap (λ (p : Model × Result SchedError Decision). p.1) leave-idle));
    }

-- `exit_current` on every branch, called by a thread other than the idle thread. It fails without a
-- change when no thread runs. Otherwise the current thread is marked exited, and the head of the
-- ready queue runs, or else the idle thread, as in the abstract scheduler; the scheduler stays
-- valid. With neither, it fails: then the current thread stays the current one, marked exited.
-- On a valid scheduler whose switch counter can still grow it never panics.
pub exit_current_refines :
    (s : Scheduler)
    → IsValid s
    → is_idle (kind_at s s.current) ≡ false
    → s.switches + 1 < word
    → ((s.current ≡ no_thread) × (exit_current s ≡ some (s, err no_current_thread)))
      ⊎ ((t : Scheduler) × (d : Decision) × (exit_current s ≡ some (t, ok d))
          × ((view t, ok d) ≡ Model.exit (view s))
          × IsValid t)
      ⊎ ((s.len ≡ 0)
          × (s.idle_id ≡ no_thread)
          × (exit_current s ≡ some (put_state s s.current exited, err nothing_to_run)))
unfolding exit_current pick_after_stop stopped_model
exit_current_refines s v busy h = elim (ℕ_discrete s.current no_thread) [
  | yes e ↦ inl (e, ground arith)
  | no ne ↦
      let lt : s.current < max_threads = ground (arith, v.coherent.current_in) in
      elim (ℕ_discrete s.len 0) [
        | no pos ↦
            let some_len : 0 < s.len = omega arith in
            inr (
              inl (
                to_first s,
                switch s.current (first s),
                exit_current-first s v lt busy h some_len,
                exit-first s v lt busy h some_len,
                first-IsValid s v lt busy h some_len,
              ))
        | yes e ↦ elim (ℕ_discrete s.idle_id no_thread) [
          | yes absent ↦ inr (inr (e, absent, ground (arith, v.states_len)))
          | no set_idle ↦
              let il : s.idle_id < max_threads = ground (arith, v.coherent.idle_in) in
              inr (
                inl (
                  to_idle s,
                  switch s.current s.idle_id,
                  exit_current-idle s v lt busy h e il,
                  exit-idle s v lt busy h e il,
                  idle-IsValid s v lt busy h e il,
                ))
        ]
      ]
]
