-- ===== src/Sched/Tests.antt =====
-- Concrete schedulers, tests, and an instance of each theorem about the scheduler.
use paranuk_os.Base.{
  ℕ, ◌<◌, ◌≤◌, ◌≢◌, ◌≡◌, ◌⊎◌, refl, true, false, [], ◌∷◌, some, none, arith, ok, err, replicate,
}
use paranuk_os.Sched.Invariant.{state_at, view, IsValid}
use paranuk_os.Sched.Model
use paranuk_os.Sched.Register.{IsFirst, create_refines, take_reapable_refines}
use paranuk_os.Sched.Register.Boot.{
  register_boot_refines, register_boot_again, register_idle_any_refines,
}
use paranuk_os.Sched.Invariant.{new-IsValid}
use paranuk_os.Sched.Rotate.{rotate_refines, on_tick_refines}
use paranuk_os.Sched.Exit.{exit_current_refines}
use paranuk_os.Sched.Exit.Stranded.{exit_current-take_reapable}
use paranuk_os.Sched.Run.{Reach, boots, next, creates, Reach-IsValid, yields_of, yields_of_reaches}
use paranuk_os.Sched.{
  Scheduler, unused, ready, running, exited, normal, boot, Decision, switch, max_threads, no_thread,
  is_unused, is_exited, new, nothing_to_run, no_free_slot, no_current_thread,
  idle_already_registered, invalid_id, create, take_reapable, register_boot, register_idle_any,
  rotate, on_tick, exit_current, enqueue, dequeue,
}

-- Thread 0 runs, alone.
abbrev alone : Scheduler
alone = record {
  states = running ∷ replicate 15 unused;
  kinds = boot ∷ replicate 15 normal;
  queue = replicate 16 no_thread;
  head = 0;
  len = 0;
  current = 0;
  idle_id = no_thread;
  ticks = 0;
  switches = 0;
}

-- Threads 1 and 2 wait.
abbrev pair : Scheduler
pair = record alone {
  states = running ∷ ready ∷ ready ∷ replicate 13 unused;
  queue = 1 ∷ 2 ∷ replicate 14 no_thread;
  len = 2;
}

abbrev one : Scheduler
one = record alone {
  states = running ∷ ready ∷ replicate 14 unused;
  queue = 1 ∷ replicate 15 no_thread;
  len = 1;
}

alone-Reach : Reach alone
unfolding new register_boot
alone-Reach = boots 0 refl

pair-Reach : Reach pair
unfolding create enqueue
pair-Reach = next (next alone-Reach (creates {t = one} {r = ok 1} refl)) (creates {r = ok 2} refl)

alone-IsValid : IsValid alone
alone-IsValid = Reach-IsValid alone-Reach

pair-IsValid : IsValid pair
pair-IsValid = Reach-IsValid pair-Reach

Reach-IsValid_example : IsValid pair
Reach-IsValid_example = Reach-IsValid pair-Reach

rotate-pair :
    rotate pair
    ≡ some (
      record pair {
        states = ready ∷ running ∷ ready ∷ replicate 13 unused;
        queue = no_thread ∷ 2 ∷ 0 ∷ replicate 13 no_thread;
        head = 1;
        current = 1;
        switches = 1;
      },
      switch 0 1,
    )
unfolding rotate enqueue dequeue
rotate-pair = refl

create_refines_example :
    (((i : ℕ) → i < max_threads → is_unused (state_at pair i) ≡ false)
      × (create pair ≡ some (pair, err no_free_slot)))
    ⊎ ((id : ℕ) × (t : Scheduler) × IsFirst is_unused pair id
        × (create pair ≡ some (t, ok id))
        × (view t ≡ Model.admit (view pair) id)
        × IsValid t)
create_refines_example = create_refines pair pair-IsValid

take_reapable_refines_example :
    (((i : ℕ) → i < max_threads → is_exited (state_at pair i) ≡ false)
      × (take_reapable pair ≡ some (pair, none)))
    ⊎ ((id : ℕ) × (t : Scheduler) × IsFirst is_exited pair id
        × (take_reapable pair ≡ some (t, some id))
        × (view t ≡ Model.reap (view pair) id)
        × IsValid t)
take_reapable_refines_example = take_reapable_refines pair pair-IsValid

register_boot_refines_example :
    ((max_threads ≤ 0) × (register_boot new 0 ≡ some (new, err (invalid_id 0))))
    ⊎ ((t : Scheduler) × (register_boot new 0 ≡ some (t, ok tt))
        × (view t ≡ Model.admit_boot (view new) 0)
        × IsValid t)
unfolding new
register_boot_refines_example = register_boot_refines new 0 new-IsValid refl refl

register_boot_again_example :
    (t : Scheduler) × (register_boot pair 5 ≡ some (t, ok tt))
    × (state_at t 0 ≡ running)
    × (state_at t 5 ≡ running)
register_boot_again_example = register_boot_again pair 5 pair-IsValid (omega arith) (omega arith)

register_idle_any_refines_example :
    (((i : ℕ) → i < max_threads → is_unused (state_at pair i) ≡ false)
      × (register_idle_any pair ≡ some (pair, err no_free_slot)))
    ⊎ ((pair.idle_id ≢ no_thread)
        × (register_idle_any pair ≡ some (pair, err idle_already_registered)))
    ⊎ ((id : ℕ) × (t : Scheduler) × IsFirst is_unused pair id
        × (register_idle_any pair ≡ some (t, ok id))
        × (view t ≡ Model.admit_idle (view pair) id)
        × IsValid t)
register_idle_any_refines_example = register_idle_any_refines pair pair-IsValid

rotate_refines_example :
    (t : Scheduler) × (d : Decision) × (rotate pair ≡ some (t, d))
    × ((view t, d) ≡ Model.rotate (view pair))
    × IsValid t
rotate_refines_example = rotate_refines pair pair-IsValid (omega arith)

on_tick_refines_example :
    (t : Scheduler) × (d : Decision) × (on_tick pair true ≡ some (t, d))
    × ((view t, d) ≡ Model.tick (view pair) true)
    × IsValid t
on_tick_refines_example = on_tick_refines pair true pair-IsValid (omega arith) (omega arith)

exit_current_refines_example :
    ((pair.current ≡ no_thread) × (exit_current pair ≡ some (pair, err no_current_thread)))
    ⊎ ((t : Scheduler) × (d : Decision) × (exit_current pair ≡ some (t, ok d))
        × ((view t, ok d) ≡ Model.exit (view pair))
        × IsValid t)
    ⊎ ((pair.len ≡ 0)
        × (pair.idle_id ≡ no_thread)
        × (exit_current pair
            ≡ some (
              record pair { states = exited ∷ ready ∷ ready ∷ replicate 13 unused },
              err nothing_to_run,
            )))
exit_current_refines_example = exit_current_refines pair pair-IsValid refl (omega arith)

exit_current-take_reapable_example :
    (t u : Scheduler) × (exit_current alone ≡ some (t, err nothing_to_run))
    × (take_reapable t ≡ some (u, some 0))
    × (t.current ≡ 0)
    × (u.current ≡ 0)
exit_current-take_reapable_example =
    exit_current-take_reapable alone alone-IsValid (omega arith) refl refl (λ j lt. elim lt [ ])

yields_of_reaches_example :
    (u : Scheduler) × (yields_of 2 pair ≡ some u) × (u.current ≡ 2) × IsValid u
yields_of_reaches_example =
    yields_of_reaches (1 ∷ []) pair 2 [] pair-IsValid (omega arith) refl (omega arith)
