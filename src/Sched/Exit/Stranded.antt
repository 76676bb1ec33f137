-- ===== src/Sched/Exit/Stranded.antt =====
-- crates/kernel-sched/src/lib.rs: what `exit_current` leaves behind when nothing can run, and the
-- reaper that comes after it.
use paranuk_os.Base.{
  ℕ, ◌<◌, ◌≡◌, ◌≢◌, refl, false, some, arith, err, length-set, get_or-set, position, position-eq,
  set,
}
use paranuk_os.Sched.Invariant.{state_at, IsValid, put_state}
use paranuk_os.Sched.{
  Scheduler, unused, exited, normal, nothing_to_run, no_thread, is_exited, exit_current,
  pick_after_stop, take_reapable,
}

-- When the last runnable thread exits and no idle thread is registered, `exit_current` fails and
-- leaves that thread current and exited. If no lower thread has exited, the next `take_reapable`
-- hands out the current thread for reclaiming.
pub exit_current-take_reapable :
    (s : Scheduler)
    → IsValid s
    → s.current ≢ no_thread
    → s.len ≡ 0
    → s.idle_id ≡ no_thread
    → ((j : ℕ) → j < s.current → is_exited (state_at s j) ≡ false)
    → (t u : Scheduler) × (exit_current s ≡ some (t, err nothing_to_run))
      × (take_reapable t ≡ some (u, some s.current))
      × (t.current ≡ s.current)
      × (u.current ≡ s.current)
unfolding exit_current pick_after_stop take_reapable
exit_current-take_reapable s v run none_ready absent lower = (
  put_state s s.current exited,
  reclaimed,
  ground (arith, v.states_len, in_range),
  reaps,
  refl,
  refl,
)
  where
    in_range : s.current < 16
    in_range = ground (arith, v.coherent.current_in)

    reclaimed : Scheduler
    reclaimed = record s {
      states = set (set s.states s.current exited) s.current unused;
      kinds = set s.kinds s.current normal;
    }

    found : position is_exited (set s.states s.current exited) ≡ some s.current
    found =
        position-eq is_exited (set s.states s.current exited) unused s.current
          (omega (arith, length-set s.states s.current exited, v.states_len))
          (ground
            (arith, get_or-set s.states s.current s.current exited unused, v.states_len, in_range))
          (λ j lt.
            ground (
              arith,
              get_or-set s.states s.current j exited unused,
              v.states_len,
              in_range,
              lower j,
            ))

    reaps : take_reapable (put_state s s.current exited) ≡ some (reclaimed, some s.current)
    reaps =
        ground
          (arith, found, v.states_len, v.kinds_len, in_range, length-set s.states s.current exited)
