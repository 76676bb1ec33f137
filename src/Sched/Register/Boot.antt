-- ===== src/Sched/Register/Boot.antt =====
-- crates/kernel-sched/src/lib.rs: the registration of the boot context and of the idle thread.
use native.Mathlib.Decide.{dec_le, ℕ_discrete}
use paranuk_os.Base.{
  ℕ, ◌≤◌, ◌<◌, ◌≡◌, ◌≢◌, refl, sym, subst, ◌⊎◌, inl, inr, false, some, arith, ok, err, get_or-set,
  position, position-none, get_elem?-eq-get_or, Option-cases, Bool-cases,
}
use paranuk_os.Sched.Model.{Model-eq, IsCoherent, admit_idle, admit_boot}
use paranuk_os.Sched.Model.Preserve.{admit_idle-IsCoherent, admit_boot-IsCoherent}
use paranuk_os.Sched.Invariant.{state_at, view, IsValid, state_at-set, kind_at-set}
use paranuk_os.Sched.{
  Scheduler, unused, ready, running, idle, boot, no_free_slot, invalid_id, idle_already_registered,
  max_threads, no_thread, is_unused, register_boot, register_idle, register_idle_any,
}
use paranuk_os.Sched.Register.{IsFirst, position-IsFirst, put, put-IsValid}

abbrev booted : Scheduler → ℕ → Scheduler
booted s id = record (put s id running boot) { current = id }

register_boot-booted :
    (s : Scheduler) (id : ℕ)
    → IsValid s
    → id < max_threads
    → register_boot s id ≡ some (booted s id, ok tt)
unfolding register_boot
register_boot-booted s id v lt = ground (arith, v.states_len, v.kinds_len)

booted-view :
    (s : Scheduler) (id : ℕ)
    → IsValid s
    → id < max_threads
    → view (booted s id) ≡ admit_boot (view s) id
booted-view s id v lt =
    Model-eq (state_at-set s.states id running (omega (arith, v.states_len)))
      (kind_at-set s.kinds id boot (omega (arith, v.kinds_len))) refl refl refl refl refl

-- `register_boot`, with no current thread and on an unused slot: the thread runs at once without
-- entering the queue, and the scheduler stays valid. An id out of range is refused, and nothing
-- changes.
pub register_boot_refines :
    (s : Scheduler) (id : ℕ)
    → IsValid s
    → s.current ≡ no_thread
    → state_at s id ≡ unused
    → ((max_threads ≤ id) × (register_boot s id ≡ some (s, err (invalid_id id))))
      ⊎ ((t : Scheduler) × (register_boot s id ≡ some (t, ok tt))
          × (view t ≡ admit_boot (view s) id)
          × IsValid t)
register_boot_refines s id v alone free = elim (dec_le max_threads id) [
  | yes le ↦ inl (le, unfold register_boot in ground arith)
  | no gt ↦
      let lt : id < max_threads = omega arith in
      inr (
        booted s id,
        register_boot-booted s id v lt,
        booted-view s id v lt,
        put-IsValid s (booted s id) id running boot v refl refl v.ring (
            subst IsCoherent (sym (booted-view s id v lt))
              (admit_boot-IsCoherent (view s) v.coherent id lt free alone)),
      )
]

-- `register_boot` accepts a second boot thread: while one thread runs, registering another id in
-- range succeeds and leaves both threads running.
pub register_boot_again :
    (s : Scheduler) (id : ℕ)
    → IsValid s
    → s.current ≢ no_thread
    → id < max_threads
    → (t : Scheduler) × (register_boot s id ≡ some (t, ok tt))
      × (state_at t s.current ≡ running)
      × (state_at t id ≡ running)
register_boot_again s id v busy lt = (
  booted s id,
  register_boot-booted s id v lt,
  ground
      (arith, get_or-set s.states id s.current running unused, v.states_len, v.coherent.current_in),
  ground (arith, get_or-set s.states id id running unused, v.states_len),
)

abbrev idled : Scheduler → ℕ → Scheduler
idled s id = record (put s id ready idle) { idle_id = id }

register_idle-idled :
    (s : Scheduler) (id : ℕ)
    → IsValid s
    → id < max_threads
    → state_at s id ≡ unused
    → s.idle_id ≡ no_thread
    → register_idle s id ≡ some (idled s id, ok tt)
unfolding register_idle
register_idle-idled s id v lt free absent =
    ground (arith, v.states_len, v.kinds_len, get_elem?-eq-get_or s.states id unused)

idled-view :
    (s : Scheduler) (id : ℕ)
    → IsValid s
    → id < max_threads
    → view (idled s id) ≡ admit_idle (view s) id
idled-view s id v lt =
    Model-eq (state_at-set s.states id ready (omega (arith, v.states_len)))
      (kind_at-set s.kinds id idle (omega (arith, v.kinds_len))) refl refl refl refl refl

idled-IsValid :
    (s : Scheduler) (id : ℕ)
    → IsValid s
    → id < max_threads
    → state_at s id ≡ unused
    → s.idle_id ≡ no_thread
    → IsValid (idled s id)
idled-IsValid s id v lt free absent = put-IsValid s (idled s id) id ready idle v refl refl v.ring (
    subst IsCoherent (sym (idled-view s id v lt))
      (admit_idle-IsCoherent (view s) v.coherent id lt free absent))

-- `register_idle` on every branch. It fails and changes nothing when the id is out of range, an idle
-- thread is registered already or the slot is in use. Otherwise the slot becomes the idle thread,
-- ready but not queued, and the scheduler stays valid. On a valid scheduler it never panics.
pub register_idle_refines :
    (s : Scheduler) (id : ℕ)
    → IsValid s
    → ((max_threads ≤ id) × (register_idle s id ≡ some (s, err (invalid_id id))))
      ⊎ ((id < max_threads)
          × (s.idle_id ≢ no_thread)
          × (register_idle s id ≡ some (s, err idle_already_registered)))
      ⊎ ((id < max_threads)
          × (s.idle_id ≡ no_thread)
          × (is_unused (state_at s id) ≡ false)
          × (register_idle s id ≡ some (s, err (invalid_id id))))
      ⊎ ((t : Scheduler) × (id < max_threads)
          × (state_at s id ≡ unused)
          × (register_idle s id ≡ some (t, ok tt))
          × (view t ≡ admit_idle (view s) id)
          × IsValid t)
register_idle_refines s id v = elim (dec_le max_threads id) [
  | yes le ↦ inl (le, unfold register_idle in ground arith)
  | no gt ↦
      let lt : id < max_threads = omega arith in
      elim (ℕ_discrete s.idle_id no_thread) [
        | no ne ↦ inr (inl (lt, ne, unfold register_idle in ground arith))
        | yes eq ↦ elim (Bool-cases (is_unused (state_at s id))) [
          | inr used ↦ inr (
              inr (
                inl (
                  lt,
                  eq,
                  used,
                  unfold register_idle in
                      ground (arith, used, v.states_len, get_elem?-eq-get_or s.states id unused),
                )))
          | inl e ↦
              let free : state_at s id ≡ unused = ground (arith, e) in
              inr (
                inr (
                  inr (
                    idled s id,
                    lt,
                    free,
                    register_idle-idled s id v lt free eq,
                    idled-view s id v lt,
                    idled-IsValid s id v lt free eq,
                  )))
        ]
      ]
]

-- `register_idle_any` on every branch. It fails and changes nothing when no slot is unused or an
-- idle thread is registered already. Otherwise the lowest unused slot becomes the idle thread,
-- ready but not queued, and the scheduler stays valid. On a valid scheduler it never panics.
pub register_idle_any_refines :
    (s : Scheduler)
    → IsValid s
    → (((i : ℕ) → i < max_threads → is_unused (state_at s i) ≡ false)
        × (register_idle_any s ≡ some (s, err no_free_slot)))
      ⊎ ((s.idle_id ≢ no_thread) × (register_idle_any s ≡ some (s, err idle_already_registered)))
      ⊎ ((id : ℕ) × (t : Scheduler) × IsFirst is_unused s id
          × (register_idle_any s ≡ some (t, ok id))
          × (view t ≡ admit_idle (view s) id)
          × IsValid t)
unfolding register_idle_any
register_idle_any_refines s v = elim (Option-cases (position is_unused s.states)) [
  | inl e ↦ inl (
    λ i lt. position-none is_unused s.states unused i e (omega (arith, v.states_len)),
    rw (e, register_idle_any),
  )
  | inr (id, e) ↦
      let f = position-IsFirst is_unused s id v e in
      elim (ℕ_discrete s.idle_id no_thread) [
        | no ne ↦
            inr (inl (ne, rw (e, register_idle_any) (unfold register_idle in ground (arith, f.0))))
        | yes eq ↦
            let free : state_at s id ≡ unused = ground (arith, f.1) in
            inr (
              inr (
                id,
                idled s id,
                f,
                rw (e, register_idle_any) (rw (register_idle-idled s id v f.0 free eq)),
                idled-view s id v f.0,
                idled-IsValid s id v f.0 free eq,
              ))
      ]
]
