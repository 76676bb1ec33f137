-- ===== src/Sched/Register.antt =====
-- crates/kernel-sched/src/lib.rs: the operations that take or give back a slot of the thread table.
pub mod Boot
use native.Mathlib.Decide.{dec_le, ℕ_discrete}
use paranuk_os.Base.{
  ℕ, suc, ◌+◌, ◌-◌, ◌%◌, ◌≤◌, ◌<◌, ◌≡◌, ◌≢◌, refl, sym, subst, ap, ◌∙◌, ◌⊎◌, inl, inr, Bool, true,
  false, List, [], ◌∷◌, ◌++◌, Option, some, none, arith, Result, ok, err, length, get_or, set, set?,
  length-set, get_or-set, position, position-some, position-none, position-first,
  get_elem?-eq-get_or, Option-cases, ltb, ◌==◌, if◌then◌else◌,
}
use paranuk_os.Sched.Slots.{
  IsRing, enqueued, dequeued, length-slots, enqueue-enqueued, enqueued-IsRing, ready_queue-enqueued,
}
use paranuk_os.Sched.Counts.{count, length-lt_of_absent}
use paranuk_os.Sched.Model.{
  Model-eq, Model, update, IsCoherent, admit, admit_idle, admit_boot, reap,
}
use paranuk_os.Sched.Model.Preserve.{
  admit-IsCoherent, admit_idle-IsCoherent, admit_boot-IsCoherent, reap-IsCoherent,
}
use paranuk_os.Sched.Invariant.{
  state_at, kind_at, view, IsValid, put_state, put_kind, set_state-put_state, set_kind-put_kind,
  state_at-set, kind_at-set, len-lt_of_absent,
}
use paranuk_os.Sched.{
  Scheduler, ThreadState, unused, ready, running, exited, ThreadKind, normal, idle, boot,
  SchedError, no_free_slot, invalid_id, idle_already_registered, max_threads, no_thread, is_unused,
  is_exited, ready_queue, set_state, set_kind, create, register_boot, register_idle,
  register_idle_any, take_reapable,
}

-- The lowest slot whose state passes a test.
abbrev pub IsFirst : (ThreadState → Bool) → Scheduler → ℕ → Type 0
IsFirst p s id =
    (id < max_threads) × (p (state_at s id) ≡ true) × ((j : ℕ) → j < id → p (state_at s j) ≡ false)

pub position-IsFirst :
    (p : ThreadState → Bool) (s : Scheduler) (id : ℕ)
    → IsValid s
    → position p s.states ≡ some id
    → IsFirst p s id
position-IsFirst p s id v e = (
  omega (arith, v.states_len, (position-some p s.states unused id e).0),
  (position-some p s.states unused id e).1,
  λ j lt. position-first p s.states unused id j e lt,
)

-- The state after `states[id] = x; kinds[id] = k`.
abbrev pub put : Scheduler → ℕ → ThreadState → ThreadKind → Scheduler
put s id x k = put_kind (put_state s id x) id k

pub put-IsValid :
    (s t : Scheduler) (id : ℕ) (x : ThreadState) (k : ThreadKind)
    → IsValid s
    → t.states ≡ set s.states id x
    → t.kinds ≡ set s.kinds id k
    → IsRing t
    → IsCoherent (view t)
    → IsValid t
put-IsValid s t id x k v e f r c = record {
  ring = r;
  states_len = rw e (length-set s.states id x ∙ v.states_len);
  kinds_len = rw f (length-set s.kinds id k ∙ v.kinds_len);
  coherent = c;
}

abbrev created : Scheduler → ℕ → Scheduler
created s id = enqueued (put s id ready normal) id

module _ (s : Scheduler) (id : ℕ) (v : IsValid s) (lt : id < max_threads)
    (e : is_unused (state_at s id) ≡ true) where
  was_unused : state_at s id ≡ unused
  was_unused = ground arith

  room : s.len < max_threads
  room = len-lt_of_absent s id v lt (ground (arith, v.coherent.queued id))

  created-view : view (created s id) ≡ admit (view s) id
  created-view =
      Model-eq (state_at-set s.states id ready (omega (arith, v.states_len)))
        (kind_at-set s.kinds id normal (omega (arith, v.kinds_len)))
        (ready_queue-enqueued (put s id ready normal) id v.ring room) refl refl refl refl

  created-IsValid : IsValid (created s id)
  created-IsValid =
      put-IsValid s (created s id) id ready normal v refl refl
        (enqueued-IsRing (put s id ready normal) id v.ring room)
        (subst IsCoherent (sym created-view)
          (admit-IsCoherent (view s) v.coherent id lt was_unused))

  create-created : position is_unused s.states ≡ some id → create s ≡ some (created s id, ok id)
  unfolding create
  create-created p =
      ground
        (arith, v.states_len, v.kinds_len, enqueue-enqueued (put s id ready normal) id v.ring room)

-- `create` on every branch. When no slot is unused it fails and changes nothing. Otherwise it takes
-- the lowest unused slot, makes it a ready thread of kind `Normal` at the end of the ready queue,
-- changes no other thread, and keeps the scheduler valid. On a valid scheduler it never panics.
pub create_refines :
    (s : Scheduler)
    → IsValid s
    → (((i : ℕ) → i < max_threads → is_unused (state_at s i) ≡ false)
        × (create s ≡ some (s, err no_free_slot)))
      ⊎ ((id : ℕ) × (t : Scheduler) × IsFirst is_unused s id
          × (create s ≡ some (t, ok id))
          × (view t ≡ admit (view s) id)
          × IsValid t)
unfolding create
create_refines s v = elim (Option-cases (position is_unused s.states)) [
  | inl e ↦ inl (
    λ i lt. position-none is_unused s.states unused i e (omega (arith, v.states_len)),
    rw (e, create),
  )
  | inr (id, e) ↦
      let f = position-IsFirst is_unused s id v e in
      inr (
        id,
        created s id,
        f,
        create-created s id v f.0 f.1 e,
        created-view s id v f.0 f.1,
        created-IsValid s id v f.0 f.1,
      )
]

abbrev reaped : Scheduler → ℕ → Scheduler
reaped s id = put s id unused normal

-- `take_reapable` on every branch. When no thread has exited it returns `None` and changes nothing.
-- Otherwise it returns the lowest exited thread, frees its slot, changes nothing else, and keeps
-- the scheduler valid. On a valid scheduler it never panics.
pub take_reapable_refines :
    (s : Scheduler)
    → IsValid s
    → (((i : ℕ) → i < max_threads → is_exited (state_at s i) ≡ false)
        × (take_reapable s ≡ some (s, none)))
      ⊎ ((id : ℕ) × (t : Scheduler) × IsFirst is_exited s id
          × (take_reapable s ≡ some (t, some id))
          × (view t ≡ reap (view s) id)
          × IsValid t)
unfolding take_reapable
take_reapable_refines s v = elim (Option-cases (position is_exited s.states)) [
  | inl e ↦ inl (
    λ i lt. position-none is_exited s.states unused i e (omega (arith, v.states_len)),
    rw (e, take_reapable),
  )
  | inr (id, e) ↦
      let f = position-IsFirst is_exited s id v e in
      let same : view (reaped s id) ≡ reap (view s) id =
        Model-eq (state_at-set s.states id unused (omega (arith, v.states_len, f.0)))
          (kind_at-set s.kinds id normal (omega (arith, v.kinds_len, f.0))) refl refl refl refl
          refl in
      inr (
        id,
        reaped s id,
        f,
        ground (arith, v.states_len, v.kinds_len, f.0),
        same,
        put-IsValid s (reaped s id) id unused normal v refl refl v.ring (
            subst IsCoherent (sym same)
              (reap-IsCoherent (view s) v.coherent id f.0 (ground (arith, f.1)))),
      )
]
