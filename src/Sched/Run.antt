-- ===== src/Sched/Run.antt =====
-- crates/kernel-sched/src/lib.rs: histories of calls, as the kernel makes them from
-- crates/kernel/src/sched.rs, each inside a critical section or an interrupt handler.
use paranuk_os.Base.{
  ℕ, zero, suc, ◌+◌, ◌<◌, ◌≡◌, ◌≢◌, refl, subst, ap, ◌∙◌, ◌⊎◌, inl, inr, Bool, false, List, [], ◌∷◌,
  ◌++◌, append_assoc, Option, some, arith, Result, ok, length, get_or-replicate, word, ◌>>=◌, ◌==◌,
}
use paranuk_os.Sched.Counts.{count}
use paranuk_os.Sched.Model.{Model, requeued}
use paranuk_os.Sched.Model
use paranuk_os.Sched.Invariant.{kind_at, view, IsValid, new-IsValid}
use paranuk_os.Sched.Register.{create_refines, take_reapable_refines}
use paranuk_os.Sched.Register.Boot.{
  register_boot_refines, register_idle_refines, register_idle_any_refines,
}
use paranuk_os.Sched.Rotate.{rotate_refines, on_tick_refines}
use paranuk_os.Sched.Exit.{exit_current_refines}
use paranuk_os.Sched.{
  Scheduler, unused, Decision, SchedError, max_threads, no_thread, is_idle, ready_queue, new,
  create, take_reapable, register_boot, register_idle, register_idle_any, rotate, on_tick,
  yield_current, exit_current,
}

-- One call that returns, of the operations that change a scheduler after the registration of the boot
-- context. `exit_current` is called by a thread that is not the idle thread, while a thread is queued or
-- an idle thread is registered; the counters that a call adds to can still grow.
pub data Step (s : Scheduler) : Scheduler → Type 0 where
  creates : {t : Scheduler} {r : Result SchedError ℕ} → create s ≡ some (t, r) → Step s t
  reaps : {t : Scheduler} {r : Option ℕ} → take_reapable s ≡ some (t, r) → Step s t
  idles : {t : Scheduler} {r : Result SchedError ℕ} → register_idle_any s ≡ some (t, r) → Step s t
  names_idle :
      {t : Scheduler} {r : Result SchedError (Unit {0})} (id : ℕ)
      → register_idle s id ≡ some (t, r)
      → Step s t
  ticks :
      {t : Scheduler} {d : Decision} (reschedule : Bool)
      → s.ticks + 1 < word
      → s.switches + 1 < word
      → on_tick s reschedule ≡ some (t, d)
      → Step s t
  yields :
      {t : Scheduler} {d : Decision}
      → s.switches + 1 < word
      → yield_current s ≡ some (t, d)
      → Step s t
  exits :
      {t : Scheduler} {r : Result SchedError Decision}
      → is_idle (kind_at s s.current) ≡ false
      → (s.len ≢ 0) ⊎ (s.idle_id ≢ no_thread)
      → s.switches + 1 < word
      → exit_current s ≡ some (t, r)
      → Step s t

-- The histories of such calls from one registration of the boot context on, in a new scheduler.
pub data Reach : Scheduler → Type 0 where
  boots : {t : Scheduler} (id : ℕ) → register_boot new id ≡ some (t, ok tt) → Reach t
  next : {s t : Scheduler} → Reach s → Step s t → Reach t

Step-IsValid : {s t : Scheduler} → Step s t → IsValid s → IsValid t
unfolding yield_current
Step-IsValid {s} (creates e) v = elim (create_refines s v) [
  | inl (_, f) ↦ subst IsValid (ground arith) v
  | inr (id, t, _, f, _, w) ↦ subst IsValid (ground arith) w
]
Step-IsValid {s} (reaps e) v = elim (take_reapable_refines s v) [
  | inl (_, f) ↦ subst IsValid (ground arith) v
  | inr (id, t, _, f, _, w) ↦ subst IsValid (ground arith) w
]
Step-IsValid {s} (idles e) v = elim (register_idle_any_refines s v) [
  | inl (_, f) ↦ subst IsValid (ground arith) v
  | inr (inl (_, f)) ↦ subst IsValid (ground arith) v
  | inr (inr (id, t, _, f, _, w)) ↦ subst IsValid (ground arith) w
]
Step-IsValid {s} (names_idle id e) v = elim (register_idle_refines s id v) [
  | inl (_, f) ↦ subst IsValid (ground arith) v
  | inr (inl (_, _, f)) ↦ subst IsValid (ground arith) v
  | inr (inr (inl (_, _, _, f))) ↦ subst IsValid (ground arith) v
  | inr (inr (inr (t, _, _, f, _, w))) ↦ subst IsValid (ground arith) w
]
Step-IsValid {s} (ticks b h k e) v =
    let (t, d, f, _, w) = on_tick_refines s b v h k in subst IsValid (ground arith) w
Step-IsValid {s} (yields k e) v =
    let (t, d, f, _, w) = rotate_refines s v k in subst IsValid (ground arith) w
Step-IsValid {s} (exits busy runnable k e) v = elim (exit_current_refines s v busy k) [
  | inl (_, f) ↦ subst IsValid (ground arith) v
  | inr (inl (t, d, f, _, w)) ↦ subst IsValid (ground arith) w
  | inr (inr (none_ready, absent, f)) ↦ absurd (ground arith)
]

-- A new scheduler is valid after one call of `register_boot` that succeeds and any number of calls
-- of `create`, `take_reapable`, `register_idle`, `register_idle_any`, `on_tick`, `yield_current` and
-- `exit_current` that return, in any order, provided that `exit_current` is called only while the
-- current thread is not the idle thread and a thread is queued or an idle thread is registered, and
-- that `ticks` and `switches` can still grow by one where a call may add to them. Valid is: the ready
-- queue holds exactly the ready threads other than the idle thread, each once, at most one thread
-- runs, and it is the current one. A second `register_boot` is not among the calls.
pub Reach-IsValid : {s : Scheduler} → Reach s → IsValid s
unfolding new
Reach-IsValid (boots {t} id e) =
    elim (register_boot_refines new id new-IsValid refl (get_or-replicate max_threads id unused)) [
      | inl (_, f) ↦ absurd (cc)
      | inr (u, f, _, w) ↦ subst IsValid (ground arith) w
    ]
Reach-IsValid (next r st) = Step-IsValid st (Reach-IsValid r)

-- `n` yields in a row.
pub yields_of : ℕ → Scheduler → Option Scheduler
yields_of zero s = some s
yields_of (suc n) s = do (t, d) ← yield_current s; yields_of n t

-- One turn of the round robin, with a thread ready.
rotate-cons :
    (s : Scheduler) (x : ℕ) (rest : List ℕ)
    → IsValid s
    → s.current ≢ no_thread
    → ready_queue s ≡ x ∷ rest
    → s.switches + 1 < word
    → (u : Scheduler) × (d : Decision) × (rotate s ≡ some (u, d))
      × (u.current ≡ x)
      × (x < max_threads)
      × (ready_queue u ≡ rest ++ requeued (view s))
      × (u.switches ≡ s.switches + 1)
      × IsValid u
rotate-cons s x rest v run q h =
    let (u, d, e, f, w) = rotate_refines s v h in
    let turn : Model.rotate (view s) ≡ Model.turn (view s) (x ∷ rest) =
      rotates ∙ ap (Model.turn (view s)) q in
    let g : (view u, d) ≡ Model.turn (view s) (x ∷ rest) = f ∙ turn in
    (
      u,
      d,
      e,
      ap (λ (p : Model × Decision). p.0.current) g,
      ground (arith, ap (count x) q, v.coherent.queued x, v.coherent.in_range x),
      ap (λ (p : Model × Decision). p.0.queue) g,
      ap (λ (p : Model × Decision). p.0.switches) g,
      w,
    )
  where
    rotates : Model.rotate (view s) ≡ Model.turn (view s) (ready_queue s)
    rotates = let e : (s.current == no_thread) ≡ false = ground arith in rw e

-- Round robin is fair: a thread with `length xs` threads before it in the ready queue runs after
-- `length xs + 1` yields.
pub yields_of_reaches :
    (xs : List ℕ) (s : Scheduler) (t : ℕ) (ys : List ℕ)
    → IsValid s
    → s.current ≢ no_thread
    → ready_queue s ≡ xs ++ (t ∷ ys)
    → s.switches + suc (length xs) < word
    → (u : Scheduler) × (yields_of (suc (length xs)) s ≡ some u) × (u.current ≡ t) × IsValid u
unfolding yields_of yield_current
yields_of_reaches [] s t ys v run q h =
    let (u, d, e, c, _, _, _, w) = rotate-cons s t ys v run q h in (u, rw e refl, c, w)
yields_of_reaches (x ∷ xs) s t ys v run q h =
    let (u, d, e, c, lt, r, k, w) = rotate-cons s x (xs ++ (t ∷ ys)) v run q (omega arith) in
    let (z, g, last, valid) =
      yields_of_reaches xs u t (ys ++ requeued (view s)) w (omega arith)
        (r ∙ append_assoc xs (t ∷ ys) (requeued (view s))) (omega arith) in
    (z, rw e g, last, valid)
