-- ===== src/Sched/Model/Preserve.antt =====
-- Every operation of the abstract scheduler keeps it coherent.
use paranuk_os.Base.{ℕ, ◌<◌, ◌≡◌, ap, false, List, [], ◌∷◌, ok, arith}
use paranuk_os.Sched.Counts.{count, count-append}
use paranuk_os.Sched.{unused, exited, Decision, max_threads, no_thread, is_idle}
use paranuk_os.Sched.Model.{
  Model, update, requeued, turn, leave, admit, admit_idle, admit_boot, reap, IsCoherent,
}

module _ (m : Model) (c : IsCoherent m) where
  pub admit-IsCoherent : (id : ℕ) → id < max_threads → m.state id ≡ unused → IsCoherent (admit m id)
  admit-IsCoherent id lt e = record {
    queued = λ i. ground (arith, c.queued i, count-append i m.queue (id ∷ []));
    in_range = λ i le. ground (arith, c.in_range i);
    running_only = λ i r. ground (arith, c.running_only i);
    current_in = ground (arith, c.current_in);
    idle_in = ground (arith, c.idle_in);
    idle_only = λ i r. ground (arith, c.idle_only i);
  }

  pub admit_idle-IsCoherent :
      (id : ℕ)
      → id < max_threads
      → m.state id ≡ unused
      → m.idle_id ≡ no_thread
      → IsCoherent (admit_idle m id)
  admit_idle-IsCoherent id lt e none = record {
    queued = λ i. ground (arith, c.queued i);
    in_range = λ i le. ground (arith, c.in_range i);
    running_only = λ i r. ground (arith, c.running_only i);
    current_in = ground (arith, c.current_in);
    idle_in = ground arith;
    idle_only = λ i r. ground (arith, c.idle_only i);
  }

  pub admit_boot-IsCoherent :
      (id : ℕ)
      → id < max_threads
      → m.state id ≡ unused
      → m.current ≡ no_thread
      → IsCoherent (admit_boot m id)
  admit_boot-IsCoherent id lt e none = record {
    queued = λ i. ground (arith, c.queued i);
    in_range = λ i le. ground (arith, c.in_range i);
    running_only = λ i r. ground (arith, c.running_only i, c.in_range i);
    current_in = ground arith;
    idle_in = ground (arith, c.idle_in);
    idle_only = λ i r. ground (arith, c.idle_only i);
  }

  pub reap-IsCoherent : (id : ℕ) → id < max_threads → m.state id ≡ exited → IsCoherent (reap m id)
  reap-IsCoherent id lt e = record {
    queued = λ i. ground (arith, c.queued i);
    in_range = λ i le. ground (arith, c.in_range i);
    running_only = λ i r. ground (arith, c.running_only i);
    current_in = ground (arith, c.current_in);
    idle_in = ground (arith, c.idle_in);
    idle_only = λ i r. ground (arith, c.idle_only i);
  }

  pub turn-IsCoherent :
      (q : List ℕ) → m.current < max_threads → m.queue ≡ q → IsCoherent (turn m q).0
  turn-IsCoherent [] lt e = c
  turn-IsCoherent (to ∷ rest) lt e = record {
    queued = λ i. ground (
      arith,
      c.queued i,
      c.queued to,
      c.queued m.current,
      c.current_in,
      ap (count i) e,
      ap (count to) e,
      ap (count m.current) e,
      count-append i rest (requeued m),
    );
    in_range = λ i le. ground (arith, c.in_range i, c.in_range to, c.queued to, ap (count to) e);
    running_only = λ i r. ground (arith, c.running_only i);
    current_in = ground (arith, c.in_range to, c.queued to, ap (count to) e);
    idle_in = ground (arith, c.idle_in);
    idle_only = λ i r. ground (arith, c.idle_only i);
  }

  pub leave-IsCoherent :
      (q : List ℕ) {d : Decision}
      → m.current < max_threads
      → is_idle (m.kind m.current) ≡ false
      → m.queue ≡ q
      → let s = record m { state = update m.state m.current exited } in
        (leave s q).1 ≡ ok d → IsCoherent (leave s q).0
  leave-IsCoherent [] lt e eq done = record {
    queued = λ i. ground (arith, c.queued i, ap (count i) eq, c.current_in, c.idle_in);
    in_range = λ i le. ground (arith, c.in_range i, c.idle_in);
    running_only = λ i r. ground (arith, c.running_only i);
    current_in = ground (arith, c.idle_in);
    idle_in = ground (arith, c.idle_in);
    idle_only = λ i r. ground (arith, c.idle_only i);
  }
  leave-IsCoherent (to ∷ rest) lt e eq done = record {
    queued = λ i.
        ground (arith, c.queued i, c.queued to, c.current_in, ap (count i) eq, ap (count to) eq);
    in_range = λ i le. ground (arith, c.in_range i, c.in_range to, c.queued to, ap (count to) eq);
    running_only = λ i r. ground (arith, c.running_only i);
    current_in = ground (arith, c.in_range to, c.queued to, ap (count to) eq);
    idle_in = ground (arith, c.idle_in);
    idle_only = λ i r. ground (arith, c.idle_only i);
  }
