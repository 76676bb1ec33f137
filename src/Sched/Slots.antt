-- ===== src/Sched/Slots.antt =====
-- crates/kernel-sched/src/lib.rs: the ring buffer behind the ready queue, `enqueue` and `dequeue`.
use paranuk_os.Base.{
  ℕ, zero, suc, ◌+◌, ◌-◌, ◌%◌, ◌≤◌, ◌<◌, ◌≡◌, ◌≢◌, refl, sym, ap, ◌∙◌, List, [], ◌∷◌, ◌++◌, some,
  arith, length, get_or, set, length-set, get_or-set, get_elem?-eq-get_or,
}
use paranuk_os.Sched.{Scheduler, max_threads, no_thread, slots, ready_queue, enqueue, dequeue}

-- The ring's representation invariant.
pub record IsRingOf (queue : List ℕ) (head len : ℕ) : Type 0 where
  pub queue_len : length queue ≡ max_threads
  pub head_in : head < max_threads
  pub len_in : len ≤ max_threads

abbrev pub IsRing : Scheduler → Type 0
IsRing s = IsRingOf s.queue s.head s.len

pub length-slots : (q : List ℕ) (h off n : ℕ) → length (slots q h off n) ≡ n
length-slots q h off zero = refl
length-slots q h off (suc n) = ap suc (length-slots q h (suc off) n)

-- A write that misses a window leaves it alone.
slots-set_outside :
    (q : List ℕ) (h off n p v : ℕ)
    → p < length q
    → ((k : ℕ) → off ≤ k → k < off + n → (h + k) % max_threads ≢ p)
    → slots (set q p v) h off n ≡ slots q h off n
slots-set_outside q h off zero p v lt miss = refl
slots-set_outside q h off (suc n) p v lt miss = ground (
  arith,
  get_or-set q p ((h + off) % max_threads) v no_thread lt,
  miss off (omega arith) (omega arith),
  slots-set_outside q h (suc off) n p v lt (λ k l u. miss k (omega arith) (omega arith)),
)

slots-snoc :
    (q : List ℕ) (h off n : ℕ)
    → slots q h off (suc n)
      ≡ slots q h off n ++ (get_or q ((h + (off + n)) % max_threads) no_thread ∷ [])
slots-snoc q h off zero = ap (λ k. get_or q ((h + k) % max_threads) no_thread ∷ []) (omega arith)
slots-snoc q h off (suc n) =
    ap (◌∷◌ (get_or q ((h + off) % max_threads) no_thread)) (slots-snoc q h (suc off) n)
    ∙ ap
        (λ k.
          get_or q ((h + off) % max_threads) no_thread
          ∷ (slots q h (suc off) n ++ (get_or q ((h + k) % max_threads) no_thread ∷ [])))
        (omega arith)

slots-shift :
    (q : List ℕ) (h off n : ℕ) → slots q ((h + 1) % max_threads) off n ≡ slots q h (suc off) n
slots-shift q h off zero = refl
slots-shift q h off (suc n) =
    ap (λ k. get_or q k no_thread ∷ slots q ((h + 1) % max_threads) (suc off) n) (omega arith)
    ∙ ap (◌∷◌ (get_or q ((h + suc off) % max_threads) no_thread)) (slots-shift q h (suc off) n)

-- Writing behind a window, or moving its start, which the code does to the ring.
slots-set_end :
    (q : List ℕ) (h n v : ℕ)
    → length q ≡ max_threads
    → n < max_threads
    → slots (set q ((h + n) % max_threads) v) h 0 (suc n) ≡ slots q h 0 n ++ (v ∷ [])
slots-set_end q h n v e lt = ground (
  arith,
  slots-snoc (set q ((h + n) % max_threads) v) h 0 n,
  slots-set_outside q h 0 n ((h + n) % max_threads) v (omega arith) (λ k l u. omega arith),
  get_or-set q ((h + n) % max_threads) ((h + n) % max_threads) v no_thread (omega arith),
  ap (λ k. k % max_threads) (zero-add-add h n),
)
  where
    zero-add-add : (h n : ℕ) → h + (0 + n) ≡ h + n
    zero-add-add h n = omega arith

slots-set_start :
    (q : List ℕ) (h n v : ℕ)
    → length q ≡ max_threads
    → h < max_threads
    → n < max_threads
    → slots q h 0 (suc n) ≡ get_or q h no_thread ∷ slots (set q h v) ((h + 1) % max_threads) 0 n
slots-set_start q h n v e hh lt =
    ap (λ k. get_or q k no_thread ∷ slots q h 1 n) (omega arith)
    ∙ ap (◌∷◌ (get_or q h no_thread)) (
        sym (
          slots-shift (set q h v) h 0 n
          ∙ slots-set_outside q h 1 n h v (omega arith) (λ k l u. omega arith)))

-- The state after `enqueue`, where it does not panic.
abbrev pub enqueued : Scheduler → ℕ → Scheduler
enqueued s id = record s {
  queue = set s.queue ((s.head + s.len) % max_threads) id;
  len = s.len + 1;
}

pub enqueue-enqueued :
    (s : Scheduler) (id : ℕ) → IsRing s → s.len < max_threads → enqueue s id ≡ some (enqueued s id)
unfolding enqueue
enqueue-enqueued s id r h = ground arith

pub enqueued-IsRing :
    (s : Scheduler) (id : ℕ) → IsRing s → s.len < max_threads → IsRing (enqueued s id)
enqueued-IsRing s id r h = ground (arith, length-set s.queue ((s.head + s.len) % max_threads) id)

-- `enqueue` appends to the queue that `ready_queue` lists.
pub ready_queue-enqueued :
    (s : Scheduler) (id : ℕ)
    → IsRing s
    → s.len < max_threads
    → ready_queue (enqueued s id) ≡ ready_queue s ++ (id ∷ [])
ready_queue-enqueued s id r h =
    ap (slots (enqueued s id).queue s.head 0) {y = suc s.len} (omega arith)
    ∙ slots-set_end s.queue s.head s.len id r.queue_len h

-- The state after `dequeue`, where it does not panic.
abbrev pub dequeued : Scheduler → Scheduler
dequeued s = record s {
  queue = set s.queue s.head no_thread;
  head = (s.head + 1) % max_threads;
  len = s.len - 1;
}

pub dequeue-dequeued :
    (s : Scheduler)
    → IsRing s
    → 0 < s.len
    → dequeue s ≡ some (dequeued s, get_or s.queue s.head no_thread)
unfolding dequeue
dequeue-dequeued s r h = ground (arith, get_elem?-eq-get_or s.queue s.head no_thread)

pub dequeued-IsRing : (s : Scheduler) → IsRing s → 0 < s.len → IsRing (dequeued s)
dequeued-IsRing s r h = ground (arith, length-set s.queue s.head no_thread)

-- `dequeue` takes the first item of the queue that `ready_queue` lists.
pub ready_queue-dequeued :
    (s : Scheduler)
    → IsRing s
    → 0 < s.len
    → ready_queue s ≡ get_or s.queue s.head no_thread ∷ ready_queue (dequeued s)
ready_queue-dequeued s r h =
    ap (slots s.queue s.head 0) {y = suc (s.len - 1)} (omega arith)
    ∙ slots-set_start s.queue s.head (s.len - 1) no_thread r.queue_len r.head_in (omega arith)
