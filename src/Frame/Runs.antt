-- ===== src/Frame/Runs.antt =====
-- crates/kernel-memory/src/frame.rs: `find_free_run`.
use native.Mathlib.Decide.{dec_lt, ℕ_discrete}
use native.Mathlib.Nat.{add-zero}
use paranuk_os.Base.{
  ℕ, zero, suc, ◌+◌, ◌-◌, ◌≤◌, ◌<◌, ◌≡◌, ◌≢◌, ◌⊎◌, inl, inr, refl, ap, ◌∙◌, subst, Bool, true,
  false, ◌&&◌, Option, some, none, arith, ◌==◌, if◌then◌else◌, Bool-cases,
}
use paranuk_os.Frame.{FrameAllocator, scan, find_free_run}
use paranuk_os.Frame.Invariant.{unused, IsValid, is_free-unused}

-- The `n` frames from `i` on are free.
abbrev pub all_unused : (ℕ → Bool) → ℕ → ℕ → Bool
all_unused f i zero = true
all_unused f i (suc n) = f i && all_unused f (suc i) n

pub all_unused-at :
    (f : ℕ → Bool) (i n k : ℕ) → all_unused f i n ≡ true → i ≤ k → k < i + n → f k ≡ true
all_unused-at f i zero k h le lt = absurd (omega arith)
all_unused-at f i (suc n) k h le lt = elim (ℕ_discrete i k) [
  | yes e ↦ ground (arith, ap f e)
  | no ne ↦ all_unused-at f (suc i) n k (ground arith) (omega arith) (omega arith)
]

pub all_unused-false :
    (f : ℕ → Bool) (i n k : ℕ) → f k ≡ false → i ≤ k → k < i + n → all_unused f i n ≡ false
all_unused-false f i n k h le lt = elim (Bool-cases (all_unused f i n)) [
  | inl e ↦ absurd (ground (arith, all_unused-at f i n k e le lt))
  | inr e ↦ e
]

pub all_unused-ext :
    (f g : ℕ → Bool) (i n : ℕ) → ((j : ℕ) → i ≤ j → f j ≡ g j) → all_unused f i n ≡ all_unused g i n
all_unused-ext f g i zero h = refl
all_unused-ext f g i (suc n) h =
    ground (arith, h i (omega arith), all_unused-ext f g (suc i) n (λ j le. h j (omega arith)))

all_unused-snoc :
    (f : ℕ → Bool) (i n : ℕ)
    → all_unused f i n ≡ true
    → f (i + n) ≡ true
    → all_unused f i (suc n) ≡ true
all_unused-snoc f i zero h k = ground (arith, ap f (add-zero i))
all_unused-snoc f i (suc n) h k =
    ground (arith, all_unused-snoc f (suc i) n, ap f (add-suc_comm i n))
  where
    add-suc_comm : (i n : ℕ) → i + suc n ≡ suc i + n
    add-suc_comm i n = omega arith

-- The first run of `count` free frames, or that there is none.
abbrev pub IsFirstRun : FrameAllocator → ℕ → Option ℕ → Type 0
IsFirstRun a count none = (r : ℕ) → r + count ≤ a.frames → all_unused (unused a) r count ≡ false
IsFirstRun a count (some s) =
    (s + count ≤ a.frames)
    × (all_unused (unused a) s count ≡ true)
    × ((r : ℕ) → r < s → all_unused (unused a) r count ≡ false)

-- What the loop knows before it looks at `index`: the last `run` frames, from `p` on, are free, the
-- frame before them is not, and no run ends at or before `index`.
record Scanned (a : FrameAllocator) (count index run_start run p : ℕ) : Type 0 where
  short : run < count
  place : p + run ≡ index
  start_at : run ≢ 0 → run_start ≡ p
  run_unused : all_unused (unused a) p run ≡ true
  maximal : (p ≡ 0) ⊎ (unused a (p - 1) ≡ false)
  no_run : (r : ℕ) → r + count ≤ index → all_unused (unused a) r count ≡ false

module _ (a : FrameAllocator) (v : IsValid a) (count : ℕ) where
  -- No run ends just behind a run that is too short.
  no_run_next :
      {index run_start run p : ℕ}
      → Scanned a count index run_start run p
      → (r : ℕ) → suc run < count
      → r + count ≤ suc index
      → all_unused (unused a) r count ≡ false
  no_run_next {index} {run_start} {run} {p} s r lt le = elim s.maximal [
    | inl e ↦ s.no_run r (omega (arith, s.place))
    | inr e ↦ elim (dec_lt index (r + count)) [
      | no ge ↦ s.no_run r (omega arith)
      | yes here ↦
          all_unused-false (unused a) r count (p - 1) e (omega (arith, s.place))
            (omega (arith, s.place))
    ]
  ]

  step_taken :
      {index run_start run p : ℕ}
      → Scanned a count index run_start run p
      → unused a index ≡ false
      → Scanned a count (suc index) run_start 0 (suc index)
  step_taken {index} s e = record {
    short = omega (arith, s.short);
    place = omega arith;
    start_at = λ ne. absurd (ne refl);
    run_unused = refl;
    maximal = inr (ground (arith, e));
    no_run = λ r le. elim (dec_lt index (r + count)) [
      | no ge ↦ s.no_run r (omega arith)
      | yes here ↦
          all_unused-false (unused a) r count index e (omega (arith, s.short)) (omega arith)
    ];
  }

  step_unused :
      {index run_start run p : ℕ}
      → Scanned a count index run_start run p
      → unused a index ≡ true
      → suc run < count
      → Scanned a count (suc index) (if run == 0 then index else run_start) (suc run) p
  step_unused {index} {run_start} {run} {p} s e lt = record {
    short = lt;
    place = omega (arith, s.place);
    start_at = λ ne. ground (arith, s.place, s.start_at);
    run_unused = all_unused-snoc (unused a) p run s.run_unused (ap (unused a) s.place ∙ e);
    maximal = s.maximal;
    no_run = λ r le. no_run_next s r lt le;
  }

  scan-IsFirstRun :
      (rounds index run_start run p : ℕ)
      → index + rounds ≡ a.frames
      → Scanned a count index run_start run p
      → (out : Option ℕ) × (scan a count rounds index run_start run ≡ some out)
        × IsFirstRun a count out
  unfolding scan
  scan-IsFirstRun zero index run_start run p e s = (none, refl, λ r le. s.no_run r (omega arith))
  scan-IsFirstRun (suc rounds) index run_start run p e s =
      let f = is_free-unused a index v (omega arith) in
      elim (Bool-cases (unused a index)) [
        | inr t ↦
            let (out, g, first) =
              scan-IsFirstRun rounds (suc index) run_start 0 (suc index) (omega arith)
                (step_taken s t) in
            (out, ground (arith, f, t, g), first)
        | inl t ↦ elim (ℕ_discrete (suc run) count) [
          | yes done ↦ (
            some p,
            ground (arith, f, t, s.place, s.start_at),
            (
              omega (arith, s.place),
              subst (λ n. all_unused (unused a) p n ≡ true) done
                  (all_unused-snoc (unused a) p run s.run_unused (ap (unused a) s.place ∙ t)),
              λ r lt. s.no_run r (omega (arith, s.place)),
            ),
          )
          | no more ↦
              let (out, g, first) =
                scan-IsFirstRun rounds (suc index) (if run == 0 then index else run_start) (suc run)
                  p (omega arith) (step_unused s t (omega (arith, s.short))) in
              (out, ground (arith, f, t, g), first)
        ]
      ]

-- `find_free_run` never panics on a valid allocator, and finds the lowest run of free frames of the
-- given length, if there is one.
pub find_free_run-IsFirstRun :
    (a : FrameAllocator) (count : ℕ)
    → IsValid a
    → 0 < count
    → (out : Option ℕ) × (find_free_run a count ≡ some out) × IsFirstRun a count out
unfolding find_free_run
find_free_run-IsFirstRun a count v pos = elim (dec_lt a.frames count) [
  | yes big ↦ (none, ground arith, λ r le. absurd (omega arith))
  | no fits ↦
      let (out, e, first) = scan-IsFirstRun a v count a.frames 0 0 0 0 (omega arith) (record {
        short = pos;
        place = omega arith;
        start_at = λ ne. refl;
        run_unused = refl;
        maximal = inl refl;
        no_run = λ r le. absurd (omega arith);
      }) in
      (out, ground (arith, e), first)
]
