-- ===== src/Pool/Timeout.antt =====
-- The deadline of `thread_task_timed_join` of 4/thread_pool.c.
--
-- `clock_gettime` and the arithmetic of `double` are parameters. The outcome `none` stands for what C
-- leaves undefined: a cast of a `double` that the integer type does not hold, and a sum that overflows.
use sysprog_exercises.Prelude.{
  ◌>>=◌, ℕ, ◌+◌, ◌-◌, ◌*◌, ◌<◌, ◌≤◌, ◌≡◌, ◌⊎◌, inl, inr, refl, true, false, Option, none, some,
  arith, if◌then◌else◌, leb, ltb, Bool-cases, Option-cases,
}

-- `timespec`
pub record Timespec : Type 0 where
  pub tv_sec : ℕ
  pub tv_nsec : ℕ

-- `modf`, with the fraction and the whole part; the product with `1e9`; and the casts of what is not
-- negative to `time_t` and to `long`, where they hold it.
pub record Doubles (D : Type 0) : Type 0 where
  pub modf : D → D × D
  pub times_1e9 : D → D
  pub to_time_t : D → Option ℕ
  pub to_long : D → Option ℕ

abbrev pub second : ℕ
second = 1000000000

-- The largest `time_t` and `long`
abbrev pub time_max : ℕ
time_max = 9223372036854775807

-- `+` on them
abbrev pub add : ℕ → ℕ → Option ℕ
add a b = if ltb time_max (a + b) then none else some (a + b)

-- The carry of the nanoseconds.
abbrev pub carry : ℕ → ℕ → Option Timespec
carry sec nsec =
    if leb second nsec
    then add sec 1 >>= (λ sec. some (record { tv_sec = sec; tv_nsec = nsec - second }))
    else some (record { tv_sec = sec; tv_nsec = nsec })

abbrev pub nanoseconds : Timespec → ℕ
nanoseconds ts = ts.tv_sec * 1000000000 + ts.tv_nsec

module _ {D : Type 0} (double : Doubles D) where
  open double use {modf, times_1e9, to_time_t, to_long}

  -- `(time_t) int_part` and `(long) frac_part`
  abbrev pub whole : D → Option ℕ
  whole timeout = to_time_t (modf timeout).1

  abbrev pub fraction : D → Option ℕ
  fraction timeout = to_long (times_1e9 (modf timeout).0)

  unfoldable pub init_timespec : Timespec → D → Option Timespec
  init_timespec now timeout = whole timeout >>= (λ s.
      add now.tv_sec s
      >>= (λ sec. fraction timeout >>= (λ n. add now.tv_nsec n >>= (λ nsec. carry sec nsec))))

  -- The deadline is the clock's time plus the timeout, with less than a second of nanoseconds.
  pub record IsDeadline (now : Timespec) (timeout : D) (t : Timespec) : Type 0 where
    pub seconds : ℕ
    pub nanos : ℕ
    pub whole_part : whole timeout ≡ some seconds
    pub fraction_part : fraction timeout ≡ some nanos
    pub total : nanoseconds t ≡ nanoseconds now + (seconds * 1000000000 + nanos)
    pub below : t.tv_nsec < second
    pub bounded : t.tv_sec ≤ time_max

  -- A part of the timeout has no integer, or the deadline is later than the last second of `time_t`.
  pub data Overflows (now : Timespec) (timeout : D) : Type 0 where
    no_whole : whole timeout ≡ none → Overflows now timeout
    no_fraction : fraction timeout ≡ none → Overflows now timeout
    too_late :
        (s n : ℕ)
        → whole timeout ≡ some s
        → fraction timeout ≡ some n
        → time_max * 1000000000 + 999999999 < nanoseconds now + (s * 1000000000 + n)
        → Overflows now timeout

  -- For a clock with less than a second of nanoseconds, and a product of the timeout's fraction with 1e9
  -- that is less than a second too: `init_timespec` makes a deadline that is the clock's time plus the
  -- timeout, with less than a second of nanoseconds, as `pthread_cond_timedwait` wants it; or it is
  -- undefined, and then a part of the timeout has no value in its integer type, or the sum is later than
  -- the last second of `time_t`.
  pub init_timespec-IsDeadline :
      (now : Timespec) (timeout : D)
      → now.tv_nsec < second
      → ((n : ℕ) → fraction timeout ≡ some n → n < second)
      → ((t : Timespec) × (init_timespec now timeout ≡ some t) × IsDeadline now timeout t)
        ⊎ (init_timespec now timeout ≡ none) × Overflows now timeout
  unfolding init_timespec
  init_timespec-IsDeadline now timeout clock below = elim (Option-cases (whole timeout)) [
    | inl e ↦ inr (rw e refl, no_whole e)
    | inr (s, e) ↦ elim (Option-cases (fraction timeout)) [
      | inl f ↦ inr (by_sum s e f (Bool-cases (ltb time_max (now.tv_sec + s))), no_fraction f)
      | inr (n, f) ↦ by_time s n e f (below n f)
    ]
  ]
    where
      by_time :
          (s n : ℕ)
          → whole timeout ≡ some s
          → fraction timeout ≡ some n
          → n < second
          → ((t : Timespec) × (init_timespec now timeout ≡ some t) × IsDeadline now timeout t)
            ⊎ (init_timespec now timeout ≡ none) × Overflows now timeout
      by_time s n e f lt = elim (Bool-cases (ltb time_max (now.tv_sec + s))) [
        | inl late ↦ inr (rw (e, late) refl, too_late s n e f (ground arith))
        | inr fits ↦
            let small : ltb time_max (now.tv_nsec + n) ≡ false = ground arith in
            elim (Bool-cases (leb second (now.tv_nsec + n))) [
              | inl carried ↦ elim (Bool-cases (ltb time_max (now.tv_sec + s + 1))) [
                | inl late ↦
                    inr
                      (rw (e, fits, f, small, carried, late) refl, too_late s n e f (ground arith))
                | inr in_time ↦ inl (
                  record { tv_sec = now.tv_sec + s + 1; tv_nsec = now.tv_nsec + n - second },
                  rw (e, fits, f, small, carried, in_time) refl,
                  record {
                    seconds = s;
                    nanos = n;
                    whole_part = e;
                    fraction_part = f;
                    total = ground arith;
                    below = ground arith;
                    bounded = ground arith;
                  },
                )
              ]
              | inr none_carried ↦ inl (
                record { tv_sec = now.tv_sec + s; tv_nsec = now.tv_nsec + n },
                rw (e, fits, f, small, none_carried) refl,
                record {
                  seconds = s;
                  nanos = n;
                  whole_part = e;
                  fraction_part = f;
                  total = ground arith;
                  below = ground arith;
                  bounded = ground arith;
                },
              )
            ]
      ]

      by_sum :
          (s : ℕ)
          → whole timeout ≡ some s
          → fraction timeout ≡ none
          → (ltb time_max (now.tv_sec + s) ≡ true) ⊎ (ltb time_max (now.tv_sec + s) ≡ false)
          → init_timespec now timeout ≡ none
      by_sum s e f (inl late) = rw (e, late) refl
      by_sum s e f (inr fits) = rw (e, fits, f) refl
