-- ===== src/Fsk/Clock.antt =====
-- `RunBitClock` of JNI/Common/FSKdsp.c, and the times between its bits.
use native.Mathlib.Nat.{zero-add, suc-add}
use piwxrx.Prelude.{
  ℕ, zero, suc, ◌+◌, ◌-◌, ◌*◌, ◌/◌, ◌≡◌, refl, ◌∙◌, ap, Bool, true, false, List, [], ◌∷◌, ◌++◌,
  ◌==◌, if◌then◌else◌, replicate, arith,
}
use piwxrx.Demod.{bit_divisor}

abbrev pub swallow_init : ℕ
swallow_init = 23

-- The globals `divisor` and `swallow_ctr`.
pub record Clock : Type 0 where
  pub divisor : ℕ
  pub swallow_ctr : ℕ

unfoldable pub run_bit_clock : Bool → Clock → Bool × Clock
run_bit_clock true c = (false, record { divisor = 1 * bit_divisor / 2; swallow_ctr = swallow_init })
run_bit_clock false c =
    if c.divisor == 0
    then (if c.swallow_ctr == 0
        then (true, record { divisor = bit_divisor - 1; swallow_ctr = swallow_init })
        else (true, record { divisor = bit_divisor; swallow_ctr = c.swallow_ctr - 1 }))
    else (false, record c { divisor = c.divisor - 1 })

-- The bit times of `n` samples with no edge, and the clock after them.
unfoldable pub free_run : ℕ → Clock → List Bool × Clock
free_run zero c = ([], c)
free_run (suc n) c =
    let (tick, c') = run_bit_clock false c in
    let (ticks, c'') = free_run n c' in (tick ∷ ticks, c'')

pub tick_down :
    (d s : ℕ)
    → run_bit_clock false (record { divisor = suc d; swallow_ctr = s })
      ≡ (false, record { divisor = d; swallow_ctr = s })
unfolding run_bit_clock
tick_down d s = ground arith

pub tick_long :
    (s : ℕ)
    → run_bit_clock false (record { divisor = 0; swallow_ctr = suc s })
      ≡ (true, record { divisor = 23; swallow_ctr = s })
unfolding run_bit_clock
tick_long s = ground arith

pub tick_short :
    run_bit_clock false (record { divisor = 0; swallow_ctr = 0 })
    ≡ (true, record { divisor = 22; swallow_ctr = 23 })
unfolding run_bit_clock
tick_short = refl

-- Counting down to a bit time.
count_down :
    (d s : ℕ)
    → free_run d (record { divisor = d; swallow_ctr = s })
      ≡ (replicate d false, record { divisor = 0; swallow_ctr = s })
unfolding free_run
count_down zero s = refl
count_down (suc d) s = rw (tick_down d s) (ap (λ r. (false ∷ r.0, r.1)) (count_down d s))

-- After an edge the next bit time is at the twelfth sample, in the middle of a bit of 23.
pub first_bit_time :
    (c : Clock)
    → free_run 12 (run_bit_clock true c).1
      ≡ (replicate 11 false ++ (true ∷ []), record { divisor = 23; swallow_ctr = 22 })
unfolding free_run run_bit_clock
first_bit_time c = refl

-- From one bit time to the sample before the next there are 24 samples, or 23 where the swallow
-- counter is 0; the counter goes down by 1, from 0 to 23. An edge restarts this.
pub bit_period :
    (s : ℕ)
    → free_run (if s == 0 then 23 else 24) (record { divisor = 0; swallow_ctr = s }) ≡ (
      true ∷ replicate (if s == 0 then 22 else 23) false,
      record { divisor = 0; swallow_ctr = if s == 0 then 23 else s - 1 },
    )
unfolding free_run
bit_period zero = rw tick_short (ap (λ r. (true ∷ r.0, r.1)) (count_down 22 23))
bit_period (suc s) =
    let p : (suc s == 0) ≡ false = ground arith in
    let q : suc s - 1 ≡ s = omega arith in
    rw (p, q, tick_long s) (ap (λ r. (true ∷ r.0, r.1)) (count_down 23 s))

free_run-add :
    (m n : ℕ) (c : Clock)
    → free_run (m + n) c
      ≡ ((free_run m c).0 ++ (free_run n (free_run m c).1).0, (free_run n (free_run m c).1).1)
unfolding free_run
free_run-add zero n c = rw (zero-add n)
free_run-add (suc m) n c =
    rw (suc-add m n) (
      ap (λ r. ((run_bit_clock false c).0 ∷ r.0, r.1)) (free_run-add m n (run_bit_clock false c).1))

-- The number of bit times.
abbrev pub ticks : List Bool → ℕ
ticks [] = 0
ticks (true ∷ ts) = suc (ticks ts)
ticks (false ∷ ts) = ticks ts

ticks-append : (xs ys : List Bool) → ticks (xs ++ ys) ≡ ticks xs + ticks ys
ticks-append [] ys = omega arith
ticks-append (true ∷ xs) ys = omega (arith, ticks-append xs ys)
ticks-append (false ∷ xs) ys = ticks-append xs ys

abbrev pub cycle_start : Clock
cycle_start = record { divisor = 0; swallow_ctr = 23 }

one_cycle : ((free_run 575 cycle_start).1 ≡ cycle_start) × (ticks (free_run 575 cycle_start).0 ≡ 24)
unfolding free_run run_bit_clock
one_cycle = (refl, refl)

-- With no edge the clock counts 24 bits in every 575 samples: its mean bit is of 23.96 samples.
pub free_run_rate :
    (m : ℕ)
    → ((free_run (m * 575) cycle_start).1 ≡ cycle_start)
      × (ticks (free_run (m * 575) cycle_start).0 ≡ m * 24)
free_run_rate zero = unfold free_run in (refl, refl)
free_run_rate (suc m) =
    let e : suc m * 575 ≡ 575 + m * 575 = omega arith in
    let ih = free_run_rate m in
    rw (e, free_run-add 575 (m * 575) cycle_start, one_cycle.0)
      (
        ih.0,
        ticks-append (free_run 575 cycle_start).0 (free_run (m * 575) cycle_start).0
            ∙ omega (arith, one_cycle.1, ih.1),
      )
