-- ===== src/Osc/Phase.antt =====
-- The two phases of the oscillator.
use piwxrx.Prelude.{
  ℕ, zero, suc, ◌+◌, ◌*◌, ◌/◌, ◌%◌, ◌^◌, ◌<◌, ◌≡◌, refl, ◌∙◌, ap, ◌↔◌, List, [], ◌∷◌, get_or, arith,
}
use piwxrx.Prelude.Int.{ℤ, pos}
use piwxrx.Osc.{Osc, lut_size, inj_freq, tabulate, init_osc, start_osc, run_osc}

-- The pair of values that one sample is mixed with: the I channel, then the Q channel.
pub mix_values : Osc → ℤ × ℤ × Osc
mix_values o = let (i, o') = run_osc 0 o in let (q, o'') = run_osc 1 o' in (i, q, o'')

pub oscillate : ℕ → Osc → List (ℤ × ℤ)
oscillate zero o = []
oscillate (suc n) o = let (i, q, o') = mix_values o in (i, q) ∷ oscillate n o'

-- The values of the cosine at the phases of round `k` and on: Q runs three quarters of a turn
-- ahead of I.
abbrev pub rounds : (ℕ → ℤ) → ℕ → ℕ → List (ℤ × ℤ)
rounds sample k zero = []
rounds sample k (suc n) =
    (sample (inj_freq * k % lut_size), sample ((inj_freq * k + 3 * lut_size / 4) % lut_size))
    ∷ rounds sample (suc k) n

get_or-tabulate :
    (sample : ℕ → ℤ) (i n k : ℕ) → k < n → get_or (tabulate sample i n) k (pos 0) ≡ sample (i + k)
unfolding tabulate
get_or-tabulate sample i zero k h = absurd (omega arith)
get_or-tabulate sample i (suc n) zero h = ap sample (omega arith)
get_or-tabulate sample i (suc n) (suc k) h =
    get_or-tabulate sample (i + 1) n k (omega arith) ∙ ap sample (omega arith)

entry :
    (sample : ℕ → ℤ) (k : ℕ) → k < 2048 → get_or (tabulate sample 0 lut_size) k (pos 0) ≡ sample k
entry sample k h = get_or-tabulate sample 0 lut_size k h ∙ ap sample (omega arith)

-- The oscillator after `k` rounds.
abbrev at_round : (ℕ → ℤ) → ℕ → Osc
at_round sample k = record {
  osc_lut = tabulate sample 0 lut_size;
  i_phase = inj_freq * k % lut_size;
  q_phase = (inj_freq * k + 3 * lut_size / 4) % lut_size;
}

mix_values-at_round :
    (sample : ℕ → ℤ) (k : ℕ)
    → mix_values (at_round sample k) ≡ (
      sample (inj_freq * k % lut_size),
      sample ((inj_freq * k + 3 * lut_size / 4) % lut_size),
      at_round sample (suc k),
    )
unfolding mix_values run_osc
mix_values-at_round sample k = λ i. (
  entry sample (inj_freq * k % lut_size) (omega arith) i,
  entry sample ((inj_freq * k + 3 * lut_size / 4) % lut_size) (omega arith) i,
  record { osc_lut = tabulate sample 0 lut_size; i_phase = i_next i; q_phase = q_next i },
)
  where
    i_next : (inj_freq * k % lut_size + inj_freq) % 2 ^ 11 ≡ inj_freq * suc k % lut_size
    i_next = omega arith

    q_next :
        ((inj_freq * k + 3 * lut_size / 4) % lut_size + inj_freq) % 2 ^ 11
        ≡ (inj_freq * suc k + 3 * lut_size / 4) % lut_size
    q_next = omega arith

oscillate_from : (sample : ℕ → ℤ) (n k : ℕ) → oscillate n (at_round sample k) ≡ rounds sample k n
unfolding oscillate
oscillate_from sample zero k = refl
oscillate_from sample (suc n) k = rw (mix_values-at_round sample k) (
    ap
      (λ r.
        (sample (inj_freq * k % lut_size), sample ((inj_freq * k + 3 * lut_size / 4) % lut_size))
        ∷ r)
      (oscillate_from sample n (suc k)))

-- After `InitOsc`, from the initial phases, for any number of samples the I channel gets for each the
-- value of the cosine at 311 times the sample's number, counted from 0, and the Q channel the value
-- at three quarters of a turn more, both round the 2048 places of the table.
pub oscillate_lem :
    (sample : ℕ → ℤ) (lut : List ℤ) (n : ℕ)
    → oscillate n (init_osc sample (start_osc lut)) ≡ rounds sample 0 n
unfolding init_osc
oscillate_lem sample lut n = oscillate_from sample n 0

-- The phase of the I channel after `n` samples.
pub phase_after : ℕ → Osc → ℕ
phase_after zero o = o.i_phase
phase_after (suc n) o = phase_after n (mix_values o).2

phase_after_from :
    (sample : ℕ → ℤ) (n k : ℕ) → phase_after n (at_round sample k) ≡ inj_freq * (k + n) % lut_size
unfolding phase_after
phase_after_from sample zero k = omega arith
phase_after_from sample (suc n) k =
    ap (λ t. phase_after n t.2) (mix_values-at_round sample k)
    ∙ phase_after_from sample n (suc k)
    ∙ omega arith

phase_after-start :
    (sample : ℕ → ℤ) (lut : List ℤ) (n : ℕ)
    → phase_after n (init_osc sample (start_osc lut)) ≡ inj_freq * n % lut_size
unfolding init_osc
phase_after-start sample lut n = phase_after_from sample n 0 ∙ omega arith

-- The step of 311 is odd, so the phase returns after a multiple of 2048 samples and never before.
pub phase_period :
    (sample : ℕ → ℤ) (lut : List ℤ) (m n : ℕ)
    → (phase_after m (init_osc sample (start_osc lut))
        ≡ phase_after n (init_osc sample (start_osc lut)))
      ↔ (m % lut_size ≡ n % lut_size)
phase_period sample lut m n =
    let at_m = phase_after-start sample lut m in
    let at_n = phase_after-start sample lut n in ((λ h. omega (arith, h)), (λ h. omega (arith, h)))
