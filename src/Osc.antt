-- ===== src/Osc.antt =====
-- JNI/Common/osc.c: the oscillator that mixes the signal down, by a table of 2048 cosines.
-- `sample i` stands for `(OSC_VALUE)(cos(2.0 * PI * i / LUT_SIZE) * 32767.0)`: the cosine is the
-- C library's.
pub mod Phase
mod Tests
use piwxrx.Prelude.{
  ℕ, zero, suc, ◌+◌, ◌*◌, ◌/◌, ◌%◌, ◌^◌, List, [], ◌∷◌, ◌==◌, if◌then◌else◌, get_or,
}
use piwxrx.Prelude.Int.{ℤ, pos}

abbrev pub lut_size : ℕ
lut_size = 2048

abbrev pub inj_freq : ℕ
inj_freq = 311

pub record Osc : Type 0 where
  pub osc_lut : List ℤ
  pub i_phase : ℕ
  pub q_phase : ℕ

-- The initial values of the globals.
abbrev pub start_osc : List ℤ → Osc
start_osc lut = record { osc_lut = lut; i_phase = 0; q_phase = (3 * lut_size) / 4 }

-- The loop of `InitOsc` from index `i`, with `n` entries left.
unfoldable pub tabulate : (ℕ → ℤ) → ℕ → ℕ → List ℤ
tabulate sample i zero = []
tabulate sample i (suc n) = sample i ∷ tabulate sample (i + 1) n

unfoldable pub init_osc : (ℕ → ℤ) → Osc → Osc
init_osc sample o = record o { osc_lut = tabulate sample 0 lut_size }

abbrev pub advance : ℕ → ℕ
advance phase = (phase + inj_freq) % 2 ^ 11

-- Channel 0 is I_CHANNEL and channel 1 is Q_CHANNEL.
unfoldable pub run_osc : ℕ → Osc → ℤ × Osc
run_osc channel o =
    if channel == 0
    then (get_or o.osc_lut o.i_phase (pos 0), record o { i_phase = advance o.i_phase })
    else if channel == 1
    then (get_or o.osc_lut o.q_phase (pos 0), record o { q_phase = advance o.q_phase })
    else (pos 0, o)
