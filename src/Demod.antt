-- ===== src/Demod.antt =====
-- JNI/Common/demod.c: the correlator that looks for the sync code, and the phase discriminator.
pub mod Sync
pub mod Delay
pub mod Start
mod Tests
use piwxrx.Prelude.{
  ℕ, zero, suc, ◌+◌, ◌-◌, ◌*◌, ◌%◌, ◌^◌, Bool, true, false, List, [], ◌∷◌, ◌==◌, if◌then◌else◌,
  get_or, set, replicate,
}
use piwxrx.Prelude.Int.{ℤ, pos, ◌-ℤ◌, ◌*ℤ◌}
use piwxrx.Prelude.Word.{low_bits, int16, int32, ashr, mul64, sub64}

abbrev pub bits_per_byte : ℕ
bits_per_byte = 8

abbrev pub bit_divisor : ℕ
bit_divisor = 23

abbrev pub n_corr_bits : ℕ
n_corr_bits = bits_per_byte * 2

abbrev pub corr_length : ℕ
corr_length = bit_divisor * n_corr_bits

abbrev pub sync_bits : List ℕ
sync_bits = 1 ∷ 0 ∷ 1 ∷ 0 ∷ 1 ∷ 0 ∷ 1 ∷ 1 ∷ 1 ∷ 0 ∷ 1 ∷ 0 ∷ 1 ∷ 0 ∷ 1 ∷ 1 ∷ []

-- `for (i = n; i > 0; i--) correlator[i] = correlator[i - 1]`
unfoldable pub shift_loop : ℕ → List ℕ → List ℕ
shift_loop zero correlator = correlator
shift_loop (suc i) correlator = shift_loop i (set correlator (suc i) (get_or correlator i 0))

-- The comparison from bit `i` on, whose sync bits are the list.
unfoldable pub match_from : List ℕ → ℕ → List ℕ → Bool
match_from correlator i [] = true
match_from correlator i (b ∷ bits) =
    let rest = match_from correlator (i + 1) bits in
    if get_or correlator (i * bit_divisor) 0 == b then rest else false

-- The result, and the correlator with the bit shifted in.
unfoldable pub sync_correlator : ℕ → List ℕ → Bool × List ℕ
sync_correlator databit correlator =
    let shifted = set (shift_loop (corr_length - 1) correlator) 0 databit in
    (match_from shifted 0 sync_bits, shifted)

abbrev pub demod_dly_len : ℕ
demod_dly_len = 64

pub record Discrim : Type 0 where
  pub i_demod_dly : List ℤ
  pub q_demod_dly : List ℤ
  pub curr_index : ℕ

-- The stores are of RTL_SAMPLE, so a value is cut to 16 bits; `long` has 64.
unfoldable pub phase_discrim : ℤ → ℤ → Discrim → ℤ × Discrim
phase_discrim i_out q_out d =
    let previous_bit_index = low_bits 6 (pos d.curr_index -ℤ pos 12) in
    let i_dly = set d.i_demod_dly d.curr_index (int16 i_out) in
    let q_dly = set d.q_demod_dly d.curr_index (int16 q_out) in
    let i_prev = get_or i_dly previous_bit_index (pos 0) in
    let q_prev = get_or q_dly previous_bit_index (pos 0) in
    let lphase = sub64 (mul64 i_prev q_out) (mul64 i_out q_prev) in
    (
      ashr (int32 lphase) 11,
      record { i_demod_dly = i_dly; q_demod_dly = q_dly; curr_index = (d.curr_index + 1) % 2 ^ 6 },
    )
