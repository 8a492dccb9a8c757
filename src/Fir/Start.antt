-- ===== src/Fir/Start.antt =====
-- The globals of JNI/Common/fir.c when the program starts: all zero.
use piwxrx.Prelude.{ℕ, zero, suc, refl, ◌∙◌, sym, List, replicate, arith}
use piwxrx.Prelude.Int.{ℤ, pos}
use piwxrx.Prelude.Ring.{behind, get_or-replicate}
use piwxrx.Fir.{FirData, Channels, n_fir_taps}
use piwxrx.Fir.Ring.{IsValid}
use piwxrx.Prelude.Word.{AllInt16}

abbrev pub silence : List ℤ
silence = replicate n_fir_taps (pos 0)

abbrev pub quiet : FirData
quiet = record { chnum = 0; wrptr = 0; rdptr = 0; firdata = silence }

abbrev pub start_channels : Channels
start_channels = record { i_channel = quiet; q_channel = quiet }

-- Whatever its number, a zeroed channel with its indices at 0 has a history of silence.
pub quiet-IsValid : {n : ℕ} → IsValid (record quiet { chnum = n }) silence
quiet-IsValid = record {
  size = refl;
  write_in = omega arith;
  enough = omega arith;
  holds = λ k hk hl.
      get_or-replicate n_fir_taps (behind n_fir_taps 0 k) (pos 0)
      ∙ sym (get_or-replicate n_fir_taps k (pos 0));
}

all-silence : (n : ℕ) → AllInt16 (replicate n (pos 0))
all-silence zero = tt
all-silence (suc n) = (omega arith, all-silence n)

pub silence-AllInt16 : AllInt16 silence
silence-AllInt16 = all-silence n_fir_taps
