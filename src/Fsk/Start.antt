-- ===== src/Fsk/Start.antt =====
-- The receiver of JNI/Common/FSKdsp.c when the program starts and after `DSPInit`.
use piwxrx.Prelude.{ℕ, refl, Bool, true, false, List, [], ◌∷◌, replicate, arith}
use piwxrx.Prelude.Int.{ℤ, pos}
use piwxrx.Osc.{start_osc, lut_size}
use piwxrx.Fir.{fir_init}
use piwxrx.Fir.Start.{silence, start_channels, quiet-IsValid, silence-AllInt16}
use piwxrx.Demod.Start.{still, start_discrim, start_discrim-IsValid, start_correlator}
use piwxrx.Fsk.Samples.{SampleBuffer, sample_bfrsiz}
use piwxrx.Fsk.Samples as Samples
use piwxrx.Fsk.Front.{IsReady, demodulate-IsReady}
use piwxrx.Fsk.Thread.{Thread, dsp_init, process, process_mode, process_all}

-- The globals, all zero but the phase of the second oscillator.
abbrev pub start_thread : Thread
start_thread = record {
  exit = false;
  writing = false;
  samples = record { wrptr = 0; rdptr = 0; buffer = replicate sample_bfrsiz (pos 0) };
  front = record {
    osc = start_osc (replicate lut_size (pos 0));
    channels = start_channels;
    discrim = start_discrim;
    dcslice_level = pos 0;
  };
  receiver = record {
    insync = false;
    correlator = start_correlator;
    edge = record { current_sense = 0; xingcnt = 0 };
    clock = record { divisor = 0; swallow_ctr = 0 };
    frame = record { bytesync = false; demod_byte = 0; bitctr = 0 };
  };
}

pub start-Samples_IsValid :
    (cosine : ℕ → ℤ) (debug_write : Bool)
    → Samples.IsValid (dsp_init cosine debug_write start_thread).samples
unfolding dsp_init
start-Samples_IsValid cosine debug_write = record {
  size = refl;
  write_in = omega arith;
  read_in = omega arith;
}

start-IsReady :
    (cosine : ℕ → ℤ) (debug_write : Bool) → IsReady (dsp_init cosine debug_write start_thread).front
unfolding dsp_init fir_init
start-IsReady cosine debug_write = record {
  i_hist = silence;
  q_hist = silence;
  i_outs = still;
  q_outs = still;
  at = record {
    i_fir = quiet-IsValid;
    q_fir = quiet-IsValid;
    i_words = silence-AllInt16;
    q_words = silence-AllInt16;
    lines = start_discrim-IsValid;
  };
}

module _ (decay gain : ℤ → ℤ) where
  process_mode-IsReady :
      (b : Bool) (x : ℤ) (t : Thread)
      → IsReady t.front
      → IsReady (process_mode decay gain b x t).1.front
  process_mode-IsReady true x t v = v
  process_mode-IsReady false x t v = demodulate-IsReady decay gain x v

  process_all-IsReady :
      (xs : List ℤ) (t : Thread) → IsReady t.front → IsReady (process_all decay gain xs t).1.front
  unfolding process_all process
  process_all-IsReady [] t v = v
  process_all-IsReady (x ∷ xs) t v = process_all-IsReady xs _ (process_mode-IsReady t.writing x t v)

  -- From the program's start and `DSPInit`, whatever the cosine table and the debug level, every
  -- sequence of samples leaves the filters with 16-bit histories and the delay lines with values
  -- within the filters' bound.
  pub start-process_all :
      (cosine : ℕ → ℤ) (debug_write : Bool) (xs : List ℤ)
      → IsReady (process_all decay gain xs (dsp_init cosine debug_write start_thread)).1.front
  start-process_all cosine debug_write xs =
      process_all-IsReady xs _ (start-IsReady cosine debug_write)
