-- ===== src/Fsk/ThreadTests.antt =====
-- The thread of JNI/Common/FSKdsp.c at concrete inputs.
use piwxrx.Prelude.{
  ℕ, suc, ◌+◌, ◌-◌, ◌*◌, ◌/◌, ◌^◌, ◌≤◌, ◌≡◌, refl, ap, false, [], ◌∷◌, get_or, arith,
}
use piwxrx.Prelude.Int.{ℤ, pos, negsuc, abs, neg_ℕ, ◌-ℤ◌, ◌*ℤ◌}
use piwxrx.Prelude.Word.{ashr}
use piwxrx.Fir.Start.{silence}
use piwxrx.Demod.Start.{still}
use piwxrx.Fir.Start.{quiet-IsValid, silence-AllInt16}
use piwxrx.Demod.Start.{start_discrim-IsValid}
use piwxrx.Fsk.Samples.{pending}
use piwxrx.Fsk.Samples as Samples
use piwxrx.Fsk.Front.{IsReady, IsAt, slice, demodulate, i_mixed, q_mixed, filtered, demodulate_lem}
use piwxrx.Fsk.Slicer.{slices, CutsOff, slices-small}
use piwxrx.Fsk.Thread.{Thread, dsp_init, process_all, drain}
use piwxrx.Fsk.Drain.{drain_lem}
use piwxrx.Fsk.Start.{start_thread, start-process_all}

-- A level that follows no phase, and one that adds an eighth.
abbrev keep : ℤ → ℤ
keep x = x

abbrev eighth : ℤ → ℤ
eighth x = ashr x 3

abbrev flat : ℕ → ℤ
flat i = pos (i + 7)

abbrev start_front-IsAt : IsAt start_thread.front silence silence still still
start_front-IsAt = record {
  i_fir = quiet-IsValid;
  q_fir = quiet-IsValid;
  i_words = silence-AllInt16;
  q_words = silence-AllInt16;
  lines = start_discrim-IsValid;
}

demodulate_lem_example :
    ((demodulate keep eighth (pos 1200) start_thread.front).0
      ≡ (slice keep eighth
          (ashr
            (get_or still 11 (pos 0) *ℤ filtered (q_mixed (pos 1200) start_thread.front ∷ silence)
              -ℤ filtered (i_mixed (pos 1200) start_thread.front ∷ silence)
                *ℤ get_or still 11 (pos 0))
            11)
          (pos 0)).0)
    × IsAt
        (demodulate keep eighth (pos 1200) start_thread.front).1
        (i_mixed (pos 1200) start_thread.front ∷ silence)
        (q_mixed (pos 1200) start_thread.front ∷ silence)
        (filtered (i_mixed (pos 1200) start_thread.front ∷ silence) ∷ still)
        (filtered (q_mixed (pos 1200) start_thread.front ∷ silence) ∷ still)
demodulate_lem_example = demodulate_lem keep eighth (pos 1200) start_front-IsAt

-- Two samples wait, across the end of the ring.
abbrev two_waiting : Thread
two_waiting = record start_thread {
  samples = record start_thread.samples { wrptr = 1; rdptr = 4095 };
}

two_waiting-IsValid : Samples.IsValid two_waiting.samples
two_waiting-IsValid = record { size = refl; write_in = omega arith; read_in = omega arith }

drain_lem_example : drain keep eighth 3 two_waiting ≡ (
  (process_all keep eighth (pending two_waiting.samples) two_waiting).0,
  record (process_all keep eighth (pending two_waiting.samples) two_waiting).1 {
    samples = record two_waiting.samples { rdptr = 1 };
  },
)
drain_lem_example = drain_lem keep eighth 3 two_waiting refl two_waiting-IsValid (omega arith)

start-process_all_example :
    IsReady
      (process_all keep eighth
        (pos 1200 ∷ negsuc 800 ∷ [])
        (dsp_init flat false start_thread)).1.front
start-process_all_example = start-process_all keep eighth flat false (pos 1200 ∷ negsuc 800 ∷ [])

-- The two products of the slicer, cut towards zero.
abbrev cut_decay : ℤ → ℤ
cut_decay (pos n) = pos (n * 99985 / 100000)
cut_decay (negsuc n) = neg_ℕ (suc n * 99985 / 100000)

abbrev cut_gain : ℤ → ℤ
cut_gain (pos n) = pos (n * 15 / 100000)
cut_gain (negsuc n) = neg_ℕ (suc n * 15 / 100000)

cut-CutsOff : CutsOff cut_decay cut_gain
cut-CutsOff = record { shrinks = shrinks; nothing = nothing }
  where
    shrinks : (x : ℤ) → abs x ≤ 2 ^ 15 → abs (cut_decay x) ≤ abs x - 1
    shrinks (pos n) h = omega arith
    shrinks (negsuc n) h = ground arith

    nothing : (x : ℤ) → abs x ≤ 6666 → cut_gain x ≡ pos 0
    nothing (pos n) h = ap pos (omega arith)
    nothing (negsuc n) h = let e : suc n * 15 / 100000 ≡ 0 = omega arith in ap neg_ℕ e

-- An offset of 5000 stays.
slices-small_example :
    slices cut_decay cut_gain
      (pos 5100 ∷ pos 4900 ∷ [])
      (slices cut_decay cut_gain (pos 40 ∷ negsuc 7 ∷ pos 12 ∷ []) (negsuc 2)).1
    ≡ (0 ∷ 0 ∷ [], pos 0)
slices-small_example =
    slices-small cut_decay cut_gain (pos 40 ∷ negsuc 7 ∷ pos 12 ∷ []) (pos 5100 ∷ pos 4900 ∷ [])
      (negsuc 2) cut-CutsOff (omega arith, (omega arith, (omega arith, tt)))
      (omega arith, (omega arith, tt)) (omega arith, omega arith) (omega arith)
