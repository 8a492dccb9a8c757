-- ===== src/Fsk/Front.antt =====
-- The front end of `dsp_threads_fn` in JNI/Common/FSKdsp.c: mixer, low-pass filters,
-- discriminator and slicer. The two products by a `double` are parameters: `decay x` stands for
-- `(int)(x*0.99985)` and `gain x` for `(int)(x*.00015)`.
use piwxrx.Prelude.{ℕ, ◌≡◌, ap, ap₂, subst, ◌∙◌, List, ◌∷◌, if◌then◌else◌, get_or}
use piwxrx.Prelude.Int.{ℤ, pos, ltb_ℤ, ◌*ℤ◌, ◌-ℤ◌}
use piwxrx.Prelude.Word.{IsInt16, int16, int16-IsInt16, ashr, add32, sub32, mul32}
use piwxrx.Osc.{Osc, run_osc}
use piwxrx.Fir.{Channels, run_fir, mac_shift, do_fir}
use piwxrx.Fir.Ring as FirRing
use piwxrx.Fir.Ring.{do_fir-IsValid}
use piwxrx.Fir.Coeffs.{fir_coeffs}
use piwxrx.Fir.Convolution.{dot, do_fir_convolves}
use piwxrx.Prelude.Word.{AllInt16}
use piwxrx.Demod.{Discrim, phase_discrim}
use piwxrx.Demod.Delay as Delay
use piwxrx.Demod.Delay.{max_level, phase_discrim_lem}

pub record Front : Type 0 where
  pub osc : Osc
  pub channels : Channels
  pub discrim : Discrim
  pub dcslice_level : ℤ

-- One channel of the mixer: an oscillator value and a sample.
unfoldable pub mix : ℤ → ℤ → ℤ
mix osc sample = int16 (ashr (mul32 osc sample) 15)

module _ (decay gain : ℤ → ℤ) where
  unfoldable pub slice : ℤ → ℤ → ℕ × ℤ
  slice phase dcslice_level =
      let level = int16 (add32 (decay dcslice_level) (gain phase)) in
      ((if ltb_ℤ (pos 0) (sub32 phase level) then 0 else 1), level)

  -- The demodulated bit of a sample.
  unfoldable pub demodulate : ℤ → Front → ℕ × Front
  demodulate sample f =
      let (i_osc, osc1) = run_osc 0 f.osc in
      let (q_osc, osc2) = run_osc 1 osc1 in
      let (i_out, channels1) = run_fir (mix i_osc sample) 0 f.channels in
      let (q_out, channels2) = run_fir (mix q_osc sample) 1 channels1 in
      let (phase, discrim) = phase_discrim i_out q_out f.discrim in
      let (demod_bit, level) = slice phase f.dcslice_level in
      (
        demod_bit,
        record { osc = osc2; channels = channels2; discrim = discrim; dcslice_level = level },
      )

-- The filters hold the given 16-bit histories, and the delay lines the given values before.
pub record IsAt (f : Front) (i_hist q_hist i_outs q_outs : List ℤ) : Type 0 where
  pub i_fir : FirRing.IsValid f.channels.i_channel i_hist
  pub q_fir : FirRing.IsValid f.channels.q_channel q_hist
  pub i_words : AllInt16 i_hist
  pub q_words : AllInt16 q_hist
  pub lines : Delay.IsValid f.discrim i_outs q_outs

-- The filters and the delay lines hold some histories.
pub record IsReady (f : Front) : Type 0 where
  pub i_hist : List ℤ
  pub q_hist : List ℤ
  pub i_outs : List ℤ
  pub q_outs : List ℤ
  pub at : IsAt f i_hist q_hist i_outs q_outs

mix-IsInt16 : (osc sample : ℤ) → IsInt16 (mix osc sample)
unfolding mix
mix-IsInt16 osc sample = int16-IsInt16 (ashr (mul32 osc sample) 15)

-- The mixed values of the two channels.
abbrev pub i_mixed : ℤ → Front → ℤ
i_mixed sample f = mix (run_osc 0 f.osc).0 sample

abbrev pub q_mixed : ℤ → Front → ℤ
q_mixed sample f = mix (run_osc 1 (run_osc 0 f.osc).1).0 sample

-- A filter's output on a history, in exact integers.
abbrev pub filtered : List ℤ → ℤ
filtered hist = ashr (dot hist fir_coeffs) mac_shift

-- While the filters hold two histories of 16-bit inputs and the delay lines two sequences of earlier
-- outputs, the newest first, the demodulated bit of a sample is the sliced phase, in exact integers,
-- between the convolutions of the two mixed channels and the outputs of twelve samples before. After
-- it the filters hold the histories with the two mixed values in front, and the delay lines the
-- sequences with the two convolutions in front.
pub demodulate_lem :
    (decay gain : ℤ → ℤ) (sample : ℤ) {f : Front} {i_hist q_hist i_outs q_outs : List ℤ}
    → IsAt f i_hist q_hist i_outs q_outs
    → ((demodulate decay gain sample f).0
        ≡ (slice decay gain
            (ashr
              (get_or i_outs 11 (pos 0) *ℤ filtered (q_mixed sample f ∷ q_hist)
                -ℤ filtered (i_mixed sample f ∷ i_hist) *ℤ get_or q_outs 11 (pos 0))
              11)
            f.dcslice_level).0)
      × IsAt
          (demodulate decay gain sample f).1
          (i_mixed sample f ∷ i_hist)
          (q_mixed sample f ∷ q_hist)
          (filtered (i_mixed sample f ∷ i_hist) ∷ i_outs)
          (filtered (q_mixed sample f ∷ q_hist) ∷ q_outs)
unfolding demodulate run_fir
demodulate_lem decay gain sample {f} {i_hist} {q_hist} {i_outs} {q_outs} v =
    let i = i_mixed sample f in
    let q = q_mixed sample f in
    let i_word = mix-IsInt16 (run_osc 0 f.osc).0 sample in
    let q_word = mix-IsInt16 (run_osc 1 (run_osc 0 f.osc).1).0 sample in
    let i_conv = do_fir_convolves i v.i_fir (i_word, v.i_words) in
    let q_conv = do_fir_convolves q v.q_fir (q_word, v.q_words) in
    let disc =
      phase_discrim_lem (do_fir i f.channels.i_channel).0 (do_fir q f.channels.q_channel).0 i_conv.1
        q_conv.1 v.lines in
    let discrim =
      (phase_discrim (do_fir i f.channels.i_channel).0 (do_fir q f.channels.q_channel).0
        f.discrim).1 in
    (
      ap (λ p. (slice decay gain p f.dcslice_level).0)
          (disc.0
            ∙ ap₂ (λ a b. ashr (get_or i_outs 11 (pos 0) *ℤ b -ℤ a *ℤ get_or q_outs 11 (pos 0)) 11)
                i_conv.0 q_conv.0),
      record {
        i_fir = do_fir-IsValid i v.i_fir;
        q_fir = do_fir-IsValid q v.q_fir;
        i_words = (i_word, v.i_words);
        q_words = (q_word, v.q_words);
        lines =
            subst (λ a. Delay.IsValid discrim (a ∷ i_outs) (filtered (q ∷ q_hist) ∷ q_outs))
              i_conv.0
              (subst
                (λ b.
                  Delay.IsValid discrim ((do_fir i f.channels.i_channel).0 ∷ i_outs) (b ∷ q_outs))
                q_conv.0 disc.1);
      },
    )

pub demodulate-IsReady :
    (decay gain : ℤ → ℤ) (sample : ℤ) {f : Front}
    → IsReady f
    → IsReady (demodulate decay gain sample f).1
demodulate-IsReady decay gain sample {f} v = record {
  i_hist = i_mixed sample f ∷ v.i_hist;
  q_hist = q_mixed sample f ∷ v.q_hist;
  i_outs = filtered (i_mixed sample f ∷ v.i_hist) ∷ v.i_outs;
  q_outs = filtered (q_mixed sample f ∷ v.q_hist) ∷ v.q_outs;
  at = (demodulate_lem decay gain sample v.at).1;
}
