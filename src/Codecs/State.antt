-- ===== src/Codecs/State.antt =====
-- The state of `deemph` along the loops of the encoders of JNI/Common/codecs.c.
use piwxrx.Prelude.{ℕ, zero, suc, ◌*◌, ◌/◌, ◌≤◌, ◌≡◌, true, List, [], ◌∷◌, length, arith}
use piwxrx.Prelude.Int.{ℤ, abs, ◌+ℤ◌, ◌*ℤ◌}
use piwxrx.Prelude.Word.{IsInt16, int16, shl, quot}
use piwxrx.Codecs.{ulaw_loop, pcm_encode, codec_pcmu}
use piwxrx.Codecs.Encode.{decimate_lem}
use piwxrx.Codecs.Deemph.{max_input, max_state, leaked, deemph_lem}

-- Every sample lies within the filter's largest input.
abbrev pub AreModerate : List ℤ → Type 0
AreModerate [] = Unit {0}
AreModerate (x ∷ xs) = (abs x ≤ max_input) × AreModerate xs

fits : (x : ℤ) → abs x ≤ max_input → IsInt16 x
fits x h = ground arith

moderate_mean :
    (a b c : ℤ)
    → abs a ≤ max_input
    → abs b ≤ max_input
    → abs c ≤ max_input
    → abs (quot (a +ℤ b +ℤ c) 3) ≤ max_input
unfolding ◌+ℤ◌
moderate_mean a b c ha hb hc = ground arith

unshifted : (x : ℤ) → abs x ≤ max_input → int16 (shl x 0) ≡ x
unfolding shl int16 ◌*ℤ◌
unshifted x h = ground arith

ulaw_loop-state :
    (n : ℕ) (buffer : List ℤ) (state : ℤ)
    → AreModerate buffer
    → 3 * n ≤ length buffer
    → abs state ≤ max_state
    → abs (ulaw_loop true 0 n buffer state).1 ≤ max_state
unfolding ulaw_loop
ulaw_loop-state zero buffer state w h hs = hs
ulaw_loop-state (suc n) [] state w h hs = absurd (omega arith)
ulaw_loop-state (suc n) (a ∷ []) state w h hs = absurd (omega arith)
ulaw_loop-state (suc n) (a ∷ b ∷ []) state w h hs = absurd (omega arith)
ulaw_loop-state (suc n) (a ∷ b ∷ c ∷ buffer) state (wa, (wb, (wc, w))) h hs =
    let mean = quot (a +ℤ b +ℤ c) 3 in
    let small = moderate_mean a b c wa wb wc in
    let filter = deemph_lem mean state small hs in
    rw
      (
        decimate_lem a b c buffer (fits a wa) (fits b wb) (fits c wc),
        unshifted mean small,
        filter.0,
      )
      (ulaw_loop-state n buffer (leaked mean state) w (omega arith) filter.1)

-- With de-emphasis on, no gain and samples within 10000, a state of the filter within 47640 is
-- within 47640 after `PCMEncode` for u-law, so that no packet makes a later one overflow.
pub pcm_encode-state :
    (buffer : List ℤ) (len : ℕ) (state : ℤ)
    → AreModerate buffer
    → len ≤ length buffer
    → abs state ≤ max_state
    → abs (pcm_encode true buffer len codec_pcmu 0 state).state ≤ max_state
unfolding pcm_encode
pcm_encode-state buffer len state w h hs = ulaw_loop-state (len / 3) buffer state w (omega arith) hs
