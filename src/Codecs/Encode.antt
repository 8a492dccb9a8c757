-- ===== src/Codecs/Encode.antt =====
-- What the encoders of JNI/Common/codecs.c store, sample by sample.
use piwxrx.Prelude.{
  ℕ, zero, suc, ◌*◌, ◌/◌, ◌≤◌, ◌≡◌, refl, ap, Bool, false, List, [], ◌∷◌, length, take, map, arith,
}
use piwxrx.Prelude.Int.{ℤ, ◌+ℤ◌}
use piwxrx.Prelude.Word.{AllInt16, IsInt16, IsInt32, int16_id, quot, shl, add32_exact}
use piwxrx.G711.{linear2ulaw, linear2alaw}
use piwxrx.Codecs.{
  decimate, a_third, ulaw_loop, alaw_loop, stdio_loop, pcm_encode, codec_pcmu, codec_pcma,
  codec_none, Encoded,
}

-- The means of the first `n` groups of three samples, rounded towards 0.
abbrev pub means : ℕ → List ℤ → List ℤ
means (suc n) (a ∷ b ∷ c ∷ buffer) = quot (a +ℤ b +ℤ c) 3 ∷ means n buffer
means _ _ = []

sum-IsInt32 :
    (a b c : ℤ) → IsInt16 a → IsInt16 b → IsInt16 c → IsInt32 (a +ℤ b) × IsInt32 (a +ℤ b +ℤ c)
unfolding ◌+ℤ◌
sum-IsInt32 a b c ha hb hc = (ground arith, ground arith)

pub mean-IsInt16 : (a b c : ℤ) → IsInt16 a → IsInt16 b → IsInt16 c → IsInt16 (quot (a +ℤ b +ℤ c) 3)
unfolding ◌+ℤ◌
mean-IsInt16 a b c ha hb hc = ground arith

pub decimate_lem :
    (a b c : ℤ) (buffer : List ℤ)
    → IsInt16 a
    → IsInt16 b
    → IsInt16 c
    → decimate (a ∷ b ∷ c ∷ buffer) ≡ (quot (a +ℤ b +ℤ c) 3, buffer)
unfolding decimate
decimate_lem a b c buffer ha hb hc =
    let fits = sum-IsInt32 a b c ha hb hc in
    rw
      (
        add32_exact a b fits.0,
        add32_exact (a +ℤ b) c fits.1,
        int16_id (quot (a +ℤ b +ℤ c) 3) (mean-IsInt16 a b c ha hb hc),
      )
      refl

ulaw_loop_plain :
    (gain n : ℕ) (buffer : List ℤ) (state : ℤ)
    → AllInt16 buffer
    → 3 * n ≤ length buffer
    → ulaw_loop false gain n buffer state
      ≡ (map (λ m. linear2ulaw (shl m gain)) (means n buffer), state)
unfolding ulaw_loop
ulaw_loop_plain gain zero buffer state w h = refl
ulaw_loop_plain gain (suc n) [] state w h = absurd (omega arith)
ulaw_loop_plain gain (suc n) (a ∷ []) state w h = absurd (omega arith)
ulaw_loop_plain gain (suc n) (a ∷ b ∷ []) state w h = absurd (omega arith)
ulaw_loop_plain gain (suc n) (a ∷ b ∷ c ∷ buffer) state (wa, (wb, (wc, w))) h =
    rw (decimate_lem a b c buffer wa wb wc) (
      ap (λ r. (linear2ulaw (shl (quot (a +ℤ b +ℤ c) 3) gain) ∷ r.0, r.1))
        (ulaw_loop_plain gain n buffer state w (omega arith)))

third-IsInt16 : (a : ℤ) → IsInt16 a → IsInt16 (quot a 3)
third-IsInt16 a h = ground arith

alaw_loop_plain :
    (gain n : ℕ) (buffer : List ℤ) (state : ℤ)
    → AllInt16 buffer
    → n ≤ length buffer
    → alaw_loop false gain n buffer state
      ≡ (map (λ a. linear2alaw (shl (quot a 3) gain)) (take n buffer), state)
unfolding alaw_loop a_third
alaw_loop_plain gain zero buffer state w h = refl
alaw_loop_plain gain (suc n) [] state w h = absurd (omega arith)
alaw_loop_plain gain (suc n) (a ∷ buffer) state (wa, w) h =
    rw (int16_id (quot a 3) (third-IsInt16 a wa)) (
      ap (λ r. (linear2alaw (shl (quot a 3) gain) ∷ r.0, r.1))
        (alaw_loop_plain gain n buffer state w (omega arith)))

-- With de-emphasis off and 16-bit samples, `PCMEncode` for u-law stores for each of the first
-- len / 3 groups of three samples the code of their mean, shifted left by the gain, returns their
-- number and leaves the filter's state.
pub pcm_encode-pcmu :
    (buffer : List ℤ) (len gain : ℕ) (state : ℤ)
    → AllInt16 buffer
    → len ≤ length buffer
    → pcm_encode false buffer len codec_pcmu gain state ≡ record {
      bytes = map (λ m. linear2ulaw (shl m gain)) (means (len / 3) buffer);
      written = [];
      result = len / 3;
      state = state;
    }
unfolding pcm_encode
pcm_encode-pcmu buffer len gain state w h =
    ap
      (λ r.
        let e : Encoded = record { bytes = r.0; written = []; result = len / 3; state = r.1 } in e)
      (ulaw_loop_plain gain (len / 3) buffer state w (omega arith))

-- With de-emphasis off and 16-bit samples, `PCMEncode` for A-law stores the codes of a third of
-- each of the first len / 3 samples, shifted left by the gain: it does not decimate, and the
-- other two thirds of the samples are not encoded.
pub pcm_encode-pcma :
    (buffer : List ℤ) (len gain : ℕ) (state : ℤ)
    → AllInt16 buffer
    → len ≤ length buffer
    → pcm_encode false buffer len codec_pcma gain state ≡ record {
      bytes = map (λ a. linear2alaw (shl (quot a 3) gain)) (take (len / 3) buffer);
      written = [];
      result = len / 3;
      state = state;
    }
unfolding pcm_encode
pcm_encode-pcma buffer len gain state w h =
    ap
      (λ r.
        let e : Encoded = record { bytes = r.0; written = []; result = len / 3; state = r.1 } in e)
      (alaw_loop_plain gain (len / 3) buffer state w (omega arith))

stdio_loop_lem :
    (n : ℕ) (buffer : List ℤ)
    → AllInt16 buffer
    → 3 * n ≤ length buffer
    → stdio_loop n buffer ≡ means n buffer
unfolding stdio_loop
stdio_loop_lem zero buffer w h = refl
stdio_loop_lem (suc n) [] w h = absurd (omega arith)
stdio_loop_lem (suc n) (a ∷ []) w h = absurd (omega arith)
stdio_loop_lem (suc n) (a ∷ b ∷ []) w h = absurd (omega arith)
stdio_loop_lem (suc n) (a ∷ b ∷ c ∷ buffer) (wa, (wb, (wc, w))) h =
    rw (decimate_lem a b c buffer wa wb wc)
      (ap (λ r. quot (a +ℤ b +ℤ c) 3 ∷ r) (stdio_loop_lem n buffer w (omega arith)))

-- For no codec `PCMEncode` writes the means of the groups of three 16-bit samples to the standard
-- output, whatever the gain, the filter and its state, stores no byte and returns 0.
pub pcm_encode-none :
    (deemphasis : Bool) (buffer : List ℤ) (len gain : ℕ) (state : ℤ)
    → AllInt16 buffer
    → len ≤ length buffer
    → pcm_encode deemphasis buffer len codec_none gain state
      ≡ record { bytes = []; written = means (len / 3) buffer; result = 0; state = state }
unfolding pcm_encode
pcm_encode-none deemphasis buffer len gain state w h =
    ap (λ r. let e : Encoded = record { bytes = []; written = r; result = 0; state = state } in e)
      (stdio_loop_lem (len / 3) buffer w (omega arith))

length-ulaw_loop :
    (deemphasis : Bool) (gain n : ℕ) (buffer : List ℤ) (state : ℤ)
    → length (ulaw_loop deemphasis gain n buffer state).0 ≡ n
unfolding ulaw_loop
length-ulaw_loop deemphasis gain zero buffer state = refl
length-ulaw_loop deemphasis gain (suc n) buffer state =
    ap suc (length-ulaw_loop deemphasis gain n _ _)

length-alaw_loop :
    (deemphasis : Bool) (gain n : ℕ) (buffer : List ℤ) (state : ℤ)
    → length (alaw_loop deemphasis gain n buffer state).0 ≡ n
unfolding alaw_loop
length-alaw_loop deemphasis gain zero buffer state = refl
length-alaw_loop deemphasis gain (suc n) buffer state =
    ap suc (length-alaw_loop deemphasis gain n _ _)

-- For every codec `PCMEncode` returns the number of bytes it stores, a third of the samples at
-- most.
pub length-pcm_encode :
    (deemphasis : Bool) (buffer : List ℤ) (len : ℕ) (codec : ℤ) (gain : ℕ) (state : ℤ)
    → (length (pcm_encode deemphasis buffer len codec gain state).bytes
        ≡ (pcm_encode deemphasis buffer len codec gain state).result)
      × ((pcm_encode deemphasis buffer len codec gain state).result ≤ len / 3)
unfolding pcm_encode
length-pcm_encode deemphasis buffer len codec gain state =
    let u = length-ulaw_loop deemphasis gain (len / 3) buffer state in
    let a = length-alaw_loop deemphasis gain (len / 3) buffer state in ground (arith, u, a)
