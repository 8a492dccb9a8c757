-- ===== src/Codecs/Prefix.antt =====
-- Which samples `PCMEncode` of JNI/Common/codecs.c reads.
use piwxrx.Prelude.{
  ℕ, zero, suc, ◌*◌, ◌/◌, ◌≤◌, ◌≡◌, refl, ap, Bool, List, [], ◌∷◌, ◌++◌, length, arith,
}
use piwxrx.Prelude.Int.{ℤ}
use piwxrx.Prelude.Word.{shl}
use piwxrx.G711.{linear2ulaw, linear2alaw}
use piwxrx.Codecs.{decimate, a_third, emphasis, ulaw_loop, alaw_loop, stdio_loop, pcm_encode}

module _ (rest : List ℤ) where
  module _ (deemphasis : Bool) (gain : ℕ) where
    ulaw_loop-append :
        (n : ℕ) (xs : List ℤ) (state : ℤ)
        → 3 * n ≤ length xs
        → ulaw_loop deemphasis gain n (xs ++ rest) state ≡ ulaw_loop deemphasis gain n xs state
    unfolding ulaw_loop decimate
    ulaw_loop-append zero xs state h = refl
    ulaw_loop-append (suc n) [] state h = absurd (omega arith)
    ulaw_loop-append (suc n) (a ∷ []) state h = absurd (omega arith)
    ulaw_loop-append (suc n) (a ∷ b ∷ []) state h = absurd (omega arith)
    ulaw_loop-append (suc n) (a ∷ b ∷ c ∷ xs) state h =
        let e = emphasis deemphasis (shl (decimate (a ∷ b ∷ c ∷ xs)).0 gain) state in
        ap (λ r. (linear2ulaw e.0 ∷ r.0, r.1)) (ulaw_loop-append n xs e.1 (omega arith))

    alaw_loop-append :
        (n : ℕ) (xs : List ℤ) (state : ℤ)
        → n ≤ length xs
        → alaw_loop deemphasis gain n (xs ++ rest) state ≡ alaw_loop deemphasis gain n xs state
    unfolding alaw_loop a_third
    alaw_loop-append zero xs state h = refl
    alaw_loop-append (suc n) [] state h = absurd (omega arith)
    alaw_loop-append (suc n) (a ∷ xs) state h =
        let e = emphasis deemphasis (shl (a_third (a ∷ xs)).0 gain) state in
        ap (λ r. (linear2alaw e.0 ∷ r.0, r.1)) (alaw_loop-append n xs e.1 (omega arith))

  stdio_loop-append :
      (n : ℕ) (xs : List ℤ) → 3 * n ≤ length xs → stdio_loop n (xs ++ rest) ≡ stdio_loop n xs
  unfolding stdio_loop decimate
  stdio_loop-append zero xs h = refl
  stdio_loop-append (suc n) [] h = absurd (omega arith)
  stdio_loop-append (suc n) (a ∷ []) h = absurd (omega arith)
  stdio_loop-append (suc n) (a ∷ b ∷ []) h = absurd (omega arith)
  stdio_loop-append (suc n) (a ∷ b ∷ c ∷ xs) h =
      ap (λ r. (decimate (a ∷ b ∷ c ∷ xs)).0 ∷ r) (stdio_loop-append n xs (omega arith))

  -- `PCMEncode` reads no sample behind those that it is told of.
  pub pcm_encode-append :
      (deemphasis : Bool) (xs : List ℤ) (codec : ℤ) (gain : ℕ) (state : ℤ)
      → pcm_encode deemphasis (xs ++ rest) (length xs) codec gain state
        ≡ pcm_encode deemphasis xs (length xs) codec gain state
  unfolding pcm_encode
  pcm_encode-append deemphasis xs codec gain state =
      let n = length xs / 3 in
      rw
        (
          ulaw_loop-append deemphasis gain n xs state (omega arith),
          alaw_loop-append deemphasis gain n xs state (omega arith),
          stdio_loop-append n xs (omega arith),
        )
        refl
