-- ===== src/Codecs/Tests.antt =====
-- The conversions of JNI/Common/codecs.c at concrete inputs.
use piwxrx.Prelude.{◌≤◌, ◌≡◌, false, List, [], ◌∷◌, map, arith}
use piwxrx.Prelude.Int.{ℤ, pos, negsuc, abs, ◌+ℤ◌}
use piwxrx.Prelude.Word.{AllInt16, shl, quot}
use piwxrx.G711.{linear2ulaw, linear2alaw}
use piwxrx.Codecs.{deemph, pcm_encode, codec_pcmu, codec_pcma}
use piwxrx.Codecs.Deemph.{deemph_lem, leaked, output, max_state}
use piwxrx.Codecs.Encode.{pcm_encode-pcmu, pcm_encode-pcma}

abbrev seven : List ℤ
seven = pos 300 ∷ pos 310 ∷ pos 291 ∷ negsuc 4 ∷ pos 900 ∷ negsuc 29 ∷ pos 7 ∷ []

seven-AllInt16 : AllInt16 seven
seven-AllInt16 = (
  omega arith,
  (omega arith, (omega arith, (omega arith, (omega arith, (omega arith, (omega arith, tt)))))),
)

deemph_lem_example :
    (deemph (negsuc 4999) (pos 40000)
      ≡ (output (leaked (negsuc 4999) (pos 40000)), leaked (negsuc 4999) (pos 40000)))
    × (abs (leaked (negsuc 4999) (pos 40000)) ≤ max_state)
    × (abs (output (leaked (negsuc 4999) (pos 40000))) ≤ 30000)
deemph_lem_example = deemph_lem (negsuc 4999) (pos 40000) (omega arith) (omega arith)

pcm_encode-pcmu_example : pcm_encode false seven 7 codec_pcmu 1 (pos 5) ≡ record {
  bytes = map (λ m. linear2ulaw (shl m 1)) (pos 300 ∷ pos 288 ∷ []);
  written = [];
  result = 2;
  state = pos 5;
}
unfolding ◌+ℤ◌
pcm_encode-pcmu_example = pcm_encode-pcmu seven 7 1 (pos 5) seven-AllInt16 (omega arith)

pcm_encode-pcma_example : pcm_encode false seven 7 codec_pcma 0 (pos 5) ≡ record {
  bytes = map (λ a. linear2alaw (shl (quot a 3) 0)) (pos 300 ∷ pos 310 ∷ []);
  written = [];
  result = 2;
  state = pos 5;
}
pcm_encode-pcma_example = pcm_encode-pcma seven 7 0 (pos 5) seven-AllInt16 (omega arith)
