-- ===== src/Fir/Coeffs.antt =====
-- The coefficients of JNI/Common/fir.c: the Hann window, as 16-bit patterns.
use piwxrx.Prelude.{ℕ, List, [], ◌∷◌}
use piwxrx.Prelude.Int.{ℤ}
use piwxrx.Prelude.Word.{signed16}

abbrev pub coeff_words : List ℕ
coeff_words =
    0x0018 ∷ 0x0055 ∷ 0x0097 ∷ 0x00d0 ∷ 0x00ec ∷ 0x00d9 ∷ 0x008a ∷ 0x0000 ∷ 0xff45 ∷ 0xfe75 ∷ 0xfdb7
    ∷ 0xfd3d ∷ 0xfd37 ∷ 0xfdcd ∷ 0xff17 ∷ 0x0114 ∷ 0x03ac ∷ 0x06aa ∷ 0x09c4 ∷ 0x0ca7 ∷ 0x0f00
    ∷ 0x1088 ∷ 0x1110 ∷ 0x1088 ∷ 0x0f00 ∷ 0x0ca7 ∷ 0x09c4 ∷ 0x06aa ∷ 0x03ac ∷ 0x0114 ∷ 0xff17
    ∷ 0xfdcd ∷ 0xfd37 ∷ 0xfd3d ∷ 0xfdb7 ∷ 0xfe75 ∷ 0xff45 ∷ 0x0000 ∷ 0x008a ∷ 0x00d9 ∷ 0x00ec
    ∷ 0x00d0 ∷ 0x0097 ∷ 0x0055 ∷ 0x0018 ∷ []

unfoldable pub signed_words : List ℕ → List ℤ
signed_words [] = []
signed_words (w ∷ ws) = signed16 w ∷ signed_words ws

unfoldable pub fir_coeffs : List ℤ
unfolding signed_words
fir_coeffs = signed_words coeff_words
