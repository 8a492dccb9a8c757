-- ===== src/Fir/Tests.antt =====
-- The filter at concrete inputs.
use piwxrx.Prelude.{◌≡◌, refl, [], ◌∷◌, arith}
use piwxrx.Prelude.Int.{pos, negsuc}
use piwxrx.Prelude.Word.{int32, add64, mul32}
use piwxrx.Fir.{mac_loop, do_fir}
use piwxrx.Fir.Coeffs.{fir_coeffs}
use piwxrx.Fir.Start.{silence, quiet, quiet-IsValid, silence-AllInt16}
use piwxrx.Fir.Convolution.{filter_all, convolutions, filter_all_convolves}

-- A step of 32767 meets the first two coefficients.
impulse : filter_all (pos 32767 ∷ negsuc 32767 ∷ []) quiet ≡ pos 11 ∷ pos 30 ∷ []
unfolding filter_all do_fir mac_loop fir_coeffs int32 add64 mul32
impulse = refl

filter_all_convolves_example :
    filter_all (pos 32767 ∷ negsuc 32767 ∷ []) quiet
    ≡ convolutions (pos 32767 ∷ negsuc 32767 ∷ []) silence
filter_all_convolves_example =
    filter_all_convolves (pos 32767 ∷ negsuc 32767 ∷ []) quiet-IsValid
      (omega arith, (omega arith, tt)) silence-AllInt16
