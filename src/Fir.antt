-- ===== src/Fir.antt =====
-- JNI/Common/fir.c: the low-pass filter of 45 taps (USE_HANN_LP), one for each channel. The
-- debugging output of FIR_DEBUG is not modelled.
pub mod Coeffs
pub mod Ring
pub mod Convolution
pub mod Start
mod Tests
use Coeffs.{fir_coeffs}
use piwxrx.Prelude.{ℕ, ◌+◌, ◌-◌, List, [], ◌∷◌, ◌==◌, if◌then◌else◌, get_or, set}
use piwxrx.Prelude.Int.{ℤ, pos}
use piwxrx.Prelude.Word.{int32, ashr, mul32, add64}

abbrev pub n_fir_taps : ℕ
n_fir_taps = 45

abbrev pub mac_shift : ℕ
mac_shift = 16

-- `FIR_DATA`
pub record FirData : Type 0 where
  pub chnum : ℕ
  pub wrptr : ℕ
  pub rdptr : ℕ
  pub firdata : List ℤ

-- `I_Channel_FIR` and `Q_Channel_FIR`
pub record Channels : Type 0 where
  pub i_channel : FirData
  pub q_channel : FirData

unfoldable pub fir_init : Channels → Channels
fir_init c = record {
  i_channel = record c.i_channel { chnum = 0; wrptr = 0; rdptr = 0 };
  q_channel = record c.q_channel { chnum = 1; wrptr = 0; rdptr = 0 };
}

-- The loop over the taps from index `i` on, whose coefficients are the list.
unfoldable pub mac_loop : List ℤ → List ℤ → ℕ → ℤ → ℤ × ℕ
mac_loop firdata [] rdptr mac = (mac, rdptr)
mac_loop firdata (c ∷ coeffs) rdptr mac =
    mac_loop firdata coeffs (if rdptr == 0 then n_fir_taps - 1 else rdptr - 1)
      (add64 mac (mul32 (get_or firdata rdptr (pos 0)) c))

unfoldable pub do_fir : ℤ → FirData → ℤ × FirData
do_fir sample fir =
    let firdata = set fir.firdata fir.wrptr sample in
    let (mac, rdptr) = mac_loop firdata fir_coeffs fir.wrptr (pos 0) in
    (
      int32 (ashr mac mac_shift),
      record fir {
        firdata = firdata;
        rdptr = rdptr;
        wrptr = if fir.wrptr == n_fir_taps - 1 then 0 else fir.wrptr + 1;
      },
    )

unfoldable pub run_fir : ℤ → ℕ → Channels → ℤ × Channels
run_fir input_sample channel c =
    if channel == 0
    then (let (out, fir) = do_fir input_sample c.i_channel in (out, record c { i_channel = fir }))
    else if channel == 1
    then (let (out, fir) = do_fir input_sample c.q_channel in (out, record c { q_channel = fir }))
    else (pos 0, c)
