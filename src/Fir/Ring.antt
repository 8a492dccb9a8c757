-- ===== src/Fir/Ring.antt =====
-- The sample store of the filter as the history of its inputs.
use piwxrx.Prelude.{
  ℕ, zero, suc, ◌+◌, ◌-◌, ◌≤◌, ◌<◌, ◌≡◌, refl, ◌∙◌, List, [], ◌∷◌, ◌==◌, if◌then◌else◌, length,
  length-set, drop, get_or, arith,
}
use piwxrx.Prelude.Int.{ℤ, pos}
use piwxrx.Prelude.Word.{mul32, add64}
use piwxrx.Prelude.Ring.{next, behind, Holds, Holds-set}
use piwxrx.Fir.{FirData, n_fir_taps, mac_loop, do_fir}

-- The store holds the last 45 inputs, newest first in `hist`.
pub record IsValid (fir : FirData) (hist : List ℤ) : Type 0 where
  pub size : length fir.firdata ≡ n_fir_taps
  pub write_in : fir.wrptr < n_fir_taps
  pub enough : n_fir_taps ≤ length hist
  pub holds : Holds n_fir_taps (pos 0) fir.firdata fir.wrptr hist

pub do_fir-IsValid :
    {fir : FirData} {hist : List ℤ} (x : ℤ) → IsValid fir hist → IsValid (do_fir x fir).1 (x ∷ hist)
unfolding do_fir
do_fir-IsValid {fir} {hist} x v =
    let moved : next n_fir_taps fir.wrptr
        ≡ (if fir.wrptr == n_fir_taps - 1 then 0 else fir.wrptr + 1) =
      ground (arith, v) in
    record {
      size = length-set fir.firdata fir.wrptr x ∙ v.size;
      write_in = ground (arith, v);
      enough = omega (arith, v);
      holds = rw (← moved) (
          Holds-set n_fir_taps (pos 0) fir.firdata fir.wrptr hist x (omega arith) v.write_in
            v.holds);
    }

-- The loop over the taps as a recursion on the history.
abbrev pub mac_hist : List ℤ → List ℤ → ℤ → ℤ
mac_hist hist [] mac = mac
mac_hist [] (c ∷ coeffs) mac = mac
mac_hist (x ∷ hist) (c ∷ coeffs) mac = mac_hist hist coeffs (add64 mac (mul32 x c))

drop-cons :
    (hist : List ℤ) (k : ℕ)
    → k < length hist
    → drop k hist ≡ get_or hist k (pos 0) ∷ drop (suc k) hist
drop-cons [] k h = absurd (omega arith)
drop-cons (x ∷ hist) zero h = refl
drop-cons (x ∷ hist) (suc k) h = drop-cons hist k (omega arith)

module _ (fd : List ℤ) (w : ℕ) (hist : List ℤ) (holds : Holds n_fir_taps (pos 0) fd w hist)
    (enough : n_fir_taps ≤ length hist) (write_in : w < n_fir_taps) where
  mac_loop_from :
      (coeffs : List ℤ) (k rd : ℕ) (mac : ℤ)
      → k + length coeffs ≡ n_fir_taps
      → (k < n_fir_taps → rd ≡ behind n_fir_taps w k)
      → (mac_loop fd coeffs rd mac).0 ≡ mac_hist (drop k hist) coeffs mac
  unfolding mac_loop
  mac_loop_from [] k rd mac e at = refl
  mac_loop_from (c ∷ coeffs) k rd mac e at =
      let here : rd ≡ behind n_fir_taps w k = at (omega arith) in
      let sample : get_or fd rd (pos 0) ≡ get_or hist k (pos 0) =
        rw here (holds k (omega arith) (omega arith)) in
      rw (drop-cons hist k (omega arith), ← sample)
        (mac_loop_from coeffs (suc k) (if rd == 0 then n_fir_taps - 1 else rd - 1)
          (add64 mac (mul32 (get_or fd rd (pos 0)) c)) (omega arith) (λ h. ground arith))

  -- From the last place written the loop meets the inputs from the newest to the oldest.
  pub mac_loop-eq-mac_hist :
      (coeffs : List ℤ)
      → length coeffs ≡ n_fir_taps
      → (mac_loop fd coeffs (behind n_fir_taps w 0) (pos 0)).0 ≡ mac_hist hist coeffs (pos 0)
  mac_loop-eq-mac_hist coeffs e =
      mac_loop_from coeffs 0 (behind n_fir_taps w 0) (pos 0) (omega arith) (λ h. refl)
