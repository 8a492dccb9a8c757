-- ===== src/Fir/Convolution.antt =====
-- The filter against the convolution of its inputs with the coefficients, in exact integers.
use piwxrx.Prelude.{
  ℕ, ap₂, ◌+◌, ◌*◌, ◌^◌, ◌≤◌, ◌<◌, ◌≡◌, refl, ◌∙◌, List, [], ◌∷◌, length, set, arith,
}
use piwxrx.Prelude.Int.{ℤ, pos, negsuc, ◌+ℤ◌, ◌*ℤ◌, abs, abs-*ℤ, abs-+ℤ, +ℤ_assoc, int_laws}
use piwxrx.Prelude.Word.{AllInt16, IsInt16, abs_int16, int32_id, ashr, mul32_exact, add64_exact}
use piwxrx.Prelude.Ring.{behind}
use piwxrx.Fir.{FirData, n_fir_taps, mac_shift, mac_loop, do_fir}
use piwxrx.Fir.Coeffs.{fir_coeffs}
use piwxrx.Fir.Ring.{IsValid, do_fir-IsValid, mac_hist, mac_loop-eq-mac_hist}

-- The sum of the products of inputs, newest first, and coefficients.
pub dot : List ℤ → List ℤ → ℤ
dot hist [] = pos 0
dot [] (c ∷ coeffs) = pos 0
dot (x ∷ hist) (c ∷ coeffs) = x *ℤ c +ℤ dot hist coeffs

-- The sum of the magnitudes of the coefficients.
abbrev mass : List ℤ → ℕ
mass [] = 0
mass (c ∷ coeffs) = abs c + mass coeffs

product_bound : (x c : ℤ) → IsInt16 x → abs (x *ℤ c) ≤ 2 ^ 15 * abs c
product_bound x c h = rw (abs-*ℤ x c) (bound (abs x) (abs c) (abs_int16 x h))
  where
    bound : (a b : ℕ) → a ≤ 2 ^ 15 → a * b ≤ 2 ^ 15 * b
    bound a b h = grind arith

-- No 32-bit product and no sum leaves its type.
mac_exact :
    (hist coeffs : List ℤ) (mac : ℤ)
    → AllInt16 hist
    → abs mac + 2 ^ 15 * mass coeffs < 2 ^ 31
    → (mac_hist hist coeffs mac ≡ mac +ℤ dot hist coeffs)
      × (abs (dot hist coeffs) ≤ 2 ^ 15 * mass coeffs)
unfolding dot
mac_exact hist [] mac all small = (omega int_laws, omega arith)
mac_exact [] (c ∷ coeffs) mac all small = (omega int_laws, omega arith)
mac_exact (x ∷ hist) (c ∷ coeffs) mac all small =
    let bound : abs (x *ℤ c) ≤ 2 ^ 15 * abs c = product_bound x c all.0 in
    let sum_bound : abs (mac +ℤ x *ℤ c) ≤ abs mac + abs (x *ℤ c) = abs-+ℤ mac (x *ℤ c) in
    let rest = mac_exact hist coeffs (mac +ℤ x *ℤ c) all.1 (omega arith) in
    (
      rw (mul32_exact x c (omega arith), add64_exact mac (x *ℤ c) (omega arith))
          (rest.0 ∙ +ℤ_assoc mac (x *ℤ c) (dot hist coeffs)),
      omega (arith, rest.1, abs-+ℤ (x *ℤ c) (dot hist coeffs)),
    )

coeffs-mass : mass fir_coeffs ≡ 46718
unfolding fir_coeffs
coeffs-mass = refl

length-coeffs : length fir_coeffs ≡ n_fir_taps
unfolding fir_coeffs
length-coeffs = refl

zero_plus : (a : ℤ) → pos 0 +ℤ a ≡ a
zero_plus a = omega int_laws

shift_small : (z : ℤ) → abs z ≤ 2 ^ 15 * 46718 → abs (ashr z 16) ≤ 23359
shift_small (pos n) h = omega arith
shift_small (negsuc n) h = omega arith

-- On 16-bit inputs the filter puts out the convolution of its last 45 inputs with the
-- coefficients, shifted right by 16: no product and no sum overflows, and the magnitude of the
-- output is at most 23359.
pub do_fir_convolves :
    {fir : FirData} {hist : List ℤ} (x : ℤ)
    → IsValid fir hist
    → AllInt16 (x ∷ hist)
    → ((do_fir x fir).0 ≡ ashr (dot (x ∷ hist) fir_coeffs) mac_shift)
      × (abs (do_fir x fir).0 ≤ 23359)
unfolding do_fir
do_fir_convolves {fir} {hist} x v all =
    let v' = do_fir-IsValid x v in
    let fd = set fir.firdata fir.wrptr x in
    let w = (do_fir x fir).1.wrptr in
    let start : behind n_fir_taps w 0 ≡ fir.wrptr = ground (arith, v) in
    let looped : (mac_loop fd fir_coeffs fir.wrptr (pos 0)).0
        ≡ mac_hist (x ∷ hist) fir_coeffs (pos 0) =
      rw start at (
        mac_loop-eq-mac_hist fd w (x ∷ hist) v'.holds v'.enough v'.write_in fir_coeffs
          length-coeffs) in
    let exact = mac_exact (x ∷ hist) fir_coeffs (pos 0) all (rw coeffs-mass (omega arith)) in
    let sum : (mac_loop fd fir_coeffs fir.wrptr (pos 0)).0 ≡ dot (x ∷ hist) fir_coeffs =
      looped ∙ exact.0 ∙ zero_plus (dot (x ∷ hist) fir_coeffs) in
    let small : abs (ashr (dot (x ∷ hist) fir_coeffs) 16) ≤ 23359 =
      shift_small _ (rw coeffs-mass at exact.1) in
    let kept = int32_id (ashr (dot (x ∷ hist) fir_coeffs) mac_shift) (omega arith) in
    rw (sum, kept) (refl, small)

-- The filter over a sequence of inputs, and its outputs.
unfoldable pub filter_all : List ℤ → FirData → List ℤ
filter_all [] fir = []
filter_all (x ∷ xs) fir = let (out, fir') = do_fir x fir in out ∷ filter_all xs fir'

-- The convolutions of a sequence that follows a history.
abbrev pub convolutions : List ℤ → List ℤ → List ℤ
convolutions [] hist = []
convolutions (x ∷ xs) hist = ashr (dot (x ∷ hist) fir_coeffs) mac_shift ∷ convolutions xs (x ∷ hist)

-- Over any sequence of 16-bit inputs the outputs of the filter are the convolutions, shifted right
-- by 16, of what came before: the place where the ring wraps does not show.
pub filter_all_convolves :
    (xs : List ℤ) {fir : FirData} {hist : List ℤ}
    → IsValid fir hist
    → AllInt16 xs
    → AllInt16 hist
    → filter_all xs fir ≡ convolutions xs hist
unfolding filter_all
filter_all_convolves [] v xs_all all = refl
filter_all_convolves (x ∷ xs) v xs_all all =
    ap₂ ◌∷◌ (do_fir_convolves x v (xs_all.0, all)).0
      (filter_all_convolves xs (do_fir-IsValid x v) xs_all.1 (xs_all.0, all))
