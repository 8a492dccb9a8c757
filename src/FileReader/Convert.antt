-- ===== src/FileReader/Convert.antt =====
-- The conversion of JNI/Source/filereader.c on samples stored in bytes.
use piwxrx.Prelude.{
  ℕ, ◌+◌, ◌-◌, ◌*◌, ◌/◌, ◌%◌, ◌≡◌, refl, ◌∙◌, sym, ap, true, false, List, [], ◌∷◌, ◌==◌, length,
  take, arith,
}
use piwxrx.Prelude.Int.{ℤ, pos, ◌+ℤ◌, ◌*ℤ◌, abs-+ℤ}
use piwxrx.Prelude.Word.{
  AllInt16, IsInt16, abs_int16, int16, low_bits, shl, ashr, add32, add32_exact,
}
use piwxrx.Fsk.Samples.{pair_means}
use piwxrx.FileReader.{insample, outsample, convert_loop, convert}

-- The bytes of a sample in two's complement.
abbrev pub low_byte : ℤ → ℕ
low_byte x = low_bits 8 x

abbrev pub high_byte : ℤ → ℕ
high_byte x = low_bits 8 (ashr x 8)

-- The bytes of a sequence, two for a sample.
abbrev pub bytes_of : (ℤ → ℕ) → (ℤ → ℕ) → List ℤ → List ℕ
bytes_of first second [] = []
bytes_of first second (x ∷ xs) = first x ∷ second x ∷ bytes_of first second xs

pub little_endian : (x : ℤ) → IsInt16 x → insample 0 8 0 (low_byte x) (high_byte x) ≡ x
unfolding insample int16 shl add32 ◌+ℤ◌ ◌*ℤ◌
little_endian x h = ground arith

pub big_endian : (x : ℤ) → IsInt16 x → insample 8 0 0 (high_byte x) (low_byte x) ≡ x
unfolding insample int16 shl add32 ◌+ℤ◌ ◌*ℤ◌
big_endian x h = ground arith

half : (x y : ℤ) → IsInt16 x → IsInt16 y → IsInt16 (ashr (y +ℤ x) 1)
unfolding ◌+ℤ◌
half x y hx hy = ground arith

unshifted : (x : ℤ) → IsInt16 x → int16 (shl (int16 x) 0) ≡ x
unfolding int16 shl ◌*ℤ◌
unshifted x h = ground arith

module _ (shift1 shift2 : ℕ) where
  outsample-sum :
      (x y : ℤ) → IsInt16 x → IsInt16 y → outsample shift1 shift2 0 (add32 y x) ≡ ashr (y +ℤ x) 1
  unfolding outsample
  outsample-sum x y hx hy =
      let fits = add32_exact y x (omega (arith, abs-+ℤ y x, abs_int16 x hx, abs_int16 y hy)) in
      rw fits (unshifted (ashr (y +ℤ x) 1) (half x y hx hy))

  module _ (first second : ℤ → ℕ)
      (read_back : (x : ℤ) → IsInt16 x → insample shift1 shift2 0 (first x) (second x) ≡ x) where
    convert_loop_lem :
        (xs : List ℤ) (i : ℕ) (z : ℤ)
        → i % 2 ≡ 0
        → AllInt16 xs
        → convert_loop shift1 shift2 0 i z (bytes_of first second xs) ≡ pair_means xs
    unfolding convert_loop
    convert_loop_lem [] i z e w = refl
    convert_loop_lem (x ∷ []) i z e w =
        let even : (i % 2 == 1) ≡ false = ground arith in rw even refl
    convert_loop_lem (x ∷ y ∷ xs) i z e (wx, (wy, w)) =
        let even : (i % 2 == 1) ≡ false = ground arith in
        let odd : ((i + 1) % 2 == 1) ≡ true = ground arith in
        rw (even, odd, read_back x wx, read_back y wy, outsample-sum x y wx wy)
          (ap (λ r. ashr (y +ℤ x) 1 ∷ r) (convert_loop_lem xs (i + 1 + 1) y (omega arith) w))

    pub length-bytes_of : (xs : List ℤ) → length (bytes_of first second xs) ≡ 2 * length xs
    length-bytes_of [] = refl
    length-bytes_of (x ∷ xs) = omega (arith, length-bytes_of xs)

    pub convert-bytes_of :
        (xs : List ℤ)
        → AllInt16 xs
        → convert shift1 shift2 0 (bytes_of first second xs) ≡ (pair_means xs, length xs / 2)
    unfolding convert
    convert-bytes_of xs w =
        let bytes = bytes_of first second xs in
        let size = length-bytes_of xs in
        let even : length bytes - length bytes % 2 ≡ length bytes = omega arith in
        let count : length bytes / 4 ≡ length xs / 2 = omega arith in
        rw (even, take_whole bytes, count)
          (ap (λ r. (r, length xs / 2)) (convert_loop_lem xs 0 (pos 0) refl w))
      where
        take_whole : (bs : List ℕ) → take (length bs) bs ≡ bs
        take_whole [] = refl
        take_whole (b ∷ bs) = ap (λ r. b ∷ r) (take_whole bs)

pub length-pair_means : (xs : List ℤ) → length (pair_means xs) ≡ length xs / 2
length-pair_means [] = refl
length-pair_means (x ∷ []) = omega arith
length-pair_means (x ∷ y ∷ xs) = omega (arith, length-pair_means xs)

-- With no gain, the bytes of 16-bit samples, read with the shifts for their order, low byte first
-- or high byte first, are converted to the means of the pairs of samples, and as many samples are
-- written as there are means.
pub convert_lem :
    (xs : List ℤ)
    → AllInt16 xs
    → (convert 0 8 0 (bytes_of low_byte high_byte xs) ≡ (pair_means xs, length (pair_means xs)))
      × (convert 8 0 0 (bytes_of high_byte low_byte xs) ≡ (pair_means xs, length (pair_means xs)))
convert_lem xs w =
    let count = ap (λ n. let r : List ℤ × ℕ = (pair_means xs, n) in r) (length-pair_means xs) in
    (
      convert-bytes_of 0 8 low_byte high_byte little_endian xs w ∙ sym count,
      convert-bytes_of 8 0 high_byte low_byte big_endian xs w ∙ sym count,
    )
