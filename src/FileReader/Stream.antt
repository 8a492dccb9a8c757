-- ===== src/FileReader/Stream.antt =====
-- A whole file through the loop of `main` in JNI/Source/filereader.c.
use piwxrx.Prelude.{
  ℕ, zero, suc, ◌*◌, ◌%◌, ◌<◌, ◌≡◌, refl, ◌∙◌, ap, ap₂, List, [], ◌∷◌, ◌++◌, some, length,
  length-drop, take, drop, arith,
}
use piwxrx.Prelude.Int.{ℤ, ◌+ℤ◌}
use piwxrx.Prelude.Word.{ashr, AllInt16, IsInt16}
use piwxrx.Fsk.Samples.{pair_means}
use piwxrx.FileReader.{insample}
use piwxrx.FileReader.Args.{file_read_size}
use piwxrx.FileReader.Main.{written, loop_pass, file_loop}
use piwxrx.FileReader.Convert.{
  bytes_of, low_byte, high_byte, little_endian, big_endian, convert-bytes_of, length-pair_means,
}

pair_means-split :
    (n : ℕ) (xs : List ℤ)
    → n % 2 ≡ 0
    → pair_means (take n xs) ++ pair_means (drop n xs) ≡ pair_means xs
pair_means-split zero xs e = refl
pair_means-split (suc zero) xs e = absurd (omega arith)
pair_means-split (suc (suc n)) [] e = refl
pair_means-split (suc (suc n)) (x ∷ []) e = refl
pair_means-split (suc (suc n)) (x ∷ y ∷ xs) e =
    ap (λ r. ashr (y +ℤ x) 1 ∷ r) (pair_means-split n xs (omega arith))

take-AllInt16 : (n : ℕ) (xs : List ℤ) → AllInt16 xs → AllInt16 (take n xs)
take-AllInt16 zero xs w = tt
take-AllInt16 (suc n) [] w = tt
take-AllInt16 (suc n) (x ∷ xs) w = (w.0, take-AllInt16 n xs w.1)

drop-AllInt16 : (n : ℕ) (xs : List ℤ) → AllInt16 xs → AllInt16 (drop n xs)
drop-AllInt16 zero xs w = w
drop-AllInt16 (suc n) [] w = tt
drop-AllInt16 (suc n) (x ∷ xs) w = drop-AllInt16 n xs w.1

take_whole {ℓ} : {A : Type ℓ} (xs : List A) → take (length xs) xs ≡ xs
take_whole [] = refl
take_whole (x ∷ xs) = ap (λ r. x ∷ r) (take_whole xs)

module _ (first second : ℤ → ℕ) where
  take-bytes_of :
      (n : ℕ) (xs : List ℤ)
      → take (2 * n) (bytes_of first second xs) ≡ bytes_of first second (take n xs)
  take-bytes_of zero xs = refl
  take-bytes_of (suc n) [] = let e : 2 * suc n ≡ suc (suc (2 * n)) = omega arith in rw e refl
  take-bytes_of (suc n) (x ∷ xs) =
      let e : 2 * suc n ≡ suc (suc (2 * n)) = omega arith in
      rw e (ap (λ r. first x ∷ second x ∷ r) (take-bytes_of n xs))

  drop-bytes_of :
      (n : ℕ) (xs : List ℤ)
      → drop (2 * n) (bytes_of first second xs) ≡ bytes_of first second (drop n xs)
  drop-bytes_of zero xs = refl
  drop-bytes_of (suc n) [] = let e : 2 * suc n ≡ suc (suc (2 * n)) = omega arith in rw e refl
  drop-bytes_of (suc n) (x ∷ xs) =
      let e : 2 * suc n ≡ suc (suc (2 * n)) = omega arith in rw e (drop-bytes_of n xs)

  module _ (shift1 shift2 : ℕ)
      (read_back : (x : ℤ) → IsInt16 x → insample shift1 shift2 0 (first x) (second x) ≡ x) where
    written-bytes_of :
        (xs : List ℤ)
        → AllInt16 xs
        → written shift1 shift2 0 (bytes_of first second xs) ≡ pair_means xs
    unfolding written
    written-bytes_of xs w =
        rw (convert-bytes_of shift1 shift2 first second read_back xs w, ← length-pair_means xs)
          (take_whole (pair_means xs))

    file_loop-bytes_of :
        (m : ℕ)
        → suc m % 2 ≡ 0
        → (fuel : ℕ) (xs : List ℤ) → AllInt16 xs
        → length xs < fuel
        → file_loop shift1 shift2 0 (2 * suc m) fuel (bytes_of first second xs)
          ≡ some (pair_means xs)
    unfolding file_loop
    file_loop-bytes_of m even zero xs w h = absurd (omega arith)
    file_loop-bytes_of m even (suc fuel) [] w h =
        ap
          (λ c.
            loop_pass shift1 shift2 0 c
              (file_loop shift1 shift2 0 (2 * suc m) fuel (drop (2 * suc m) [])))
          (take-bytes_of (suc m) [])
    file_loop-bytes_of m even (suc fuel) (x ∷ xs) w h =
        let n = suc m in
        let rest = drop m xs in
        let more =
          file_loop-bytes_of m even fuel rest (drop-AllInt16 m xs w.1)
            (omega (arith, length-drop m xs)) in
        ap₂ (λ c r. loop_pass shift1 shift2 0 c r) (take-bytes_of n (x ∷ xs))
          (ap (λ c. file_loop shift1 shift2 0 (2 * n) fuel c) (drop-bytes_of n (x ∷ xs)) ∙ more)
        ∙ ap some (
            ap (λ r. r ++ pair_means rest)
              (written-bytes_of (take n (x ∷ xs)) (take-AllInt16 n (x ∷ xs) w))
            ∙ pair_means-split n (x ∷ xs) even)

-- The loop reads a file of 16-bit samples to its end, in blocks of 2880 bytes, for either order of
-- the bytes and no gain, and writes in all the means of the pairs of samples, as if the file were
-- one block; a pass for each sample and one more are enough for it to end.
pub file_loop_lem :
    (xs : List ℤ) (fuel : ℕ)
    → AllInt16 xs
    → length xs < fuel
    → (file_loop 0 8 0 (2 * file_read_size) fuel (bytes_of low_byte high_byte xs)
        ≡ some (pair_means xs))
      × (file_loop 8 0 0 (2 * file_read_size) fuel (bytes_of high_byte low_byte xs)
          ≡ some (pair_means xs))
file_loop_lem xs fuel w h = (
  file_loop-bytes_of low_byte high_byte 0 8 little_endian 1439 refl fuel xs w h,
  file_loop-bytes_of high_byte low_byte 8 0 big_endian 1439 refl fuel xs w h,
)
