-- ===== src/FileReader.antt =====
-- The conversion in the loop of `main` in JNI/Source/filereader.c: the bytes of a file or of a
-- card at 48 kHz to samples at 24 kHz for the pipe.
pub mod Args
pub mod Options
pub mod Main
pub mod Stream
pub mod Buffers
pub mod Convert
mod Tests
use piwxrx.Prelude.{
  ℕ, zero, suc, ◌+◌, ◌-◌, ◌*◌, ◌/◌, ◌%◌, List, [], ◌∷◌, ◌==◌, if◌then◌else◌, length, take,
}
use piwxrx.Prelude.Int.{ℤ, pos}
use piwxrx.Prelude.Word.{int16, shl, ashr, add32}

module _ (shift1 shift2 gain : ℕ) where
  -- A sample of two bytes: one shift is 8 and one 0, so that | joins no bit with another.
  unfoldable pub insample : ℕ → ℕ → ℤ
  insample b1 b2 = int16 (add32 (int16 (shl (pos b1) shift1)) (shl (pos b2) shift2))

  -- What is stored for a sum.
  unfoldable pub outsample : ℤ → ℤ
  outsample decimsample = int16 (shl (int16 (ashr decimsample 1)) gain)

  -- The loop from sample `i` on, over the bytes left; `samplez1` is the sample before.
  unfoldable pub convert_loop : ℕ → ℤ → List ℕ → List ℤ
  convert_loop i samplez1 (b1 ∷ b2 ∷ bytes) =
      let x = insample b1 b2 in
      let rest = convert_loop (i + 1) x bytes in
      if i % 2 == 1 then outsample (add32 x samplez1) ∷ rest else rest
  convert_loop i samplez1 _ = []

  -- The samples stored for the bytes read, and how many of them are written.
  unfoldable pub convert : List ℕ → List ℤ × ℕ
  convert bytes =
      let bytes_read = length bytes - length bytes % 2 in
      (convert_loop 0 (pos 0) (take bytes_read bytes), bytes_read / 4)
