-- ===== src/Codecs/Pipe.antt =====
-- `PipeDecimate` of JNI/Common/codecs.c, which reads and writes one buffer.
use piwxrx.Prelude.{
  ℕ, zero, suc, ◌+◌, ◌*◌, ◌≤◌, ◌<◌, ◌≡◌, refl, ◌∙◌, ap₂, ℕ_discrete, List, length, length-set,
  get_or, set, leb, true, false, arith,
}
use piwxrx.Prelude.Int.{ℤ, pos}
use piwxrx.Prelude.Ring.{get_or-set_self, get_or-set_ne}
use piwxrx.Prelude.Word.{int16, quot, add32}
use piwxrx.Codecs.{pipe_loop, pipe_decimate}

-- Half of a sum that is stored in 16 bits.
abbrev pub half : ℤ → ℤ → ℤ
half a b = quot (int16 (add32 a b)) 2

-- Half of the sum of the samples at 2 * j and 2 * j + 1.
abbrev pub halved : List ℤ → ℕ → ℤ
halved buffer j = half (get_or buffer (2 * j) (pos 0)) (get_or buffer (2 * j + 1) (pos 0))

pipe_loop_behind :
    (n i : ℕ) (buffer : List ℤ) (j : ℕ)
    → j < i
    → get_or (pipe_loop n i buffer) j (pos 0) ≡ get_or buffer j (pos 0)
unfolding pipe_loop
pipe_loop_behind zero i buffer j h = refl
pipe_loop_behind (suc n) i buffer j h =
    pipe_loop_behind n (i + 1) (set buffer i (halved buffer i)) j (omega arith)
    ∙ get_or-set_ne buffer i j (halved buffer i) (pos 0) (omega arith)

pipe_loop_lem :
    (n i : ℕ) (buffer : List ℤ) (j : ℕ)
    → i ≤ j
    → j < i + n
    → i + n ≤ length buffer
    → get_or (pipe_loop n i buffer) j (pos 0) ≡ halved buffer j
unfolding pipe_loop
pipe_loop_lem zero i buffer j low high fits = absurd (omega arith)
pipe_loop_lem (suc n) i buffer j low high fits = elim (ℕ_discrete i j) [
  | yes e ↦
      pipe_loop_behind n (i + 1) (set buffer i (halved buffer i)) j (omega arith)
      ∙ (rw e (get_or-set_self buffer j (halved buffer j) (pos 0) (omega arith)))
  | no ne ↦
      let v = halved buffer i in
      let size = length-set buffer i v in
      pipe_loop_lem n (i + 1) (set buffer i v) j (omega arith) (omega arith) (omega arith)
      ∙ ap₂ half (get_or-set_ne buffer i (2 * j) v (pos 0) (omega arith))
          (get_or-set_ne buffer i (2 * j + 1) v (pos 0) (omega arith))
]

-- When more samples are read than fit, `PipeDecimate` returns the smaller length, and each of the
-- first samples of the buffer is half the sum, in 16 bits, of the two samples that stood at its
-- double index; otherwise nothing changes and it returns the number of samples read.
pub pipe_decimate_lem :
    (buffer : List ℤ) (readlen decimlen : ℕ)
    → readlen ≤ length buffer
    → (decimlen < readlen
        → ((pipe_decimate buffer readlen decimlen).1 ≡ decimlen)
          × ((j : ℕ)
              → j < readlen
              → get_or (pipe_decimate buffer readlen decimlen).0 j (pos 0) ≡ halved buffer j))
      × (readlen ≤ decimlen → pipe_decimate buffer readlen decimlen ≡ (buffer, readlen))
unfolding pipe_decimate
pipe_decimate_lem buffer readlen decimlen fits = (
  (λ more.
      let over : leb readlen decimlen ≡ false = ground arith in
      rw over (
        refl,
        (λ j h. pipe_loop_lem readlen 0 buffer j (omega arith) (omega arith) (omega arith)),
      )),
  (λ fewer. let within : leb readlen decimlen ≡ true = ground arith in rw within refl),
)
