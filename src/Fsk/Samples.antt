-- ===== src/Fsk/Samples.antt =====
-- `DSPDemod` of JNI/Common/FSKdsp.c: the samples halved to 12 kHz and put in a ring of 4096.
use mathlib.Core.List.{append-nil, append_assoc}
use piwxrx.Prelude.{
  ℕ, suc, ◌+◌, ◌/◌, ◌%◌, ◌^◌, ◌<◌, ◌≡◌, refl, ◌∙◌, sym, ap, List, [], ◌∷◌, ◌++◌, ◌==◌,
  if◌then◌else◌, true, false, length, length-set, set, arith,
}
use piwxrx.Prelude.Int.{ℤ, pos, ◌+ℤ◌, abs-+ℤ}
use piwxrx.Prelude.Word.{low_bits, ashr, int16, int16_id, add32, add32_exact, IsInt16, abs_int16}
use piwxrx.Prelude.Ring.{next, between, window, window-write}
use piwxrx.Prelude.Word.{AllInt16}

abbrev pub sample_bfrsiz : ℕ
sample_bfrsiz = 4096

-- `wrptr`, `rdptr` and `buffer` of `struct dsp_threads_t`.
pub record SampleBuffer : Type 0 where
  pub wrptr : ℕ
  pub rdptr : ℕ
  pub buffer : List ℤ

-- What is stored for a sum: its half, cut to 16 bits.
unfoldable pub stored : ℤ → ℤ
stored sum = int16 (pos (low_bits 16 (int16 (ashr sum 1))))

abbrev pub store : ℤ → SampleBuffer → SampleBuffer
store sum b = record b {
  buffer = set b.buffer b.wrptr (stored sum);
  wrptr = (b.wrptr + 1) % 2 ^ 12;
}

-- The loop at index `i`, over the samples left; `samplez1` is the sample before.
unfoldable pub demod_loop : ℕ → ℤ → List ℤ → SampleBuffer → SampleBuffer
demod_loop i samplez1 [] b = b
demod_loop i samplez1 (sample ∷ samples) b =
    demod_loop (i + 1) sample samples (if i % 2 == 1 then store (add32 sample samplez1) b else b)

unfoldable pub dsp_demod : List ℤ → SampleBuffer → SampleBuffer
dsp_demod samples b = demod_loop 0 (pos 0) samples b

pub record IsValid (b : SampleBuffer) : Type 0 where
  pub size : length b.buffer ≡ sample_bfrsiz
  pub write_in : b.wrptr < sample_bfrsiz
  pub read_in : b.rdptr < sample_bfrsiz

abbrev pub waiting : SampleBuffer → ℕ
waiting b = between sample_bfrsiz b.rdptr b.wrptr

-- The samples that wait for the demodulator, oldest first.
abbrev pub pending : SampleBuffer → List ℤ
pending b = window sample_bfrsiz (pos 0) b.buffer b.rdptr (waiting b)

-- The means of the pairs of a sequence, rounded down; a last one alone is dropped.
abbrev pub pair_means : List ℤ → List ℤ
pair_means [] = []
pair_means (x ∷ []) = []
pair_means (x ∷ y ∷ samples) = ashr (y +ℤ x) 1 ∷ pair_means samples

half_sum : (x y : ℤ) → IsInt16 x → IsInt16 y → IsInt16 (ashr (y +ℤ x) 1)
unfolding ◌+ℤ◌
half_sum x y hx hy = ground arith

word_back : (z : ℤ) → IsInt16 z → int16 (pos (low_bits 16 z)) ≡ z
unfolding int16
word_back z h = ground arith

stored-sum : (x y : ℤ) → IsInt16 x → IsInt16 y → stored (add32 y x) ≡ ashr (y +ℤ x) 1
unfolding stored
stored-sum x y hx hy =
    let fits = add32_exact y x (omega (arith, abs-+ℤ y x, abs_int16 x hx, abs_int16 y hy)) in
    rw (fits, int16_id (ashr (y +ℤ x) 1) (half_sum x y hx hy))
      (word_back (ashr (y +ℤ x) 1) (half_sum x y hx hy))

store-IsValid : {b : SampleBuffer} (sum : ℤ) → IsValid b → IsValid (store sum b)
store-IsValid {b} sum v = record {
  size = length-set b.buffer b.wrptr (stored sum) ∙ v.size;
  write_in = omega arith;
  read_in = v.read_in;
}

pending-store :
    {b : SampleBuffer} (sum : ℤ)
    → IsValid b
    → suc (waiting b) < sample_bfrsiz
    → (pending (store sum b) ≡ pending b ++ (stored sum ∷ []))
      × (waiting (store sum b) ≡ suc (waiting b))
pending-store {b} sum v room =
    let moved : next sample_bfrsiz b.wrptr ≡ (b.wrptr + 1) % 2 ^ 12 = ground (arith, v) in
    (
      rw moved at (
          window-write sample_bfrsiz (pos 0) b.buffer b.rdptr b.wrptr (stored sum) (omega arith)
            v.read_in v.write_in room),
      ground (arith, v),
    )

demod_loop_pair :
    (x y : ℤ) (xs : List ℤ) (i : ℕ) (z : ℤ) (b : SampleBuffer)
    → i % 2 ≡ 0
    → demod_loop i z (x ∷ y ∷ xs) b ≡ demod_loop (i + 1 + 1) y xs (store (add32 y x) b)
unfolding demod_loop
demod_loop_pair x y xs i z b e =
    let even : (i % 2 == 1) ≡ false = ground arith in
    let odd : ((i + 1) % 2 == 1) ≡ true = ground arith in
    ap
      (λ t. demod_loop (i + 1 + 1) y xs (
        if (i + 1) % 2 == 1
        then store (add32 y x) (if t then store (add32 x z) b else b)
        else (if t then store (add32 x z) b else b)))
      even
    ∙ ap (λ t. demod_loop (i + 1 + 1) y xs (if t then store (add32 y x) b else b)) odd

demod_loop_one :
    (x : ℤ) (i : ℕ) (z : ℤ) (b : SampleBuffer) → i % 2 ≡ 0 → demod_loop i z (x ∷ []) b ≡ b
unfolding demod_loop
demod_loop_one x i z b e =
    let even : (i % 2 == 1) ≡ false = ground arith in
    ap (λ t. if t then store (add32 x z) b else b) even

demod_loop_lem :
    (xs : List ℤ) (i : ℕ) (z : ℤ) {b : SampleBuffer}
    → i % 2 ≡ 0
    → IsValid b
    → AllInt16 xs
    → waiting b + length xs / 2 < sample_bfrsiz
    → (pending (demod_loop i z xs b) ≡ pending b ++ pair_means xs) × IsValid (demod_loop i z xs b)
demod_loop_lem [] i z {b} e v all room = unfold demod_loop in (sym (append-nil (pending b)), v)
demod_loop_lem (x ∷ []) i z {b} e v all room =
    rw (demod_loop_one x i z b e) (sym (append-nil (pending b)), v)
demod_loop_lem (x ∷ y ∷ xs) i z {b} e v all room =
    let put = pending-store (add32 y x) v (omega arith) in
    let rest =
      demod_loop_lem xs (i + 1 + 1) y (omega arith) (store-IsValid (add32 y x) v) all.1.1
        (omega (arith, put.1)) in
    rw (demod_loop_pair x y xs i z b e) (
      rest.0
          ∙ ap (λ q. q ++ pair_means xs) put.0
          ∙ append_assoc (pending b) (stored (add32 y x) ∷ []) (pair_means xs)
          ∙ ap (λ s. pending b ++ (s ∷ pair_means xs)) (stored-sum x y all.0 all.1.0),
      rest.1,
    )

-- While the ring has room for half of them, 16-bit samples are appended to those that wait as the
-- means of their pairs, rounded down, with no overflow and nothing cut off; those that waited stay.
pub dsp_demod_lem :
    (xs : List ℤ) {b : SampleBuffer}
    → IsValid b
    → AllInt16 xs
    → waiting b + length xs / 2 < sample_bfrsiz
    → (pending (dsp_demod xs b) ≡ pending b ++ pair_means xs) × IsValid (dsp_demod xs b)
unfolding dsp_demod
dsp_demod_lem xs v all room = demod_loop_lem xs 0 (pos 0) refl v all room
