-- ===== src/Fsk/Again.antt =====
-- A second burst through the receiver of JNI/Common/FSKdsp.c, after `DSPClearSync` and a silence.
use mathlib.Core.List.{append_assoc}
use piwxrx.Prelude.{
  ℕ, suc, ◌+◌, ◌-◌, ◌≤◌, ◌≡◌, refl, ◌∙◌, sym, ap, Bool, true, ◌⊎◌, inl, inr, List, [], ◌∷◌, ◌++◌,
  replicate, arith,
}
use piwxrx.Fsk.Frame.{Frame, sync_byte, send, frame_bit, frame_bits, frame_bits-send, AllBytes}
use piwxrx.Fsk.Receiver.{Receiver, receive_all, picked, dsp_clear_sync}
use piwxrx.Fsk.Signal.{replicate-add, cell, cell_between, signal, later}
use piwxrx.Fsk.Recovery.{settled, counting, picked-same, picked-signal, HasShortRuns}
use piwxrx.Fsk.Text.{AreText, AreText-AllBytes, send-HasShortRuns}
use piwxrx.Fsk.Acquire.{IsSeeking, IsIdle, after_all, receive_all-match}
use piwxrx.Fsk.Preamble.{before_last}
use piwxrx.Fsk.Stale.{cleared, stale, cleared-IsSeeking, stale-IsMatch}
use piwxrx.Fsk.Idle.{picked-ones, picked-zeros, full, empty, frame_bits-ones}

-- The bits of a sync byte from its first zero on.
abbrev tail_bits : List ℕ
tail_bits = 1 ∷ 0 ∷ 1 ∷ 0 ∷ 1 ∷ []

-- From an edge on, the rest of the zero and the bits behind it are picked.
picked-zero_cell :
    (n : ℕ) (bits : List ℕ) (long : ℕ → Bool)
    → (20 ≤ n) × (n ≤ 21)
    → HasShortRuns 0 1 bits
    → picked (replicate n 0 ++ signal bits long) (settled 0) (counting 11 23) ≡ 0 ∷ bits
picked-zero_cell n bits long h short =
    let left = n - 12 in
    let e : n ≡ 11 + suc left = omega arith in
    ap (λ m. picked (replicate m 0 ++ signal bits long) (settled 0) (counting 11 23)) e
    ∙ picked-same 0 11 22 left (signal bits long) (omega arith)
    ∙ ap (λ l. 0 ∷ l)
        (picked-signal bits long 0 1 (23 - left) 22 short (omega arith, omega arith, omega arith))

-- The ones of a silence and of the first two bits of a burst.
merge_ones :
    (n : ℕ) (rest : List ℕ) (long : ℕ → Bool)
    → replicate n 1 ++ signal (1 ∷ 1 ∷ rest) long
      ≡ replicate (n + (cell (long 0) + cell (long 1))) 1 ++ signal rest (later 2 long)
merge_ones n rest long =
    let c0 = cell (long 0) in
    let c1 = cell (long 1) in
    let more = signal rest (later 2 long) in
    ap (λ l. replicate n 1 ++ l) (sym (append_assoc (replicate c0 1) (replicate c1 1) more))
    ∙ ap (λ l. replicate n 1 ++ (l ++ more)) (sym (replicate-add 1 c0 c1))
    ∙ sym (append_assoc (replicate n 1) (replicate (c0 + c1) 1) more)
    ∙ ap (λ l. l ++ more) (sym (replicate-add 1 n (c0 + c1)))

-- What the clock picks from a silence and a burst behind it.
picked-burst :
    (n : ℕ) (bits : List ℕ) (long : ℕ → Bool)
    → 192 ≤ n
    → HasShortRuns 0 1 bits
    → (m : ℕ) × (8 ≤ m)
      × (let out =
            picked (replicate n 1 ++ signal (1 ∷ 1 ∷ 0 ∷ bits) long) (settled 1) (counting 11 23) in
          (out ≡ replicate m 1 ++ (0 ∷ bits)) ⊎ (out ≡ replicate m 1 ++ (0 ∷ 0 ∷ bits)))
picked-burst n bits long h short =
    let total = n + (cell (long 0) + cell (long 1)) in
    let k = cell (long 2) - 3 in
    let between = cell_between (long 2) in
    let e : cell (long 2) ≡ suc (suc (suc k)) = omega (arith, between) in
    let more = signal bits (later 3 long) in
    let rest = replicate k 0 ++ more in
    let p = picked-ones total 11 23 (0 ∷ 0 ∷ 0 ∷ rest) (omega arith) in
    let edge = picked-zeros rest p.d' p.w' in
    let zero_cell =
      picked-zero_cell k bits (later 3 long) (omega (arith, between), omega (arith, between))
        short in
    let start : picked (replicate n 1 ++ signal (1 ∷ 1 ∷ 0 ∷ bits) long) (settled 1)
          (counting 11 23)
        ≡ replicate p.count 1 ++ picked (0 ∷ 0 ∷ 0 ∷ rest) (settled 1) (counting p.d' p.w') =
      ap (λ l. picked l (settled 1) (counting 11 23))
        (merge_ones n (0 ∷ bits) long ∙ ap (λ c. replicate total 1 ++ (replicate c 0 ++ more)) e)
      ∙ p.picks in
    (
      p.count,
      omega (arith, p.enough),
      elim edge [
        | inl q ↦ inl (start ∙ ap (λ l. replicate p.count 1 ++ l) (q ∙ zero_cell))
        | inr q ↦ inr (start ∙ ap (λ l. replicate p.count 1 ++ l) (q ∙ ap (λ l. 0 ∷ l) zero_cell))
      ],
    )

-- The framing of a burst from the first zero on, and of one whose first zero is picked twice.
module _ (xs : List ℕ) (all : AllBytes xs) where
  abbrev synced : Frame
  synced = record { bytesync = true; demod_byte = sync_byte; bitctr = 0 }

  frame_bits-whole :
      (frame_bits (0 ∷ (tail_bits ++ send (sync_byte ∷ sync_byte ∷ xs))) full).0
      ≡ sync_byte ∷ sync_byte ∷ sync_byte ∷ xs
  frame_bits-whole =
      found
      ∙ ap (λ l. sync_byte ∷ l)
          (frame_bits-send (sync_byte ∷ sync_byte ∷ xs) sync_byte (omega arith, (omega arith, all))
            (omega arith))
    where
      found :
          (frame_bits (0 ∷ (tail_bits ++ send (sync_byte ∷ sync_byte ∷ xs))) full).0
          ≡ sync_byte ∷ (frame_bits (send (sync_byte ∷ sync_byte ∷ xs)) synced).0
      found = unfold frame_bits frame_bit in refl

  frame_bits-doubled :
      (frame_bits (0 ∷ 0 ∷ (tail_bits ++ send (sync_byte ∷ sync_byte ∷ xs))) full).0
      ≡ sync_byte ∷ sync_byte ∷ xs
  frame_bits-doubled =
      found
      ∙ ap (λ l. sync_byte ∷ l)
          (frame_bits-send (sync_byte ∷ xs) sync_byte (omega arith, all) (omega arith))
    where
      found :
          (frame_bits (0 ∷ 0 ∷ (tail_bits ++ send (sync_byte ∷ sync_byte ∷ xs))) full).0
          ≡ sync_byte ∷ (frame_bits (send (sync_byte ∷ xs)) synced).0
      found = unfold frame_bits frame_bit in refl

-- After a burst that began with the signal of two sync bytes after an idle signal, and after any
-- samples that came behind it, `DSPClearSync`, a silence of at least 193 ones and the signal of
-- three sync bytes and text deliver two or three of the sync bytes and all of the text behind
-- them, in order, and nothing else.
pub receive_all-again :
    (rest : List ℕ) (long0 : ℕ → Bool) (r : Receiver) (hist xs : List ℕ) (long : ℕ → Bool) (n : ℕ)
    → IsSeeking r hist
    → IsIdle hist
    → 193 ≤ n
    → AreText xs
    → let cleared = dsp_clear_sync (after_all (before_last long0 ++ (1 ∷ rest)) r) in
      let burst = signal (send (sync_byte ∷ sync_byte ∷ sync_byte ∷ xs)) long in
      let out = receive_all (replicate n 1 ++ burst) cleared in
      (out ≡ sync_byte ∷ sync_byte ∷ sync_byte ∷ xs) ⊎ (out ≡ sync_byte ∷ sync_byte ∷ xs)
receive_all-again rest long0 r hist xs long n s idle h text =
    let k = n - 1 in
    let e : n ≡ suc k = omega arith in
    let bits = tail_bits ++ send (sync_byte ∷ sync_byte ∷ xs) in
    let burst = signal (1 ∷ 1 ∷ 0 ∷ bits) long in
    let short : HasShortRuns 0 1 bits = (
      omega arith,
      (
        omega arith,
        (
          omega arith,
          (
            omega arith,
            (
              omega arith,
              send-HasShortRuns (sync_byte ∷ sync_byte ∷ xs) 1 1 (refl, (refl, text)) refl,
            ),
          ),
        ),
      ),
    ) in
    let p = picked-burst k bits long (omega arith) short in
    let ready = cleared rest long0 r hist s idle in
    let all = AreText-AllBytes xs text in
    let start : receive_all (replicate n 1 ++ burst) ready
        ≡ (frame_bits (picked (replicate k 1 ++ burst) (settled 1) (counting 11 23)) empty).0 =
      ap (λ m. receive_all (replicate m 1 ++ burst) ready) e
      ∙ receive_all-match 1 (replicate k 1 ++ burst) ready (stale rest long0 r hist s idle)
          (cleared-IsSeeking rest long0 r hist s idle) (stale-IsMatch rest long0 r hist s idle) in
    elim p.2 [
      | inl q ↦ inl (
          start
          ∙ ap (λ l. (frame_bits l empty).0) q
          ∙ frame_bits-ones p.0 (0 ∷ bits) p.1
          ∙ frame_bits-whole xs all)
      | inr q ↦ inr (
          start
          ∙ ap (λ l. (frame_bits l empty).0) q
          ∙ frame_bits-ones p.0 (0 ∷ 0 ∷ bits) p.1
          ∙ frame_bits-doubled xs all)
    ]
