-- ===== src/Fsk/Preamble.antt =====
-- The search for sync in JNI/Common/FSKdsp.c on the signal of two sync bytes.
use mathlib.Core.List.{append-nil}
use piwxrx.Prelude.{
  ℕ, zero, suc, ◌+◌, ◌-◌, ◌*◌, ◌≤◌, ◌<◌, ◌≡◌, refl, ◌∙◌, sym, ap, subst, Bool, false, List, [], ◌∷◌,
  ◌++◌, length, length-replicate, get_or, replicate, arith,
}
use piwxrx.Demod.{bit_divisor}
use piwxrx.Fsk.Frame.{frame_bits}
use piwxrx.Fsk.Receiver.{Receiver, receive_all, picked}
use piwxrx.Fsk.Recovery.{settled, counting}
use piwxrx.Fsk.Signal.{cell, cell_between, signal, signal-append, length-signal, later}
use piwxrx.Fsk.Acquire.{
  IsMatch, IsSeeking, onto, after_all, HasNoMatch, HasNoMatch-append, HasNoMatch-zeros,
  HasNoMatch-early, IsIdle, ones-IsIdle, get_or-past, receive_all-IsSeeking, receive_all-match,
}

-- A history of whole bits, the newest first, before an older one.
abbrev pub past : List (ℕ × Bool) → List ℕ → List ℕ
past [] old = old
past ((b, long) ∷ cells) old = replicate (cell long) b ++ past cells old

abbrev pub push : List ℕ → (ℕ → Bool) → List (ℕ × Bool) → List (ℕ × Bool)
push [] long cells = cells
push (b ∷ bits) long cells = push bits (λ i. long (suc i)) ((b, long 0) ∷ cells)

onto-replicate : (n b : ℕ) (hist : List ℕ) → onto (replicate n b) hist ≡ replicate n b ++ hist
onto-replicate zero b hist = refl
onto-replicate (suc n) b hist = onto-replicate n b (b ∷ hist) ∙ turn n
  where
    turn : (m : ℕ) → replicate m b ++ (b ∷ hist) ≡ b ∷ (replicate m b ++ hist)
    turn zero = refl
    turn (suc m) = ap (λ l. b ∷ l) (turn m)

onto-append : (xs ys hist : List ℕ) → onto (xs ++ ys) hist ≡ onto ys (onto xs hist)
onto-append [] ys hist = refl
onto-append (x ∷ xs) ys hist = onto-append xs ys (x ∷ hist)

pub onto-signal :
    (bits : List ℕ) (long : ℕ → Bool) (cells : List (ℕ × Bool)) (old : List ℕ)
    → onto (signal bits long) (past cells old) ≡ past (push bits long cells) old
onto-signal [] long cells old = refl
onto-signal (b ∷ bits) long cells old =
    let h = cell (long 0) in
    onto-append (replicate h b) (signal bits (λ i. long (suc i))) (past cells old)
    ∙ ap (onto (signal bits (λ i. long (suc i)))) (onto-replicate h b (past cells old))
    ∙ onto-signal bits (λ i. long (suc i)) ((b, long 0) ∷ cells) old

get_or-replicate_in : (n b k : ℕ) (ys : List ℕ) → k < n → get_or (replicate n b ++ ys) k 0 ≡ b
get_or-replicate_in zero b k ys h = absurd (omega arith)
get_or-replicate_in (suc n) b zero ys h = refl
get_or-replicate_in (suc n) b (suc k) ys h = get_or-replicate_in n b k ys (omega arith)

abbrev pub values : List (ℕ × Bool) → List ℕ
values [] = []
values ((b, long) ∷ cells) = b ∷ values cells

-- The samples from 24 times `k` on, as far as 23 times `k` and a bit, are of the bit `k`.
pub get_or-values :
    (cells : List (ℕ × Bool)) (old : List ℕ) (k p : ℕ)
    → k < length cells
    → 24 * k ≤ p
    → p ≤ 23 * k + 22
    → get_or (past cells old) p 0 ≡ get_or (values cells) k 0
get_or-values [] old k p h low high = absurd (omega arith)
get_or-values ((b, long) ∷ cells) old zero p h low high =
    get_or-replicate_in (cell long) b p (past cells old) (omega (arith, cell_between long))
get_or-values ((b, long) ∷ cells) old (suc k) p h low high =
    let n = cell long in
    let between = cell_between long in
    let whole = length-replicate n b in
    get_or-past (replicate n b) (past cells old) p (omega (arith, between, whole))
    ∙ ap (λ m. get_or (past cells old) (p - m) 0) whole
    ∙ get_or-values cells old k (p - n) (omega arith) (omega (arith, between))
        (omega (arith, between))

-- The first fourteen bits of two sync bytes; a zero and a one follow.
abbrev pub middle : List ℕ
middle = 0 ∷ 1 ∷ 0 ∷ 1 ∷ 0 ∷ 1 ∷ 1 ∷ 1 ∷ 0 ∷ 1 ∷ 0 ∷ 1 ∷ []

abbrev pub opening : List ℕ
opening = 1 ∷ 1 ∷ middle

pub opening-IsMatch :
    (long : ℕ → Bool) (old : List ℕ) → IsMatch 1 (past (push (opening ++ (0 ∷ [])) long []) old)
opening-IsMatch long old zero h = refl
opening-IsMatch long old (suc k) h =
    let e : suc k * bit_divisor ≡ suc (23 * k + 22) = omega arith in
    rw e (
      get_or-values (push (opening ++ (0 ∷ [])) long []) old k (23 * k + 22) (omega arith)
        (omega arith) (omega arith))

-- The two ones that the bytes begin with.
two-IsIdle :
    (long : ℕ → Bool) (hist : List ℕ) → IsIdle hist → IsIdle (onto (signal (1 ∷ 1 ∷ []) long) hist)
two-IsIdle long hist idle =
    let first = replicate (cell (long 0)) 1 in
    let second = replicate (cell (long 1)) 1 in
    subst IsIdle
      (sym (
        onto-append first (second ++ []) hist
        ∙ ap (λ l. onto l (onto first hist)) (append-nil second)))
      (ones-IsIdle (cell (long 1)) (onto first hist) (ones-IsIdle (cell (long 0)) hist idle))

-- The signal up to the last bit of the two bytes.
abbrev pub before_last : (ℕ → Bool) → List ℕ
before_last long = signal (opening ++ (0 ∷ [])) long

pub before_last-HasNoMatch :
    (long : ℕ → Bool) (hist : List ℕ) → IsIdle hist → HasNoMatch (before_last long) hist
before_last-HasNoMatch long hist idle =
    let xs = signal opening long in
    let two = signal (1 ∷ 1 ∷ []) long in
    let rest = signal middle (later 2 long) in
    subst (λ l. HasNoMatch l hist) (sym (signal-append opening (0 ∷ []) long))
      (HasNoMatch-append xs _ hist
        (subst (λ l. HasNoMatch l hist) (sym (signal-append (1 ∷ 1 ∷ []) middle long))
          (HasNoMatch-append two rest hist
            (HasNoMatch-early two [] hist idle (omega (arith, length-signal (1 ∷ 1 ∷ []) long)))
            (HasNoMatch-early rest [] (onto two hist) (two-IsIdle long hist idle)
              (omega (arith, length-signal middle (later 2 long))))))
        (HasNoMatch-append (replicate (cell (long 14)) 0) [] (onto xs hist)
          (HasNoMatch-zeros (cell (long 14)) (onto xs hist)) tt))

-- After an idle signal, the receiver delivers from the last bit of two sync bytes and from a rest of the
-- signal what the framing makes of the samples that the clock picks from there on.
pub receive_all-preamble :
    (bits : List ℕ) (long : ℕ → Bool) (r : Receiver) (hist : List ℕ) (n : ℕ)
    → IsSeeking r hist
    → IsIdle hist
    → cell (long 15) ≡ suc n
    → receive_all (signal (opening ++ (0 ∷ 1 ∷ bits)) long) r
      ≡ (frame_bits
          (picked (replicate n 1 ++ signal bits (later 16 long)) (settled 1) (counting 11 23))
          (record { bytesync = false; demod_byte = 0; bitctr = 0 })).0
receive_all-preamble bits long r hist n s idle e =
    let rest = signal bits (later 16 long) in
    let tail : signal (1 ∷ bits) (later 15 long) ≡ 1 ∷ (replicate n 1 ++ rest) =
      ap (λ m. replicate m 1 ++ rest) e in
    let split : signal (opening ++ (0 ∷ 1 ∷ bits)) long
        ≡ before_last long ++ (1 ∷ (replicate n 1 ++ rest)) =
      signal-append (opening ++ (0 ∷ [])) (1 ∷ bits) long ∙ ap (λ l. before_last long ++ l) tail in
    let found =
      receive_all-IsSeeking (before_last long) (1 ∷ (replicate n 1 ++ rest)) r hist s
        (before_last-HasNoMatch long hist idle) in
    ap (λ l. receive_all l r) split
    ∙ found.1
    ∙ receive_all-match 1 (replicate n 1 ++ rest) (after_all (before_last long) r)
        (onto (before_last long) hist) found.0
        (subst (IsMatch 1) (sym (onto-signal (opening ++ (0 ∷ [])) long [] hist))
          (opening-IsMatch long hist))
