-- ===== src/Fsk/Idle.antt =====
-- The receiver of JNI/Common/FSKdsp.c in sync on an idle signal, and at the first zero after it.
use piwxrx.Prelude.{
  ℕ, zero, suc, ◌+◌, ◌-◌, ◌*◌, ◌≤◌, ◌≡◌, refl, ◌∙◌, ap, true, false, ◌⊎◌, inl, inr, List, ◌∷◌, ◌++◌,
  replicate, arith,
}
use piwxrx.Fsk.Edge.{Edge, edge_detect, same_sense, other_sense, third_sense}
use piwxrx.Fsk.Clock.{Clock, run_bit_clock, tick_down, tick_long, tick_short}
use piwxrx.Fsk.Frame.{Frame, frame_bit, frame_bits}
use piwxrx.Fsk.Receiver.{picked}
use piwxrx.Fsk.Recovery.{settled, counting, picked-cons, picked-edge}

-- What the clock picks from `n` ones: so many ones that at most 23 samples are left over.
pub record Picks (n d w : ℕ) (rest : List ℕ) : Type 0 where
  pub count : ℕ
  pub d' : ℕ
  pub w' : ℕ
  pub picks :
      picked (replicate n 1 ++ rest) (settled 1) (counting d w)
      ≡ replicate count 1 ++ picked rest (settled 1) (counting d' w')
  pub low : d' ≤ 23
  pub enough : n + d' ≤ d + 24 * count

pub picked-ones : (n d w : ℕ) (rest : List ℕ) → d ≤ 23 → Picks n d w rest
picked-ones zero d w rest h = record {
  count = 0;
  d' = d;
  w' = w;
  picks = refl;
  low = h;
  enough = omega arith;
}
picked-ones (suc n) (suc d) w rest h =
    let p = picked-ones n d w rest (omega arith) in
    record {
      count = p.count;
      d' = p.d';
      w' = p.w';
      picks =
          picked-cons 1 (replicate n 1 ++ rest) (settled 1) (counting (suc d) w) false (settled 1)
            false (counting d w) (same_sense 1 (settled 1) refl) (tick_down d w)
          ∙ p.picks;
      low = p.low;
      enough = omega (arith, p.enough);
    }
picked-ones (suc n) zero (suc w) rest h =
    let p = picked-ones n 23 w rest (omega arith) in
    record {
      count = suc p.count;
      d' = p.d';
      w' = p.w';
      picks =
          picked-cons 1 (replicate n 1 ++ rest) (settled 1) (counting 0 (suc w)) false (settled 1)
            true (counting 23 w) (same_sense 1 (settled 1) refl) (tick_long w)
          ∙ ap (λ l. 1 ∷ l) p.picks;
      low = p.low;
      enough = omega (arith, p.enough);
    }
picked-ones (suc n) zero zero rest h =
    let p = picked-ones n 22 23 rest (omega arith) in
    record {
      count = suc p.count;
      d' = p.d';
      w' = p.w';
      picks =
          picked-cons 1 (replicate n 1 ++ rest) (settled 1) (counting 0 0) false (settled 1) true
            (counting 22 23) (same_sense 1 (settled 1) refl) tick_short
          ∙ ap (λ l. 1 ∷ l) p.picks;
      low = p.low;
      enough = omega (arith, p.enough);
    }

-- A bit time without an edge.
ticks : (w : ℕ) → (c : Clock) × (run_bit_clock false (counting 0 w) ≡ (true, c))
ticks zero = (counting 22 23, tick_short)
ticks (suc w) = (counting 23 w, tick_long w)

module _ (rest : List ℕ) where
  abbrev one : Edge
  one = record { current_sense = 1; xingcnt = 1 }

  abbrev two : Edge
  two = record { current_sense = 1; xingcnt = 2 }

  first_zero : edge_detect 0 false (settled 1) ≡ (false, one)
  first_zero = other_sense 0 (settled 1) (ground arith) (omega arith)

  second_zero : edge_detect 0 false one ≡ (false, two)
  second_zero = other_sense 0 one (ground arith) (omega arith)

  third_picked : (c : Clock) → picked (0 ∷ rest) two c ≡ picked rest (settled 0) (counting 11 23)
  unfolding run_bit_clock
  third_picked c =
      picked-cons 0 rest two c true (settled 0) false (counting 11 23)
        (third_sense 0 two (ground arith) refl) refl

  first_late :
      (w d' w' : ℕ)
      → run_bit_clock false (counting 0 w) ≡ (true, counting (suc d') w')
      → picked (0 ∷ 0 ∷ 0 ∷ rest) (settled 1) (counting 0 w)
        ≡ 0 ∷ picked rest (settled 0) (counting 11 23)
  first_late w d' w' t =
      picked-cons 0 (0 ∷ 0 ∷ rest) (settled 1) (counting 0 w) false one true (counting (suc d') w')
        first_zero t
      ∙ ap (λ l. 0 ∷ l)
          (picked-cons 0 (0 ∷ rest) one (counting (suc d') w') false two false (counting d' w')
              second_zero (tick_down d' w')
            ∙ third_picked (counting d' w'))

  -- The first three zeros restart the clock. If it was about to tick, one of them is picked.
  pub picked-zeros :
      (d w : ℕ)
      → let out = picked (0 ∷ 0 ∷ 0 ∷ rest) (settled 1) (counting d w) in
        let next = picked rest (settled 0) (counting 11 23) in (out ≡ next) ⊎ (out ≡ 0 ∷ next)
  picked-zeros zero zero = inr (first_late zero 21 23 tick_short)
  picked-zeros zero (suc w) = inr (first_late (suc w) 22 w (tick_long w))
  picked-zeros (suc zero) w =
      let t = ticks w in
      inr (
        picked-cons 0 (0 ∷ 0 ∷ rest) (settled 1) (counting 1 w) false one false (counting 0 w)
          first_zero (tick_down 0 w)
        ∙ picked-cons 0 (0 ∷ rest) one (counting 0 w) false two true t.0 second_zero t.1
        ∙ ap (λ l. 0 ∷ l) (third_picked t.0))
  picked-zeros (suc (suc d)) w =
      let e : suc (suc d) ≡ 2 + d = omega arith in
      rw e (inl (picked-edge 0 1 d w rest (ground arith)))

abbrev pub full : Frame
full = record { bytesync = false; demod_byte = 0xff; bitctr = 0 }

abbrev pub empty : Frame
empty = record { bytesync = false; demod_byte = 0; bitctr = 0 }

frame_bits-full :
    (n : ℕ) (bits : List ℕ) → (frame_bits (replicate n 1 ++ bits) full).0 ≡ (frame_bits bits full).0
unfolding frame_bits frame_bit
frame_bits-full zero bits = refl
frame_bits-full (suc n) bits = frame_bits-full n bits

-- Ones alone make up no byte, and fill the register.
pub frame_bits-ones :
    (n : ℕ) (bits : List ℕ)
    → 8 ≤ n
    → (frame_bits (replicate n 1 ++ bits) empty).0 ≡ (frame_bits bits full).0
unfolding frame_bits frame_bit
frame_bits-ones n bits h =
    let left = n - 8 in
    let e : n ≡ suc (suc (suc (suc (suc (suc (suc (suc left))))))) = omega arith in
    ap (λ m. (frame_bits (replicate m 1 ++ bits) empty).0) e ∙ frame_bits-full left bits
