-- ===== src/Fsk/Limit.antt =====
-- A run that is too long for the bit clock of JNI/Common/FSKdsp.c.
use native.Mathlib.Nat.{add-zero}
use piwxrx.Prelude.{
  ℕ, zero, suc, ◌+◌, ◌-◌, ◌≤◌, ◌≡◌, ◌≢◌, refl, ◌∙◌, ap, Bool, true, false, List, [], ◌∷◌, ◌++◌,
  replicate, arith,
}
use piwxrx.Fsk.Edge.{Edge, other_sense, third_sense}
use piwxrx.Fsk.Clock.{run_bit_clock, tick_down, tick_long}
use piwxrx.Fsk.Receiver.{picked}
use piwxrx.Fsk.Signal.{signal}
use piwxrx.Fsk.Recovery.{settled, counting, picked-cons, picked-quiet, picked-same, picked-edge}

-- No bit is long.
abbrev pub none_long : ℕ → Bool
none_long i = false

module _ (b : ℕ) where
  -- With each bit of 23 samples the clock is late by one sample more.
  picked_run :
      (n d w : ℕ) (rest : List ℕ)
      → d + n ≤ 23
      → picked (signal (replicate n b ++ rest) none_long) (settled b) (counting d (w + n))
        ≡ replicate n b ++ picked (signal rest none_long) (settled b) (counting (d + n) w)
  picked_run zero d w rest h = rw (add-zero d, add-zero w) refl
  picked_run (suc n) d w rest h =
      let more = signal (replicate n b ++ rest) none_long in
      let left = 22 - d in
      let e1 : 23 ≡ d + suc left = omega arith in
      let e2 : w + suc n ≡ suc (w + n) = omega arith in
      let e3 : 23 - left ≡ suc d = omega arith in
      let e4 : suc d + n ≡ d + suc n = omega arith in
      ap (λ m. picked (replicate m b ++ more) (settled b) (counting d (w + suc n))) e1
      ∙ ap (λ m. picked (replicate (d + suc left) b ++ more) (settled b) (counting d m)) e2
      ∙ picked-same b d (w + n) left more (omega arith)
      ∙ ap (λ m. b ∷ picked more (settled b) (counting m (w + n))) e3
      ∙ ap (λ l. b ∷ l) (picked_run n (suc d) w rest (omega arith))
      ∙ ap (λ m. b ∷ (replicate n b ++ picked (signal rest none_long) (settled b) (counting m w)))
          e4

  -- The bit time falls on the first sample of the next bit.
  picked_late :
      (c w : ℕ) (rest : List ℕ)
      → c ≢ b
      → picked (c ∷ c ∷ c ∷ rest) (settled b) (counting 0 (suc w))
        ≡ c ∷ picked rest (settled c) (counting 11 23)
  unfolding run_bit_clock
  picked_late c w rest ne =
      let one : Edge = record { current_sense = b; xingcnt = 1 } in
      let two : Edge = record { current_sense = b; xingcnt = 2 } in
      picked-cons c (c ∷ c ∷ rest) (settled b) (counting 0 (suc w)) false one true (counting 23 w)
        (other_sense c (settled b) ne (omega arith)) (tick_long w)
      ∙ ap (λ l. c ∷ l)
          (picked-cons c (c ∷ rest) one (counting 23 w) false two false (counting 22 w)
              (other_sense c one ne (omega arith)) (tick_down 22 w)
            ∙ picked-cons c rest two (counting 22 w) true (settled c) false (counting 11 23)
                (third_sense c two ne refl) refl)

-- While the clock is at least two samples from its next tick at the edge, ten equal bits of 23
-- samples after the edge, and another bit after them, are not read: the clock
-- picks a sample of the other bit in the place of the tenth, and then one more of it.
pub picked-ten :
    (s b c d w : ℕ)
    → b ≢ s
    → c ≢ b
    → 2 ≤ d
    → picked (signal (replicate 10 b ++ (c ∷ [])) none_long) (settled s) (counting d w)
      ≡ replicate 9 b ++ (c ∷ c ∷ [])
unfolding picked
picked-ten s b c d w nb nc h =
    let e : d ≡ 2 + (d - 2) = omega arith in
    let run = signal (replicate 8 b ++ (b ∷ c ∷ [])) none_long in
    let last = replicate 23 c in
    ap (λ m. picked (replicate 23 b ++ run) (settled s) (counting m w)) e
    ∙ picked-edge b s (d - 2) w (replicate 20 b ++ run) nb
    ∙ picked-same b 11 22 8 run (omega arith)
    ∙ ap (λ l. b ∷ l)
        (picked_run b 8 15 14 (b ∷ c ∷ []) (omega arith)
          ∙ ap (λ l. replicate 8 b ++ l)
              (picked-quiet b 23 23 0 14 (last ++ []) refl
                ∙ picked_late b c 13 (replicate 20 c ++ []) nc
                ∙ ap (λ l. c ∷ l) (picked-same c 11 22 8 [] (omega arith))))
