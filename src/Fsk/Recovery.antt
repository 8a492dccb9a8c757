-- ===== src/Fsk/Recovery.antt =====
-- The bit clock of JNI/Common/FSKdsp.c on an ideal signal: which samples it picks.
use mathlib.Core.List.{append_assoc}
use piwxrx.Prelude.{
  ℕ, zero, suc, ◌+◌, ◌-◌, ◌≤◌, ◌≡◌, ◌≢◌, refl, ◌∙◌, sym, ap, ℕ_discrete, Bool, true, false, List,
  [], ◌∷◌, ◌++◌, ◌==◌, replicate, if◌then◌else◌, arith,
}
use piwxrx.Fsk.Edge.{Edge, edge_detect, same_sense, other_sense, third_sense}
use piwxrx.Fsk.Clock.{Clock, run_bit_clock, tick_down, tick_long}
use piwxrx.Fsk.Receiver.{picked}
use piwxrx.Fsk.Signal.{replicate-add, cell, cell_between, signal}

-- No edge is under way.
abbrev pub settled : ℕ → Edge
settled s = record { current_sense = s; xingcnt = 0 }

abbrev pub counting : ℕ → ℕ → Clock
counting d w = record { divisor = d; swallow_ctr = w }

-- The list of a sample that is picked, and what is picked after it.
abbrev emit_if : Bool → ℕ → List ℕ → List ℕ
emit_if tick b rest = if tick then b ∷ rest else rest

pub picked-cons :
    (b : ℕ) (bits : List ℕ) (e : Edge) (c : Clock) (found : Bool) (e' : Edge) (tick : Bool)
    (c' : Clock)
    → edge_detect b false e ≡ (found, e')
    → run_bit_clock found c ≡ (tick, c')
    → picked (b ∷ bits) e c ≡ emit_if tick b (picked bits e' c')
unfolding picked
picked-cons b bits e c found e' tick c' p q =
    ap (λ r. let t = run_bit_clock r.0 c in emit_if t.0 b (picked bits r.1 t.1)) p
    ∙ ap (λ t. emit_if t.0 b (picked bits e' t.1)) q

module _ (b : ℕ) where
  -- Samples before the bit time are passed over.
  pub picked-quiet :
      (n k d w : ℕ) (rest : List ℕ)
      → k ≡ d + n
      → picked (replicate n b ++ rest) (settled b) (counting k w)
        ≡ picked rest (settled b) (counting d w)
  picked-quiet zero k d w rest e =
      let e' : k ≡ d = omega arith in ap (λ j. picked rest (settled b) (counting j w)) e'
  picked-quiet (suc n) k d w rest e =
      let e' : k ≡ suc (d + n) = omega arith in
      rw e' (
        picked-cons b (replicate n b ++ rest) (settled b) (counting (suc (d + n)) w) false
          (settled b) false (counting (d + n) w) (same_sense b (settled b) refl)
          (tick_down (d + n) w)
        ∙ picked-quiet n (d + n) d w rest refl)

  -- A bit like the one before: one sample is picked, and the clock is late by what it lacks to 24.
  pub picked-same :
      (d w left : ℕ) (rest : List ℕ)
      → left ≤ 23
      → picked (replicate (d + suc left) b ++ rest) (settled b) (counting d (suc w))
        ≡ b ∷ picked rest (settled b) (counting (23 - left) w)
  picked-same d w left rest h =
      let cut : replicate (d + suc left) b ++ rest
          ≡ replicate d b ++ (b ∷ (replicate left b ++ rest)) =
        ap (λ l. l ++ rest) (replicate-add b d (suc left)) ∙ append_assoc (replicate d b) _ rest in
      ap (λ l. picked l (settled b) (counting d (suc w))) cut
      ∙ picked-quiet d d 0 (suc w) (b ∷ (replicate left b ++ rest)) (omega arith)
      ∙ picked-cons b (replicate left b ++ rest) (settled b) (counting 0 (suc w)) false (settled b)
          true (counting 23 w) (same_sense b (settled b) refl) (tick_long w)
      ∙ ap (λ l. b ∷ l) (picked-quiet left 23 (23 - left) w rest (omega arith))

  -- The first three samples of a bit unlike the one before: the third restarts the clock.
  pub picked-edge :
      (s d w : ℕ) (rest : List ℕ)
      → b ≢ s
      → picked (b ∷ b ∷ b ∷ rest) (settled s) (counting (2 + d) w)
        ≡ picked rest (settled b) (counting 11 23)
  unfolding run_bit_clock
  picked-edge s d w rest ne =
      let one : Edge = record { current_sense = s; xingcnt = 1 } in
      let two : Edge = record { current_sense = s; xingcnt = 2 } in
      let e : 2 + d ≡ suc (suc d) = omega arith in
      rw e (
        picked-cons b (b ∷ b ∷ rest) (settled s) (counting (suc (suc d)) w) false one false
          (counting (suc d) w) (other_sense b (settled s) ne (omega arith)) (tick_down (suc d) w)
        ∙ picked-cons b (b ∷ rest) one (counting (suc d) w) false two false (counting d w)
            (other_sense b one ne (omega arith)) (tick_down d w)
        ∙ picked-cons b rest two (counting d w) true (settled b) false (counting 11 23)
            (third_sense b two ne refl) refl)

-- How many bits the present run has with `b`, after `c` bits of `s`.
abbrev pub run_length : ℕ → ℕ → ℕ → ℕ
run_length s c b = if b == s then suc c else 1

-- No run is of more than nine bits, where `c` bits of `s` came before.
abbrev pub HasShortRuns : ℕ → ℕ → List ℕ → Type 0
HasShortRuns s c [] = Unit {0}
HasShortRuns s c (b ∷ bits) = (run_length s c b ≤ 9) × HasShortRuns b (run_length s c b) bits

picked_next :
    (b s c d w h : ℕ) (rest : List ℕ)
    → (23 ≤ h) × (h ≤ 24)
    → run_length s c b ≤ 9
    → (2 ≤ d) × (d ≤ 14 + c) × (23 ≤ w + c)
    → (d' : ℕ) × (w' : ℕ) × (picked (replicate h b ++ rest) (settled s) (counting d w)
        ≡ b ∷ picked rest (settled b) (counting d' w'))
      × ((2 ≤ d') × (d' ≤ 14 + run_length s c b) × (23 ≤ w' + run_length s c b))
picked_next b s c d w h rest hh short inv = elim (ℕ_discrete b s) [
  | yes e ↦
      let same : run_length s c b ≡ suc c = ground (arith, e) in
      let left = h - 1 - d in
      let eh : h ≡ d + suc left = omega (arith, same) in
      let ew : w ≡ suc (w - 1) = omega (arith, same) in
      (
        23 - left,
        w - 1,
        ap (λ n. picked (replicate n b ++ rest) (settled s) (counting d w)) eh
            ∙ ap (λ n. picked (replicate (d + suc left) b ++ rest) (settled s) (counting d n)) ew
            ∙ ap
                (λ n.
                  picked (replicate (d + suc left) b ++ rest) (settled n)
                    (counting d (suc (w - 1))))
                (sym e)
            ∙ picked-same b d (w - 1) left rest (omega (arith, same)),
        (omega (arith, same), omega (arith, same), omega (arith, same)),
      )
  | no ne ↦
      let fresh : run_length s c b ≡ 1 = ground (arith, ne) in
      let left = h - 15 in
      let eh : h ≡ suc (suc (suc (11 + suc left))) = omega arith in
      let ed : d ≡ 2 + (d - 2) = omega arith in
      (
        23 - left,
        22,
        ap (λ n. picked (replicate n b ++ rest) (settled s) (counting d w)) eh
            ∙ ap
                (λ n.
                  picked (b ∷ b ∷ b ∷ (replicate (11 + suc left) b ++ rest)) (settled s)
                    (counting n w))
                ed
            ∙ picked-edge b s (d - 2) w (replicate (11 + suc left) b ++ rest) ne
            ∙ picked-same b 11 22 left rest (omega arith),
        (omega (arith, fresh), omega (arith, fresh), omega (arith, fresh)),
      )
]

-- From a clock whose next bit time comes in 2 to 14 samples and a bit more for each bit of the run
-- before, the clock picks one sample of each bit of the signal, in order, as long as no run is of
-- more than nine bits.
pub picked-signal :
    (bits : List ℕ) (long : ℕ → Bool) (s c d w : ℕ)
    → HasShortRuns s c bits
    → (2 ≤ d) × (d ≤ 14 + c) × (23 ≤ w + c)
    → picked (signal bits long) (settled s) (counting d w) ≡ bits
unfolding picked
picked-signal [] long s c d w short inv = refl
picked-signal (b ∷ bits) long s c d w short inv =
    let next =
      picked_next b s c d w (cell (long 0)) (signal bits (λ i. long (suc i)))
        (cell_between (long 0)) short.0 inv in
    next.2
    ∙ ap (λ l. b ∷ l)
        (picked-signal bits (λ i. long (suc i)) b (run_length s c b) next.0 next.1 short.1 next.3)
