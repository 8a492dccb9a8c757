-- ===== src/Fsk/Slicer.antt =====
-- The slicer of JNI/Common/FSKdsp.c on a sequence of phases.
use piwxrx.Prelude.{
  ℕ, ◌-◌, ◌^◌, ◌≤◌, ◌≡◌, refl, ◌∙◌, ap, List, [], ◌∷◌, length, map, if◌then◌else◌, arith,
}
use piwxrx.Prelude.Int.{ℤ, pos, abs, ltb_ℤ, eq_of_parts, int_laws, ◌+ℤ◌, ◌-ℤ◌}
use piwxrx.Prelude.Word.{IsInt16, int16, int16_id, abs_int16, add32, sub32, int32, int32_id}
use piwxrx.Fsk.Front.{slice}

add32_zero : (z : ℤ) → abs z ≤ 2 ^ 15 → add32 z (pos 0) ≡ z
add32_zero z h =
    let e : z +ℤ pos 0 ≡ z = omega int_laws in unfold add32 in ap int32 e ∙ int32_id z (omega arith)

sub32_zero : (z : ℤ) → abs z ≤ 2 ^ 15 → sub32 z (pos 0) ≡ z
sub32_zero z h =
    let e : z -ℤ pos 0 ≡ z = omega int_laws in unfold sub32 in ap int32 e ∙ int32_id z (omega arith)

module _ (decay gain : ℤ → ℤ) where
  -- The bits of a sequence of phases, and the level after them.
  unfoldable pub slices : List ℤ → ℤ → List ℕ × ℤ
  slices [] level = ([], level)
  slices (phase ∷ phases) level =
      let (demod_bit, level1) = slice decay gain phase level in
      let (bits, level2) = slices phases level1 in (demod_bit ∷ bits, level2)

  -- The conversions to `int` cut towards zero: the product by 0.99985 loses at least one, and that
  -- by 0.00015 of less than 6667 is nothing.
  pub record CutsOff : Type 0 where
    pub shrinks : (x : ℤ) → abs x ≤ 2 ^ 15 → abs (decay x) ≤ abs x - 1
    pub nothing : (x : ℤ) → abs x ≤ 6666 → gain x ≡ pos 0

  abbrev pub AreSmall : List ℤ → Type 0
  AreSmall [] = Unit {0}
  AreSmall (phase ∷ phases) = (abs phase ≤ 6666) × AreSmall phases

  slice-small :
      (phase level : ℤ)
      → CutsOff
      → abs phase ≤ 6666
      → abs level ≤ 2 ^ 15
      → slice decay gain phase level
        ≡ ((if ltb_ℤ (pos 0) (sub32 phase (decay level)) then 0 else 1), decay level)
  unfolding slice
  slice-small phase level cuts p l =
      let kept = cuts.shrinks level l in
      let sum : add32 (decay level) (pos 0) ≡ decay level =
        add32_zero (decay level) (omega (arith, kept)) in
      let stored : int16 (add32 (decay level) (gain phase)) ≡ decay level =
        ap (λ g. int16 (add32 (decay level) g)) (cuts.nothing phase p)
        ∙ ap int16 sum
        ∙ int16_id (decay level) (omega (arith, kept)) in
      ap (λ v. ((if ltb_ℤ (pos 0) (sub32 phase v) then 0 else 1), v)) stored

  -- Small phases bring the level towards zero by at least one each.
  slices-shrink :
      (phases : List ℤ) (level : ℤ)
      → CutsOff
      → AreSmall phases
      → abs level ≤ 2 ^ 15
      → abs (slices phases level).1 ≤ abs level - length phases
  unfolding slices
  slices-shrink [] level cuts small l = omega arith
  slices-shrink (phase ∷ phases) level cuts small l =
      let kept = cuts.shrinks level l in
      let more = slices-shrink phases (decay level) cuts small.1 (omega (arith, kept)) in
      rw (slice-small phase level cuts small.0 l) (omega (arith, kept, more))

  -- The bit of a phase by its sign alone.
  abbrev pub sign_bit : ℤ → ℕ
  sign_bit phase = if ltb_ℤ (pos 0) phase then 0 else 1

  slices-zero :
      (phases : List ℤ)
      → CutsOff
      → AreSmall phases
      → slices phases (pos 0) ≡ (map sign_bit phases, pos 0)
  unfolding slices
  slices-zero [] cuts small = refl
  slices-zero (phase ∷ phases) cuts small =
      let none_left = cuts.shrinks (pos 0) (omega arith) in
      let zero_level : decay (pos 0) ≡ pos 0 =
        eq_of_parts (decay (pos 0)) (pos 0) (omega (arith, none_left)) in
      let exact : sub32 phase (pos 0) ≡ phase = sub32_zero phase (omega (arith, small.0)) in
      let step : slice decay gain phase (pos 0) ≡ (sign_bit phase, pos 0) =
        slice-small phase (pos 0) cuts small.0 (omega arith)
        ∙ ap (λ v. ((if ltb_ℤ (pos 0) (sub32 phase v) then 0 else 1), v)) zero_level
        ∙ ap (λ v. ((if ltb_ℤ (pos 0) v then 0 else 1), pos 0)) exact in
      rw step (ap (λ r. (sign_bit phase ∷ r.0, r.1)) (slices-zero phases cuts small.1))

  -- Where the two products are cut off as in C, phases of magnitude 6666 at most bring the level to
  -- zero, one for each unit of it being enough, and from then on the bit is the sign of the phase:
  -- an offset of all phases is not followed, however long it lasts.
  pub slices-small :
      (before after : List ℤ) (level : ℤ)
      → CutsOff
      → AreSmall before
      → AreSmall after
      → IsInt16 level
      → abs level ≤ length before
      → slices after (slices before level).1 ≡ (map sign_bit after, pos 0)
  slices-small before after level cuts small later w h =
      let shrunk = slices-shrink before level cuts small (abs_int16 level w) in
      let gone : (slices before level).1 ≡ pos 0 = eq_of_parts _ (pos 0) (omega (arith, shrunk)) in
      ap (λ v. slices after v) gone ∙ slices-zero after cuts later
