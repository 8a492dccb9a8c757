-- ===== src/Demod/Delay.antt =====
-- The discriminator's delay lines, and its value in exact integers.
use piwxrx.Prelude.{
  ℕ, zero, suc, ◌+◌, ◌*◌, ◌%◌, ◌^◌, ◌≤◌, ◌<◌, ◌≡◌, ◌∙◌, List, ◌∷◌, length, length-set, get_or, set,
  arith,
}
use piwxrx.Prelude.Int.{ℤ, pos, ◌-ℤ◌, ◌*ℤ◌, abs, abs-*ℤ, abs-sub}
use piwxrx.Prelude.Word.{low_bits, int16, int16_id, int32_id, ashr, mul64_exact, sub64_exact}
use piwxrx.Prelude.Ring.{next, behind, Holds, Holds-set, get_or-set_ne}
use piwxrx.Demod.{Discrim, demod_dly_len, phase_discrim}

-- The bound of the filter's output.
abbrev pub max_level : ℕ
max_level = 23359

-- A delay line holds the last 64 values of a history, which are within the bound.
pub record IsLine (dly : List ℤ) (curr_index : ℕ) (hist : List ℤ) : Type 0 where
  pub size : length dly ≡ demod_dly_len
  pub enough : demod_dly_len ≤ length hist
  pub holds : Holds demod_dly_len (pos 0) dly curr_index hist
  pub level : (k : ℕ) → abs (get_or hist k (pos 0)) ≤ max_level

pub record IsValid (d : Discrim) (i_hist q_hist : List ℤ) : Type 0 where
  pub index_in : d.curr_index < demod_dly_len
  pub i_line : IsLine d.i_demod_dly d.curr_index i_hist
  pub q_line : IsLine d.q_demod_dly d.curr_index q_hist

previous_index :
    (c : ℕ) → c < demod_dly_len → low_bits 6 (pos c -ℤ pos 12) ≡ behind demod_dly_len c 11
unfolding ◌-ℤ◌
previous_index c h = ground arith

fits16 : (x : ℤ) → abs x ≤ max_level → int16 x ≡ x
fits16 x h = int16_id x (omega arith)

set-IsLine :
    {dly : List ℤ} {c : ℕ} {hist : List ℤ} (x : ℤ)
    → c < demod_dly_len
    → abs x ≤ max_level
    → IsLine dly c hist
    → IsLine (set dly c (int16 x)) ((c + 1) % 2 ^ 6) (x ∷ hist)
set-IsLine {dly} {c} {hist} x hc hx l =
    let moved : next demod_dly_len c ≡ (c + 1) % 2 ^ 6 = ground arith in
    rw (fits16 x hx) (record {
      size = length-set dly c x ∙ l.size;
      enough = omega (arith, l.enough);
      holds =
          rw (← moved)
            (Holds-set demod_dly_len (pos 0) dly c hist x (omega (arith, l.size)) hc l.holds);
      level = at;
    })
  where
    at : (k : ℕ) → abs (get_or (x ∷ hist) k (pos 0)) ≤ max_level
    at zero = hx
    at (suc k) = l.level k

-- Twelve places back stands the value of twelve samples ago.
delayed :
    {dly : List ℤ} {c : ℕ} {hist : List ℤ} (x : ℤ)
    → c < demod_dly_len
    → IsLine dly c hist
    → get_or (set dly c x) (low_bits 6 (pos c -ℤ pos 12)) (pos 0) ≡ get_or hist 11 (pos 0)
delayed {dly} {c} {hist} x hc l = rw (previous_index c hc) (
    get_or-set_ne dly c (behind demod_dly_len c 11) x (pos 0) (ground arith)
    ∙ l.holds 11 (omega arith) (omega (arith, l.enough)))

product_level : (a b : ℤ) → abs a ≤ max_level → abs b ≤ max_level → abs (a *ℤ b) ≤ 545642881
product_level a b ha hb = rw (abs-*ℤ a b) (bound (abs a) (abs b) ha hb)
  where
    bound : (m n : ℕ) → m ≤ max_level → n ≤ max_level → m * n ≤ 545642881
    bound m n hm hn = let step : m * n ≤ max_level * n = grind arith in omega arith

difference_level : (a b : ℤ) → abs a ≤ 545642881 → abs b ≤ 545642881 → abs (a -ℤ b) ≤ 1091285762
difference_level a b ha hb = omega (arith, abs-sub a b)

-- With the delay lines full of values within the filter's bound, the discriminator's output is
-- Iprev * Qout - Iout * Qprev shifted right by 11, with no overflow, where Iprev and Qprev are the
-- values of twelve samples before; and the lines then hold the new values.
pub phase_discrim_lem :
    {d : Discrim} {i_hist q_hist : List ℤ} (i_out q_out : ℤ)
    → abs i_out ≤ max_level
    → abs q_out ≤ max_level
    → IsValid d i_hist q_hist
    → ((phase_discrim i_out q_out d).0
        ≡ ashr (get_or i_hist 11 (pos 0) *ℤ q_out -ℤ i_out *ℤ get_or q_hist 11 (pos 0)) 11)
      × IsValid (phase_discrim i_out q_out d).1 (i_out ∷ i_hist) (q_out ∷ q_hist)
unfolding phase_discrim
phase_discrim_lem {d} {i_hist} {q_hist} i_out q_out hi hq v =
    let i_prev = get_or i_hist 11 (pos 0) in
    let q_prev = get_or q_hist 11 (pos 0) in
    let left = product_level i_prev q_out (v.i_line.level 11) hq in
    let right = product_level i_out q_prev hi (v.q_line.level 11) in
    let all = difference_level (i_prev *ℤ q_out) (i_out *ℤ q_prev) left right in
    (
      rw (
        delayed (int16 i_out) v.index_in v.i_line,
        delayed (int16 q_out) v.index_in v.q_line,
        mul64_exact i_prev q_out (omega arith),
        mul64_exact i_out q_prev (omega arith),
        sub64_exact (i_prev *ℤ q_out) (i_out *ℤ q_prev) (omega arith),
        int32_id (i_prev *ℤ q_out -ℤ i_out *ℤ q_prev) (omega arith),
      ),
      record {
        index_in = omega arith;
        i_line = set-IsLine i_out v.index_in hi v.i_line;
        q_line = set-IsLine q_out v.index_in hq v.q_line;
      },
    )
