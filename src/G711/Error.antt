-- ===== src/G711/Error.antt =====
-- How far a sample is from the sample that its code stands for.
use piwxrx.Prelude.{
  ℕ, ◌+◌, ◌-◌, ◌*◌, ◌≤◌, ◌<◌, ◌≡◌, refl, ◌∙◌, sym, subst, arith, ◌⊎◌, dec_lt, bit_xor, true, ◌||◌,
  ◌==◌,
}
use piwxrx.Prelude.Int.{
  ℤ, pos, negsuc, neg_part, neg_ℕ, neg_laws, dist_ℤ, abs, eqb_ℤ, eqb_ℤ→eq, ◌+ℤ◌, ◌-ℤ◌, int_laws,
}
use piwxrx.Prelude.Word.{IsInt16, IsInt32, add32, sub32, add32_exact, sub32_exact}
use piwxrx.Prelude.Table.{passes, passes_from, passes-below}
use piwxrx.G711.{
  bias, segment_of, ulaw_code, linear2ulaw, ulaw2linear, linear2alaw, alaw_code, alaw2linear,
}
use piwxrx.G711.Accuracy.{ulaw_code_pos, ulaw_code_neg, alaw_code_pos, alaw_code_neg}

-- A biased magnitude past the last segment.
ulaw_code_clip : (v mask : ℕ) → 0x8000 ≤ v → ulaw_code (pos v) mask ≡ bit_xor 0x7f mask
unfolding ulaw_code
ulaw_code_clip v mask h = rw clipped
  where
    clipped : segment_of (pos v) ≡ 8
    clipped = unfold segment_of in ground arith

bias-add : (n : ℕ) → pos n +ℤ pos bias ≡ pos (n + 132)
bias-add n = omega int_laws

bias-sub : (m : ℕ) → pos bias -ℤ negsuc m ≡ pos (m + 133)
bias-sub m = omega int_laws

-- Neither sum overflows for a 16-bit sample.
word-add : (n : ℕ) → IsInt16 (pos n) → add32 (pos n) (pos bias) ≡ pos (n + 132)
word-add n h =
    add32_exact (pos n) (pos bias) (subst IsInt32 (sym (bias-add n)) (omega arith, omega arith))
    ∙ bias-add n

word-sub : (m : ℕ) → IsInt16 (negsuc m) → sub32 (pos bias) (negsuc m) ≡ pos (m + 133)
word-sub m h =
    sub32_exact (pos bias) (negsuc m) (subst IsInt32 (sym (bias-sub m)) (omega arith, omega arith))
    ∙ bias-sub m

-- Clipping to the largest code, 32124, is no worse than the last segment.
ulaw_error_pos :
    (v : ℕ)
    → 132 ≤ v
    → v < 0x8000 + 132
    → 32 * dist_ℤ (ulaw2linear (ulaw_code (pos v) 0xff)) (pos (v - 132)) ≤ v
ulaw_error_pos v lo hi = elim (dec_lt v 0x8000) [
  | yes p ↦ ulaw_code_pos v lo p
  | no p ↦ rw (ulaw_code_clip v 0xff (omega arith)) (unfold ulaw2linear in omega arith)
]

ulaw_error_neg :
    (v : ℕ)
    → 132 ≤ v
    → v ≤ 0x8000 + 132
    → 32 * dist_ℤ (ulaw2linear (ulaw_code (pos v) 0x7f)) (neg_ℕ (v - 132)) ≤ v
ulaw_error_neg v lo hi = elim (dec_lt v 0x8000) [
  | yes p ↦ ulaw_code_neg v lo p
  | no p ↦ rw (ulaw_code_clip v 0x7f (omega arith)) (unfold ulaw2linear ◌-ℤ◌ in omega neg_laws)
]

-- Encoding a 16-bit sample in u-law and decoding it moves it by at most a 32nd of its magnitude
-- plus 132, over the whole range and also where the encoder clips.
pub ulaw_error : (x : ℤ) → IsInt16 x → 32 * dist_ℤ (ulaw2linear (linear2ulaw x)) x ≤ abs x + 132
ulaw_error (pos n) h =
    let e : linear2ulaw (pos n) ≡ ulaw_code (pos (n + 132)) 0xff =
      unfold linear2ulaw in ground (arith, word-add n h) in
    rw e (omega (arith, ulaw_error_pos (n + 132) (omega arith) (omega arith)))
ulaw_error (negsuc m) h =
    let e : linear2ulaw (negsuc m) ≡ ulaw_code (pos (m + 133)) 0x7f =
      unfold linear2ulaw in ground (arith, word-sub m h) in
    rw e (omega (neg_laws, ulaw_error_neg (m + 133) (omega arith) (omega arith)))

alaw-sub : (m : ℕ) → 7 ≤ m → pos 0 -ℤ negsuc m -ℤ pos 8 ≡ pos (m - 7)
alaw-sub m h = omega int_laws

-- Encoding a 16-bit sample in A-law and decoding it moves it by at most a 16th of its magnitude
-- plus 256, unless the sample lies between -7 and -1.
pub alaw_error :
    (x : ℤ)
    → IsInt16 x
    → (neg_part x ≡ 0) ⊎ (8 ≤ neg_part x)
    → 16 * dist_ℤ (alaw2linear (linear2alaw x)) x ≤ abs x + 256
alaw_error (pos n) h far =
    let e : linear2alaw (pos n) ≡ alaw_code (pos n) 0xd5 = unfold linear2alaw in ground arith in
    rw e (omega (arith, alaw_code_pos n (omega arith)))
alaw_error (negsuc m) h far =
    let e : linear2alaw (negsuc m) ≡ alaw_code (pos (m - 7)) 0x55 =
      unfold linear2alaw in ground (arith, alaw-sub m (omega arith)) in
    rw e (omega (neg_laws, alaw_code_neg (m - 7) (omega arith)))

small_table :
    passes 8 (λ k. (k == 0) || eqb_ℤ (alaw2linear (linear2alaw (neg_ℕ k))) (neg_ℕ 248)) ≡ true
unfolding passes_from linear2alaw alaw_code alaw2linear ◌-ℤ◌
small_table = refl

-- Between -7 and -1 the scaled magnitude is negative, and every such sample comes back as -248.
pub alaw_small_negative : (k : ℕ) → 1 ≤ k → k ≤ 7 → alaw2linear (linear2alaw (neg_ℕ k)) ≡ neg_ℕ 248
alaw_small_negative k lo hi = eqb_ℤ→eq _ _ (implied (passes-below 8 _ small_table (omega arith)))
  where
    implied :
        (k == 0) || eqb_ℤ (alaw2linear (linear2alaw (neg_ℕ k))) (neg_ℕ 248) ≡ true
        → eqb_ℤ (alaw2linear (linear2alaw (neg_ℕ k))) (neg_ℕ 248) ≡ true
    implied h = ground arith
