-- ===== src/Demod/Sync.antt =====
-- The correlator of JNI/Common/demod.c and the history of its bits.
use native.Mathlib.Nat.{add-zero}
use piwxrx.Prelude.{
  ℕ, zero, suc, ◌+◌, ◌-◌, ◌*◌, ◌≤◌, ◌<◌, ◌≡◌, refl, ◌∙◌, sym, ap, ◌↔◌, true, List, [], ◌∷◌, ==_iff,
  length, length-set, get_or, set, arith, ℕ_discrete,
}
use piwxrx.Prelude.Ring.{get_or-set_self, get_or-set_ne}
use piwxrx.Demod.{
  bit_divisor, n_corr_bits, corr_length, sync_bits, shift_loop, match_from, sync_correlator,
}

length-shift_loop : (i : ℕ) (c : List ℕ) → length (shift_loop i c) ≡ length c
unfolding shift_loop
length-shift_loop zero c = refl
length-shift_loop (suc i) c =
    length-shift_loop i (set c (suc i) (get_or c i 0)) ∙ length-set c (suc i) (get_or c i 0)

-- Above `n` nothing moves.
shift_loop-above : (n : ℕ) (c : List ℕ) (k : ℕ) → n < k → get_or (shift_loop n c) k 0 ≡ get_or c k 0
unfolding shift_loop
shift_loop-above zero c k h = refl
shift_loop-above (suc n) c k h =
    shift_loop-above n (set c (suc n) (get_or c n 0)) k (omega arith)
    ∙ get_or-set_ne c (suc n) k (get_or c n 0) 0 (omega arith)

-- The loop goes down, so each place gets the old value of the place before it.
shift_loop_at :
    (n : ℕ) (c : List ℕ) (k : ℕ)
    → n < length c
    → k < n
    → get_or (shift_loop n c) (suc k) 0 ≡ get_or c k 0
unfolding shift_loop
shift_loop_at zero c k h hk = absurd (omega arith)
shift_loop_at (suc n) c k h hk = elim (ℕ_discrete k n) [
  | yes e ↦ rw e (
      shift_loop-above n (set c (suc n) (get_or c n 0)) (suc n) (omega arith)
      ∙ get_or-set_self c (suc n) (get_or c n 0) 0 h)
  | no ne ↦
      shift_loop_at n (set c (suc n) (get_or c n 0)) k
        (rw (length-set c (suc n) (get_or c n 0)) (omega arith)) (omega arith)
      ∙ get_or-set_ne c (suc n) k (get_or c n 0) 0 (omega arith)
]

-- The correlator holds the newest bits of a history.
pub record IsValid (c : List ℕ) (hist : List ℕ) : Type 0 where
  pub size : length c ≡ corr_length
  pub enough : corr_length ≤ length hist
  pub holds : (k : ℕ) → k < corr_length → get_or c k 0 ≡ get_or hist k 0

pub sync_correlator-IsValid :
    {c hist : List ℕ} (bit : ℕ) → IsValid c hist → IsValid (sync_correlator bit c).1 (bit ∷ hist)
unfolding sync_correlator
sync_correlator-IsValid {c} {hist} bit v = record {
  size =
      length-set (shift_loop (corr_length - 1) c) 0 bit
      ∙ length-shift_loop (corr_length - 1) c
      ∙ v.size;
  enough = omega (arith, v.enough);
  holds = λ k h. at k h;
}
  where
    shifted : List ℕ
    shifted = shift_loop (corr_length - 1) c

    at : (k : ℕ) → k < corr_length → get_or (set shifted 0 bit) k 0 ≡ get_or (bit ∷ hist) k 0
    at zero h =
        get_or-set_self shifted 0 bit 0
          (omega (arith, length-shift_loop (corr_length - 1) c, v.size))
    at (suc k) h =
        get_or-set_ne shifted 0 (suc k) bit 0 (omega arith)
        ∙ shift_loop_at (corr_length - 1) c k (omega (arith, v.size)) (omega arith)
        ∙ v.holds k (omega arith)

-- Every 23rd place from place `i * 23` on is as the list says.
abbrev pub Matches : List ℕ → ℕ → List ℕ → Type 0
Matches c i bits = (k : ℕ) → k < length bits → get_or c ((i + k) * bit_divisor) 0 ≡ get_or bits k 0

match_from_sound :
    (bits : List ℕ) (c : List ℕ) (i : ℕ) → match_from c i bits ≡ true → Matches c i bits
unfolding match_from
match_from_sound [] c i e k h = absurd (omega arith)
match_from_sound (b ∷ bits) c i e zero h =
    ap (λ t. get_or c (t * bit_divisor) 0) (add-zero i) ∙ ground arith
match_from_sound (b ∷ bits) c i e (suc k) h =
    ap (λ t. get_or c (t * bit_divisor) 0) (omega arith)
    ∙ match_from_sound bits c (i + 1) (ground arith) k (omega arith)

match_from_complete :
    (bits : List ℕ) (c : List ℕ) (i : ℕ) → Matches c i bits → match_from c i bits ≡ true
unfolding match_from
match_from_complete [] c i m = refl
match_from_complete (b ∷ bits) c i m =
    let here : get_or c (i * bit_divisor) 0 ≡ b =
      ap (λ t. get_or c (t * bit_divisor) 0) (sym (add-zero i)) ∙ m 0 (omega arith) in
    let there : match_from c (i + 1) bits ≡ true =
      match_from_complete bits c (i + 1)
        (λ k h. ap (λ t. get_or c (t * bit_divisor) 0) (omega arith) ∙ m (suc k) (omega arith)) in
    rw ((==_iff (get_or c (i * bit_divisor) 0) b).1 here) there

-- Sync is reported exactly when the bit received 23 * k samples ago is bit k of the sync code, for
-- each of its 16 bits, newest first.
pub sync_correlator_iff :
    {c hist : List ℕ} (bit : ℕ)
    → IsValid c hist
    → ((sync_correlator bit c).0 ≡ true)
      ↔ ((k : ℕ) → k < n_corr_bits → get_or (bit ∷ hist) (k * bit_divisor) 0 ≡ get_or sync_bits k 0)
unfolding sync_correlator
sync_correlator_iff {c} {hist} bit v =
    let v' = sync_correlator-IsValid bit v in
    (
      λ e k h.
          sym (v'.holds (k * bit_divisor) (omega arith))
          ∙ ap (λ t. get_or (sync_correlator bit c).1 (t * bit_divisor) 0) (omega arith)
          ∙ match_from_sound sync_bits (sync_correlator bit c).1 0 e k h,
      λ m. match_from_complete sync_bits (sync_correlator bit c).1 0 (λ k h.
          ap (λ t. get_or (sync_correlator bit c).1 (t * bit_divisor) 0) (omega arith)
          ∙ v'.holds (k * bit_divisor) (omega arith)
          ∙ m k h),
    )
