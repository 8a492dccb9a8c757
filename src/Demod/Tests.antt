-- ===== src/Demod/Tests.antt =====
-- The correlator and the discriminator at concrete inputs.
use piwxrx.Prelude.{
  ℕ, ◌*◌, ◌<◌, ◌≡◌, ◌↔◌, refl, true, List, [], ◌∷◌, ◌++◌, get_or, replicate, drop, arith,
}
use piwxrx.Demod.{bit_divisor, n_corr_bits, sync_bits, shift_loop, match_from, sync_correlator}
use piwxrx.Demod.Sync.{sync_correlator_iff}
use piwxrx.Demod.Sync as Sync

-- Each bit held for 23 samples.
abbrev held : List ℕ → List ℕ
held [] = []
held (b ∷ bits) = replicate bit_divisor b ++ held bits

abbrev before_sync : List ℕ
before_sync = drop 1 (held sync_bits) ++ (0 ∷ [])

-- The sync code, each bit held for 23 samples, is found.
sync_found : (sync_correlator 1 before_sync).0 ≡ true
unfolding sync_correlator shift_loop match_from
sync_found = refl

before-IsValid : Sync.IsValid before_sync before_sync
before-IsValid = record { size = refl; enough = omega arith; holds = λ k h. refl }

sync_correlator_iff_example : ((sync_correlator 1 before_sync).0 ≡ true) ↔ (
    (k : ℕ) → k < n_corr_bits → get_or (1 ∷ before_sync) (k * bit_divisor) 0 ≡ get_or sync_bits k 0)
sync_correlator_iff_example = sync_correlator_iff 1 before-IsValid
