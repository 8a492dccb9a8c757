-- ===== src/Fsk/SignalTests.antt =====
-- The receiver of JNI/Common/FSKdsp.c on concrete signals.
use piwxrx.Prelude.{
  ℕ, zero, suc, ◌+◌, ◌%◌, ◌≡◌, refl, Bool, true, false, ◌⊎◌, inl, inr, List, [], ◌∷◌, ◌++◌, ◌==◌,
  replicate, arith,
}
use piwxrx.Demod.{corr_length}
use piwxrx.Fsk.Frame.{sync_byte, send}
use piwxrx.Fsk.Clock.{cycle_start}
use piwxrx.Fsk.Receiver.{Receiver, receive, receive_all, dsp_clear_sync, picked}
use piwxrx.Fsk.Signal.{signal}
use piwxrx.Fsk.Recovery.{settled, counting}
use piwxrx.Fsk.Acquire.{IsSeeking, IsIdle, after_all}
use piwxrx.Fsk.Message.{receive_all-signal}
use piwxrx.Fsk.Preamble.{before_last}
use piwxrx.Fsk.Stale.{clear_sync-stale}
use piwxrx.Fsk.Again.{receive_all-again}
use piwxrx.Fsk.Limit.{none_long, picked-ten}

-- The history after a silence.
abbrev ones : List ℕ
ones = replicate corr_length 1

-- The receiver after a silence.
abbrev waiting : Receiver
waiting = record {
  insync = false;
  correlator = ones;
  edge = settled 0;
  clock = cycle_start;
  frame = record { bytesync = false; demod_byte = 0; bitctr = 0 };
}

waiting-IsSeeking : IsSeeking waiting ones
waiting-IsSeeking = record {
  out_of_sync = refl;
  valid = record { size = refl; enough = omega arith; holds = λ k h. refl };
}

replicate-IsIdle : (n : ℕ) → IsIdle (replicate n 1)
replicate-IsIdle zero k = inr refl
replicate-IsIdle (suc n) zero = inl refl
replicate-IsIdle (suc n) (suc k) =
    let e : 46 + suc k ≡ suc (46 + k) = omega arith in rw e (replicate-IsIdle n k)

-- One bit in 25 lasts 24 samples, the others 23.
abbrev one_in_25 : ℕ → Bool
one_in_25 i = i % 25 == 24

abbrev all_long : ℕ → Bool
all_long i = true

-- The message "ZCZC".
receive_all-signal_example :
    receive_all
      (signal (send (sync_byte ∷ sync_byte ∷ sync_byte ∷ b'Z' ∷ b'C' ∷ b'Z' ∷ b'C' ∷ [])) one_in_25)
      waiting
    ≡ sync_byte ∷ b'Z' ∷ b'C' ∷ b'Z' ∷ b'C' ∷ []
receive_all-signal_example =
    receive_all-signal (b'Z' ∷ b'C' ∷ b'Z' ∷ b'C' ∷ []) one_in_25 waiting ones waiting-IsSeeking
      (replicate-IsIdle corr_length) (refl, (refl, (refl, (refl, tt))))

picked-ten_example :
    picked (signal (replicate 10 1 ++ (0 ∷ [])) none_long) (settled 0) (counting 14 22)
    ≡ replicate 9 1 ++ (0 ∷ 0 ∷ [])
picked-ten_example = picked-ten 0 1 0 14 22 (ground arith) (ground arith) (omega arith)

clear_sync-stale_example :
    (receive 1 (
      dsp_clear_sync (after_all (before_last one_in_25 ++ (1 ∷ replicate 900 0)) waiting))).1.insync
    ≡ true
clear_sync-stale_example =
    clear_sync-stale (replicate 900 0) one_in_25 waiting ones waiting-IsSeeking
      (replicate-IsIdle corr_length)

-- A burst "NNNN" after what followed the first, with bits of 24 samples.
receive_all-again_example :
    let cleared =
      dsp_clear_sync (after_all (before_last one_in_25 ++ (1 ∷ replicate 900 0)) waiting) in
    let burst =
      signal (send (sync_byte ∷ sync_byte ∷ sync_byte ∷ b'N' ∷ b'N' ∷ b'N' ∷ b'N' ∷ [])) all_long in
    let out = receive_all (replicate 500 1 ++ burst) cleared in
    (out ≡ sync_byte ∷ sync_byte ∷ sync_byte ∷ b'N' ∷ b'N' ∷ b'N' ∷ b'N' ∷ [])
    ⊎ (out ≡ sync_byte ∷ sync_byte ∷ b'N' ∷ b'N' ∷ b'N' ∷ b'N' ∷ [])
receive_all-again_example =
    receive_all-again (replicate 900 0) one_in_25 waiting ones (b'N' ∷ b'N' ∷ b'N' ∷ b'N' ∷ [])
      all_long 500 waiting-IsSeeking (replicate-IsIdle corr_length) (omega arith)
      (refl, (refl, (refl, (refl, tt))))
