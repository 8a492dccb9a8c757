-- ===== src/Fsk/Message.antt =====
-- A burst of bytes through the receiver of JNI/Common/FSKdsp.c, from an idle signal to the callback.
use piwxrx.Prelude.{
  ℕ, suc, ◌+◌, ◌-◌, ◌≤◌, ◌≡◌, refl, ◌∙◌, ap, Bool, true, false, List, ◌∷◌, ◌++◌, replicate, arith,
}
use piwxrx.Fsk.Frame.{Frame, sync_byte, send, frame_bit, frame_bits, frame_bits-send, AllBytes}
use piwxrx.Fsk.Receiver.{Receiver, receive_all, picked}
use piwxrx.Fsk.Signal.{cell, cell_between, signal, later}
use piwxrx.Fsk.Recovery.{settled, counting, picked-same, picked-signal, HasShortRuns}
use piwxrx.Fsk.Text.{AreText, AreText-AllBytes, send-HasShortRuns}
use piwxrx.Fsk.Acquire.{IsSeeking, IsIdle}
use piwxrx.Fsk.Preamble.{receive_all-preamble}

-- The framing after the last bit of a sync byte, which is a one.
frame_bits-message :
    (xs : List ℕ)
    → AllBytes xs
    → (frame_bits
        (1 ∷ send (sync_byte ∷ xs))
        (record { bytesync = false; demod_byte = 0; bitctr = 0 })).0
      ≡ sync_byte ∷ xs
frame_bits-message xs all =
    found ∙ ap (λ l. sync_byte ∷ l) (frame_bits-send xs sync_byte all (omega arith))
  where
    found :
        (frame_bits
          (1 ∷ send (sync_byte ∷ xs))
          (record { bytesync = false; demod_byte = 0; bitctr = 0 })).0
        ≡ sync_byte
          ∷ (frame_bits
              (send xs)
              (record { bytesync = true; demod_byte = sync_byte; bitctr = 0 })).0
    found = unfold frame_bits frame_bit in refl

-- From the sample after the match on, the clock picks the bit of the match and those that follow.
picked-message :
    (bits : List ℕ) (long : ℕ → Bool) (n : ℕ)
    → (22 ≤ n) × (n ≤ 23)
    → HasShortRuns 1 1 bits
    → picked (replicate n 1 ++ signal bits long) (settled 1) (counting 11 23) ≡ 1 ∷ bits
picked-message bits long n h short =
    let left = n - 12 in
    let e : n ≡ 11 + suc left = omega arith in
    ap (λ m. picked (replicate m 1 ++ signal bits long) (settled 1) (counting 11 23)) e
    ∙ picked-same 1 11 22 left (signal bits long) (omega arith)
    ∙ ap (λ l. 1 ∷ l)
        (picked-signal bits long 1 1 (23 - left) 22 short (omega arith, omega arith, omega arith))

-- While the receiver is out of sync, after an idle signal, three sync bytes and any sync bytes and printable characters after them, sent as
-- bits of 23 or 24 samples each, the long ones wherever they come, are received as the third sync
-- byte and what follows it: all of it, in order, and nothing else.
pub receive_all-signal :
    (xs : List ℕ) (long : ℕ → Bool) (r : Receiver) (hist : List ℕ)
    → IsSeeking r hist
    → IsIdle hist
    → AreText xs
    → receive_all (signal (send (sync_byte ∷ sync_byte ∷ sync_byte ∷ xs)) long) r ≡ sync_byte ∷ xs
receive_all-signal xs long r hist s idle text =
    let n = cell (long 15) - 1 in
    let between = cell_between (long 15) in
    let bits = send (sync_byte ∷ xs) in
    let empty : Frame = record { bytesync = false; demod_byte = 0; bitctr = 0 } in
    receive_all-preamble bits long r hist n s idle (omega (arith, between))
    ∙ ap (λ l. (frame_bits l empty).0)
        (picked-message bits (later 16 long) n (omega (arith, between), omega (arith, between))
          (send-HasShortRuns (sync_byte ∷ xs) 1 1 (refl, text) refl))
    ∙ frame_bits-message xs (AreText-AllBytes xs text)
