-- ===== src/Jni/Bytes.antt =====
-- The bytes that a sample in JNI/Common/FSKdsp.c can give to the callback.
use piwxrx.Prelude.{
  ℕ, ◌<◌, Bool, true, false, Bool-cases, inl, inr, Option, none, some, ◌==◌, if◌then◌else◌, arith,
}
use piwxrx.Prelude.Int.{ℤ}
use piwxrx.Fsk.Front.{Front, slice, demodulate}
use piwxrx.Fsk.Frame.{Frame, sync_byte, shift_in, shift_in_lem, frame_byte, frame_bit}
use piwxrx.Demod.{sync_correlator}
use piwxrx.Fsk.Receiver.{Receiver, seek, gather, receive, next_clock, gather-tick, gather-wait}
use piwxrx.Fsk.Thread.{Thread, Effect, quiet, wrote, received, effect_of, process_mode, process}

abbrev IsByte : Option ℕ → Type 0
IsByte none = Unit {0}
IsByte (some byte) = byte < 256

abbrev pub IsByteEffect : Effect → Type 0
IsByteEffect quiet = Unit {0}
IsByteEffect (wrote sample) = Unit {0}
IsByteEffect (received byte) = byte < 256

frame_byte-IsByte :
    (bytesync : Bool) (byte bitctr : ℕ)
    → byte < 256
    → IsByte (frame_byte bytesync byte bitctr).0
      × ((frame_byte bytesync byte bitctr).1.demod_byte < 256)
frame_byte-IsByte false byte bitctr h = elim (Bool-cases (byte == sync_byte)) [
  | inl e ↦ rw e (h, h)
  | inr e ↦ rw e (tt, h)
]
frame_byte-IsByte true byte bitctr h = elim (Bool-cases (bitctr == 7)) [
  | inl e ↦ rw e (h, h)
  | inr e ↦ rw e (tt, h)
]

frame_bit-IsByte :
    (b : ℕ) (f : Frame)
    → b < 2
    → f.demod_byte < 256
    → IsByte (frame_bit b f).0 × ((frame_bit b f).1.demod_byte < 256)
unfolding frame_bit
frame_bit-IsByte b f hb hf =
    frame_byte-IsByte f.bytesync (shift_in b f.demod_byte) f.bitctr
      (rw (shift_in_lem b f.demod_byte hb hf) (omega arith))

-- What a receiver leaves.
abbrev Fits : Option ℕ × Receiver → Type 0
Fits r = IsByte r.0 × (r.1.frame.demod_byte < 256)

Fits-if : (b : Bool) (x y : Option ℕ × Receiver) → Fits x → Fits y → Fits (if b then x else y)
Fits-if true x y hx hy = hx
Fits-if false x y hx hy = hy

seek-Fits : (b : ℕ) (r : Receiver) → r.frame.demod_byte < 256 → Fits (seek b r)
unfolding seek
seek-Fits b r h = elim (Bool-cases (sync_correlator b r.correlator).0) [
  | inl e ↦ rw e (tt, omega arith)
  | inr e ↦ rw e (tt, h)
]

gather-Fits : (b : ℕ) (r : Receiver) → b < 2 → r.frame.demod_byte < 256 → Fits (gather b r)
gather-Fits b r hb h = elim (Bool-cases (next_clock b r).0) [
  | inl e ↦ rw (gather-tick b r e) (frame_bit-IsByte b r.frame hb h)
  | inr e ↦ rw (gather-wait b r e) (tt, h)
]

receive-Fits : (b : ℕ) (r : Receiver) → b < 2 → r.frame.demod_byte < 256 → Fits (receive b r)
unfolding receive
receive-Fits b r hb hr =
    Fits-if r.insync (gather b r) (seek b r) (gather-Fits b r hb hr) (seek-Fits b r hr)

bit_if : (c : Bool) → (if c then 0 else 1) < 2
bit_if true = omega arith
bit_if false = omega arith

module _ (decay gain : ℤ → ℤ) where
  demodulate_bit : (sample : ℤ) (f : Front) → (demodulate decay gain sample f).0 < 2
  unfolding demodulate slice
  demodulate_bit sample f = bit_if _

  effect_of-IsByte : (o : Option ℕ) → IsByte o → IsByteEffect (effect_of o)
  effect_of-IsByte none h = tt
  effect_of-IsByte (some byte) h = h

  process_mode-IsByte :
      (writing : Bool) (x : ℤ) (t : Thread)
      → t.receiver.frame.demod_byte < 256
      → IsByteEffect (process_mode decay gain writing x t).0
        × ((process_mode decay gain writing x t).1.receiver.frame.demod_byte < 256)
  process_mode-IsByte true x t h = (tt, h)
  process_mode-IsByte false x t h =
      let fits =
        receive-Fits (demodulate decay gain x t.front).0 t.receiver (demodulate_bit x t.front) h in
      (effect_of-IsByte _ fits.0, fits.1)

  pub process-IsByte :
      (x : ℤ) (t : Thread)
      → t.receiver.frame.demod_byte < 256
      → IsByteEffect (process decay gain x t).0
        × ((process decay gain x t).1.receiver.frame.demod_byte < 256)
  unfolding process
  process-IsByte x t h = process_mode-IsByte t.writing x t h
