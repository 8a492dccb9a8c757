-- ===== src/Fsk/Thread.antt =====
-- `DSPInit`, `DSPStop`, `SetDebugLevel` and the loop of `dsp_threads_fn` in JNI/Common/FSKdsp.c.
-- A pass either waits, because the ring is empty, or takes one sample and processes it; what follows
-- after a wait is in the steps of Jni.
use piwxrx.Prelude.{
  ℕ, zero, suc, ◌+◌, ◌%◌, ◌^◌, Bool, true, false, List, [], ◌∷◌, Option, none, some, ◌==◌, get_or,
}
use piwxrx.Prelude.Int.{ℤ, pos}
use piwxrx.Osc.{init_osc}
use piwxrx.Fir.{fir_init}
use piwxrx.Fsk.Samples.{SampleBuffer}
use piwxrx.Fsk.Receiver.{Receiver, receive}
use piwxrx.Fsk.Front.{Front, demodulate}

-- `dsp_threads` and the state of the modules below. `writing` is the bit DEBUG_WRITE of the debug
-- level; the other bits only print.
pub record Thread : Type 0 where
  pub exit : Bool
  pub writing : Bool
  pub samples : SampleBuffer
  pub front : Front
  pub receiver : Receiver

unfoldable pub dsp_init : (ℕ → ℤ) → Bool → Thread → Thread
dsp_init cosine debug_write t = record {
  exit = false;
  writing = debug_write;
  samples = record t.samples { wrptr = 0; rdptr = 0 };
  front = record t.front {
    osc = init_osc cosine t.front.osc;
    channels = fir_init t.front.channels;
  };
  receiver = record t.receiver { insync = false };
}

unfoldable pub set_debug_level : Bool → Thread → Thread
set_debug_level debug_write t = record t { writing = debug_write }

-- Up to its wait for the thread.
unfoldable pub dsp_stop : Thread → Thread
dsp_stop t = record t { exit = true }

-- What a pass leaves outside: nothing, a sample on the standard output, or a byte received.
pub data Effect : Type 0 where
  quiet : Effect
  wrote : ℤ → Effect
  received : ℕ → Effect

abbrev pub effect_of : Option ℕ → Effect
effect_of none = quiet
effect_of (some byte) = received byte

-- The loop is left, waits, or has processed a sample.
pub data Pass : Type 0 where
  stopped : Pass
  blocked : Pass
  went : Effect → Thread → Pass

module _ (decay gain : ℤ → ℤ) where
  -- The branches of the test for DEBUG_WRITE.
  abbrev pub process_mode : Bool → ℤ → Thread → Effect × Thread
  process_mode true sample t = (wrote sample, t)
  process_mode false sample t =
      let (demod_bit, front) = demodulate decay gain sample t.front in
      let (out, receiver) = receive demod_bit t.receiver in
      (effect_of out, record t { front = front; receiver = receiver })

  unfoldable pub process : ℤ → Thread → Effect × Thread
  process sample t = process_mode t.writing sample t

  -- The part of a pass after the wait.
  unfoldable pub take_sample : Thread → Effect × Thread
  take_sample t =
      let sample = get_or t.samples.buffer t.samples.rdptr (pos 0) in
      process sample
        (record t { samples = record t.samples { rdptr = (t.samples.rdptr + 1) % 2 ^ 12 } })

  abbrev pub pass_mode : Bool → Bool → Thread → Pass
  pass_mode true empty t = stopped
  pass_mode false true t = blocked
  pass_mode false false t = let (effect, t') = take_sample t in went effect t'

  unfoldable pub pass : Thread → Pass
  pass t = pass_mode t.exit (t.samples.rdptr == t.samples.wrptr) t

  -- Passes until the loop is left or waits.
  unfoldable pub drain : ℕ → Thread → List Effect × Thread
  drain zero t = ([], t)
  drain (suc fuel) t = elim (pass t) [
    | stopped ↦ ([], t)
    | blocked ↦ ([], t)
    | went effect t' ↦ let (effects, t'') = drain fuel t' in (effect ∷ effects, t'')
  ]

  -- A sequence of samples processed in order.
  unfoldable pub process_all : List ℤ → Thread → List Effect × Thread
  process_all [] t = ([], t)
  process_all (x ∷ xs) t =
      let (effect, t') = process x t in
      let (effects, t'') = process_all xs t' in (effect ∷ effects, t'')
