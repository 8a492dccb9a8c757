-- ===== src/Jni/Receive.antt =====
-- A step of the receiver's thread in a run of JNI/Common/RTLjni.c.
use mathlib.Core.List.{append-nil}
use piwxrx.Prelude.{
  ◌+◌, ◌%◌, ◌^◌, ◌<◌, ◌≡◌, ◌≢◌, refl, ◌∙◌, sym, ap, Bool, true, false, ◌==◌, [], ◌∷◌, ◌++◌, get_or,
  arith,
}
use piwxrx.Prelude.Int.{ℤ, pos}
use piwxrx.Prelude.Ring.{next, window-read}
use piwxrx.DataBuffer.{System}
use piwxrx.DataBuffer.Queue as Queue
use piwxrx.DataBuffer.Queue.{count}
use piwxrx.DataBuffer.Schedule.{IsFair, put-IsFair, pending-put_byte}
use piwxrx.Fsk.Samples as Samples
use piwxrx.Fsk.Samples.{SampleBuffer, sample_bfrsiz, dsp_demod, dsp_demod_lem, pair_means, waiting}
use piwxrx.Fsk.Thread.{Thread, Effect, quiet, wrote, received, process, process_all, take_sample}
use piwxrx.Fsk.Drain.{process-samples, process-exit}
use piwxrx.Jni.{
  App, Waiter, testing, asleep, awake, byte_rx, deliver, test_ring, after_wait, receive_mode,
  receive_step,
}
use piwxrx.Jni.Bytes.{IsByteEffect, process-IsByte}
use piwxrx.Jni.Stream.{IsGood, HasSample, Flows, jbytes, heard, samples_waiting}
use piwxrx.Jni.Step.{waiter-Flows, unchanged-Flows}

module _ (decay gain : ℤ → ℤ) where
  deliver_lem :
      (e : Effect) (s : System)
      → IsByteEffect e
      → IsFair s
      → count s.buffer < 127
      → IsFair (deliver e s)
        × (Queue.pending (deliver e s).buffer ≡ Queue.pending s.buffer ++ heard (e ∷ []))
  unfolding byte_rx
  deliver_lem quiet s h f room = (f, sym (append-nil (Queue.pending s.buffer)))
  deliver_lem (wrote sample) s h f room = (f, sym (append-nil (Queue.pending s.buffer)))
  deliver_lem (received byte) s h f room = (put-IsFair byte f h room, pending-put_byte byte f room)

  processed-Flows :
      (a : App) (s : SampleBuffer) (x : ℤ)
      → IsGood a
      → Samples.IsValid s
      → x ∷ Samples.pending s ≡ samples_waiting a
      → count a.system.buffer < 127
      → let (effect, t) = process decay gain x a.rtl.thread in
        Flows decay gain a [] (
          [],
          record a {
            rtl = record a.rtl { thread = record t { samples = s } };
            system = deliver effect a.system;
            waiter = testing;
          },
        )
  unfolding process_all
  processed-Flows a s x g v e room =
      let t = a.rtl.thread in
      let fits = process-IsByte decay gain x t g.byte in
      let delivered = deliver_lem (process decay gain x t).0 a.system fits.0 g.fair room in
      record {
        taken = x ∷ [];
        good = record {
          runs = process-exit decay gain x t ∙ g.runs;
          byte = fits.1;
          samples = v;
          found = tt;
          safe = g.safe;
          fair = delivered.0;
        };
        order = e ∙ sym (append-nil (samples_waiting a));
        thread = refl;
        bytes = ap jbytes delivered.1;
      }

  take_sample-process :
      (t : Thread)
      → take_sample decay gain t ≡ (
          let x = get_or t.samples.buffer t.samples.rdptr (pos 0) in
          (
            (process decay gain x t).0,
            record (process decay gain x t).1 {
              samples = record t.samples { rdptr = (t.samples.rdptr + 1) % 2 ^ 12 };
            },
          ))
  unfolding take_sample
  take_sample-process t = process-samples decay gain _ t _

  after_wait-Flows :
      (a : App)
      → IsGood a
      → a.rtl.thread.samples.rdptr ≢ a.rtl.thread.samples.wrptr
      → count a.system.buffer < 127
      → Flows decay gain a [] ([], after_wait decay gain a)
  after_wait-Flows a g ne room =
      let t = a.rtl.thread in
      let x = get_or t.samples.buffer t.samples.rdptr (pos 0) in
      let s : SampleBuffer = record t.samples { rdptr = (t.samples.rdptr + 1) % 2 ^ 12 } in
      let moved : next sample_bfrsiz t.samples.rdptr ≡ (t.samples.rdptr + 1) % 2 ^ 12 =
        ground (arith, g.samples) in
      let read : samples_waiting a ≡ x ∷ Samples.pending s = rw moved at (
        window-read sample_bfrsiz (pos 0) t.samples.buffer t.samples.rdptr t.samples.wrptr
          g.samples.read_in g.samples.write_in ne) in
      rw (take_sample-process t) (
        processed-Flows a s x g
          (record { size = g.samples.size; write_in = g.samples.write_in; read_in = omega arith })
          (sym read) room)

  test_ring-Flows :
      (exit empty : Bool) (a : App)
      → IsGood a
      → exit ≡ false
      → (empty ≡ false → a.rtl.thread.samples.rdptr ≢ a.rtl.thread.samples.wrptr)
      → Flows decay gain a [] ([], test_ring exit empty a)
  test_ring-Flows true empty a g runs has = absurd cc
  test_ring-Flows false true a g runs has = waiter-Flows decay gain a asleep g tt
  test_ring-Flows false false a g runs has = waiter-Flows decay gain a awake g (has refl)

  receive_mode-Flows :
      (w : Waiter) (a : App)
      → IsGood a
      → HasSample w a.rtl.thread.samples
      → count a.system.buffer < 127
      → Flows decay gain a [] ([], receive_mode decay gain w a)
  receive_mode-Flows testing a g has room =
      let t = a.rtl.thread in
      test_ring-Flows t.exit (t.samples.rdptr == t.samples.wrptr) a g g.runs
        (λ e same. absurd (ground arith))
  receive_mode-Flows asleep a g has room = unchanged-Flows decay gain a g
  receive_mode-Flows awake a g has room = after_wait-Flows a g has room

  pub receive-Flows :
      (a : App)
      → IsGood a
      → count a.system.buffer < 127
      → Flows decay gain a [] ([], receive_step decay gain a)
  unfolding receive_step
  receive-Flows a g room = receive_mode-Flows a.waiter a g g.found room
