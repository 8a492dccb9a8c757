-- ===== src/Jni/Received.antt =====
-- What the application of JNI/Common/RTLjni.c gets, by the demodulated bits.
use piwxrx.Prelude.{ℕ, ◌≡◌, refl, ◌∙◌, ap, false, List, [], ◌∷◌, ◌++◌, Option, none, some}
use piwxrx.Prelude.Int.{ℤ}
use piwxrx.Fsk.Front.{Front, demodulate}
use piwxrx.Fsk.Frame.{emit}
use piwxrx.Fsk.Receiver.{receive, receive_all}
use piwxrx.Fsk.Thread.{Thread, Effect, effect_of, process, process_all, process_mode}
use piwxrx.Rtl.Safety.{Yields}
use piwxrx.Rtl.Runs.{Yields-map}
use piwxrx.Jni.{App, Event, run}
use piwxrx.Jni.Stream.{IsGood, Flows, samples_waiting, bytes_waiting, jbytes, heard}
use piwxrx.Jni.Path.{KeepsUp, fed_in, run-Flows}

module _ (decay gain : ℤ → ℤ) where
  -- The bits that the front end makes of a sequence of samples.
  abbrev pub demodulated : List ℤ → Front → List ℕ
  demodulated [] f = []
  demodulated (x ∷ xs) f =
      let (demod_bit, f1) = demodulate decay gain x f in demod_bit ∷ demodulated xs f1

  heard-effect_of :
      (out : Option ℕ) (effects : List Effect)
      → heard (effect_of out ∷ effects) ≡ emit out (heard effects)
  heard-effect_of none effects = refl
  heard-effect_of (some byte) effects = refl

  -- A sample that is not written out, as the front end and the receiver handle it.
  process-receive :
      (x : ℤ) (t : Thread)
      → t.writing ≡ false
      → process decay gain x t ≡ (
          let (demod_bit, f) = demodulate decay gain x t.front in
          let (out, r) = receive demod_bit t.receiver in
          (effect_of out, record t { front = f; receiver = r }))
  unfolding process
  process-receive x t h = ap (λ w. process_mode decay gain w x t) h

  process_all-receive_all :
      (xs : List ℤ) (t : Thread)
      → t.writing ≡ false
      → heard (process_all decay gain xs t).0 ≡ receive_all (demodulated xs t.front) t.receiver
  unfolding process_all receive_all
  process_all-receive_all [] t h = refl
  process_all-receive_all (x ∷ xs) t h =
      let (demod_bit, f) = demodulate decay gain x t.front in
      let (out, r) = receive demod_bit t.receiver in
      let t1 : Thread = record t { front = f; receiver = r } in
      ap (λ p. heard (p.0 ∷ (process_all decay gain xs p.1).0)) (process-receive x t h)
      ∙ heard-effect_of out (process_all decay gain xs t1).0
      ∙ ap (emit out) (process_all-receive_all xs t1 h)

  -- From `a`, with the samples `fed` read from the pipe: what the application has got and what
  -- waits for it, by the bits that the samples taken are demodulated to.
  pub record Receives (a : App) (fed : List ℤ) (r : List ℤ × App) : Type 0 where
    pub taken : List ℤ
    pub order : taken ++ samples_waiting r.1 ≡ samples_waiting a ++ fed
    pub bytes :
        r.0 ++ jbytes (bytes_waiting r.1)
        ≡ jbytes (
            bytes_waiting a
            ++ receive_all (demodulated taken a.rtl.thread.front) a.rtl.thread.receiver)

  Flows-Receives :
      (a : App) (fed : List ℤ) (r : List ℤ × App)
      → a.rtl.thread.writing ≡ false
      → Flows decay gain a fed r
      → Receives a fed r
  Flows-Receives a fed r h f = record {
    taken = f.taken;
    order = f.order;
    bytes =
        f.bytes
        ∙ ap (λ l. jbytes (bytes_waiting a ++ l)) (process_all-receive_all f.taken a.rtl.thread h);
  }

  -- While every read brings 2 to 720 samples and the rings have room, the stream is started and
  -- stopped in turn, no wait ends without a signal and samples are not written out: in any order of
  -- timer passes, of the receiver's steps and of calls of `getRxByte`, `startUDP` and `stopUDP`,
  -- without `clrFSKSync` and `stopRTL`, the bytes that the application has got and then those that
  -- wait for it are those that waited and then those that the receiver makes of the demodulated bits
  -- of the first of the samples that waited and then were read; the rest of the samples still waits.
  pub run-Receives :
      (inet_pton : List ℕ → Option ℕ) (events : List Event) (a : App)
      → IsGood a
      → KeepsUp decay gain inet_pton events a
      → a.rtl.thread.writing ≡ false
      → Yields (run decay gain inet_pton events a) (Receives a (fed_in events))
  run-Receives inet_pton events a g k h =
      Yields-map (run decay gain inet_pton events a) (Flows decay gain a (fed_in events))
        (Receives a (fed_in events)) (λ r f. Flows-Receives a (fed_in events) r h f)
        (run-Flows decay gain inet_pton events a g k)
