-- ===== src/Jni/Path.antt =====
-- From the pipe to the application: runs of JNI/Common/RTLjni.c from the start on.
use piwxrx.Prelude.{
  ℕ, ◌+◌, ◌*◌, ◌/◌, ◌≤◌, ◌<◌, ◌≡◌, refl, true, false, List, [], ◌∷◌, ◌++◌, Option, none, some,
  ◌>>=◌, length,
}
use piwxrx.Prelude.Int.{ℤ, pos}
use piwxrx.Prelude.Word.{AllInt16}
use piwxrx.DataBuffer.Queue.{count}
use piwxrx.Fsk.Samples.{sample_bfrsiz, pair_means, waiting}
use piwxrx.Rtl.{timer_pass}
use piwxrx.Rtl.Safety.{Yields, Yields-bind}
use piwxrx.Jni.{
  App, signal_by, Event, timer, receive, get, wake_receiver, wake_getter, start, stop, clear, leave,
  step, collect, run, stop_udp,
}
use piwxrx.Jni.Stream.{IsGood, Flows, Flows-then}
use piwxrx.Jni.Receive.{receive-Flows}
use piwxrx.Jni.Step.{timer-Flows, get-Flows, start_udp-Flows, stop_udp-Flows, unchanged-Flows}

-- A read fills 2 to 720 samples, and the ring has room for half of them; the byte ring has room;
-- the stream is started while it is off and stopped while it is on; no wait ends
-- without a signal, and the receiver goes on.
abbrev pub Fits : Event → App → Type 0
Fits (timer read) a =
    (1 < length read.samples)
    × (length read.samples ≤ 720)
    × AllInt16 read.samples
    × (read.dw_read ≡ pos (2 * length read.samples))
    × (waiting a.rtl.thread.samples + length read.samples / 2 < sample_bfrsiz)
Fits receive a = count a.system.buffer < 127
Fits get a = Unit {0}
Fits wake_receiver a = ⊥
Fits wake_getter a = ⊥
Fits (start hdr call) a = a.rtl.sending_udp ≡ false
Fits stop a = a.rtl.sending_udp ≡ true
Fits clear a = ⊥
Fits leave a = ⊥

-- The samples at 12 kHz that a sequence of steps feeds to the receiver.
abbrev pub fed_by : Event → List ℤ
fed_by (timer read) = pair_means read.samples
fed_by receive = []
fed_by get = []
fed_by wake_receiver = []
fed_by wake_getter = []
fed_by (start hdr call) = []
fed_by stop = []
fed_by clear = []
fed_by leave = []

abbrev pub fed_in : List Event → List ℤ
fed_in [] = []
fed_in (event ∷ events) = fed_by event ++ fed_in events

-- What follows, if there is a result.
abbrev pub Then : Option (Option ℤ × App) → (App → Type 0) → Type 0
Then none P = Unit {0}
Then (some s) P = P s.1

collect-append : (o : Option ℤ) (xs : List ℤ) → collect o xs ≡ collect o [] ++ xs
collect-append none xs = refl
collect-append (some x) xs = refl

module _ (decay gain : ℤ → ℤ) (inet_pton : List ℕ → Option ℕ) where
  abbrev pub KeepsUp : List Event → App → Type 0
  KeepsUp [] a = Unit {0}
  KeepsUp (event ∷ events) a =
      Fits event a × Then (step decay gain inet_pton event a) (KeepsUp events)

  step-Flows :
      (event : Event) (a : App)
      → IsGood a
      → Fits event a
      → Yields
          (step decay gain inet_pton event a)
          (λ s. Flows decay gain a (fed_by event) (collect s.0 [], s.1))
  unfolding step
  step-Flows (timer read) a g h =
      Yields-bind (timer_pass read a.rtl)
        (λ d. some (none, record a { rtl = d.1; waiter = signal_by read a.waiter }))
        (λ s. Flows decay gain a (pair_means read.samples) (collect s.0 [], s.1))
        (timer-Flows decay gain a read g h.0 h.1 h.2 h.3 h.4) (λ d f. f)
  step-Flows receive a g h = receive-Flows decay gain a g h
  step-Flows get a g h = get-Flows decay gain a g
  step-Flows wake_receiver a g h = absurd h
  step-Flows wake_getter a g h = absurd h
  step-Flows (start hdr call) a g h = start_udp-Flows decay gain inet_pton hdr call a g h
  step-Flows stop a g h =
      Yields-bind (stop_udp a) (λ b. some (none, b))
        (λ s. Flows decay gain a [] (collect s.0 [], s.1)) (stop_udp-Flows decay gain a g h)
        (λ b f. f)
  step-Flows clear a g h = absurd h
  step-Flows leave a g h = absurd h

  Then-Yields :
      (m : Option (Option ℤ × App)) (P : App → Type 0) (Q : Option ℤ × App → Type 0)
      → Then m P
      → Yields m Q
      → Yields m (λ s. P s.1 × Q s)
  Then-Yields none P Q t y = y
  Then-Yields (some s) P Q t y = (t, y)

  -- While every read fits, the rings have room, the stream is started and stopped in turn and no wait ends without a
  -- signal, any order of timer passes, receiver steps and calls of `getRxByte`, `startUDP` and `stopUDP` runs
  -- without a bad access, and no sample and no byte is lost, repeated or out of order on the way:
  -- the receiver has processed the first of the samples that waited and then were read, the rest
  -- still waits, and the application has got the first of the bytes that waited and then were
  -- received from the samples processed, and the rest of them waits.
  pub run-Flows :
      (events : List Event) (a : App)
      → IsGood a
      → KeepsUp events a
      → Yields (run decay gain inet_pton events a) (Flows decay gain a (fed_in events))
  unfolding run
  run-Flows [] a g k = unchanged-Flows decay gain a g
  run-Flows (event ∷ events) a g k =
      Yields-bind (step decay gain inet_pton event a)
        (λ s. run decay gain inet_pton events s.1 >>= λ r. some (collect s.0 r.0, r.1))
        (Flows decay gain a (fed_in (event ∷ events)))
        (Then-Yields (step decay gain inet_pton event a) (KeepsUp events) _ k.1
          (step-Flows event a g k.0))
        (λ s h.
          Yields-bind (run decay gain inet_pton events s.1) (λ r. some (collect s.0 r.0, r.1))
            (Flows decay gain a (fed_in (event ∷ events))) (run-Flows events s.1 h.1.good h.0)
            (λ r f. rw (collect-append s.0 r.0) (
              Flows-then decay gain a (fed_by event) (fed_in events) (collect s.0 []) r.0 s.1 r.1
                h.1 f)))
