-- ===== src/Jni/Step.antt =====
-- The single steps of a run of JNI/Common/RTLjni.c.
use mathlib.Core.List.{append-nil}
use piwxrx.Prelude.{
  ℕ, ◌+◌, ◌*◌, ◌/◌, ◌≤◌, ◌<◌, ◌≡◌, ◌≢◌, refl, ◌∙◌, sym, ap, subst, Bool, true, false, List, [], ◌∷◌,
  ◌++◌, Option, none, some, length, length-append, arith,
}
use piwxrx.Prelude.Int.{ℤ, pos}
use piwxrx.Prelude.Word.{AllInt16}
use piwxrx.Prelude.Ring.{length-window}
use piwxrx.DataBuffer.{System, char, put, get, put_byte}
use piwxrx.DataBuffer as DataBuffer
use piwxrx.DataBuffer.Schedule.{get-Took}
use piwxrx.Fsk.Samples as Samples
use piwxrx.Fsk.Samples.{SampleBuffer, sample_bfrsiz, dsp_demod, dsp_demod_lem, pair_means, waiting}
use piwxrx.Fsk.Thread.{Thread, process_all}
use piwxrx.Rtl.{Rtl, Read, StartCall, timer_pass}
use piwxrx.Rtl as Rtl
use piwxrx.Rtl.Safety.{IsSafe, Yields, Yields-bind, timer_pass-IsSafe}
use piwxrx.Rtl.Runs.{Yields-map, start_udp-IsSafe, stop_udp-IsSafe}
use piwxrx.Rtl.Flow.{If, timer_pass-thread}
use piwxrx.Jni.{
  App, Waiter, testing, asleep, awake, signal_by, collect, jbyte, get_rx_byte, start_udp, stop_udp,
  unsigned,
}
use piwxrx.Jni.Stream.{IsGood, HasSample, Flows, jbytes, samples_waiting, bytes_waiting}

Yields-both {ℓ} :
    {A : Type ℓ} (m : Option A) (P Q : A → Type 0) → Yields m P → If m Q → Yields m (λ a. P a × Q a)
Yields-both none P Q y h = y
Yields-both (some a) P Q y h = (y, h)

pair_means-some : (xs : List ℤ) → 1 < length xs → 0 < length (pair_means xs)
pair_means-some [] h = absurd (omega arith)
pair_means-some (x ∷ []) h = absurd (omega arith)
pair_means-some (x ∷ y ∷ xs) h = omega arith

-- With a pair of samples stored, the ring is not empty.
stored-differ :
    (xs : List ℤ) (old : SampleBuffer)
    → Samples.pending (dsp_demod xs old) ≡ Samples.pending old ++ pair_means xs
    → 1 < length xs
    → (dsp_demod xs old).rdptr ≢ (dsp_demod xs old).wrptr
stored-differ xs old fed h = λ e.
    let s = dsp_demod xs old in
    let none_left : waiting s ≡ 0 = ground arith in
    let count : length (Samples.pending s) ≡ waiting s =
      length-window sample_bfrsiz (pos 0) s.buffer s.rdptr (waiting s) in
    let more : length (Samples.pending s) ≡ length (Samples.pending old) + length (pair_means xs) =
      ap length fed ∙ length-append (Samples.pending old) (pair_means xs) in
    absurd (omega (arith, pair_means-some xs h))

HasSample-all : (w : Waiter) (s : SampleBuffer) → s.rdptr ≢ s.wrptr → HasSample w s
HasSample-all testing s h = tt
HasSample-all asleep s h = tt
HasSample-all awake s h = h

module _ (decay gain : ℤ → ℤ) where
  -- A step that at most adds to the samples that wait.
  fed-Flows :
      (a : App) (fed : List ℤ) (rtl : Rtl) (s : SampleBuffer) (w : Waiter)
      → IsGood a
      → IsSafe rtl
      → rtl.thread ≡ record a.rtl.thread { samples = s }
      → Samples.IsValid s
      → HasSample w s
      → Samples.pending s ≡ samples_waiting a ++ fed
      → Flows decay gain a fed ([], record a { rtl = rtl; waiter = w })
  unfolding process_all
  fed-Flows a fed rtl s w g safe e v has p =
      let same : rtl.thread.samples ≡ s = ap (λ t. t.samples) e in
      record {
        taken = [];
        good = record {
          runs = ap (λ t. t.exit) e ∙ g.runs;
          byte = rw e g.byte;
          samples = rw same v;
          found = subst (HasSample w) (sym same) has;
          safe = safe;
          fair = g.fair;
        };
        order = ap Samples.pending same ∙ p;
        thread = e ∙ ap (λ b. let t : Thread = record a.rtl.thread { samples = b } in t) (sym same);
        bytes = ap jbytes (sym (append-nil (bytes_waiting a)));
      }

  pub timer-Flows :
      (a : App) (read : Read)
      → IsGood a
      → 1 < length read.samples
      → length read.samples ≤ 720
      → AllInt16 read.samples
      → read.dw_read ≡ pos (2 * length read.samples)
      → waiting a.rtl.thread.samples + length read.samples / 2 < sample_bfrsiz
      → Yields (timer_pass read a.rtl) (λ d.
        Flows decay gain a
          (pair_means read.samples)
          ([], record a { rtl = d.1; waiter = signal_by read a.waiter }))
  timer-Flows a read g some_read few words whole room =
      let xs = read.samples in
      let old = a.rtl.thread.samples in
      let fed = dsp_demod_lem xs g.samples words room in
      let same : timer_pass read a.rtl
          ≡ timer_pass (record { dw_read = pos (2 * length xs); samples = xs }) a.rtl =
        ap (λ n. timer_pass (record { dw_read = n; samples = xs }) a.rtl) whole in
      Yields-map (timer_pass read a.rtl)
        (λ d. IsSafe d.1 × (d.1.thread ≡ record a.rtl.thread { samples = dsp_demod xs old })) _
        (λ d k.
          fed-Flows a (pair_means xs) d.1 (dsp_demod xs old) (signal_by read a.waiter) g k.0 k.1
            fed.1
            (HasSample-all (signal_by read a.waiter) (dsp_demod xs old)
              (stored-differ xs old fed.0 some_read))
            fed.0)
        (Yields-both (timer_pass read a.rtl) (λ d. IsSafe d.1)
          (λ d. d.1.thread ≡ record a.rtl.thread { samples = dsp_demod xs old })
          (timer_pass-IsSafe read a.rtl g.safe)
          (rw same (timer_pass-thread xs a.rtl (omega arith) few)))

  pub start_udp-Flows :
      (inet_pton : List ℕ → Option ℕ) (hdr : List ℤ) (call : StartCall) (a : App)
      → IsGood a
      → a.rtl.sending_udp ≡ false
      → Flows decay gain a [] ([], (start_udp inet_pton hdr call a).1)
  unfolding start_udp Rtl.start_udp
  start_udp-Flows inet_pton hdr call a g e =
      let c : StartCall = record call { hdr = unsigned hdr } in
      fed-Flows a [] (Rtl.start_udp inet_pton c a.rtl).1 a.rtl.thread.samples a.waiter g
        (start_udp-IsSafe inet_pton c a.rtl e) refl g.samples g.found
        (sym (append-nil (samples_waiting a)))

  close_mode-thread :
      (no_codec live : Bool) (r : Rtl)
      → If (Rtl.close_mode no_codec live r) (λ r'. r'.thread ≡ r.thread)
  close_mode-thread true live r = refl
  close_mode-thread false false r = tt
  close_mode-thread false true r = refl

  pub stop_udp-Flows :
      (a : App)
      → IsGood a
      → a.rtl.sending_udp ≡ true
      → Yields (stop_udp a) (λ b. Flows decay gain a [] ([], b))
  unfolding stop_udp
  stop_udp-Flows a g e =
      Yields-bind (Rtl.stop_udp a.rtl) (λ rtl. some (record a { rtl = rtl }))
        (λ b. Flows decay gain a [] ([], b))
        (Yields-both (Rtl.stop_udp a.rtl) IsSafe (λ r. r.thread ≡ a.rtl.thread)
          (stop_udp-IsSafe a.rtl g.safe e) (unfold Rtl.stop_udp in close_mode-thread _ _ _))
        (λ rtl k.
          fed-Flows a [] rtl a.rtl.thread.samples a.waiter g k.0 k.1 g.samples g.found
            (sym (append-nil (samples_waiting a))))

  jbyte-collect :
      (o : Option ℕ) (bytes : List ℕ)
      → collect (jbyte o) [] ++ jbytes bytes ≡ jbytes (DataBuffer.collect o bytes)
  jbyte-collect none bytes = refl
  jbyte-collect (some byte) bytes = refl

  pub get-Flows :
      (a : App)
      → IsGood a
      → let (out, b) = get_rx_byte a in Flows decay gain a [] (collect out [], b)
  unfolding get_rx_byte process_all
  get-Flows a g =
      let took = get-Took g.fair in
      record {
        taken = [];
        good = record {
          runs = g.runs;
          byte = g.byte;
          samples = g.samples;
          found = g.found;
          safe = g.safe;
          fair = took.fair;
        };
        order = sym (append-nil (samples_waiting a));
        thread = refl;
        bytes =
            jbyte-collect (DataBuffer.step get a.system).0 _
            ∙ ap jbytes (sym took.order ∙ sym (append-nil (bytes_waiting a)));
      }

  pub waiter-Flows :
      (a : App) (w : Waiter)
      → IsGood a
      → HasSample w a.rtl.thread.samples
      → Flows decay gain a [] ([], record a { waiter = w })
  waiter-Flows a w g has =
      fed-Flows a [] a.rtl a.rtl.thread.samples w g g.safe refl g.samples has
        (sym (append-nil (samples_waiting a)))

  pub unchanged-Flows : (a : App) → IsGood a → Flows decay gain a [] ([], a)
  unchanged-Flows a g = waiter-Flows a a.waiter g g.found
