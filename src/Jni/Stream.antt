-- ===== src/Jni/Stream.antt =====
-- What a part of a run of JNI/Common/RTLjni.c does to the samples and the bytes under way.
use mathlib.Core.List.{append_assoc}
use piwxrx.Prelude.{ℕ, ◌<◌, ◌≡◌, ◌≢◌, refl, ◌∙◌, sym, ap, false, List, [], ◌∷◌, ◌++◌}
use piwxrx.Prelude.Int.{ℤ}
use piwxrx.DataBuffer.{char}
use piwxrx.DataBuffer.Queue as Queue
use piwxrx.DataBuffer.Schedule.{IsFair}
use piwxrx.Fsk.Samples as Samples
use piwxrx.Fsk.Samples.{SampleBuffer}
use piwxrx.Fsk.Thread.{Thread, Effect, quiet, wrote, received, process, process_all}
use piwxrx.Fsk.Drain.{process_all-samples}
use piwxrx.Rtl.Safety.{IsSafe}
use piwxrx.Jni.{App, Waiter, testing, asleep, awake}

-- Bytes as the application gets them.
abbrev pub jbytes : List ℕ → List ℤ
jbytes [] = []
jbytes (byte ∷ bytes) = char byte ∷ jbytes bytes

pub jbytes-append : (xs ys : List ℕ) → jbytes (xs ++ ys) ≡ jbytes xs ++ jbytes ys
jbytes-append [] ys = refl
jbytes-append (x ∷ xs) ys = ap (λ r. char x ∷ r) (jbytes-append xs ys)

-- The bytes among what the receiver's thread leaves outside.
abbrev pub heard : List Effect → List ℕ
heard [] = []
heard (quiet ∷ effects) = heard effects
heard (wrote sample ∷ effects) = heard effects
heard (received byte ∷ effects) = byte ∷ heard effects

pub heard-append : (xs ys : List Effect) → heard (xs ++ ys) ≡ heard xs ++ heard ys
heard-append [] ys = refl
heard-append (quiet ∷ xs) ys = heard-append xs ys
heard-append (wrote sample ∷ xs) ys = heard-append xs ys
heard-append (received byte ∷ xs) ys = ap (λ r. byte ∷ r) (heard-append xs ys)

-- The receiver's thread past its test or its wait finds a sample.
abbrev pub HasSample : Waiter → SampleBuffer → Type 0
HasSample testing s = Unit {0}
HasSample asleep s = Unit {0}
HasSample awake s = s.rdptr ≢ s.wrptr

-- The application and both rings are in order, and the receiver's thread runs.
pub record IsGood (a : App) : Type 0 where
  pub runs : a.rtl.thread.exit ≡ false
  pub byte : a.rtl.thread.receiver.frame.demod_byte < 256
  pub samples : Samples.IsValid a.rtl.thread.samples
  pub found : HasSample a.waiter a.rtl.thread.samples
  pub safe : IsSafe a.rtl
  pub fair : IsFair a.system

-- The samples and the bytes that wait in the rings.
abbrev pub samples_waiting : App → List ℤ
samples_waiting a = Samples.pending a.rtl.thread.samples

abbrev pub bytes_waiting : App → List ℕ
bytes_waiting a = Queue.pending a.system.buffer

module _ (decay gain : ℤ → ℤ) where
  abbrev pub processed : List ℤ → Thread → List Effect × Thread
  processed xs t = process_all decay gain xs t

  process_all-append :
      (xs ys : List ℤ) (t : Thread)
      → let (effects, u) = processed xs t in
        processed (xs ++ ys) t ≡ (effects ++ (processed ys u).0, (processed ys u).1)
  unfolding process_all
  process_all-append [] ys t = refl
  process_all-append (x ∷ xs) ys t =
      ap (λ r. ((process decay gain x t).0 ∷ r.0, r.1))
        (process_all-append xs ys (process decay gain x t).1)

  -- From `a`, with the samples `fed` read from the pipe, to `r.1`, with `r.0` got by the
  -- application: the samples taken and those that wait are those that waited and those fed; the
  -- thread is as after processing those taken; and the bytes got and those that wait are those
  -- that waited and those heard.
  pub record Flows (a : App) (fed : List ℤ) (r : List ℤ × App) : Type 0 where
    pub taken : List ℤ
    pub good : IsGood r.1
    pub order : taken ++ samples_waiting r.1 ≡ samples_waiting a ++ fed
    pub thread :
        r.1.rtl.thread
        ≡ record (processed taken a.rtl.thread).1 { samples = r.1.rtl.thread.samples }
    pub bytes :
        r.0 ++ jbytes (bytes_waiting r.1)
        ≡ jbytes (bytes_waiting a ++ heard (processed taken a.rtl.thread).0)

  abbrev with_samples : SampleBuffer → Thread → Thread
  with_samples s t = record t { samples = s }

  Flows-thread :
      (xs ys : List ℤ) (t u v : Thread)
      → u ≡ with_samples u.samples (processed xs t).1
      → v ≡ with_samples v.samples (processed ys u).1
      → ((processed ys u).0 ≡ (processed ys (processed xs t).1).0)
        × (v ≡ with_samples v.samples (processed (xs ++ ys) t).1)
  Flows-thread xs ys t u v eu ev =
      let same =
        ap (λ w. processed ys w) eu
        ∙ process_all-samples decay gain ys (processed xs t).1 u.samples in
      (
        ap (λ p. p.0) same,
        ev
            ∙ ap (λ p. with_samples v.samples p.1) same
            ∙ ap (λ p. with_samples v.samples p.1) (sym (process_all-append xs ys t)),
      )

  pub Flows-then :
      (a : App) (fed more : List ℤ) (outs outs' : List ℤ) (b c : App)
      → Flows a fed (outs, b)
      → Flows b more (outs', c)
      → Flows a (fed ++ more) (outs ++ outs', c)
  Flows-then a fed more outs outs' b c f g =
      let threads =
        Flows-thread f.taken g.taken a.rtl.thread b.rtl.thread c.rtl.thread f.thread g.thread in
      let first = heard (processed f.taken a.rtl.thread).0 in
      let second = heard (processed g.taken b.rtl.thread).0 in
      let both : heard (processed (f.taken ++ g.taken) a.rtl.thread).0 ≡ first ++ second =
        ap (λ p. heard p.0) (process_all-append f.taken g.taken a.rtl.thread)
        ∙ heard-append (processed f.taken a.rtl.thread).0 _
        ∙ ap (λ e. first ++ heard e) (sym threads.0) in
      record {
        taken = f.taken ++ g.taken;
        good = g.good;
        order =
            append_assoc f.taken g.taken (samples_waiting c)
            ∙ ap (λ r. f.taken ++ r) g.order
            ∙ sym (append_assoc f.taken (samples_waiting b) more)
            ∙ ap (λ r. r ++ more) f.order
            ∙ append_assoc (samples_waiting a) fed more;
        thread = threads.1;
        bytes =
            append_assoc outs outs' (jbytes (bytes_waiting c))
            ∙ ap (λ r. outs ++ r) (g.bytes ∙ jbytes-append (bytes_waiting b) second)
            ∙ sym (append_assoc outs (jbytes (bytes_waiting b)) (jbytes second))
            ∙ ap (λ r. r ++ jbytes second) f.bytes
            ∙ sym (jbytes-append (bytes_waiting a ++ first) second)
            ∙ ap jbytes (
                append_assoc (bytes_waiting a) first second
                ∙ ap (λ r. bytes_waiting a ++ r) (sym both));
      }
