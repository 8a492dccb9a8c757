-- ===== src/Rtl/Flow.antt =====
-- The samples from the pipe through `timer_threads_fn` of JNI/Source/rtl.c to the receiver.
use piwxrx.Prelude.{
  ℕ, ◌*◌, ◌/◌, ◌≤◌, ◌<◌, ◌≡◌, refl, ◌∙◌, sym, ap, Bool, true, false, List, [], ◌∷◌, ◌++◌, Option,
  none, some, ◌>>=◌, if◌then◌else◌, length, length-append, take, drop, arith,
}
use piwxrx.Prelude.Int.{ℤ, pos, pos_part, leb_ℤ}
use piwxrx.Prelude.Word.{AllInt16}
use piwxrx.Prelude.Ring.{window, length-window}
use piwxrx.Codecs.{pipe_decimate}
use piwxrx.Codecs.Pipe.{pipe_decimate_lem}
use piwxrx.Udp.{Output, send_udp_packet, Udp}
use piwxrx.Udp.Stream.{take-exact}
use piwxrx.Fsk.Samples.{
  SampleBuffer, sample_bfrsiz, dsp_demod, dsp_demod_lem, pair_means, pending, waiting,
}
use piwxrx.Fsk.Samples as Samples
use piwxrx.Fsk.Thread.{Thread, drain, process_all}
use piwxrx.Fsk.Drain.{drain_lem, process_all-samples}
use piwxrx.Rtl.{Rtl, Read, read_from_pipe, send_checked, dispatch, feed, handle_samples, timer_pass}
use piwxrx.Rtl.Safety.{IsSafe, Yields, timer_pass-IsSafe}

-- Of the result, if it is there.
abbrev pub If {ℓ} : {A : Type ℓ} → Option A → (A → Type 0) → Type 0
If none P = Unit {0}
If (some a) P = P a

If-bind {ℓ κ} :
    {A : Type ℓ} {B : Type κ} (m : Option A) (f : A → Option B) (P : A → Type 0) (Q : B → Type 0)
    → If m P
    → ((a : A) → P a → If (f a) Q)
    → If (m >>= f) Q
If-bind none f P Q h next = tt
If-bind (some a) f P Q h next = next a h

pub If-map {ℓ} :
    {A : Type ℓ} (m : Option A) (P Q : A → Type 0) → ((a : A) → P a → Q a) → If m P → If m Q
If-map none P Q f h = tt
If-map (some a) P Q f h = f a h

Yields-If {ℓ} : {A : Type ℓ} (m : Option A) (P Q : A → Type 0) → Yields m P → If m Q → Yields m Q
Yields-If none P Q y h = y
Yields-If (some a) P Q y h = h

send_checked-thread :
    (ok : Bool) (buffer : List ℤ) (n : ℕ) (r : Rtl)
    → If (send_checked ok buffer n r) (λ d. d.1.thread ≡ r.thread)
send_checked-thread false buffer n r = tt
send_checked-thread true buffer n r = kept (send_udp_packet r.deemphasis buffer n r.udp)
  where
    kept :
        (m : Option (Output × Udp))
        → If
            (m >>= λ s. let d : Option Output × Rtl = (some s.0, record r { udp = s.1 }) in some d)
            (λ d. d.1.thread ≡ r.thread)
    kept none = tt
    kept (some s) = refl

dispatch-thread :
    (sending : Bool) (buffer : List ℤ) (n : ℕ) (r : Rtl)
    → If (dispatch sending buffer n r) (λ d. d.1.thread ≡ r.thread)
dispatch-thread false buffer n r = refl
dispatch-thread true buffer n r = send_checked-thread _ buffer n r

-- `read` returns twice as many bytes as there are samples.
read_samples : (n : ℕ) → 0 < n → read_from_pipe (pos (2 * n)) ≡ pos n
unfolding read_from_pipe
read_samples n h = ground arith

module _ (xs : List ℤ) (r : Rtl) (some_read : 0 < length xs) (few : length xs ≤ 720) where
  abbrev pub filled : List ℤ
  filled = xs ++ drop (length xs) r.pipe_buffer

  abbrev pub after_read : Rtl
  after_read = record r { pipe_buffer = filled }

  abbrev pub whole_read : Read
  whole_read = record { dw_read = pos (2 * length xs); samples = xs }

  abbrev pub dispatched : Option (Option Output × Rtl)
  dispatched = dispatch r.sending_udp filled (length xs) after_read

  handle_samples-read :
      handle_samples (length xs) after_read ≡ (dispatched >>= λ d. some (d.0, feed xs d.1))
  unfolding handle_samples
  handle_samples-read =
      let rest = drop (length xs) r.pipe_buffer in
      let whole : pipe_decimate filled (length xs) 720 ≡ (filled, length xs) =
        (pipe_decimate_lem filled (length xs) 720 (omega (arith, length-append xs rest))).1 few in
      ap
        (λ p. dispatch r.sending_udp p.0 p.1 (record r { pipe_buffer = p.0 }) >>= λ d.
          some (d.0, feed (take p.1 p.0) d.1))
        whole
      ∙ ap (λ s. dispatched >>= λ d. some (d.0, feed s d.1)) (take-exact xs rest (length xs) refl)

  pub timer_pass-read : timer_pass whole_read r ≡ (dispatched >>= λ d. some (d.0, feed xs d.1))
  unfolding timer_pass
  timer_pass-read =
      let more : leb_ℤ (pos (length xs)) (pos 0) ≡ false = ground arith in
      ap
        (λ z.
          if leb_ℤ z (pos 0)
          then some (none, after_read)
          else handle_samples (pos_part z) after_read)
        (read_samples (length xs) some_read)
      ∙ ap (λ b. if b then some (none, after_read) else handle_samples (length xs) after_read) more
      ∙ handle_samples-read

  -- A pass that reads `xs` hands them to the receiver's ring.
  pub timer_pass-thread :
      If
        (timer_pass whole_read r)
        (λ d. d.1.thread ≡ record r.thread { samples = dsp_demod xs r.thread.samples })
  timer_pass-thread = rw timer_pass-read (
      If-bind dispatched (λ d. some (d.0, feed xs d.1)) (λ d. d.1.thread ≡ r.thread)
        (λ d. d.1.thread ≡ record r.thread { samples = dsp_demod xs r.thread.samples })
        (dispatch-thread r.sending_udp filled (length xs) after_read)
        (λ d e. ap (λ t. let u : Thread = record t { samples = dsp_demod xs t.samples } in u) e))

length-pair_means : (xs : List ℤ) → length (pair_means xs) ≤ length xs / 2
length-pair_means [] = omega arith
length-pair_means (x ∷ []) = omega arith
length-pair_means (x ∷ y ∷ xs) = omega (arith, length-pair_means xs)

module _ (decay gain : ℤ → ℤ) where
  -- The ring was empty: what waits are the means, and the thread processes them.
  drain-fed :
      (xs : List ℤ) (t : Thread)
      → t.exit ≡ false
      → Samples.IsValid t.samples
      → t.samples.rdptr ≡ t.samples.wrptr
      → AllInt16 xs
      → length xs ≤ 720
      → (drain decay gain 361 (record t { samples = dsp_demod xs t.samples })).0
        ≡ (process_all decay gain (pair_means xs) t).0
  drain-fed xs t runs v empty words few =
      let none_waits : waiting t.samples ≡ 0 = ground arith in
      let means_few = length-pair_means xs in
      let fed = dsp_demod_lem xs v words (omega arith) in
      let u : SampleBuffer = dsp_demod xs t.samples in
      let waits : pending u ≡ pair_means xs =
        fed.0
        ∙ ap (λ n. window sample_bfrsiz (pos 0) t.samples.buffer t.samples.rdptr n ++ pair_means xs)
            none_waits in
      let count : waiting u ≡ length (pair_means xs) =
        sym (length-window sample_bfrsiz (pos 0) u.buffer u.rdptr (waiting u)) ∙ ap length waits in
      ap (λ p. p.0) (drain_lem decay gain 361 (record t { samples = u }) runs fed.1 (omega arith))
      ∙ ap (λ ys. (process_all decay gain ys (record t { samples = u })).0) waits
      ∙ ap (λ p. p.0) (process_all-samples decay gain (pair_means xs) t u)

  -- When the receiver has emptied its ring and runs, and no block that is freed can be used, a
  -- pass of the timer thread that reads 1 to 720 16-bit samples succeeds, and the receiver then
  -- has to process exactly the means of their pairs, in order, whether or not packets are sent.
  pub timer_pass-drain :
      (xs : List ℤ) (r : Rtl)
      → 0 < length xs
      → length xs ≤ 720
      → AllInt16 xs
      → IsSafe r
      → r.thread.exit ≡ false
      → Samples.IsValid r.thread.samples
      → r.thread.samples.rdptr ≡ r.thread.samples.wrptr
      → Yields (timer_pass (record { dw_read = pos (2 * length xs); samples = xs }) r) (λ d.
        (drain decay gain 361 d.1.thread).0 ≡ (process_all decay gain (pair_means xs) r.thread).0)
  timer_pass-drain xs r some_read few words safe runs v empty =
      let read : Read = record { dw_read = pos (2 * length xs); samples = xs } in
      Yields-If (timer_pass read r) (λ d. IsSafe d.1) _ (timer_pass-IsSafe read r safe)
        (If-map (timer_pass read r)
          (λ d. d.1.thread ≡ record r.thread { samples = dsp_demod xs r.thread.samples }) _
          (λ d e.
            ap (λ t. (drain decay gain 361 t).0) e ∙ drain-fed xs r.thread runs v empty words few)
          (timer_pass-thread xs r some_read few))
