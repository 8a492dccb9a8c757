-- ===== src/Rtl/Sending.antt =====
-- The packets that `timer_threads_fn` of JNI/Source/rtl.c sends between `StartUDP` and `StopUDP`.
use piwxrx.Prelude.{
  ℕ, ◌*◌, ◌≤◌, ◌<◌, ◌≡◌, refl, ◌∙◌, sym, ap, ap₂, subst, true, false, ◌||◌, ◌⊎◌, inl, inr, List, [],
  ◌∷◌, ◌++◌, Option, none, some, ◌>>=◌, length, drop, if◌then◌else◌, arith,
}
use piwxrx.Prelude.Int.{ℤ, pos, leb_ℤ, eqb_ℤ}
use piwxrx.Codecs.{codec_none, pcm_encode}
use piwxrx.Codecs.Prefix.{pcm_encode-append}
use piwxrx.Udp.{Udp, Output, sent}
use piwxrx.Udp.Header.{Header, with_header, following}
use piwxrx.Udp.Stream.{
  IsReady, encoded, after, send_udp_packet-ready, after-kept, after_lem, packets,
}
use piwxrx.Rtl.{
  Rtl, Read, read_from_pipe, timer_pass, dispatch, send_checked, feed, passes, add_output,
}
use piwxrx.Rtl.Safety.{Yields, Yields-bind}
use piwxrx.Rtl.Flow.{filled, after_read, dispatched, whole_read, timer_pass-read}

-- A codec is chosen, the stream is on, and the block is ready for packets from a header on.
pub record IsSending (r : Rtl) (h : Header) : Type 0 where
  pub sending : r.sending_udp ≡ true
  pub live : r.udp_live ≡ true
  pub coded : eqb_ℤ r.udp.codec codec_none ≡ false
  pub ready : IsReady r.udp h

-- A read that gives nothing, or 1 to 720 samples of two bytes.
abbrev pub IsWhole : Read → Type 0
IsWhole read =
    (leb_ℤ read.dw_read (pos 0) ≡ true)
    ⊎ ((read.dw_read ≡ pos (2 * length read.samples))
        × (0 < length read.samples)
        × (length read.samples ≤ 720))

abbrev pub AreWhole : List Read → Type 0
AreWhole [] = Unit {0}
AreWhole (read ∷ reads) = IsWhole read × AreWhole reads

-- The samples to send, with their number, of the reads that give some.
abbrev pub blocks : List Read → List (List ℤ × ℕ)
blocks [] = []
blocks (read ∷ reads) =
    let rest = blocks reads in
    if leb_ℤ read.dw_read (pos 0) then rest else (read.samples, length read.samples) ∷ rest

empty_pass :
    (read : Read) (r : Rtl)
    → leb_ℤ read.dw_read (pos 0) ≡ true
    → timer_pass read r
      ≡ some (
        none,
        record r { pipe_buffer = read.samples ++ drop (length read.samples) r.pipe_buffer },
      )
unfolding timer_pass read_from_pipe
empty_pass read r e = rw (e, e) refl

module _ (xs : List ℤ) (r : Rtl) {h : Header} (s : IsSending r h) (some_read : 0 < length xs)
    (few : length xs ≤ 720) where
  abbrev block : List ℕ
  block = with_header h s.ready.rest

  abbrev packet : Output × Udp
  packet = after r.deemphasis r.udp (filled xs r some_read few) (length xs) block

  -- The state after a pass that sends a packet.
  abbrev pub after_pass : Rtl
  after_pass = feed xs (record (after_read xs r some_read few) { udp = packet.1 })

  dispatched-sent :
      dispatched xs r some_read few
      ≡ some (some packet.0, record (after_read xs r some_read few) { udp = packet.1 })
  dispatched-sent =
      let buffer = filled xs r some_read few in
      let r1 = after_read xs r some_read few in
      ap (λ on. dispatch on buffer (length xs) r1) s.sending
      ∙ ap (λ ok. send_checked (ok || eqb_ℤ r.udp.codec codec_none) buffer (length xs) r1) s.live
      ∙ ap (λ m. m >>= λ p. some (some p.0, record r1 { udp = p.1 }))
          (send_udp_packet-ready r.deemphasis r.udp buffer (length xs) block s.coded s.ready.holds)

  pub timer_pass-sent :
      timer_pass (whole_read xs r some_read few) r ≡ some (some packet.0, after_pass)
  timer_pass-sent =
      timer_pass-read xs r some_read few
      ∙ ap (λ m. m >>= λ d. some (d.0, feed xs d.1)) dispatched-sent

  pub packet_lem :
      let e = pcm_encode r.deemphasis xs (length xs) r.udp.codec r.udp.gain r.udp.state in
      (packet.0 ≡ sent r.udp.socket.remote_addr (with_header h e.bytes))
      × IsSending after_pass (following e.result h)
      × (after_pass.udp.state ≡ e.state)
  packet_lem =
      let e = pcm_encode r.deemphasis xs (length xs) r.udp.codec r.udp.gain r.udp.state in
      let buffer = filled xs r some_read few in
      let same : encoded r.deemphasis r.udp buffer (length xs) ≡ e =
        pcm_encode-append (drop (length xs) r.pipe_buffer) r.deemphasis xs r.udp.codec r.udp.gain
          r.udp.state in
      let sends = after_lem r.deemphasis r.udp buffer (length xs) s.ready few in
      let kept = after-kept r.deemphasis r.udp buffer (length xs) block in
      (
        sends.0 ∙ ap (λ c. sent r.udp.socket.remote_addr (with_header h c.bytes)) same,
        record {
          sending = s.sending;
          live = s.live;
          coded = ap (λ c. eqb_ℤ c codec_none) kept.0 ∙ s.coded;
          ready = subst (λ c. IsReady packet.1 (following c.result h)) same sends.1;
        },
        kept.2 ∙ ap (λ c. c.state) same,
      )

pub Yields-some {ℓ κ} :
    {A : Type ℓ} {B : Type κ} {m : Option A} {a : A} (f : A → Option B) (P : B → Type 0)
    → m ≡ some a
    → Yields (f a) P
    → Yields (m >>= f) P
Yields-some f P e h = subst (λ m. Yields (m >>= f) P) (sym e) h

-- The stream is on, at some header.
abbrev pub StaysOn : Rtl → Type 0
StaysOn r = (h : Header) × IsSending r h

-- While the stream is on, whole reads are sent as the packets of the header that is next, one for
-- each read that gives samples, and the stream stays on.
pub passes-sent :
    (reads : List Read) (r : Rtl) {h : Header}
    → IsSending r h
    → AreWhole reads
    → Yields (passes reads r) (λ p.
      (p.0
        ≡ packets r.udp.socket.remote_addr r.deemphasis r.udp.codec r.udp.gain
            (blocks reads)
            h
            r.udp.state)
      × StaysOn p.1
      × (p.1.deemphasis ≡ r.deemphasis))
unfolding passes
passes-sent [] r {h} s whole = (refl, (h, s), refl)
passes-sent (read ∷ reads) r {h} s (inl e, whole) =
    let r1 : Rtl = record r {
      pipe_buffer = read.samples ++ drop (length read.samples) r.pipe_buffer;
    } in
    let s1 : IsSending r1 h = record {
      sending = s.sending;
      live = s.live;
      coded = s.coded;
      ready = s.ready;
    } in
    let all = blocks reads in
    let same =
      ap
        (λ b.
          packets r.udp.socket.remote_addr r.deemphasis r.udp.codec r.udp.gain
            (if b then all else (read.samples, length read.samples) ∷ all) h r.udp.state)
        (sym e) in
    Yields-some (λ d. passes reads d.1 >>= λ p. some (add_output d.0 p.0, p.1)) _
      (empty_pass read r e)
      (Yields-bind (passes reads r1) (λ p. some (p.0, p.1)) _ (passes-sent reads r1 s1 whole)
        (λ p k. (k.0 ∙ same, k.1, k.2)))
passes-sent (read ∷ reads) r {h} s (inr (size, some_read, few), whole) =
    let xs = read.samples in
    let e = pcm_encode r.deemphasis xs (length xs) r.udp.codec r.udp.gain r.udp.state in
    let r1 = after_pass xs r s some_read few in
    let lem = packet_lem xs r s some_read few in
    let out = (packet xs r s some_read few).0 in
    let kept =
      after-kept r.deemphasis r.udp (filled xs r some_read few) (length xs)
        (block xs r s some_read few) in
    let all = blocks reads in
    let nonempty : leb_ℤ read.dw_read (pos 0) ≡ false =
      ap (λ d. leb_ℤ d (pos 0)) size ∙ (ground arith) in
    let next = packets r.udp.socket.remote_addr r.deemphasis r.udp.codec r.udp.gain in
    let go_on : packets r1.udp.socket.remote_addr r1.deemphasis r1.udp.codec r1.udp.gain all
          (following e.result h) r1.udp.state
        ≡ next all (following e.result h) e.state =
      rw (kept.0, kept.1, lem.2, kept.3) refl in
    let same =
      ap (λ b. next (if b then all else (xs, length xs) ∷ all) h r.udp.state) (sym nonempty) in
    Yields-some (λ d. passes reads d.1 >>= λ p. some (add_output d.0 p.0, p.1)) _
      (ap (λ d. timer_pass (record { dw_read = d; samples = xs }) r) size
        ∙ timer_pass-sent xs r s some_read few)
      (Yields-bind (passes reads r1) (λ p. some (out ∷ p.0, p.1)) _
        (passes-sent reads r1 lem.1 whole)
        (λ p k. (ap₂ (λ o l. o ∷ l) lem.0 (k.0 ∙ go_on) ∙ same, k.1, k.2)))
