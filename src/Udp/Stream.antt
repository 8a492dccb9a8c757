-- ===== src/Udp/Stream.antt =====
-- The datagrams that JNI/Common/udp.c sends for a sequence of packets.
use piwxrx.Prelude.{
  ℕ, zero, suc, ◌+◌, ◌≤◌, ◌≡◌, refl, ◌∙◌, ap, ap₂, Bool, false, List, [], ◌∷◌, ◌++◌, Option, none,
  some, ◌>>=◌, length, length-append, length-drop, take, drop, arith,
}
use piwxrx.Prelude.Int.{ℤ, eqb_ℤ}
use piwxrx.Codecs.{codec_none, pcm_encode, Encoded}
use piwxrx.Codecs.Encode.{length-pcm_encode}
use piwxrx.Udp.{
  Udp, Address, Output, sent, overwrite, rtp_hdrlen, next_header, send_from, send_mode, send,
  send_udp_packet, send_all,
}
use piwxrx.Udp.Header.{
  Header, IsValid, Agrees, with_header, following, following-IsValid, next_header_lem,
}

module _ {ℓ} {A : Type ℓ} where
  pub take-exact : (xs ys : List A) (n : ℕ) → n ≡ length xs → take n (xs ++ ys) ≡ xs
  take-exact [] ys zero e = refl
  take-exact [] ys (suc n) e = absurd (omega arith)
  take-exact (x ∷ xs) ys zero e = absurd (omega arith)
  take-exact (x ∷ xs) ys (suc n) e = ap (λ r. x ∷ r) (take-exact xs ys n (omega arith))

  drop-more : (xs ys : List A) (n : ℕ) → drop (length xs + n) (xs ++ ys) ≡ drop n ys
  drop-more [] ys n = ap (λ m. drop m ys) (omega arith)
  drop-more (x ∷ xs) ys n =
      let e : length (x ∷ xs) + n ≡ suc (length xs + n) = omega arith in rw e (drop-more xs ys n)

-- The largest payload: a third of the samples of a read.
abbrev pub max_payload : ℕ
max_payload = 240

-- The buffer holds a header and has room, and the globals agree with the header.
pub record IsReady (u : Udp) (h : Header) : Type 0 where
  pub rest : List ℕ
  pub room : max_payload ≤ length rest
  pub holds : u.buffer ≡ some (with_header h rest)
  pub valid : IsValid h
  pub agrees : Agrees u h

filled_lem :
    (h : Header) (bytes rest : List ℕ)
    → overwrite (with_header h rest) rtp_hdrlen bytes
      ≡ with_header h (bytes ++ drop (length bytes) rest)
unfolding overwrite
filled_lem h bytes rest =
    ap (λ r. with_header h (bytes ++ r)) (drop-more (with_header h []) rest (length bytes))

send_from_lem :
    (e : Encoded) (rest : List ℕ) (u : Udp) {h : Header}
    → IsValid h
    → Agrees u h
    → max_payload ≤ length rest
    → length e.bytes ≡ e.result
    → e.result ≤ max_payload
    → ((send_from e (with_header h rest) u).0 ≡ sent u.socket.remote_addr (with_header h e.bytes))
      × IsReady (send_from e (with_header h rest) u).1 (following e.result h)
unfolding send_from send
send_from_lem e rest u {h} v a room size small =
    let tail = drop (length e.bytes) rest in
    let next = next_header_lem e.result (e.bytes ++ tail) u v a in
    rw (filled_lem h e.bytes rest) (
      ap (sent u.socket.remote_addr)
          (take-exact (with_header h e.bytes) tail (e.result + rtp_hdrlen) (omega arith)),
      record {
        rest = e.bytes ++ tail;
        room = omega (arith, length-append e.bytes tail, length-drop (length e.bytes) rest);
        holds = next.0;
        valid = following-IsValid e.result v;
        agrees = next.1;
      },
    )

-- The datagrams of packets, by their header: the numbers count up from it, the time stamps add
-- up the payloads, and the mark is cleared after the first.
module _ (remote : Address) (deemphasis : Bool) (codec : ℤ) (gain : ℕ) where
  abbrev pub packets : List (List ℤ × ℕ) → Header → ℤ → List Output
  packets [] h state = []
  packets ((pipe, samplesread) ∷ calls) h state =
      let e = pcm_encode deemphasis pipe samplesread codec gain state in
      sent remote (with_header h e.bytes) ∷ packets calls (following e.result h) e.state

-- No call reads more samples than a read of the pipe gives.
abbrev pub AreShort : List (List ℤ × ℕ) → Type 0
AreShort [] = Unit {0}
AreShort (call ∷ calls) = (call.1 ≤ 720) × AreShort calls

module _ (deemphasis : Bool) (u : Udp) (pipe : List ℤ) (samplesread : ℕ) where
  abbrev pub encoded : Encoded
  encoded = pcm_encode deemphasis pipe samplesread u.codec u.gain u.state

  -- The globals when the packet is sent from a block.
  abbrev pub after : List ℕ → Output × Udp
  after block = send_from encoded block (record u { state = encoded.state })

  pub send_udp_packet-ready :
      (block : List ℕ)
      → eqb_ℤ u.codec codec_none ≡ false
      → u.buffer ≡ some block
      → send_udp_packet deemphasis pipe samplesread u ≡ some (after block)
  unfolding send_udp_packet
  send_udp_packet-ready block coded holds =
      ap₂ (λ c b. send_mode c b encoded (record u { state = encoded.state })) coded holds

  pub after-kept :
      (block : List ℕ)
      → ((after block).1.codec ≡ u.codec)
        × ((after block).1.gain ≡ u.gain)
        × ((after block).1.state ≡ encoded.state)
        × ((after block).1.socket ≡ u.socket)
  unfolding send_from next_header
  after-kept block = (refl, refl, refl, refl)

  pub after_lem :
      {h : Header} (r : IsReady u h)
      → samplesread ≤ 720
      → ((after (with_header h r.rest)).0 ≡ sent u.socket.remote_addr (with_header h encoded.bytes))
        × IsReady (after (with_header h r.rest)).1 (following encoded.result h)
  after_lem r short =
      let size = length-pcm_encode deemphasis pipe samplesread u.codec u.gain u.state in
      send_from_lem encoded r.rest (record u { state = encoded.state }) r.valid
        (record { sequence = r.agrees.sequence; timestamp = r.agrees.timestamp }) r.room size.0
        (omega (arith, size.1))

-- The outputs of a sequence of calls, where none fails.
abbrev pub outputs : Option (List Output × Udp) → Option (List Output)
outputs none = none
outputs (some r) = some r.0

outputs-cons :
    (out : Output) (m : Option (List Output × Udp))
    → outputs (m >>= λ r. some (out ∷ r.0, r.1)) ≡ (outputs m >>= λ outs. some (out ∷ outs))
outputs-cons out none = refl
outputs-cons out (some r) = refl

-- Where a codec is chosen and the globals agree with a header in the buffer, a sequence of reads of
-- at most 720 samples is sent to the remote address as the datagrams of that header: the numbers count up modulo 2 ^ 16,
-- the time stamps add up the payloads modulo 2 ^ 32, only the first keeps the mark, and none is
-- cut by the buffer's end.
pub send_all_lem :
    (deemphasis : Bool) (calls : List (List ℤ × ℕ)) (u : Udp) {h : Header}
    → eqb_ℤ u.codec codec_none ≡ false
    → IsReady u h
    → AreShort calls
    → outputs (send_all deemphasis calls u)
      ≡ some (packets u.socket.remote_addr deemphasis u.codec u.gain calls h u.state)
unfolding send_all
send_all_lem deemphasis [] u coded r short = refl
send_all_lem deemphasis ((pipe, samplesread) ∷ calls) u {h} coded r short =
    let next = after deemphasis u pipe samplesread (with_header h r.rest) in
    let kept = after-kept deemphasis u pipe samplesread (with_header h r.rest) in
    let step = after_lem deemphasis u pipe samplesread r short.0 in
    let more =
      send_all_lem deemphasis calls next.1 (ap (λ c. eqb_ℤ c codec_none) kept.0 ∙ coded) step.1
        short.1 in
    let e = encoded deemphasis u pipe samplesread in
    let same : packets next.1.socket.remote_addr deemphasis next.1.codec next.1.gain calls
          (following e.result h) next.1.state
        ≡ packets u.socket.remote_addr deemphasis u.codec u.gain calls (following e.result h)
            e.state =
      rw (kept.0, kept.1, kept.2, kept.3) refl in
    ap (λ m. outputs (m >>= λ x. send_all deemphasis calls x.1 >>= λ y. some (x.0 ∷ y.0, y.1)))
      (send_udp_packet-ready deemphasis u pipe samplesread (with_header h r.rest) coded r.holds)
    ∙ outputs-cons next.0 (send_all deemphasis calls next.1)
    ∙ ap₂ (λ out m. m >>= λ outs. some (out ∷ outs)) step.0 (more ∙ ap some same)
