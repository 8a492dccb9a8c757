-- ===== src/Rtl/Heard.antt =====
-- What a listener decodes from the packets of JNI/Source/rtl.c and JNI/Common/udp.c, with the
-- u-law decoder of JNI/Common/codecs.c.
use piwxrx.Prelude.{
  ◌++◌, some, ◌>>=◌, ℕ, ◌-◌, ◌/◌, ◌≤◌, ◌≡◌, ◌∙◌, sym, ap, ap₂, subst, false, Bool-cases, inl, inr,
  List, [], ◌∷◌, Option, length, drop, arith,
}
use piwxrx.Prelude.Int.{ℤ, pos, leb_ℤ}
use piwxrx.Prelude.Word.{AllInt16}
use piwxrx.Codecs.{codec_pcmu, pcm_encode, pcm_decode}
use piwxrx.Codecs.Encode.{means, length-pcm_encode}
use piwxrx.Codecs.RoundTrip.{AreNear, pcm_decode-pcm_encode}
use piwxrx.Udp.{Address, Output, sent, wrote, rtp_hdrlen, set_address}
use piwxrx.Udp.Header.{Header, with_header, following, marked}
use piwxrx.Udp.Stream.{packets}
use piwxrx.Rtl.{Rtl, Read, StartCall}
use piwxrx.Rtl.Safety.{Yields, Yields-bind}
use piwxrx.Rtl.Runs.{Yields-map}
use piwxrx.Rtl.Sending.{AreWhole, blocks}
use piwxrx.Rtl.Broadcast.{Opens, broadcast, broadcast_lem}

-- The payload of a datagram, decoded.
abbrev pub listen : Output → List ℤ
listen (sent to datagram) =
    (pcm_decode (drop rtp_hdrlen datagram) (length datagram - rtp_hdrlen) codec_pcmu).0
listen (wrote samples) = samples

-- Each output decodes to about the means of the groups of three samples of its block.
abbrev pub AreHeard : List Output → List (List ℤ × ℕ) → Type 0
AreHeard [] [] = Unit {0}
AreHeard (out ∷ outs) ((samples, n) ∷ calls) =
    AreNear (listen out) (means (n / 3) samples) × AreHeard outs calls
AreHeard _ _ = ⊥

-- The reads hold 16-bit samples.
abbrev pub AreWords : List Read → Type 0
AreWords [] = Unit {0}
AreWords (read ∷ reads) = AllInt16 read.samples × AreWords reads

abbrev AreFilled : List (List ℤ × ℕ) → Type 0
AreFilled [] = Unit {0}
AreFilled ((samples, n) ∷ calls) = (AllInt16 samples × (n ≤ length samples)) × AreFilled calls

blocks-AreFilled : (reads : List Read) → AreWords reads → AreFilled (blocks reads)
blocks-AreFilled [] w = tt
blocks-AreFilled (read ∷ reads) w =
    let more = blocks-AreFilled reads w.1 in
    elim (Bool-cases (leb_ℤ read.dw_read (pos 0))) [
      | inl e ↦ rw e more
      | inr e ↦ rw e ((w.0, omega arith), more)
    ]

packets-AreHeard :
    (remote : Address) (calls : List (List ℤ × ℕ)) (h : Header) (state : ℤ)
    → AreFilled calls
    → AreHeard (packets remote false codec_pcmu 0 calls h state) calls
packets-AreHeard remote [] h state filled = tt
packets-AreHeard remote ((samples, n) ∷ calls) h state filled =
    let e = pcm_encode false samples n codec_pcmu 0 state in
    let size : length (with_header h e.bytes) - rtp_hdrlen ≡ e.result =
      omega (arith, (length-pcm_encode false samples n codec_pcmu 0 state).0) in
    (
      subst (λ m. AreNear (pcm_decode e.bytes m codec_pcmu).0 (means (n / 3) samples)) (sym size)
          (pcm_decode-pcm_encode samples n state filled.0.0 filled.0.1),
      packets-AreHeard remote calls (following e.result h) e.state filled.1,
    )

-- What one session is given: the call of `StartUDP` with the header and the block that it gets, and
-- the reads before it, up to `StopUDP`, and after that.
pub record Session : Type 0 where
  pub call : StartCall
  pub header : Header
  pub block : List ℕ
  pub before : List Read
  pub during : List Read
  pub later : List Read

-- A session with the u-law codec and no gain, in which the calls succeed.
pub record IsPlain (s : Session) : Type 0 where
  pub codec : s.call.codec ≡ codec_pcmu
  pub gain : s.call.gain ≡ 0
  pub opens : Opens s.call s.header s.block
  pub whole : AreWhole s.during
  pub words : AreWords s.during

abbrev pub ArePlain : List Session → Type 0
ArePlain [] = Unit {0}
ArePlain (s ∷ sessions) = IsPlain s × ArePlain sessions

-- The blocks of samples between the starts and the stops.
abbrev pub all_blocks : List Session → List (List ℤ × ℕ)
all_blocks [] = []
all_blocks (s ∷ sessions) = blocks s.during ++ all_blocks sessions

AreHeard-append :
    (outs outs' : List Output) (calls calls' : List (List ℤ × ℕ))
    → AreHeard outs calls
    → AreHeard outs' calls'
    → AreHeard (outs ++ outs') (calls ++ calls')
AreHeard-append [] outs' [] calls' h h' = h'
AreHeard-append [] outs' (c ∷ calls) calls' h h' = absurd h
AreHeard-append (o ∷ outs) outs' [] calls' h h' = absurd h
AreHeard-append (o ∷ outs) outs' ((samples, n) ∷ calls) calls' h h' =
    (h.0, AreHeard-append outs outs' calls calls' h.1 h')

module _ (inet_pton : List ℕ → Option ℕ) where
  broadcast-AreHeard :
      (s : Session) (r : Rtl)
      → r.sending_udp ≡ false
      → r.deemphasis ≡ false
      → IsPlain s
      → Yields (broadcast inet_pton s.call s.before s.during s.later r) (λ p.
        AreHeard p.0 (blocks s.during) × (p.1.sending_udp ≡ false) × (p.1.deemphasis ≡ false))
  broadcast-AreHeard s r off plain w =
      let c = s.call in
      let remote =
        set_address (inet_pton (drop 1 c.remoteip)) c.remote_port r.udp.socket.remote_addr in
      let calls = blocks s.during in
      let first = marked s.header in
      let heard =
        packets-AreHeard remote calls first r.udp.state (blocks-AreFilled s.during w.words) in
      let same : packets remote r.deemphasis c.codec c.gain calls first r.udp.state
          ≡ packets remote false codec_pcmu 0 calls first r.udp.state =
        ap₂ (λ d k. packets remote d k c.gain calls first r.udp.state) plain w.codec
        ∙ ap (λ g. packets remote false codec_pcmu g calls first r.udp.state) w.gain in
      Yields-map (broadcast inet_pton c s.before s.during s.later r) _
        (λ p. AreHeard p.0 calls × (p.1.sending_udp ≡ false) × (p.1.deemphasis ≡ false))
        (λ p k. (subst (λ outs. AreHeard outs calls) (sym (k.0 ∙ same)) heard, k.1, k.3 ∙ plain))
        (broadcast_lem inet_pton c s.before s.during s.later r s.header s.block off w.opens w.whole)

  -- Sessions one after another, and all that they send.
  abbrev pub broadcasts : List Session → Rtl → Option (List Output × Rtl)
  broadcasts [] r = some ([], r)
  broadcasts (s ∷ sessions) r = do
    (outs, r1) ← broadcast inet_pton s.call s.before s.during s.later r
    (more, r2) ← broadcasts sessions r1
    some (outs ++ more, r2)

  -- A listener with the u-law decoder hears every session. If the stream and de-emphasis are off at
  -- first, and in each session `StartUDP` gets the u-law codec, no gain, a block of 484 bytes, a
  -- valid header and a socket that opens, and the reads until `StopUDP` are whole and of 16-bit
  -- samples, then the packets that the passes before, between and after the calls of all sessions
  -- send are one for each read between a start and its stop that gives samples, and its payload
  -- decodes to the means of the read's groups of three samples, each moved by at most a 32nd of its
  -- magnitude plus 132.
  pub broadcasts-AreHeard :
      (sessions : List Session) (r : Rtl)
      → r.sending_udp ≡ false
      → r.deemphasis ≡ false
      → ArePlain sessions
      → Yields (broadcasts sessions r) (λ p. AreHeard p.0 (all_blocks sessions))
  broadcasts-AreHeard [] r off plain w = tt
  broadcasts-AreHeard (s ∷ sessions) r off plain w =
      Yields-bind (broadcast inet_pton s.call s.before s.during s.later r) _
        (λ p. AreHeard p.0 (all_blocks (s ∷ sessions))) (broadcast-AreHeard s r off plain w.0)
        (λ p k.
          Yields-bind (broadcasts sessions p.1) (λ q. some (p.0 ++ q.0, q.1))
            (λ q. AreHeard q.0 (all_blocks (s ∷ sessions)))
            (broadcasts-AreHeard sessions p.1 k.1 k.2 w.1)
            (λ q m. AreHeard-append p.0 q.0 (blocks s.during) (all_blocks sessions) k.0 m))
