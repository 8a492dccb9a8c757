-- ===== src/Rtl/Broadcast.antt =====
-- From `StartUDP` to `StopUDP` in JNI/Source/rtl.c, with the passes of the timer thread around them.
use mathlib.Core.List.{append-nil}
use piwxrx.Prelude.{
  ℕ, ◌≡◌, refl, ◌∙◌, ap, ap₂, Bool, true, false, List, [], ◌∷◌, ◌++◌, Option, none, some, ◌>>=◌,
  length, take, drop, if◌then◌else◌,
}
use piwxrx.Prelude.Int.{pos, pos_part, leb_ℤ, ltb_ℤ, eqb_ℤ}
use piwxrx.Codecs.{codec_none, pipe_decimate}
use piwxrx.Udp.{Udp, Address, Output, set_address, init_udp, load_header}
use piwxrx.Udp.Header.{Header, IsValid, with_header, marked}
use piwxrx.Udp.Stream.{packets}
use piwxrx.Udp.Session.{init_udp-loaded, loaded, loaded-IsReady}
use piwxrx.Rtl.{
  Rtl, Read, StartCall, read_from_pipe, timer_pass, handle_samples, dispatch, feed, passes,
  add_output, start_udp, stop_udp, close_mode, is_none,
}
use piwxrx.Rtl.Safety.{Yields, Yields-bind, Yields-if}
use piwxrx.Rtl.Sending.{IsSending, AreWhole, blocks, Yields-some, passes-sent}

-- Nothing is sent, and the stream stays as it is.
abbrev pub IsKept : Rtl → List Output × Rtl → Type 0
IsKept r p =
    (p.0 ≡ [])
    × (p.1.sending_udp ≡ false)
    × (p.1.udp ≡ r.udp)
    × (p.1.udp_live ≡ r.udp_live)
    × (p.1.deemphasis ≡ r.deemphasis)

silent_pass :
    (read : Read) (r : Rtl)
    → r.sending_udp ≡ false
    → Yields (timer_pass read r) (λ d. (d.0 ≡ none) × IsKept r ([], d.1))
unfolding timer_pass handle_samples
silent_pass read r off =
    let filled = read.samples ++ drop (length read.samples) r.pipe_buffer in
    let samples_read = read_from_pipe read.dw_read in
    let r1 : Rtl = record r { pipe_buffer = filled } in
    let (buffer, newsamples) = pipe_decimate filled (pos_part samples_read) 720 in
    let r2 : Rtl = record r { pipe_buffer = buffer } in
    Yields-if (leb_ℤ samples_read (pos 0)) (none, r1) _ (λ d. (d.0 ≡ none) × IsKept r ([], d.1))
      (refl, (refl, off, refl, refl, refl))
      (Yields-some (λ d. some (d.0, feed (take newsamples buffer) d.1)) _
        (ap (λ on. dispatch on buffer newsamples r2) off) (refl, (refl, off, refl, refl, refl)))

-- While the stream is off, no pass sends anything.
pub passes-silent :
    (reads : List Read) (r : Rtl) → r.sending_udp ≡ false → Yields (passes reads r) (IsKept r)
unfolding passes
passes-silent [] r off = (refl, off, refl, refl, refl)
passes-silent (read ∷ reads) r off =
    Yields-bind (timer_pass read r) _ (IsKept r) (silent_pass read r off) (λ d k.
      Yields-bind (passes reads d.1) (λ p. some (add_output d.0 p.0, p.1)) (IsKept r)
        (passes-silent reads d.1 k.1.1)
        (λ p q. (ap₂ add_output k.0 q.0, q.1, q.2 ∙ k.1.2, q.3 ∙ k.1.3, q.4 ∙ k.1.4)))

-- `InitUDP` gets a codec, a block of the size that it asks for, a header and a socket.
pub record Opens (c : StartCall) (h : Header) (block : List ℕ) : Type 0 where
  pub coded : eqb_ℤ c.codec codec_none ≡ false
  pub header : c.hdr ≡ with_header h []
  pub header_valid : IsValid h
  pub allocated : c.malloc ≡ some block
  pub size : length block ≡ 484
  pub opened : ltb_ℤ c.opening.socket_result (pos 0) ≡ false
  pub bound : ltb_ℤ c.opening.bind_result (pos 0) ≡ false

module _ (inet_pton : List ℕ → Option ℕ) where
  -- The state after a `StartUDP` that succeeds.
  abbrev begun : StartCall → Header → List ℕ → Rtl → Rtl
  begun c h block r = record r {
    udp =
        loaded inet_pton c.opening block h c.remoteip c.remote_port c.myip c.myport c.codec c.gain
          r.udp;
    udp_live = true;
    sending_udp = true;
  }

  start_udp-begun :
      (c : StartCall) (r : Rtl) {h : Header} {block : List ℕ}
      → Opens c h block
      → start_udp inet_pton c r ≡ (true, begun c h block r)
  unfolding start_udp
  start_udp-begun c r {h} {block} o =
      let result : Bool × Udp → Bool × Rtl = λ s. (
        s.0,
        record r {
          udp = s.1;
          udp_live = if eqb_ℤ c.codec codec_none then r.udp_live else true;
          sending_udp = if s.0 then true else r.sending_udp;
        },
      ) in
      let u =
        loaded inet_pton c.opening block h c.remoteip c.remote_port c.myip c.myport c.codec c.gain
          r.udp in
      ap₂
        (λ m hdr. result (
          init_udp inet_pton c.opening m hdr c.remoteip c.remote_port c.myip c.myport c.codec c.gain
            r.udp))
        o.allocated o.header
      ∙ ap result (
          init_udp-loaded inet_pton c.opening o.opened o.bound block (with_header h []) c.remoteip
            c.remote_port c.myip c.myport c.codec c.gain r.udp o.coded)
      ∙ ap
          (λ b.
            let r' : Rtl = record r {
              udp = u;
              udp_live = if b then r.udp_live else true;
              sending_udp = true;
            } in
            (true, r'))
          o.coded

  begun-IsSending :
      (c : StartCall) (r : Rtl) {h : Header} {block : List ℕ}
      → Opens c h block
      → IsSending (begun c h block r) (marked h)
  unfolding load_header
  begun-IsSending c r {h} {block} o = record {
    sending = refl;
    live = refl;
    coded = o.coded;
    ready =
        loaded-IsReady inet_pton c.opening block h c.remoteip c.remote_port c.myip c.myport c.codec
          c.gain r.udp o.size o.header_valid;
  }

pub stop_udp-sending :
    (r : Rtl) {h : Header}
    → IsSending r h
    → stop_udp r ≡ some (record r { sending_udp = false; udp_live = false })
unfolding stop_udp
stop_udp-sending r {h} s =
    let r1 : Rtl = record r { sending_udp = false } in
    ap₂ (λ a b. close_mode a b r1) s.coded s.live
    ∙ ap (λ b. let r' : Rtl = record r { sending_udp = false; udp_live = is_none b } in some r')
        s.ready.holds

-- Passes, `StartUDP`, passes, `StopUDP` and passes: all that is sent, and the state at the end.
abbrev pub broadcast :
    (List ℕ → Option ℕ)
    → StartCall
    → List Read
    → List Read
    → List Read
    → Rtl
    → Option (List Output × Rtl)
broadcast inet_pton c before during later r = do
  (outs0, r1) ← passes before r
  (outs1, r2) ← passes during (start_udp inet_pton c r1).1
  r3 ← stop_udp r2
  (outs2, r4) ← passes later r3
  some (outs0 ++ outs1 ++ outs2, r4)

-- If the stream is off, `StartUDP` gets a codec, a block of 484 bytes, a valid header and a socket
-- that opens, and the reads until `StopUDP` are whole, then what the passes before, between and
-- after the two calls send together is one packet for each read between them that gives samples,
-- to the port given and the address that `inet_pton` reads, from the header with its mark set on,
-- and nothing else; no null pointer and no freed block is used, and at the end the stream is off,
-- its block freed and the de-emphasis as it was.
pub broadcast_lem :
    (inet_pton : List ℕ → Option ℕ) (c : StartCall) (before during later : List Read) (r : Rtl)
    (h : Header) (block : List ℕ)
    → r.sending_udp ≡ false
    → Opens c h block
    → AreWhole during
    → Yields (broadcast inet_pton c before during later r) (λ p.
      (p.0
        ≡ packets
            (set_address (inet_pton (drop 1 c.remoteip)) c.remote_port r.udp.socket.remote_addr)
            r.deemphasis
            c.codec
            c.gain
            (blocks during)
            (marked h)
            r.udp.state)
      × (p.1.sending_udp ≡ false)
      × (p.1.udp_live ≡ false)
      × (p.1.deemphasis ≡ r.deemphasis))
unfolding load_header
broadcast_lem inet_pton c before during later r h block off o whole =
    Yields-bind (passes before r) _ _ (passes-silent before r off) (λ p1 k1.
      let b = begun inet_pton c h block p1.1 in
      let start : (start_udp inet_pton c p1.1).1 ≡ b =
        ap (λ s. s.1) (start_udp-begun inet_pton c p1.1 o) in
      let remote_of : Udp → Address =
        λ u. set_address (inet_pton (drop 1 c.remoteip)) c.remote_port u.socket.remote_addr in
      let same : packets (remote_of p1.1.udp) p1.1.deemphasis c.codec c.gain (blocks during)
            (marked h) p1.1.udp.state
          ≡ packets (remote_of r.udp) r.deemphasis c.codec c.gain (blocks during) (marked h)
              r.udp.state =
        ap₂ (λ d u. packets (remote_of u) d c.codec c.gain (blocks during) (marked h) (Udp.state u))
          k1.4 k1.2 in
      rw start (
        Yields-bind (passes during b) _ _
          (passes-sent during b (begun-IsSending inet_pton c p1.1 o) whole)
          (λ p2 k2.
            let r3 : Rtl = record p2.1 { sending_udp = false; udp_live = false } in
            Yields-some _ _ (stop_udp-sending p2.1 k2.1.1) (
              Yields-bind (passes later r3) _ _ (passes-silent later r3 refl) (λ p3 k3. (
                ap₂ (λ x y. x ++ p2.0 ++ y) k1.0 k3.0 ∙ append-nil p2.0 ∙ k2.0 ∙ same,
                k3.1,
                k3.3,
                k3.4 ∙ k2.2 ∙ k1.4,
              ))))))
