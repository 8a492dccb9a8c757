-- ===== src/Rtl/Runs.antt =====
-- Sequences of the calls of JNI/Source/rtl.c, with `StartUDP` and `StopUDP` among them.
use piwxrx.Prelude.{
  ℕ, ◌≡◌, refl, ◌∙◌, sym, ap, Bool, true, false, not, ◌||◌, List, [], ◌∷◌, Option, none, some,
  ◌>>=◌, if◌then◌else◌, drop,
}
use piwxrx.Udp.{Udp, Socket, init_udp, init_mode, open_socket, load_header}
use piwxrx.Rtl.{
  Rtl, StartCall, start_udp, stop_udp, close_mode, stop_rtl, clr_fsk_sync, Event, step, run, timer,
  start, stop, clear, leave, timer_pass,
}
use piwxrx.Rtl.Safety.{is_none_codec, usable, safe, IsSafe, Yields, Yields-bind, timer_pass-IsSafe}

or-true : (b : Bool) → (b || true) ≡ true
or-true true = refl
or-true false = refl

-- `InitUDP` succeeds only with CODEC_NONE or a block.
init_mode-usable :
    (no_codec : Bool) (malloc : Option (List ℕ)) (hdr : List ℕ) (connect : Socket → Bool × Socket)
    (u : Udp)
    → let r : Bool × Udp = if no_codec then (true, u) else init_mode malloc hdr connect u in
      (r.1.codec ≡ u.codec) × ((not r.0 || (no_codec || usable true r.1.buffer)) ≡ true)
unfolding load_header
init_mode-usable true malloc hdr connect u = (refl, refl)
init_mode-usable false none hdr connect u = (refl, refl)
init_mode-usable false (some block) hdr connect u = (refl, or-true (not (connect u.socket).0))

started-safe :
    (started nc live : Bool) (buffer : Option (List ℕ)) (sending : Bool)
    → sending ≡ false
    → (not started || (nc || usable true buffer)) ≡ true
    → safe (if started then true else sending) nc (if nc then live else true) buffer ≡ true
started-safe false nc live buffer true e h = absurd cc
started-safe false nc live buffer false e h = refl
started-safe true true live buffer sending e h = refl
started-safe true false live buffer sending e h = h

pub start_udp-IsSafe :
    (inet_pton : List ℕ → Option ℕ) (c : StartCall) (r : Rtl)
    → r.sending_udp ≡ false
    → IsSafe (start_udp inet_pton c r).1
unfolding start_udp init_udp
start_udp-IsSafe inet_pton c r e =
    let init =
      init_udp inet_pton c.opening c.malloc c.hdr c.remoteip c.remote_port c.myip c.myport c.codec
        c.gain r.udp in
    let u1 : Udp = record r.udp { codec = c.codec; gain = c.gain } in
    let h =
      init_mode-usable (is_none_codec c.codec) c.malloc c.hdr
        (open_socket inet_pton c.opening (drop 1 c.remoteip) c.remote_port (drop 1 c.myip) c.myport)
        u1 in
    ap
      (λ k.
        safe (if init.0 then true else r.sending_udp) (is_none_codec k)
          (if is_none_codec c.codec then r.udp_live else true) init.1.buffer)
      h.0
    ∙ started-safe init.0 (is_none_codec c.codec) r.udp_live init.1.buffer r.sending_udp e h.1

close_mode-IsSafe :
    (no_codec live : Bool) (buffer : Option (List ℕ)) (r : Rtl)
    → r.sending_udp ≡ false
    → (no_codec || usable live buffer) ≡ true
    → Yields (close_mode no_codec live r) (λ r'. r'.sending_udp ≡ false)
close_mode-IsSafe true live buffer r e h = e
close_mode-IsSafe false true buffer r e h = e
close_mode-IsSafe false false none r e h = absurd cc
close_mode-IsSafe false false (some block) r e h = absurd cc

silent-IsSafe : (r : Rtl) → r.sending_udp ≡ false → IsSafe r
silent-IsSafe r e = ap (λ s. safe s (is_none_codec r.udp.codec) r.udp_live r.udp.buffer) e

pub Yields-map {ℓ} :
    {A : Type ℓ} (m : Option A) (P Q : A → Type 0) → ((a : A) → P a → Q a) → Yields m P → Yields m Q
Yields-map none P Q f h = h
Yields-map (some a) P Q f h = f a h

pub stop_udp-IsSafe : (r : Rtl) → IsSafe r → r.sending_udp ≡ true → Yields (stop_udp r) IsSafe
unfolding stop_udp
stop_udp-IsSafe r h e =
    let nc = is_none_codec r.udp.codec in
    let ready : (nc || usable r.udp_live r.udp.buffer) ≡ true =
      sym (ap (λ s. safe s nc r.udp_live r.udp.buffer) e) ∙ h in
    Yields-map (close_mode nc r.udp_live (record r { sending_udp = false }))
      (λ r'. r'.sending_udp ≡ false) IsSafe silent-IsSafe
      (close_mode-IsSafe nc r.udp_live r.udp.buffer (record r { sending_udp = false }) refl ready)

-- `StartUDP` is called only while no packets are sent, `StopUDP` only while they are.
abbrev pub IsAllowed : Event → Rtl → Type 0
IsAllowed (timer read) r = Unit {0}
IsAllowed (start call) r = r.sending_udp ≡ false
IsAllowed stop r = r.sending_udp ≡ true
IsAllowed clear r = Unit {0}
IsAllowed leave r = Unit {0}

-- What follows, if the result is there.
abbrev pub Then : Option Rtl → (Rtl → Type 0) → Type 0
Then none P = Unit {0}
Then (some r) P = P r

module _ (inet_pton : List ℕ → Option ℕ) where
  abbrev pub AreAllowed : List Event → Rtl → Type 0
  AreAllowed [] r = Unit {0}
  AreAllowed (event ∷ events) r =
      IsAllowed event r × Then (step inet_pton event r) (AreAllowed events)

  step-IsSafe :
      (event : Event) (r : Rtl)
      → IsAllowed event r
      → IsSafe r
      → Yields (step inet_pton event r) IsSafe
  unfolding step clr_fsk_sync stop_rtl
  step-IsSafe (timer read) r a h =
      Yields-bind (timer_pass read r) (λ d. some d.1) IsSafe (timer_pass-IsSafe read r h) (λ d k. k)
  step-IsSafe (start call) r a h = start_udp-IsSafe inet_pton call r a
  step-IsSafe stop r a h = stop_udp-IsSafe r h a
  step-IsSafe clear r a h = h
  step-IsSafe leave r a h = h

  Then-Yields :
      (m : Option Rtl) (P : Rtl → Type 0) (f : Rtl → Option Rtl)
      → Then m P
      → Yields m IsSafe
      → ((r : Rtl) → P r → IsSafe r → Yields (f r) IsSafe)
      → Yields (m >>= f) IsSafe
  Then-Yields none P f t y next = absurd y
  Then-Yields (some r) P f t y next = next r t y

  -- From a safe state, every sequence of timer passes, of `ClrFSKSync`, of `StopRTL`, of `StartUDP`
  -- while no packets are sent and of `StopUDP` while they are, whatever the system's calls return,
  -- uses no null pointer and no freed block, frees none twice, and ends in a safe state.
  pub run-IsSafe :
      (events : List Event) (r : Rtl)
      → AreAllowed events r
      → IsSafe r
      → Yields (run inet_pton events r) IsSafe
  unfolding run
  run-IsSafe [] r a h = h
  run-IsSafe (event ∷ events) r a h =
      Then-Yields (step inet_pton event r) (AreAllowed events) (run inet_pton events) a.1
        (step-IsSafe event r a.0 h) (λ r' t y. run-IsSafe events r' t y)
