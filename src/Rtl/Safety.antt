-- ===== src/Rtl/Safety.antt =====
-- The block at `UDPbufferPtr` in the passes of `timer_threads_fn` of JNI/Source/rtl.c.
use piwxrx.Prelude.{
  ℕ, ◌≡◌, refl, ◌∙◌, sym, ap, Bool, true, false, not, ◌||◌, List, Option, none, some, ◌>>=◌,
  if◌then◌else◌, take, drop, length, ◌++◌,
}
use piwxrx.Prelude.Int.{ℤ, pos, pos_part, leb_ℤ, eqb_ℤ}
use piwxrx.Codecs.{codec_none, pcm_encode, pipe_decimate, Encoded}
use piwxrx.Udp.{Udp, Output, send_udp_packet, send_mode, send_from, next_header}
use piwxrx.Rtl.{Rtl, Read, read_from_pipe, timer_pass, handle_samples, dispatch, send_checked, feed}

abbrev pub is_none_codec : ℤ → Bool
is_none_codec codec = eqb_ℤ codec codec_none

-- A block that may be used: neither freed nor a null pointer.
abbrev pub usable : Bool → Option (List ℕ) → Bool
usable live none = false
usable live (some block) = live

-- While packets are sent the codec is CODEC_NONE or the block may be used.
abbrev pub safe : Bool → Bool → Bool → Option (List ℕ) → Bool
safe sending no_codec live buffer = not sending || (no_codec || usable live buffer)

abbrev pub IsSafe : Rtl → Type 0
IsSafe r = safe r.sending_udp (is_none_codec r.udp.codec) r.udp_live r.udp.buffer ≡ true

-- The result is there and has the property.
abbrev pub Yields {ℓ} : {A : Type ℓ} → Option A → (A → Type 0) → Type 0
Yields none P = ⊥
Yields (some a) P = P a

pub Yields-bind {ℓ κ} :
    {A : Type ℓ} {B : Type κ} (m : Option A) (f : A → Option B) {P : A → Type 0} (Q : B → Type 0)
    → Yields m P
    → ((a : A) → P a → Yields (f a) Q)
    → Yields (m >>= f) Q
Yields-bind none f Q h next = absurd h
Yields-bind (some a) f Q h next = next a h

pub Yields-if {ℓ} :
    {A : Type ℓ} (b : Bool) (x : A) (m : Option A) (P : A → Type 0)
    → P x
    → Yields m P
    → Yields (if b then some x else m) P
Yields-if true x m P hx hm = hx
Yields-if false x m P hx hm = hm

-- What a call of `SendUDPPacket` keeps.
abbrev Keeps : Udp → Output × Udp → Type 0
Keeps u s = (s.1.codec ≡ u.codec) × (usable true s.1.buffer ≡ usable true u.buffer)

send_mode-Keeps :
    (no_codec : Bool) (buffer : Option (List ℕ)) (e : Encoded) (u : Udp)
    → u.buffer ≡ buffer
    → (no_codec || usable true buffer) ≡ true
    → Yields (send_mode no_codec buffer e u) (Keeps u)
unfolding send_from next_header
send_mode-Keeps true buffer e u same h = (refl, refl)
send_mode-Keeps false none e u same h = absurd cc
send_mode-Keeps false (some block) e u same h = (refl, ap (λ b. usable true b) (sym same))

pub live_or :
    (nc live : Bool) (b : Option (List ℕ)) → (nc || usable live b) ≡ true → (live || nc) ≡ true
live_or true true b h = refl
live_or true false b h = refl
live_or false true b h = refl
live_or false false none h = h
live_or false false (some block) h = h

there_or :
    (nc live : Bool) (b : Option (List ℕ))
    → (nc || usable live b) ≡ true
    → (nc || usable true b) ≡ true
there_or true live b h = refl
there_or false live none h = h
there_or false live (some block) h = refl

still_or :
    (nc live : Bool) (b b' : Option (List ℕ))
    → usable true b' ≡ usable true b
    → (nc || usable live b) ≡ true
    → (nc || usable live b') ≡ true
still_or true live b b' e h = refl
still_or false live none b' e h = absurd cc
still_or false live (some block) none e h = absurd cc
still_or false live (some block) (some block') e h = h

pub send_checked-safe :
    (ok : Bool) (buffer : List ℤ) (n : ℕ) (r : Rtl)
    → ok ≡ true
    → (is_none_codec r.udp.codec || usable r.udp_live r.udp.buffer) ≡ true
    → Yields (send_checked ok buffer n r) (λ d.
      ((is_none_codec d.1.udp.codec || usable d.1.udp_live d.1.udp.buffer) ≡ true)
      × (d.1.sending_udp ≡ r.sending_udp))
unfolding send_udp_packet
send_checked-safe false buffer n r e h = absurd cc
send_checked-safe true buffer n r e h =
    let enc = pcm_encode r.deemphasis buffer n r.udp.codec r.udp.gain r.udp.state in
    let u : Udp = record r.udp { state = enc.state } in
    Yields-bind (send_udp_packet r.deemphasis buffer n r.udp)
      (λ s. some (some s.0, record r { udp = s.1 }))
      (λ d.
        ((is_none_codec d.1.udp.codec || usable d.1.udp_live d.1.udp.buffer) ≡ true)
        × (d.1.sending_udp ≡ r.sending_udp))
      (send_mode-Keeps (is_none_codec r.udp.codec) r.udp.buffer enc u refl
        (there_or (is_none_codec r.udp.codec) r.udp_live r.udp.buffer h))
      (λ s k. (
        ap (λ c. is_none_codec c || usable r.udp_live s.1.buffer) k.0
            ∙ still_or (is_none_codec r.udp.codec) r.udp_live r.udp.buffer s.1.buffer k.1 h,
        refl,
      ))

dispatch-safe :
    (sending : Bool) (buffer : List ℤ) (n : ℕ) (r : Rtl)
    → safe sending (is_none_codec r.udp.codec) r.udp_live r.udp.buffer ≡ true
    → Yields (dispatch sending buffer n r) (λ d.
      (safe sending (is_none_codec d.1.udp.codec) d.1.udp_live d.1.udp.buffer ≡ true)
      × (d.1.sending_udp ≡ r.sending_udp))
dispatch-safe false buffer n r h = (refl, refl)
dispatch-safe true buffer n r h =
    send_checked-safe (r.udp_live || is_none_codec r.udp.codec) buffer n r
      (live_or (is_none_codec r.udp.codec) r.udp_live r.udp.buffer h) h

handle_samples-IsSafe :
    (samples_read : ℕ) (r : Rtl)
    → IsSafe r
    → Yields (handle_samples samples_read r) (λ d. IsSafe d.1)
unfolding handle_samples
handle_samples-IsSafe samples_read r h =
    let (buffer, newsamples) = pipe_decimate r.pipe_buffer samples_read 720 in
    Yields-bind (dispatch r.sending_udp buffer newsamples (record r { pipe_buffer = buffer }))
      (λ d. some (d.0, feed (take newsamples buffer) d.1)) (λ d. IsSafe d.1)
      (dispatch-safe r.sending_udp buffer newsamples (record r { pipe_buffer = buffer }) h)
      (λ d k. ap (λ s. safe s (is_none_codec d.1.udp.codec) d.1.udp_live d.1.udp.buffer) k.1 ∙ k.0)

pub timer_pass-IsSafe :
    (read : Read) (r : Rtl) → IsSafe r → Yields (timer_pass read r) (λ d. IsSafe d.1)
unfolding timer_pass
timer_pass-IsSafe read r h =
    let filled = read.samples ++ drop (length read.samples) r.pipe_buffer in
    let samples_read = read_from_pipe read.dw_read in
    let r1 : Rtl = record r { pipe_buffer = filled } in
    Yields-if (leb_ℤ samples_read (pos 0)) (none, r1) (handle_samples (pos_part samples_read) r1)
      (λ d. IsSafe d.1) h (handle_samples-IsSafe (pos_part samples_read) r1 h)
