-- ===== src/Rtl/Race.antt =====
-- `timer_threads_fn` of JNI/Source/rtl.c, which tests `SendingUDP` and then sends, while another
-- thread is in `StopUDP`, which clears `SendingUDP` and then frees the block. No mutex joins them.
use piwxrx.Prelude.{ℕ, ◌≡◌, true, false, ◌||◌, ◌⊎◌, List, Option, none, some}
use piwxrx.Prelude.Int.{ℤ}
use piwxrx.Udp.{Output}
use piwxrx.Rtl.{Rtl, send_checked, close_mode}
use piwxrx.Rtl.Safety.{is_none_codec, usable}

-- Between two passes, or behind the test with the samples to send.
pub data TimerAt : Type 0 where
  passing : TimerAt
  sending : List ℤ → ℕ → TimerAt

-- `StopUDP` is not called, has cleared `SendingUDP`, or has come back from `CloseUDP`.
pub data StopAt : Type 0 where
  uncalled : StopAt
  cleared : StopAt
  closed : StopAt

pub record Threads : Type 0 where
  pub rtl : Rtl
  pub timer : TimerAt
  pub stop : StopAt

-- The call of `SendUDPPacket` in a state: none where it uses a freed block or a null pointer.
abbrev pub send_now : List ℤ → ℕ → Rtl → Option (Option Output × Rtl)
send_now buffer n r = send_checked (r.udp_live || is_none_codec r.udp.codec) buffer n r

-- A step of one of the threads.
pub data Step (s t : Threads) : Type 0 where
  test :
      (buffer : List ℤ) (n : ℕ)
      → s.timer ≡ passing
      → s.rtl.sending_udp ≡ true
      → t ≡ record s { timer = sending buffer n }
      → Step s t
  send :
      (buffer : List ℤ) (n : ℕ) (d : Option Output × Rtl)
      → s.timer ≡ sending buffer n
      → send_now buffer n s.rtl ≡ some d
      → t ≡ record s { rtl = d.1; timer = passing }
      → Step s t
  clear :
      s.stop ≡ uncalled
      → t ≡ record s { rtl = record s.rtl { sending_udp = false }; stop = cleared }
      → Step s t
  close :
      (r : Rtl)
      → s.stop ≡ cleared
      → close_mode (is_none_codec s.rtl.udp.codec) s.rtl.udp_live s.rtl ≡ some r
      → t ≡ record s { rtl = r; stop = closed }
      → Step s t

-- The states that the interleavings reach.
pub data Reach (s : Threads) : Threads → Type 0 where
  here : Reach s s
  more : {t u : Threads} → Reach s t → Step t u → Reach s u

-- The next step of the timer thread uses a freed block or a null pointer.
abbrev pub IsMisuse : Threads → Type 0
IsMisuse s =
    (buffer : List ℤ) × (n : ℕ) × (s.timer ≡ sending buffer n) × (send_now buffer n s.rtl ≡ none)

-- Until `CloseUDP` the codec is CODEC_NONE or the block may be used.
abbrev HoldsBlock : Threads → Type 0
HoldsBlock s =
    (s.stop ≡ closed)
    ⊎ ((is_none_codec s.rtl.udp.codec || usable s.rtl.udp_live s.rtl.udp.buffer) ≡ true)

-- What a send keeps.
abbrev Keeps : Rtl → Option Output × Rtl → Type 0
Keeps r d =
    ((is_none_codec d.1.udp.codec || usable d.1.udp_live d.1.udp.buffer) ≡ true)
    × (d.1.sending_udp ≡ r.sending_udp)
