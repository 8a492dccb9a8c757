-- ===== src/Rtl.antt =====
-- JNI/Source/rtl.c, with `ReadFromPipe` of JNI/Common/linux_spawn.c: the timer thread that reads
-- samples and hands them to the UDP stream and to the receiver, and the calls that start and stop
-- them. What the system's calls return is an argument.
pub mod Safety
pub mod Runs
pub mod Flow
pub mod Sending
pub mod Broadcast
pub mod Heard
pub mod Race
pub mod Windows
pub mod Misuse
pub mod Shutdown
pub mod Returns
pub mod Leaving
pub mod Stuck
mod Tests
mod ShutdownTests
use piwxrx.Prelude.{
  ℕ, zero, suc, ◌+◌, ◌*◌, ◌/◌, ◌≤◌, ◌≡◌, Bool, true, false, not, ◌&&◌, ◌||◌, List, [], ◌∷◌, ◌++◌,
  Option, none, some, ◌>>=◌, length, take, drop, if◌then◌else◌,
}
use piwxrx.Prelude.Int.{ℤ, pos, negsuc, pos_part, eqb_ℤ, leb_ℤ}
use piwxrx.Codecs.{codec_none, pipe_decimate}
use piwxrx.Udp.{Udp, Opening, Output, init_udp, send_udp_packet}
use piwxrx.Fsk.Samples.{dsp_demod}
use piwxrx.Fsk.Receiver.{dsp_clear_sync}
use piwxrx.Fsk.Thread.{Thread, dsp_init, dsp_stop}

abbrev pub pipe_read_len : ℕ
pipe_read_len = 720

-- `timer_threads`, the debug level's bits DEBUG_WRITE and DEBUG_DEEMPHASIS, and the state of the
-- modules below. `udp_live` is false when `UDPbufferPtr` points to a block that has been freed.
pub record Rtl : Type 0 where
  pub exit : Bool
  pub sending_udp : Bool
  pub deemphasis : Bool
  pub pipe_buffer : List ℤ
  pub udp : Udp
  pub udp_live : Bool
  pub thread : Thread

-- `InitRTL`; `child_started` is what `initChildProcess` returns.
unfoldable pub init_rtl : (ℕ → ℤ) → Bool → Bool → Bool → Rtl → Bool × Rtl
init_rtl cosine child_started debug_write deemphasis r =
    let r1 : Rtl = record r { deemphasis = deemphasis } in
    if not child_started then (false, r1) else (
      true,
      record r1 {
        thread = dsp_init cosine debug_write r.thread;
        sending_udp = false;
        exit = false;
      },
    )

-- What the calls of `RunRTL` return, in the code's order.
pub record Calls : Type 0 where
  pub malloc : Option (List ℤ)
  pub sigaction : ℤ
  pub sigprocmask : ℤ
  pub timer_create : ℤ
  pub timer_settime : ℤ
  pub unblock : ℤ

-- `RunRTL` has returned FALSE or waits for the exit; the block and the thread that it has made.
pub record Run : Type 0 where
  pub waits : Bool
  pub allocated : Bool
  pub thread_started : Bool

abbrev pub is_error : ℤ → Bool
is_error result = eqb_ℤ result (negsuc 0)

-- The steps of `RunRTL` from the allocation up to its wait. A call that fails returns at once, with
-- what has been made so far.
abbrev pub unblocked : Calls → Run → Run
unblocked c s = if is_error c.unblock then s else record s { waits = true }

abbrev pub armed : Calls → Run → Run
armed c s = if is_error c.timer_settime then s else unblocked c s

abbrev pub created : Calls → Run → Run
created c s = if is_error c.timer_create then s else armed c (record s { thread_started = true })

abbrev pub masked : Calls → Run → Run
masked c s = if is_error c.sigprocmask then s else created c s

abbrev pub set_timer : Calls → Run → Run
set_timer c s = if is_error c.sigaction then s else masked c s

abbrev pub idle_run : Run
idle_run = record { waits = false; allocated = false; thread_started = false }

abbrev pub run_mode : Option (List ℤ) → Calls → Rtl → Run × Rtl
run_mode none c r = (idle_run, r)
run_mode (some block) c r =
    (set_timer c (record idle_run { allocated = true }), record r { pipe_buffer = block })

unfoldable pub run_rtl : Calls → Rtl → Run × Rtl
run_rtl c r = run_mode c.malloc c r

-- What `read` returns, and the samples that it stores at the start of the buffer.
pub record Read : Type 0 where
  pub dw_read : ℤ
  pub samples : List ℤ

unfoldable pub read_from_pipe : ℤ → ℤ
read_from_pipe dw_read = if leb_ℤ dw_read (pos 0) then dw_read else pos (pos_part dw_read / 2)

-- A call of `SendUDPPacket`: none where it uses a block that is freed or a null pointer.
abbrev pub send_checked : Bool → List ℤ → ℕ → Rtl → Option (Option Output × Rtl)
send_checked false buffer newsamples r = none
send_checked true buffer newsamples r =
    send_udp_packet r.deemphasis buffer newsamples r.udp >>= λ s.
    some (some s.0, record r { udp = s.1 })

-- The branches of the test for `SendingUDP`.
abbrev pub dispatch : Bool → List ℤ → ℕ → Rtl → Option (Option Output × Rtl)
dispatch false buffer newsamples r = some (none, r)
dispatch true buffer newsamples r =
    send_checked (r.udp_live || eqb_ℤ r.udp.codec codec_none) buffer newsamples r

abbrev pub feed : List ℤ → Rtl → Rtl
feed samples r = record r {
  thread = record r.thread { samples = dsp_demod samples r.thread.samples };
}

-- The part of a pass of `timer_threads_fn` after the read.
unfoldable pub handle_samples : ℕ → Rtl → Option (Option Output × Rtl)
handle_samples samples_read r =
    let (buffer, newsamples) = pipe_decimate r.pipe_buffer samples_read pipe_read_len in
    dispatch r.sending_udp buffer newsamples (record r { pipe_buffer = buffer }) >>= λ d.
    some (d.0, feed (take newsamples buffer) d.1)

-- A pass of `timer_threads_fn` from the timer's signal on.
unfoldable pub timer_pass : Read → Rtl → Option (Option Output × Rtl)
timer_pass read r =
    let filled = read.samples ++ drop (length read.samples) r.pipe_buffer in
    let samples_read = read_from_pipe read.dw_read in
    let r1 : Rtl = record r { pipe_buffer = filled } in
    if leb_ℤ samples_read (pos 0)
    then some (none, r1)
    else handle_samples (pos_part samples_read) r1

-- The exits that `StopRTL` sets.
unfoldable pub stop_rtl : Rtl → Rtl
stop_rtl r = record r { exit = true; thread = dsp_stop r.thread }

unfoldable pub clr_fsk_sync : Rtl → Rtl
clr_fsk_sync r = record r {
  thread = record r.thread { receiver = dsp_clear_sync r.thread.receiver };
}

-- The arguments of `StartUDP`, and what malloc, `socket` and `bind` return.
pub record StartCall : Type 0 where
  pub hdr : List ℕ
  pub remoteip : List ℕ
  pub remote_port : ℕ
  pub myip : List ℕ
  pub myport : ℕ
  pub codec : ℤ
  pub gain : ℕ
  pub malloc : Option (List ℕ)
  pub opening : Opening

unfoldable pub start_udp : (List ℕ → Option ℕ) → StartCall → Rtl → Bool × Rtl
start_udp inet_pton c r =
    let (started, udp) =
      init_udp inet_pton c.opening c.malloc c.hdr c.remoteip c.remote_port c.myip c.myport c.codec
        c.gain r.udp in
    (
      started,
      record r {
        udp = udp;
        udp_live = if eqb_ℤ c.codec codec_none then r.udp_live else true;
        sending_udp = if started then true else r.sending_udp;
      },
    )

abbrev pub is_none : Option (List ℕ) → Bool
is_none none = true
is_none (some block) = false

-- `CloseUDP`, by the codec and the state of the block: a block is not freed twice.
abbrev pub close_mode : Bool → Bool → Rtl → Option Rtl
close_mode true live r = some r
close_mode false false r = none
close_mode false true r = some (record r { udp_live = is_none r.udp.buffer })

unfoldable pub stop_udp : Rtl → Option Rtl
stop_udp r = close_mode (eqb_ℤ r.udp.codec codec_none) r.udp_live (record r { sending_udp = false })

-- The calls, in the order in which they happen.
pub data Event : Type 0 where
  timer : Read → Event
  start : StartCall → Event
  stop : Event
  clear : Event
  leave : Event

abbrev pub add_output : Option Output → List Output → List Output
add_output none outs = outs
add_output (some out) outs = out ∷ outs

-- Passes of the loop of `timer_threads_fn`, each by what it reads, and what they send.
unfoldable pub passes : List Read → Rtl → Option (List Output × Rtl)
passes [] r = some ([], r)
passes (read ∷ reads) r = do
  (out, r1) ← timer_pass read r
  (outs, r2) ← passes reads r1
  some (add_output out outs, r2)

unfoldable pub step : (List ℕ → Option ℕ) → Event → Rtl → Option Rtl
step inet_pton (timer read) r = timer_pass read r >>= λ d. some d.1
step inet_pton (start call) r = some (start_udp inet_pton call r).1
step inet_pton stop r = stop_udp r
step inet_pton clear r = some (clr_fsk_sync r)
step inet_pton leave r = some (stop_rtl r)

unfoldable pub run : (List ℕ → Option ℕ) → List Event → Rtl → Option Rtl
run inet_pton [] r = some r
run inet_pton (event ∷ events) r = step inet_pton event r >>= run inet_pton events
