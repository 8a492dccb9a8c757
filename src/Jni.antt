-- ===== src/Jni.antt =====
-- JNI/Common/RTLjni.c: the calls of the application, on the state of the whole library. The
-- steps of the library's two threads stand beside them. The arguments are those that the
-- Java machine hands over, as lists and numbers.
pub mod Bytes
pub mod Start
pub mod Stream
pub mod Step
pub mod Receive
pub mod Path
pub mod Received
mod Tests
use piwxrx.Prelude.{
  ℕ, Bool, true, false, List, [], ◌∷◌, Option, none, some, ◌>>=◌, ◌==◌, if◌then◌else◌,
}
use piwxrx.Prelude.Int.{ℤ, pos, leb_ℤ}
use piwxrx.Prelude.Word.{low_bits}
use piwxrx.DataBuffer.{System, char}
use piwxrx.DataBuffer as DataBuffer
use piwxrx.Spawn.{Child, init_child_process, close_child_process}
use piwxrx.Spawn as Spawn
use piwxrx.Fsk.Thread.{Thread, Effect, quiet, wrote, received, take_sample}
use piwxrx.Rtl.{Rtl, Read, StartCall, read_from_pipe, timer_pass}
use piwxrx.Rtl as Rtl

-- Where the receiver's thread stands in its loop: before its tests, in `pthread_cond_wait`, or past
-- the section under the mutex, before it takes a sample.
pub data Waiter : Type 0 where
  testing asleep awake : Waiter

-- The library's state, the application in `getRxByte` and the receiver's thread in its loop.
pub record App : Type 0 where
  pub rtl : Rtl
  pub child : Child
  pub system : System
  pub waiter : Waiter

-- The callback for a byte.
unfoldable pub byte_rx : ℕ → System → System
byte_rx byterx s = (DataBuffer.step (DataBuffer.put_byte byterx) s).1

-- `init`; the debug level is given by its bits DEBUG_WRITE and DEBUG_DEEMPHASIS.
unfoldable pub init : (ℕ → ℤ) → List ℕ → Spawn.Calls → Bool → Bool → App → Option (Bool × App)
init cosine cmd calls debug_write deemphasis a = init_child_process cmd calls a.child >>= λ c.
    let (started, rtl) = Rtl.init_rtl cosine c.0 debug_write deemphasis a.rtl in
    let a1 : App = record a { rtl = rtl; child = c.1 } in
    if started
    then some (
      true,
      record a1 { system = record a.system { buffer = DataBuffer.init }; waiter = testing },
    )
    else some (false, a1)

-- `runRTL` up to its wait.
unfoldable pub run_rtl : Rtl.Calls → App → Rtl.Run × App
run_rtl calls a = let (r, rtl) = Rtl.run_rtl calls a.rtl in (r, record a { rtl = rtl })

unfoldable pub stop_rtl : App → App
stop_rtl a = record a { rtl = Rtl.stop_rtl a.rtl; child = close_child_process a.child }

unfoldable pub clr_fsk_sync : App → App
clr_fsk_sync a = record a { rtl = Rtl.clr_fsk_sync a.rtl }

-- The conversion to a signed jbyte.
abbrev pub jbyte : Option ℕ → Option ℤ
jbyte none = none
jbyte (some byte) = some (char byte)

-- A step of `getRxByte`: the section under the mutex, or the taking of the byte.
unfoldable pub get_rx_byte : App → Option ℤ × App
get_rx_byte a =
    let (byte, system) = DataBuffer.step DataBuffer.get a.system in
    (jbyte byte, record a { system = system })

-- The elements of a Java array as unsigned bytes.
abbrev pub unsigned : List ℤ → List ℕ
unsigned [] = []
unsigned (x ∷ xs) = low_bits 8 x ∷ unsigned xs

-- `startUDP` with the header's array, and its other arguments.
unfoldable pub start_udp : (List ℕ → Option ℕ) → List ℤ → StartCall → App → Bool × App
start_udp inet_pton hdr call a =
    let (started, rtl) = Rtl.start_udp inet_pton (record call { hdr = unsigned hdr }) a.rtl in
    (started, record a { rtl = rtl })

unfoldable pub stop_udp : App → Option App
stop_udp a = Rtl.stop_udp a.rtl >>= λ rtl. some (record a { rtl = rtl })

abbrev pub deliver : Effect → System → System
deliver quiet s = s
deliver (wrote sample) s = s
deliver (received byte) s = byte_rx byte s

abbrev pub signal : Waiter → Waiter
signal testing = testing
signal asleep = awake
signal awake = awake

-- `DSPDemod` signals whenever the timer thread calls it, also when it stores nothing: after each
-- read that is not empty.
abbrev pub signal_by : Read → Waiter → Waiter
signal_by read w = if leb_ℤ (read_from_pipe read.dw_read) (pos 0) then w else signal w

-- The test for the exit, and then that of the ring under the mutex.
abbrev pub test_ring : Bool → Bool → App → App
test_ring true empty a = a
test_ring false true a = record a { waiter = asleep }
test_ring false false a = record a { waiter = awake }

-- The calls and the steps of the two threads, in the order in which they happen. `wake_receiver`
-- and `wake_getter` are returns of `pthread_cond_wait` without a signal.
pub data Event : Type 0 where
  timer : Read → Event
  receive get : Event
  wake_receiver wake_getter : Event
  start : List ℤ → StartCall → Event
  stop clear leave : Event

-- The bytes that the application has got, with what a step adds.
abbrev pub collect : Option ℤ → List ℤ → List ℤ
collect none xs = xs
collect (some x) xs = x ∷ xs

module _ (decay gain : ℤ → ℤ) where
  -- The part of a pass after the wait, with its call of `byteRx`.
  abbrev pub after_wait : App → App
  after_wait a =
      let (effect, thread) = take_sample decay gain a.rtl.thread in
      record a {
        rtl = record a.rtl { thread = thread };
        system = deliver effect a.system;
        waiter = testing;
      }

  abbrev pub receive_mode : Waiter → App → App
  receive_mode testing a =
      let t = a.rtl.thread in test_ring t.exit (t.samples.rdptr == t.samples.wrptr) a
  receive_mode asleep a = a
  receive_mode awake a = after_wait a

  -- A step of the receiver's thread: nothing is tested again after a wait.
  unfoldable pub receive_step : App → App
  receive_step a = receive_mode a.waiter a

  module _ (inet_pton : List ℕ → Option ℕ) where
    -- A step, with the byte that the application gets.
    unfoldable pub step : Event → App → Option (Option ℤ × App)
    step (timer read) a = timer_pass read a.rtl >>= λ d.
        some (none, record a { rtl = d.1; waiter = signal_by read a.waiter })
    step receive a = some (none, receive_step a)
    step get a = some (get_rx_byte a)
    step wake_receiver a = some (none, record a { waiter = signal a.waiter })
    step wake_getter a =
        some (none, record a { system = (DataBuffer.step DataBuffer.wake a.system).1 })
    step (start hdr call) a = some (none, (start_udp inet_pton hdr call a).1)
    step stop a = stop_udp a >>= λ b. some (none, b)
    step clear a = some (none, clr_fsk_sync a)
    step leave a = some (none, stop_rtl a)

    -- A sequence of steps, with the bytes that the application gets.
    unfoldable pub run : List Event → App → Option (List ℤ × App)
    run [] a = some ([], a)
    run (event ∷ events) a =
        step event a >>= λ s. run events s.1 >>= λ r. some (collect s.0 r.0, r.1)
