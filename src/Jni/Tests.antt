-- ===== src/Jni/Tests.antt =====
-- JNI/Common/RTLjni.c at a concrete start.
use piwxrx.Prelude.{
  ℕ, ◌<◌, refl, true, false, List, [], ◌∷◌, Option, none, some, ◌>>=◌, replicate, arith,
}
use piwxrx.Prelude.Int.{ℤ, pos, negsuc}
use piwxrx.Prelude.Word.{ashr}
use piwxrx.Codecs.{codec_none}
use piwxrx.Udp.{Address, Output}
use piwxrx.DataBuffer.{System, Getter}
use piwxrx.DataBuffer as DataBuffer
use piwxrx.DataBuffer.Queue.{count, init-IsValid, put-IsValid, count-put}
use piwxrx.Spawn.{Child, Files, Fds}
use piwxrx.Spawn as Spawn
use piwxrx.Fsk.Start.{start_thread}
use piwxrx.Rtl.{Rtl, Read, timer_pass}
use piwxrx.Rtl.Safety.{Yields}
use piwxrx.Rtl.Flow.{If}
use piwxrx.Jni.{
  App, testing, asleep, signal_by, Event, timer, receive, get, step, receive_step, run, init,
}
use piwxrx.Jni.Stream.{IsGood}
use piwxrx.Jni.Start.{Starts, init-Starts}
use piwxrx.Jni.Path.{Then, KeepsUp, fed_in}
use piwxrx.Jni.Received.{Receives, run-Receives}

abbrev nowhere : Address
nowhere = record { ip = 0; port = 0 }

abbrev no_fds : Fds
no_fds = record { rd = 0; wr = 0 }

abbrev program : App
program = record {
  rtl = record {
    exit = false;
    sending_udp = false;
    deemphasis = false;
    pipe_buffer = replicate 820 (pos 0);
    udp = record {
      sequence = pos 0;
      timestamp = 0;
      codec = codec_none;
      gain = 0;
      buffer = none;
      state = pos 0;
      socket = record { datagram = pos 0; my_addr = nowhere; remote_addr = nowhere };
    };
    udp_live = true;
    thread = start_thread;
  };
  child = record {
    files = λ k. none;
    parent_read = no_fds;
    parent_write = no_fds;
    stderr_pipe = no_fds;
    child_proc = pos 0;
    capture_exit = false;
  };
  system = record { buffer = DataBuffer.init; getter = Getter.ready };
  waiter = testing;
}

abbrev good_calls : Spawn.Calls
good_calls = record {
  sigaction = pos 0;
  read_pipe = some (record { rd = 3; wr = 4 });
  write_pipe = some (record { rd = 5; wr = 6 });
  stderr_pipe = some (record { rd = 7; wr = 8 });
  fork = pos 1234;
}

abbrev flat : ℕ → ℤ
flat k = pos 0

init-Starts_example :
    If (init flat (b'f' ∷ b' ' ∷ b'-' ∷ b'l' ∷ []) good_calls false false program) (Starts program)
init-Starts_example =
    init-Starts flat false false program (b'f' ∷ b' ' ∷ b'-' ∷ b'l' ∷ []) good_calls refl
      (omega arith) refl

-- A byte waits.
abbrev busy : App
busy = record program {
  system = record { buffer = DataBuffer.put DataBuffer.init 0xab; getter = Getter.ready };
}

busy-IsGood : IsGood busy
busy-IsGood = record {
  runs = refl;
  byte = omega arith;
  samples = record { size = refl; write_in = omega arith; read_in = omega arith };
  found = tt;
  safe = refl;
  fair = record { valid = put-IsValid 0xab init-IsValid.0 (omega arith); past_wait = tt };
}

abbrev keep : ℤ → ℤ
keep x = x

abbrev eighth : ℤ → ℤ
eighth x = ashr x 3

abbrev no_address : List ℕ → Option ℕ
no_address name = none

abbrev three_samples : Read
three_samples = record { dw_read = pos 6; samples = pos 3 ∷ pos 4 ∷ negsuc 9 ∷ [] }

abbrev events : List Event
events = receive ∷ timer three_samples ∷ receive ∷ get ∷ []

-- The receiver's thread waits.
abbrev busy_asleep : App
busy_asleep = record busy { waiter = asleep }

Then-timer :
    (m : Option (Option Output × Rtl)) (a : App) (P : App → Type 0)
    → ((rtl : Rtl) → P (record a { rtl = rtl; waiter = signal_by three_samples a.waiter }))
    → Then
        (m >>= λ d. some (none, record a { rtl = d.1; waiter = signal_by three_samples a.waiter }))
        P
Then-timer none a P h = tt
Then-timer (some d) a P h = h d.1

busy-count : count busy.system.buffer < 127
unfolding DataBuffer.init
busy-count = rw (count-put 0xab init-IsValid.0 (omega arith)) (omega arith)

events-KeepsUp : KeepsUp keep eighth no_address events busy
unfolding step receive_step
events-KeepsUp = (
  busy-count,
  (
    (omega arith, omega arith, (omega arith, (omega arith, (omega arith, tt))), refl, omega arith),
    Then-timer (timer_pass three_samples busy.rtl) busy_asleep _ (λ rtl. (busy-count, (tt, tt))),
  ),
)

run-Receives_example :
    Yields (run keep eighth no_address events busy) (Receives keep eighth busy (fed_in events))
run-Receives_example =
    run-Receives keep eighth no_address events busy busy-IsGood events-KeepsUp refl
