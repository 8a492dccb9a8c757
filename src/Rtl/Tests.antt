-- ===== src/Rtl/Tests.antt =====
-- The timer thread of JNI/Source/rtl.c at concrete inputs.
use piwxrx.Prelude.{
  ℕ, ◌≡◌, refl, true, false, List, [], ◌∷◌, Option, none, some, inl, inr, ◌>>=◌, length-replicate,
  replicate, arith,
}
use piwxrx.Prelude.Int.{pos, negsuc}
use piwxrx.Codecs.{codec_none, codec_pcmu}
use piwxrx.Udp.{Address}
use piwxrx.Fsk.Start.{start_thread}
use piwxrx.Rtl.{
  Rtl, Calls, Read, StartCall, Event, timer, start, stop, run, step, run_rtl, start_udp, timer_pass,
  stop_udp,
}
use piwxrx.Rtl.Safety.{IsSafe, Yields}
use piwxrx.Rtl.Runs.{AreAllowed, Then, run-IsSafe}
use piwxrx.Udp.Header.{Header, with_header, marked}
use piwxrx.Udp.Header as Header
use piwxrx.Udp.Stream.{packets}
use piwxrx.Rtl.Sending.{AreWhole, blocks}
use piwxrx.Rtl.Race as Race
use piwxrx.Rtl.Heard.{AreHeard, Session, IsPlain, all_blocks, broadcasts, broadcasts-AreHeard}
use piwxrx.Rtl.Broadcast.{Opens, broadcast, broadcast_lem}

abbrev nowhere : Address
nowhere = record { ip = 0; port = 0 }

abbrev idle : Rtl
idle = record {
  exit = false;
  sending_udp = false;
  deemphasis = false;
  pipe_buffer = replicate 820 (pos 0);
  udp = record {
    sequence = pos 0;
    timestamp = 0;
    codec = codec_none;
    gain = 0;
    buffer = none;
    state = pos 0;
    socket = record { datagram = pos 0; my_addr = nowhere; remote_addr = nowhere };
  };
  udp_live = true;
  thread = start_thread;
}

abbrev busy : Rtl
busy = record idle {
  sending_udp = true;
  udp = record idle.udp { codec = codec_pcmu; buffer = some (replicate 484 0) };
}

-- The fourth call fails.
abbrev no_timer : Calls
no_timer = record {
  malloc = some [];
  sigaction = pos 0;
  sigprocmask = pos 0;
  timer_create = pos 0;
  timer_settime = negsuc 0;
  unblock = pos 0;
}

-- `RunRTL` returns FALSE, and the timer thread runs.
run_rtl-no_timer :
    (run_rtl no_timer idle).0 ≡ record { waits = false; allocated = true; thread_started = true }
unfolding run_rtl
run_rtl-no_timer = refl

abbrev no_address : List ℕ → Option ℕ
no_address name = none

abbrev three_samples : Read
three_samples = record { dw_read = pos 6; samples = pos 3 ∷ pos 4 ∷ negsuc 9 ∷ [] }

abbrev start_again : StartCall
start_again = record {
  hdr = replicate 12 1;
  remoteip = [];
  remote_port = 9000;
  myip = [];
  myport = 9001;
  codec = codec_pcmu;
  gain = 0;
  malloc = some (replicate 484 0);
  opening = record { socket_result = pos 5; bind_result = pos 0 };
}

abbrev calls : List Event
calls = timer three_samples ∷ []

Then-tt : (m : Option Rtl) → Then m (λ r. Unit {0})
Then-tt none = tt
Then-tt (some r) = tt

calls-AreAllowed : AreAllowed no_address (stop ∷ start start_again ∷ calls) busy
unfolding step stop_udp
calls-AreAllowed = (
  refl,
  (
    refl,
    (
      tt,
      Then-tt (timer_pass three_samples (start_udp no_address start_again _).1 >>= λ d. some d.1),
    ),
  ),
)

run-IsSafe_example : Yields (run no_address (stop ∷ start start_again ∷ calls) busy) IsSafe
run-IsSafe_example =
    run-IsSafe no_address (stop ∷ start start_again ∷ calls) busy calls-AreAllowed refl

-- The number and the time stamp are about to wrap.
abbrev last : Header
last = record {
  first = 0x80;
  second = 0x80;
  sequence = 0xffff;
  timestamp = 0xffffffff;
  source = (1, 2, 3, 4);
}

last-IsValid : Header.IsValid last
last-IsValid = record {
  second_in = omega arith;
  sequence_in = omega arith;
  timestamp_in = omega arith;
}

abbrev loopback : List ℕ → Option ℕ
loopback name = some 0x7f000001

abbrev begin : StartCall
begin = record {
  hdr = with_header last [];
  remoteip = b'/' ∷ b'1' ∷ [];
  remote_port = 9000;
  myip = [];
  myport = 9001;
  codec = codec_pcmu;
  gain = 0;
  malloc = some (replicate 484 7);
  opening = record { socket_result = pos 5; bind_result = pos 0 };
}

begin-Opens : Opens begin last (replicate 484 7)
begin-Opens = record {
  coded = refl;
  header = refl;
  header_valid = last-IsValid;
  allocated = refl;
  size = length-replicate {A = ℕ} 484 7;
  opened = refl;
  bound = refl;
}

abbrev no_samples : Read
no_samples = record { dw_read = negsuc 0; samples = [] }

abbrev during : List Read
during = three_samples ∷ no_samples ∷ three_samples ∷ []

during-AreWhole : AreWhole during
during-AreWhole =
    (inr (refl, omega arith, omega arith), (inl refl, (inr (refl, omega arith, omega arith), tt)))

-- Two packets go out.
broadcast_lem_example :
    Yields
      (broadcast loopback begin (three_samples ∷ []) during (three_samples ∷ no_samples ∷ []) idle)
      (λ p.
        (p.0
          ≡ packets
              (record { ip = 0x7f000001; port = 9000 })
              false
              codec_pcmu
              0
              (blocks during)
              (marked last)
              (pos 0))
        × (p.1.sending_udp ≡ false)
        × (p.1.udp_live ≡ false)
        × (p.1.deemphasis ≡ false))
broadcast_lem_example =
    broadcast_lem loopback begin (three_samples ∷ []) during (three_samples ∷ no_samples ∷ []) idle
      last (replicate 484 7) refl begin-Opens during-AreWhole

abbrev session : Session
session = record {
  call = begin;
  header = last;
  block = replicate 484 7;
  before = three_samples ∷ [];
  during = during;
  later = three_samples ∷ no_samples ∷ [];
}

session-IsPlain : IsPlain session
session-IsPlain = record {
  codec = refl;
  gain = refl;
  opens = begin-Opens;
  whole = during-AreWhole;
  words = omega arith;
}

-- Four packets in two sessions.
broadcasts-AreHeard_example :
    Yields
      (broadcasts loopback (session ∷ session ∷ []) idle)
      (λ p. AreHeard p.0 (all_blocks (session ∷ session ∷ [])))
broadcasts-AreHeard_example =
    broadcasts-AreHeard loopback (session ∷ session ∷ []) idle refl refl
      (session-IsPlain, (session-IsPlain, tt))

abbrev racing : Race.Threads
racing = record { rtl = busy; timer = Race.passing; stop = Race.uncalled }
