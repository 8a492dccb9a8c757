-- ===== src/Rtl/Shutdown.antt =====
-- The end of a run in JNI/Source/rtl.c: `RunRTL` from its wait on, the loop of `timer_threads_fn`
-- and `StopRTL`, with the loop of `dsp_threads_fn` of JNI/Common/FSKdsp.c, for whose end `DSPStop`
-- waits, as steps of four threads. A section under a mutex is one step; the tick of the timer
-- (`RTL_timer_signal`) and a wake-up without a signal are steps of the environment.
use piwxrx.Prelude.{◌≡◌, Bool, true, false, if◌then◌else◌}

-- Where `RunRTL` is: at the test of its loop, in the wait for the exit, past the loop, in the call
-- of `pthread_join`, or back.
pub data MainAt : Type 0 where
  testing sleeping leaving joining returned : MainAt

-- Where `timer_threads_fn` is: at the test of its loop, past the test, in the wait for the timer,
-- past the wait, or back.
pub data TimerAt : Type 0 where
  at_test tested in_wait reading ended : TimerAt

-- Where `dsp_threads_fn` is: at the test of its loop, past the test, in the wait for samples, at
-- a sample, or back.
pub data DspAt : Type 0 where
  dsp_test dsp_tested dsp_wait working dsp_ended : DspAt

-- Where `StopRTL` is: not called, past the store to the timer's exit, past the store of `DSPStop`,
-- past the end of `DSPStop`, or past the signal.
pub data StopAt : Type 0 where
  idle flagged dsp_flagged closing signalled : StopAt

-- `empty` is the test for samples that `dsp_threads_fn` makes.
pub record Threads : Type 0 where
  pub exit : Bool
  pub dsp_exit : Bool
  pub armed : Bool
  pub empty : Bool
  pub main : MainAt
  pub timer : TimerAt
  pub dsp : DspAt
  pub stop : StopAt

-- When the timer is armed and the threads are started.
abbrev pub started : Threads
started = record {
  exit = false;
  dsp_exit = false;
  armed = true;
  empty = true;
  main = testing;
  timer = at_test;
  dsp = dsp_test;
  stop = idle;
}

-- A signal is lost on a thread that does not wait.
abbrev pub wake_main : MainAt → MainAt
wake_main sleeping = testing
wake_main testing = testing
wake_main leaving = leaving
wake_main joining = joining
wake_main returned = returned

abbrev pub wake_timer : TimerAt → TimerAt
wake_timer in_wait = reading
wake_timer at_test = at_test
wake_timer tested = tested
wake_timer reading = reading
wake_timer ended = ended

-- The receiver's thread does not test again whether there is a sample.
abbrev pub wake_dsp : DspAt → DspAt
wake_dsp dsp_wait = working
wake_dsp dsp_test = dsp_test
wake_dsp dsp_tested = dsp_tested
wake_dsp working = working
wake_dsp dsp_ended = dsp_ended

-- The steps of the four threads. A pass of the timer thread reads nothing (`pass`), or hands over
-- what it has read (`feed`), which may be too little to store a sample. What a sample that is
-- taken leaves in the ring is left open.
pub data Own (s t : Threads) : Type 0 where
  stay : s.main ≡ testing → s.exit ≡ false → t ≡ record s { main = sleeping } → Own s t
  leave : s.main ≡ testing → s.exit ≡ true → t ≡ record s { main = leaving } → Own s t
  disarm : s.main ≡ leaving → t ≡ record s { main = joining; armed = false } → Own s t
  join : s.main ≡ joining → s.timer ≡ ended → t ≡ record s { main = returned } → Own s t
  go_on : s.timer ≡ at_test → s.exit ≡ false → t ≡ record s { timer = tested } → Own s t
  finish : s.timer ≡ at_test → s.exit ≡ true → t ≡ record s { timer = ended } → Own s t
  wait : s.timer ≡ tested → t ≡ record s { timer = in_wait } → Own s t
  pass : s.timer ≡ reading → t ≡ record s { timer = at_test } → Own s t
  feed :
      (stored : Bool)
      → s.timer ≡ reading
      → t ≡ record s {
        timer = at_test;
        empty = if stored then false else s.empty;
        dsp = wake_dsp s.dsp;
      }
      → Own s t
  dsp_go_on : s.dsp ≡ dsp_test → s.dsp_exit ≡ false → t ≡ record s { dsp = dsp_tested } → Own s t
  dsp_finish : s.dsp ≡ dsp_test → s.dsp_exit ≡ true → t ≡ record s { dsp = dsp_ended } → Own s t
  block : s.dsp ≡ dsp_tested → s.empty ≡ true → t ≡ record s { dsp = dsp_wait } → Own s t
  take : s.dsp ≡ dsp_tested → s.empty ≡ false → t ≡ record s { dsp = working } → Own s t
  process :
      (none_left : Bool)
      → s.dsp ≡ working
      → t ≡ record s { dsp = dsp_test; empty = none_left }
      → Own s t
  set_exit : s.stop ≡ idle → t ≡ record s { stop = flagged; exit = true } → Own s t
  set_dsp_exit : s.stop ≡ flagged → t ≡ record s { stop = dsp_flagged; dsp_exit = true } → Own s t
  join_dsp : s.stop ≡ dsp_flagged → s.dsp ≡ dsp_ended → t ≡ record s { stop = closing } → Own s t
  signal : s.stop ≡ closing → t ≡ record s { stop = signalled; main = wake_main s.main } → Own s t

-- The steps of the environment.
pub data Outer (s t : Threads) : Type 0 where
  tick : s.armed ≡ true → t ≡ record s { timer = wake_timer s.timer } → Outer s t
  wake_up : t ≡ record s { timer = wake_timer s.timer } → Outer s t
  wake_up_main : t ≡ record s { main = wake_main s.main } → Outer s t
  wake_up_dsp : t ≡ record s { dsp = wake_dsp s.dsp } → Outer s t

pub data Reach (s : Threads) : Threads → Type 0 where
  here : Reach s s
  own : {t u : Threads} → Reach s t → Own t u → Reach s u
  outer : {t u : Threads} → Reach s t → Outer t u → Reach s u
