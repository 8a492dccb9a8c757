-- ===== src/Rtl/ShutdownTests.antt =====
-- The end of a run of JNI/Source/rtl.c on concrete interleavings.
use piwxrx.Prelude.{◌≡◌, ◌≢◌, ◌≤◌, ◌<◌, ◌⊎◌, refl, true, false, arith}
use piwxrx.Rtl.Shutdown.{
  testing, sleeping, returned, at_test, in_wait, ended, dsp_wait, working, dsp_ended, dsp_flagged,
  signalled, Threads, started, Own, stay, leave, disarm, join, go_on, finish, wait, feed, dsp_go_on,
  dsp_finish, block, process, set_exit, set_dsp_exit, join_dsp, signal, Outer, tick, Reach, here,
  own, outer,
}
use piwxrx.Rtl.Returns.{Reach-returned}
use piwxrx.Rtl.Leaving.{IsLeaving, leaving_lem, rank}
use piwxrx.Rtl.Stuck.{IsStuck, Reach-IsStuck, Reach-IsStuck_stop}

-- `RunRTL` and the timer thread wait, the receiver's thread does not yet.
abbrev waiting : Threads
waiting = record started { main = sleeping; timer = in_wait }

waiting-Reach : Reach started waiting
waiting-Reach = own (own (own here (stay refl refl refl)) (go_on refl refl refl)) (wait refl refl)

-- All three wait.
abbrev quiet : Threads
quiet = record waiting { dsp = dsp_wait }

quiet-Reach : Reach started quiet
quiet-Reach = own (own waiting-Reach (dsp_go_on refl refl refl)) (block refl refl refl)

-- `StopRTL` is in `DSPStop`, and a tick has brought samples.
abbrev stopping : Threads
stopping = record started {
  exit = true;
  dsp_exit = true;
  empty = false;
  main = sleeping;
  timer = at_test;
  dsp = working;
  stop = dsp_flagged;
}

stopping-Reach : Reach started stopping
stopping-Reach =
    own
      (outer (own (own quiet-Reach (set_exit refl refl)) (set_dsp_exit refl refl)) (tick refl refl))
      (feed true refl refl)

-- The run is over.
abbrev over : Threads
over = record stopping {
  armed = false;
  empty = true;
  main = returned;
  timer = ended;
  dsp = dsp_ended;
  stop = signalled;
}

signalled-Reach :
    Reach started
      (record stopping { empty = true; main = testing; dsp = dsp_ended; stop = signalled })
signalled-Reach =
    own
      (own (own (own stopping-Reach (process true refl refl)) (dsp_finish refl refl refl))
        (join_dsp refl refl refl))
      (signal refl refl)

over-Reach : Reach started over
over-Reach =
    own
      (own (own (own signalled-Reach (finish refl refl refl)) (leave refl refl refl))
        (disarm refl refl))
      (join refl refl refl)

Reach-returned_example :
    (over.main ≡ returned → (over.exit ≡ true) × (over.timer ≡ ended))
    × (over.stop ≡ signalled → (over.dsp ≡ dsp_ended) × (over.main ≢ sleeping))
Reach-returned_example = Reach-returned over-Reach

stopping-IsLeaving : IsLeaving stopping
stopping-IsLeaving = record {
  exits = (refl, refl);
  timer_awake = (ground arith, ground arith);
  dsp_awake = (ground arith, ground arith);
}

leaving_lem_example :
    ((stopping.main ≡ returned) ⊎ ((t : Threads) × Own stopping t))
    × ((t : Threads) → Own stopping t → IsLeaving t × (rank t < rank stopping))
    × ((t : Threads) → Outer stopping t → IsLeaving t × (rank t ≤ rank stopping))
leaving_lem_example = leaving_lem stopping stopping-Reach stopping-IsLeaving

Reach-IsStuck_example : (t : Threads) × Reach waiting t × IsStuck t
Reach-IsStuck_example = Reach-IsStuck waiting refl refl refl refl

Reach-IsStuck_stop_example : (t : Threads) × Reach quiet t × IsStuck t × (t.stop ≡ dsp_flagged)
Reach-IsStuck_stop_example = Reach-IsStuck_stop quiet refl refl refl refl refl
