-- ===== src/Rtl/Returns.antt =====
-- When `RunRTL` of JNI/Source/rtl.c comes back.
use piwxrx.Prelude.{◌≡◌, ◌≢◌, refl, Bool, true, false, arith}
use piwxrx.Rtl.Shutdown.{
  MainAt, testing, sleeping, leaving, joining, returned, TimerAt, ended, DspAt, dsp_ended, StopAt,
  idle, flagged, dsp_flagged, closing, signalled, Threads, started, Own, stay, leave, disarm, join,
  go_on, finish, wait, pass, feed, dsp_go_on, dsp_finish, block, take, process, set_exit,
  set_dsp_exit, join_dsp, signal, Outer, tick, wake_up, wake_up_main, wake_up_dsp, Reach, here, own,
  outer,
}

-- `RunRTL` is past its loop only after the exit, and sleeps only before the signal.
abbrev MainFits : MainAt → Bool → TimerAt → StopAt → Type 0
MainFits testing exit timer stop = Unit {0}
MainFits sleeping exit timer stop = stop ≢ signalled
MainFits leaving exit timer stop = exit ≡ true
MainFits joining exit timer stop = exit ≡ true
MainFits returned exit timer stop = (exit ≡ true) × (timer ≡ ended)

-- The two exits and the receiver's thread as `StopRTL` has left them.
abbrev StopFits : StopAt → Bool → Bool → DspAt → Type 0
StopFits idle exit dsp_exit dsp = (exit ≡ false) × (dsp_exit ≡ false)
StopFits flagged exit dsp_exit dsp = (exit ≡ true) × (dsp_exit ≡ false)
StopFits dsp_flagged exit dsp_exit dsp = (exit ≡ true) × (dsp_exit ≡ true)
StopFits closing exit dsp_exit dsp = (exit ≡ true) × (dsp_exit ≡ true) × (dsp ≡ dsp_ended)
StopFits signalled exit dsp_exit dsp = (exit ≡ true) × (dsp_exit ≡ true) × (dsp ≡ dsp_ended)

pub record IsValid (s : Threads) : Type 0 where
  pub main_fits : MainFits s.main s.exit s.timer s.stop
  pub stop_fits : StopFits s.stop s.exit s.dsp_exit s.dsp

Own-IsValid : {s t : Threads} → Own s t → IsValid s → IsValid t
Own-IsValid (stay m x e) v = ground (arith, m, x, e, v)
Own-IsValid (leave m x e) v = ground (arith, m, x, e, v)
Own-IsValid (disarm m e) v = ground (arith, m, e, v)
Own-IsValid (join m x e) v = ground (arith, m, x, e, v)
Own-IsValid (go_on m x e) v = ground (arith, m, x, e, v)
Own-IsValid (finish m x e) v = ground (arith, m, x, e, v)
Own-IsValid (wait m e) v = ground (arith, m, e, v)
Own-IsValid (pass m e) v = ground (arith, m, e, v)
Own-IsValid (feed b m e) v = ground (arith, m, e, v)
Own-IsValid (dsp_go_on m x e) v = ground (arith, m, x, e, v)
Own-IsValid (dsp_finish m x e) v = ground (arith, m, x, e, v)
Own-IsValid (block m x e) v = ground (arith, m, x, e, v)
Own-IsValid (take m x e) v = ground (arith, m, x, e, v)
Own-IsValid (process b m e) v = ground (arith, m, e, v)
Own-IsValid (set_exit m e) v = ground (arith, m, e, v)
Own-IsValid (set_dsp_exit m e) v = ground (arith, m, e, v)
Own-IsValid (join_dsp m x e) v = ground (arith, m, x, e, v)
Own-IsValid (signal m e) v = ground (arith, m, e, v)

Outer-IsValid : {s t : Threads} → Outer s t → IsValid s → IsValid t
Outer-IsValid (tick a e) v = ground (arith, e, v)
Outer-IsValid (wake_up e) v = ground (arith, e, v)
Outer-IsValid (wake_up_main e) v = ground (arith, e, v)
Outer-IsValid (wake_up_dsp e) v = ground (arith, e, v)

Reach-IsValid : {s t : Threads} → IsValid s → Reach s t → IsValid t
Reach-IsValid v here = v
Reach-IsValid v (own r st) = Own-IsValid st (Reach-IsValid v r)
Reach-IsValid v (outer r st) = Outer-IsValid st (Reach-IsValid v r)

pub started-IsValid : {s : Threads} → Reach started s → IsValid s
started-IsValid r = Reach-IsValid (record { main_fits = tt; stop_fits = (refl, refl) }) r

-- In every interleaving, with any ticks and wake-ups, `RunRTL` is back only after `StopRTL` has set
-- the exit and the timer thread has ended; and once `StopRTL` has signalled, the receiver's thread
-- has ended and `RunRTL` does not sleep any more: that signal is not lost.
pub Reach-returned :
    {s : Threads}
    → Reach started s
    → (s.main ≡ returned → (s.exit ≡ true) × (s.timer ≡ ended))
      × (s.stop ≡ signalled → (s.dsp ≡ dsp_ended) × (s.main ≢ sleeping))
Reach-returned {s} r =
    let v = started-IsValid r in
    ((λ m. ground (arith, m, v)), (λ m. (ground (arith, m, v), (λ e. ground (arith, m, e, v)))))
