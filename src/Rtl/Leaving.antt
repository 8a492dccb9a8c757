-- ===== src/Rtl/Leaving.antt =====
-- That the end of a run of JNI/Source/rtl.c is reached.
use piwxrx.Prelude.{ℕ, ◌+◌, ◌≤◌, ◌<◌, ◌≡◌, ◌≢◌, ◌⊎◌, inl, inr, refl, true, false, arith}
use piwxrx.Rtl.Shutdown.{
  MainAt, testing, sleeping, leaving, joining, returned, TimerAt, at_test, tested, in_wait, reading,
  ended, DspAt, dsp_test, dsp_tested, dsp_wait, working, dsp_ended, StopAt, idle, flagged,
  dsp_flagged, closing, signalled, Threads, started, wake_main, Own, stay, leave, disarm, join,
  go_on, finish, wait, pass, feed, dsp_go_on, dsp_finish, block, take, process, set_exit,
  set_dsp_exit, join_dsp, signal, Outer, tick, wake_up, wake_up_main, wake_up_dsp, Reach,
}
use piwxrx.Rtl.Returns.{IsValid, started-IsValid}

main_rank : MainAt → ℕ
main_rank sleeping = 4
main_rank testing = 3
main_rank leaving = 2
main_rank joining = 1
main_rank returned = 0

timer_rank : TimerAt → ℕ
timer_rank tested = 4
timer_rank in_wait = 3
timer_rank reading = 2
timer_rank at_test = 1
timer_rank ended = 0

dsp_rank : DspAt → ℕ
dsp_rank dsp_tested = 4
dsp_rank dsp_wait = 3
dsp_rank working = 2
dsp_rank dsp_test = 1
dsp_rank dsp_ended = 0

stop_rank : StopAt → ℕ
stop_rank idle = 4
stop_rank flagged = 3
stop_rank dsp_flagged = 2
stop_rank closing = 1
stop_rank signalled = 0

-- The steps that are left at most.
pub rank : Threads → ℕ
rank s = main_rank s.main + timer_rank s.timer + dsp_rank s.dsp + stop_rank s.stop

-- Both exits are set, and neither the timer thread nor the receiver's is in its wait or on its way
-- there.
pub record IsLeaving (s : Threads) : Type 0 where
  pub exits : (s.exit ≡ true) × (s.dsp_exit ≡ true)
  pub timer_awake : (s.timer ≢ in_wait) × (s.timer ≢ tested)
  pub dsp_awake : (s.dsp ≢ dsp_wait) × (s.dsp ≡ dsp_tested → s.empty ≡ false)

Own-IsLeaving : {s t : Threads} → IsLeaving s → Own s t → IsLeaving t
Own-IsLeaving l (stay m x e) = ground (arith, m, x, e, l)
Own-IsLeaving l (leave m x e) = ground (arith, m, x, e, l)
Own-IsLeaving l (disarm m e) = ground (arith, m, e, l)
Own-IsLeaving l (join m x e) = ground (arith, m, x, e, l)
Own-IsLeaving l (go_on m x e) = ground (arith, m, x, e, l)
Own-IsLeaving l (finish m x e) = ground (arith, m, x, e, l)
Own-IsLeaving l (wait m e) = ground (arith, m, e, l)
Own-IsLeaving l (pass m e) = ground (arith, m, e, l)
Own-IsLeaving l (feed b m e) = ground (arith, m, e, l)
Own-IsLeaving l (dsp_go_on m x e) = ground (arith, m, x, e, l)
Own-IsLeaving l (dsp_finish m x e) = ground (arith, m, x, e, l)
Own-IsLeaving l (block m x e) = ground (arith, m, x, e, l)
Own-IsLeaving l (take m x e) = ground (arith, m, x, e, l)
Own-IsLeaving l (process b m e) = ground (arith, m, e, l)
Own-IsLeaving l (set_exit m e) = ground (arith, m, e, l)
Own-IsLeaving l (set_dsp_exit m e) = ground (arith, m, e, l)
Own-IsLeaving l (join_dsp m x e) = ground (arith, m, x, e, l)
Own-IsLeaving l (signal m e) = ground (arith, m, e, l)

Own-rank : {s t : Threads} → IsLeaving s → Own s t → rank t < rank s
unfolding rank main_rank timer_rank dsp_rank stop_rank
Own-rank l (stay m x e) = ground (arith, m, x, e, l)
Own-rank l (leave m x e) = ground (arith, m, x, e, l)
Own-rank l (disarm m e) = ground (arith, m, e, l)
Own-rank l (join m x e) = ground (arith, m, x, e, l)
Own-rank l (go_on m x e) = ground (arith, m, x, e, l)
Own-rank l (finish m x e) = ground (arith, m, x, e, l)
Own-rank l (wait m e) = ground (arith, m, e, l)
Own-rank l (pass m e) = ground (arith, m, e, l)
Own-rank l (feed b m e) = ground (arith, m, e, l)
Own-rank l (dsp_go_on m x e) = ground (arith, m, x, e, l)
Own-rank l (dsp_finish m x e) = ground (arith, m, x, e, l)
Own-rank l (block m x e) = ground (arith, m, x, e, l)
Own-rank l (take m x e) = ground (arith, m, x, e, l)
Own-rank l (process b m e) = ground (arith, m, e, l)
Own-rank l (set_exit m e) = ground (arith, m, e, l)
Own-rank l (set_dsp_exit m e) = ground (arith, m, e, l)
Own-rank l (join_dsp m x e) = ground (arith, m, x, e, l)
Own-rank l (signal m e) = ground (arith, m, e, l)

Outer-IsLeaving : {s t : Threads} → IsLeaving s → Outer s t → IsLeaving t × (rank t ≤ rank s)
unfolding rank main_rank timer_rank dsp_rank stop_rank
Outer-IsLeaving l (tick a e) = ground (arith, e, l)
Outer-IsLeaving l (wake_up e) = ground (arith, e, l)
Outer-IsLeaving l (wake_up_main e) = ground (arith, e, l)
Outer-IsLeaving l (wake_up_dsp e) = ground (arith, e, l)

-- A step of the receiver's thread or of `StopRTL` while `RunRTL` sleeps.
step_asleep :
    (d : DspAt) (p : StopAt) (s : Threads)
    → s.main ≡ sleeping
    → s.dsp ≡ d
    → s.stop ≡ p
    → IsValid s
    → IsLeaving s
    → (t : Threads) × Own s t
step_asleep d idle s em ed ep v l = absurd (ground (arith, ep, v, l))
step_asleep d flagged s em ed ep v l = absurd (ground (arith, ep, v, l))
step_asleep d signalled s em ed ep v l = absurd (ground (arith, em, ep, v))
step_asleep d closing s em ed ep v l =
    (record s { stop = signalled; main = wake_main s.main }, signal ep refl)
step_asleep dsp_ended dsp_flagged s em ed ep v l =
    (record s { stop = closing }, join_dsp ep ed refl)
step_asleep dsp_test dsp_flagged s em ed ep v l =
    (record s { dsp = dsp_ended }, dsp_finish ed l.exits.1 refl)
step_asleep dsp_tested dsp_flagged s em ed ep v l =
    (record s { dsp = working }, take ed (l.dsp_awake.1 ed) refl)
step_asleep working dsp_flagged s em ed ep v l =
    (record s { dsp = dsp_test; empty = true }, process true ed refl)
step_asleep dsp_wait dsp_flagged s em ed ep v l = absurd (l.dsp_awake.0 ed)

some_step :
    (m : MainAt) (i : TimerAt) (s : Threads)
    → s.main ≡ m
    → s.timer ≡ i
    → IsValid s
    → IsLeaving s
    → (s.main ≡ returned) ⊎ ((t : Threads) × Own s t)
some_step returned i s em ei v l = inl em
some_step testing i s em ei v l = inr (record s { main = leaving }, leave em l.exits.0 refl)
some_step leaving i s em ei v l = inr (record s { main = joining; armed = false }, disarm em refl)
some_step joining ended s em ei v l = inr (record s { main = returned }, join em ei refl)
some_step joining at_test s em ei v l = inr (record s { timer = ended }, finish ei l.exits.0 refl)
some_step joining reading s em ei v l = inr (record s { timer = at_test }, pass ei refl)
some_step joining in_wait s em ei v l = absurd (l.timer_awake.0 ei)
some_step joining tested s em ei v l = absurd (l.timer_awake.1 ei)
some_step sleeping i s em ei v l = inr (step_asleep s.dsp s.stop s em refl refl v l)

-- Once both exits are set and neither of the two threads is in its wait or on its way there,
-- `RunRTL` comes back: as long as it is not back, one of the threads has a step; each of their
-- steps lowers a rank, which no tick or wake-up raises; and all of them keep this condition.
pub leaving_lem :
    (s : Threads)
    → Reach started s
    → IsLeaving s
    → ((s.main ≡ returned) ⊎ ((t : Threads) × Own s t))
      × ((t : Threads) → Own s t → IsLeaving t × (rank t < rank s))
      × ((t : Threads) → Outer s t → IsLeaving t × (rank t ≤ rank s))
leaving_lem s r l = (
  some_step s.main s.timer s refl refl (started-IsValid r) l,
  (λ t st. (Own-IsLeaving l st, Own-rank l st)),
  (λ t st. Outer-IsLeaving l st),
)
