-- ===== src/Rtl/Stuck.antt =====
-- The waits at the end of a run of JNI/Source/rtl.c that nothing ends.
use piwxrx.Prelude.{◌≡◌, ◌≢◌, refl, sym, ap, true, false, arith}
use piwxrx.Rtl.Shutdown.{
  testing, sleeping, leaving, joining, returned, at_test, in_wait, reading, ended, dsp_test,
  dsp_wait, dsp_ended, idle, flagged, dsp_flagged, closing, signalled, Threads, wake_main,
  wake_timer, Own, stay, leave, disarm, join, go_on, finish, wait, pass, feed, dsp_go_on,
  dsp_finish, block, take, process, set_exit, set_dsp_exit, join_dsp, signal, tick, Reach, here,
  own, outer,
}

-- No thread has a step, a tick changes nothing, and `RunRTL` is not back.
pub record IsStuck (s : Threads) : Type 0 where
  pub no_step : (t : Threads) → ¬ Own s t
  pub no_tick : s.armed ≡ true → wake_timer s.timer ≡ s.timer
  pub not_back : s.main ≢ returned

-- `RunRTL` waits for the timer thread, which waits for a tick.
no_step_join :
    {s t : Threads}
    → s.main ≡ joining
    → s.timer ≡ in_wait
    → s.dsp ≡ dsp_ended
    → s.stop ≡ signalled
    → ¬ Own s t
no_step_join m i d p (stay a x e) = ground (arith, m, a)
no_step_join m i d p (leave a x e) = ground (arith, m, a)
no_step_join m i d p (disarm a e) = ground (arith, m, a)
no_step_join m i d p (join a x e) = ground (arith, i, x)
no_step_join m i d p (go_on a x e) = ground (arith, i, a)
no_step_join m i d p (finish a x e) = ground (arith, i, a)
no_step_join m i d p (wait a e) = ground (arith, i, a)
no_step_join m i d p (pass a e) = ground (arith, i, a)
no_step_join m i d p (feed b a e) = ground (arith, i, a)
no_step_join m i d p (dsp_go_on a x e) = ground (arith, d, a)
no_step_join m i d p (dsp_finish a x e) = ground (arith, d, a)
no_step_join m i d p (block a x e) = ground (arith, d, a)
no_step_join m i d p (take a x e) = ground (arith, d, a)
no_step_join m i d p (process b a e) = ground (arith, d, a)
no_step_join m i d p (set_exit a e) = ground (arith, p, a)
no_step_join m i d p (set_dsp_exit a e) = ground (arith, p, a)
no_step_join m i d p (join_dsp a x e) = ground (arith, p, a)
no_step_join m i d p (signal a e) = ground (arith, p, a)

-- `StopRTL` waits for the receiver's thread, which waits for samples, and the timer thread that
-- could hand some over has ended.
no_step_stop :
    {s t : Threads}
    → s.main ≡ sleeping
    → s.timer ≡ ended
    → s.dsp ≡ dsp_wait
    → s.stop ≡ dsp_flagged
    → ¬ Own s t
no_step_stop m i d p (stay a x e) = ground (arith, m, a)
no_step_stop m i d p (leave a x e) = ground (arith, m, a)
no_step_stop m i d p (disarm a e) = ground (arith, m, a)
no_step_stop m i d p (join a x e) = ground (arith, m, a)
no_step_stop m i d p (go_on a x e) = ground (arith, i, a)
no_step_stop m i d p (finish a x e) = ground (arith, i, a)
no_step_stop m i d p (wait a e) = ground (arith, i, a)
no_step_stop m i d p (pass a e) = ground (arith, i, a)
no_step_stop m i d p (feed b a e) = ground (arith, i, a)
no_step_stop m i d p (dsp_go_on a x e) = ground (arith, d, a)
no_step_stop m i d p (dsp_finish a x e) = ground (arith, d, a)
no_step_stop m i d p (block a x e) = ground (arith, d, a)
no_step_stop m i d p (take a x e) = ground (arith, d, a)
no_step_stop m i d p (process b a e) = ground (arith, d, a)
no_step_stop m i d p (set_exit a e) = ground (arith, p, a)
no_step_stop m i d p (set_dsp_exit a e) = ground (arith, p, a)
no_step_stop m i d p (join_dsp a x e) = ground (arith, d, x)
no_step_stop m i d p (signal a e) = ground (arith, p, a)

-- `RunRTL` may not come back where the timer does not tick between the exit and its disarming: from
-- every state in which it sleeps, the timer thread waits, the receiver's thread is at the test of
-- its loop and `StopRTL` is not called, there is a run to a state in which `RunRTL` is not back, no
-- thread has a step and no tick changes anything.
pub Reach-IsStuck :
    (s : Threads)
    → s.main ≡ sleeping
    → s.timer ≡ in_wait
    → s.dsp ≡ dsp_test
    → s.stop ≡ idle
    → (t : Threads) × Reach s t × IsStuck t
Reach-IsStuck s m i d p =
    let s1 : Threads = record s { stop = flagged; exit = true } in
    let s2 : Threads = record s1 { stop = dsp_flagged; dsp_exit = true } in
    let s3 : Threads = record s2 { dsp = dsp_ended } in
    let s4 : Threads = record s3 { stop = closing } in
    let s5 : Threads = record s4 { stop = signalled; main = testing } in
    let s6 : Threads = record s5 { main = leaving } in
    let s7 : Threads = record s6 { main = joining; armed = false } in
    let woken : s5 ≡ record s4 { stop = signalled; main = wake_main s4.main } =
      ap (λ w. let u : Threads = record s4 { stop = signalled; main = wake_main w } in u) (sym m) in
    let ended_dsp =
      own (own (own here (set_exit p refl)) (set_dsp_exit refl refl)) (dsp_finish d refl refl) in
    (
      s7,
      own
          (own (own (own ended_dsp (join_dsp refl refl refl)) (signal refl woken))
            (leave refl refl refl))
          (disarm refl refl),
      record {
        no_step = λ t. no_step_join refl i refl refl;
        no_tick = λ a. ground (arith, a);
        not_back = ground arith;
      },
    )

-- `StopRTL` may not come back from `DSPStop`: from every state in which `RunRTL` sleeps, the timer
-- is armed, the timer thread and the receiver's wait and `StopRTL` is not called, there is a run to
-- a state in which `StopRTL` is in the wait of `DSPStop`, `RunRTL` is not back, no thread has a
-- step and no tick changes anything.
pub Reach-IsStuck_stop :
    (s : Threads)
    → s.main ≡ sleeping
    → s.timer ≡ in_wait
    → s.dsp ≡ dsp_wait
    → s.stop ≡ idle
    → s.armed ≡ true
    → (t : Threads) × Reach s t × IsStuck t × (t.stop ≡ dsp_flagged)
Reach-IsStuck_stop s m i d p a =
    let s1 : Threads = record s { stop = flagged; exit = true } in
    let s2 : Threads = record s1 { stop = dsp_flagged; dsp_exit = true } in
    let s3 : Threads = record s2 { timer = reading } in
    let s4 : Threads = record s3 { timer = at_test } in
    let s5 : Threads = record s4 { timer = ended } in
    let ticked : s3 ≡ record s2 { timer = wake_timer s2.timer } =
      ap (λ w. let u : Threads = record s2 { timer = wake_timer w } in u) (sym i) in
    (
      s5,
      own
          (own (outer (own (own here (set_exit p refl)) (set_dsp_exit refl refl)) (tick a ticked))
            (pass refl refl))
          (finish refl refl refl),
      record {
        no_step = λ t. no_step_stop m refl d refl;
        no_tick = λ b. refl;
        not_back = ground (arith, m);
      },
      refl,
    )
