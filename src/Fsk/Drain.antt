-- ===== src/Fsk/Drain.antt =====
-- The loop of `dsp_threads_fn` of JNI/Common/FSKdsp.c run on the samples that wait.
use piwxrx.Prelude.{
  ℕ, zero, suc, ◌+◌, ◌%◌, ◌^◌, ◌<◌, ◌≡◌, ◌≢◌, refl, ◌∙◌, sym, ap, ap₂, ℕ_discrete, Bool, true,
  false, List, [], ◌∷◌, ◌==◌, ==_iff, get_or, arith,
}
use piwxrx.Prelude.Int.{ℤ, pos}
use piwxrx.Prelude.Ring.{next, window, window-read}
use piwxrx.Fsk.Samples.{SampleBuffer, sample_bfrsiz, pending, waiting}
use piwxrx.Fsk.Samples as Samples
use piwxrx.Fsk.Thread.{
  Thread, Effect, blocked, went, process, take_sample, pass, drain, process_all, process_mode,
  pass_mode,
}

module _ (decay gain : ℤ → ℤ) where
  process_mode-samples :
      (b : Bool) (x : ℤ) (t : Thread) (s : SampleBuffer)
      → process_mode decay gain b x (record t { samples = s }) ≡ (
        (process_mode decay gain b x t).0,
        record (process_mode decay gain b x t).1 { samples = s },
      )
  process_mode-samples true x t s = refl
  process_mode-samples false x t s = refl

  -- Processing does not look at the ring.
  pub process-samples :
      (x : ℤ) (t : Thread) (s : SampleBuffer)
      → process decay gain x (record t { samples = s })
        ≡ ((process decay gain x t).0, record (process decay gain x t).1 { samples = s })
  unfolding process
  process-samples x t s = process_mode-samples t.writing x t s

  pub process_all-samples :
      (xs : List ℤ) (t : Thread) (s : SampleBuffer)
      → process_all decay gain xs (record t { samples = s })
        ≡ ((process_all decay gain xs t).0, record (process_all decay gain xs t).1 { samples = s })
  unfolding process_all
  process_all-samples [] t s = refl
  process_all-samples (x ∷ xs) t s =
      ap (λ r. let (effects, u) = process_all decay gain xs r.1 in (r.0 ∷ effects, u))
        (process-samples x t s)
      ∙ ap (λ r. ((process decay gain x t).0 ∷ r.0, r.1))
          (process_all-samples xs (process decay gain x t).1 s)

  process_mode-exit :
      (b : Bool) (x : ℤ) (t : Thread) → (process_mode decay gain b x t).1.exit ≡ t.exit
  process_mode-exit true x t = refl
  process_mode-exit false x t = refl

  pub process-exit : (x : ℤ) (t : Thread) → (process decay gain x t).1.exit ≡ t.exit
  unfolding process
  process-exit x t = process_mode-exit t.writing x t

  pub pass-blocked :
      (t : Thread)
      → t.exit ≡ false
      → t.samples.rdptr ≡ t.samples.wrptr
      → pass decay gain t ≡ blocked
  unfolding pass
  pass-blocked t runs e =
      ap₂ (λ a b. pass_mode decay gain a b t) runs ((==_iff t.samples.rdptr t.samples.wrptr).1 e)

  pub pass-went :
      (t : Thread)
      → t.exit ≡ false
      → t.samples.rdptr ≢ t.samples.wrptr
      → pass decay gain t ≡ went (take_sample decay gain t).0 (take_sample decay gain t).1
  unfolding pass
  pass-went t runs ne =
      let differ : (t.samples.rdptr == t.samples.wrptr) ≡ false = ground arith in
      ap₂ (λ a b. pass_mode decay gain a b t) runs differ

  drain-blocked :
      (fuel : ℕ) (t : Thread)
      → pass decay gain t ≡ blocked
      → drain decay gain (suc fuel) t ≡ ([], t)
  unfolding drain
  drain-blocked fuel t e = rw (e, drain)

  drain-went :
      (fuel : ℕ) (t : Thread) {effect : Effect} {u : Thread}
      → pass decay gain t ≡ went effect u
      → drain decay gain (suc fuel) t
        ≡ (effect ∷ (drain decay gain fuel u).0, (drain decay gain fuel u).1)
  unfolding drain
  drain-went fuel t e = rw (e, drain)

  -- Samples processed from a state, and a ring emptied.
  abbrev outcome : List ℤ → SampleBuffer → Thread → List Effect × Thread
  outcome xs s t = (
    (process_all decay gain xs t).0,
    record (process_all decay gain xs t).1 { samples = record s { rdptr = s.wrptr } },
  )

  outcome-cons :
      (x : ℤ) (xs : List ℤ) (s s' : SampleBuffer) (t : Thread)
      → let u : Thread = record (process decay gain x t).1 { samples = s' } in
        ((process decay gain x t).0 ∷ (outcome xs s u).0, (outcome xs s u).1) ≡ outcome (x ∷ xs) s t
  unfolding process_all
  outcome-cons x xs s s' t =
      ap
        (λ r.
          ((process decay gain x t).0 ∷ r.0, record r.1 { samples = record s { rdptr = s.wrptr } }))
        (process_all-samples xs (process decay gain x t).1 s')

  drain-empty :
      (fuel : ℕ) (t : Thread)
      → t.exit ≡ false
      → t.samples.rdptr ≡ t.samples.wrptr
      → drain decay gain (suc fuel) t ≡ outcome (pending t.samples) t.samples t
  unfolding process_all
  drain-empty fuel t runs e =
      let none_left : waiting t.samples ≡ 0 = ground arith in
      drain-blocked fuel t (pass-blocked t runs e)
      ∙ (λ i. ([], record t { samples = record t.samples { rdptr = e i } }))
      ∙ ap
          (λ n.
            outcome (window sample_bfrsiz (pos 0) t.samples.buffer t.samples.rdptr n) t.samples t)
          (sym none_left)

  -- With more passes allowed than samples wait, the running thread processes exactly the samples
  -- that wait, oldest first, and ends with an empty ring.
  pub drain_lem :
      (fuel : ℕ) (t : Thread)
      → t.exit ≡ false
      → Samples.IsValid t.samples
      → waiting t.samples < fuel
      → drain decay gain fuel t ≡ (
        (process_all decay gain (pending t.samples) t).0,
        record (process_all decay gain (pending t.samples) t).1 {
          samples = record t.samples { rdptr = t.samples.wrptr };
        },
      )
  unfolding take_sample
  drain_lem zero t runs v enough = absurd (omega arith)
  drain_lem (suc fuel) t runs v enough = elim (ℕ_discrete t.samples.rdptr t.samples.wrptr) [
    | yes e ↦ drain-empty fuel t runs e
    | no ne ↦
        let s' : SampleBuffer = record t.samples { rdptr = (t.samples.rdptr + 1) % 2 ^ 12 } in
        let x = get_or t.samples.buffer t.samples.rdptr (pos 0) in
        let u : Thread = record (process decay gain x t).1 { samples = s' } in
        let moved : next sample_bfrsiz t.samples.rdptr ≡ (t.samples.rdptr + 1) % 2 ^ 12 =
          ground (arith, v) in
        let read : pending t.samples ≡ x ∷ pending s' = rw moved at (
          window-read sample_bfrsiz (pos 0) t.samples.buffer t.samples.rdptr t.samples.wrptr
            v.read_in v.write_in ne) in
        drain-went fuel t (pass-went t runs ne)
        ∙ ap (λ r. (r.0 ∷ (drain decay gain fuel r.1).0, (drain decay gain fuel r.1).1))
            (process-samples x t s')
        ∙ ap (λ r. ((process decay gain x t).0 ∷ r.0, r.1))
            (drain_lem fuel u (process-exit x t ∙ runs)
              (record { size = v.size; write_in = v.write_in; read_in = omega arith })
              (ground (arith, v)))
        ∙ outcome-cons x (pending s') t.samples s' t
        ∙ ap (λ xs. outcome xs t.samples t) (sym read)
  ]
