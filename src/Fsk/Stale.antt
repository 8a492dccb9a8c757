-- ===== src/Fsk/Stale.antt =====
-- `DSPClearSync` of JNI/Common/FSKdsp.c, and what stays in the correlator.
use piwxrx.Prelude.{
  ℕ, zero, suc, ◌+◌, ◌*◌, ◌≡◌, refl, ◌∙◌, sym, ap, subst, Bool, true, Bool-cases, inl, inr, List,
  [], ◌∷◌, ◌++◌, arith,
}
use piwxrx.Demod.{bit_divisor}
use piwxrx.Demod.Sync as Sync
use piwxrx.Demod.Sync.{sync_correlator-IsValid}
use piwxrx.Fsk.Receiver.{
  Receiver, receive, receive-gather, gather-tick, gather-wait, next_clock, dsp_clear_sync,
}
use piwxrx.Fsk.Acquire.{
  IsMatch, IsSeeking, IsIdle, onto, after_all, receive_all-IsSeeking, receive-match, found_sync,
}
use piwxrx.Fsk.Preamble.{
  past, push, opening, before_last, before_last-HasNoMatch, opening-IsMatch, onto-signal,
  get_or-values,
}

after_all-append :
    (xs ys : List ℕ) (r : Receiver) → after_all (xs ++ ys) r ≡ after_all ys (after_all xs r)
after_all-append [] ys r = refl
after_all-append (x ∷ xs) ys r = after_all-append xs ys (receive x r).1

-- In sync the correlator is not used.
insync_step :
    (x : ℕ) (r : Receiver)
    → r.insync ≡ true
    → ((receive x r).1.insync ≡ true) × ((receive x r).1.correlator ≡ r.correlator)
insync_step x r h = elim (Bool-cases (next_clock x r).0) [
  | inl t ↦ rw (receive-gather x r h, gather-tick x r t) (h, refl)
  | inr t ↦ rw (receive-gather x r h, gather-wait x r t) (h, refl)
]

after_all-insync :
    (xs : List ℕ) (r : Receiver)
    → r.insync ≡ true
    → ((after_all xs r).insync ≡ true) × ((after_all xs r).correlator ≡ r.correlator)
after_all-insync [] r h = (h, refl)
after_all-insync (x ∷ xs) r h =
    let step = insync_step x r h in
    let more = after_all-insync xs (receive x r).1 step.0 in (more.0, more.1 ∙ step.1)

-- The code stands in the samples also when one more of its last bit comes.
opening-IsMatch_again :
    (long : ℕ → Bool) (old : List ℕ) → IsMatch 1 (1 ∷ past (push (opening ++ (0 ∷ [])) long []) old)
opening-IsMatch_again long old zero h = refl
opening-IsMatch_again long old (suc k) h =
    let e : suc k * bit_divisor ≡ suc (suc (23 * k + 21)) = omega arith in
    rw e (
      get_or-values (push (opening ++ (0 ∷ [])) long []) old k (23 * k + 21) (omega arith)
        (omega arith) (omega arith))

module _ (rest : List ℕ) (long : ℕ → Bool) (r : Receiver) (hist : List ℕ) (s : IsSeeking r hist)
    (idle : IsIdle hist) where
  -- After a burst and `DSPClearSync`.
  abbrev pub cleared : Receiver
  cleared = dsp_clear_sync (after_all (before_last long ++ (1 ∷ rest)) r)

  abbrev pub stale : List ℕ
  stale = 1 ∷ onto (before_last long) hist

  pub cleared-IsSeeking : IsSeeking cleared stale
  unfolding dsp_clear_sync
  cleared-IsSeeking =
      let xs = before_last long in
      let now = onto xs hist in
      let r1 = after_all xs r in
      let seeking =
        (receive_all-IsSeeking xs [] r hist s (before_last-HasNoMatch long hist idle)).0 in
      let match =
        subst (IsMatch 1) (sym (onto-signal (opening ++ (0 ∷ [])) long [] hist))
          (opening-IsMatch long hist) in
      let r2 = found_sync 1 r1 in
      let same : after_all (xs ++ (1 ∷ rest)) r ≡ after_all rest r2 =
        after_all-append xs (1 ∷ rest) r
        ∙ ap (λ o. after_all rest o.1) (receive-match 1 r1 now seeking match) in
      record {
        out_of_sync = refl;
        valid =
            subst (λ c. Sync.IsValid c stale)
              (sym (ap (λ q. Receiver.correlator q) same ∙ (after_all-insync rest r2 refl).1))
              (sync_correlator-IsValid 1 seeking.valid);
      }

  pub stale-IsMatch : IsMatch 1 stale
  stale-IsMatch =
      subst (λ l. IsMatch 1 (1 ∷ l)) (sym (onto-signal (opening ++ (0 ∷ [])) long [] hist))
        (opening-IsMatch_again long hist)

-- After an idle signal and the signal of two sync bytes up to the first sample of their last bit,
-- and after any samples behind it, `DSPClearSync` does not make the receiver look for new sync
-- bytes: a one as the very next sample brings it into sync again.
pub clear_sync-stale :
    (rest : List ℕ) (long : ℕ → Bool) (r : Receiver) (hist : List ℕ)
    → IsSeeking r hist
    → IsIdle hist
    → (receive 1 (dsp_clear_sync (after_all (before_last long ++ (1 ∷ rest)) r))).1.insync ≡ true
clear_sync-stale rest long r hist s idle =
    ap (λ o. o.1.insync)
      (receive-match 1 (cleared rest long r hist s idle) (stale rest long r hist s idle)
        (cleared-IsSeeking rest long r hist s idle) (stale-IsMatch rest long r hist s idle))
