-- ===== src/Fsk/Clear.antt =====
-- `DSPClearSync` of JNI/Common/FSKdsp.c at any point of a pass of `dsp_threads_fn`. The thread tests
-- the sync flag and then runs a branch: that out of sync holds the mutex which `DSPClearSync` takes,
-- that in sync holds none, and `DSPClearSync` may come between the test and what the branch does.
use piwxrx.Prelude.{
  ℕ, ◌≡◌, ◌⊎◌, inl, inr, refl, ◌∙◌, ap, Bool, true, false, Bool-cases, List, [], ◌∷◌, Option, none,
  some, if◌then◌else◌,
}
use piwxrx.Fsk.Frame.{emit, sync_byte}
use piwxrx.Fsk.Receiver.{
  Receiver, dsp_clear_sync, seek, gather, gather-tick, gather-wait, next_clock, receive,
  receive_all, IsHunting, StartsWithSync, seek-Hunts, gather-Hunts,
}

-- Where the thread stands: before the test of the sync flag, or past it with the flag that it has
-- read and the demodulated bit of the sample.
pub data Stage : Type 0 where
  before_test : Stage
  in_branch : Bool → ℕ → Stage

pub record System : Type 0 where
  pub stage : Stage
  pub receiver : Receiver

-- The test of the sync flag for a demodulated sample, the branch, and a call of `DSPClearSync`.
pub data Event : Type 0 where
  test_flag : ℕ → Event
  finish clear : Event

abbrev pub test : ℕ → Stage → Receiver → Stage
test b before_test r = in_branch r.insync b
test b (in_branch insync old) r = in_branch insync old

abbrev pub branch : Stage → Receiver → Option ℕ × Receiver
branch before_test r = (none, r)
branch (in_branch true b) r = gather b r
branch (in_branch false b) r = seek b r

unfoldable pub step : Event → System → Option ℕ × System
step (test_flag b) s = (none, record s { stage = test b s.stage s.receiver })
step finish s =
    let (out, r) = branch s.stage s.receiver in (out, record { stage = before_test; receiver = r })
step clear s = (none, record s { receiver = dsp_clear_sync s.receiver })

-- The bytes delivered.
unfoldable pub run : List Event → System → List ℕ
run [] s = []
run (event ∷ events) s = let (out, s') = step event s in emit out (run events s')

-- Whole passes, one for each sample.
abbrev pub passes : List ℕ → List Event
passes [] = []
passes (b ∷ bits) = test_flag b ∷ finish ∷ passes bits

branch-receive : (b : ℕ) (r : Receiver) → branch (in_branch r.insync b) r ≡ receive b r
unfolding receive
branch-receive b r = by_flag r.insync
  where
    by_flag : (t : Bool) → branch (in_branch t b) r ≡ (if t then gather b r else seek b r)
    by_flag true = refl
    by_flag false = refl

-- Where no call comes between, the passes deliver what `receive_all` gives.
pub run-passes :
    (bits : List ℕ) (r : Receiver)
    → run (passes bits) (record { stage = before_test; receiver = r }) ≡ receive_all bits r
unfolding run step receive_all
run-passes [] r = refl
run-passes (b ∷ bits) r =
    ap (λ p. emit p.0 (run (passes bits) (record { stage = before_test; receiver = p.1 })))
      (branch-receive b r)
    ∙ ap (emit (receive b r).0) (run-passes bits (receive b r).1)

-- The thread finds no byte but the sync byte next.
abbrev IsWaiting : Stage → Receiver → Type 0
IsWaiting before_test r = IsHunting r
IsWaiting (in_branch true b) r = r.frame.bytesync ≡ false
IsWaiting (in_branch false b) r = Unit {0}

test-IsWaiting : (b : ℕ) (g : Stage) (r : Receiver) → IsWaiting g r → IsWaiting (test b g r) r
test-IsWaiting b before_test r w = by_flag r.insync w
  where
    by_flag : (t : Bool) → (t ≡ false) ⊎ (r.frame.bytesync ≡ false) → IsWaiting (in_branch t b) r
    by_flag true (inl e) = absurd cc
    by_flag true (inr e) = e
    by_flag false h = tt
test-IsWaiting b (in_branch true old) r w = w
test-IsWaiting b (in_branch false old) r w = w

clear-IsWaiting : (g : Stage) (r : Receiver) → IsWaiting g r → IsWaiting g (dsp_clear_sync r)
unfolding dsp_clear_sync
clear-IsWaiting before_test r w = inl refl
clear-IsWaiting (in_branch true b) r w = w
clear-IsWaiting (in_branch false b) r w = w

branch-IsWaiting :
    (g : Stage) (r : Receiver)
    → IsWaiting g r
    → (((branch g r).0 ≡ none) × IsHunting (branch g r).1) ⊎ ((branch g r).0 ≡ some sync_byte)
branch-IsWaiting before_test r w = inl (refl, w)
branch-IsWaiting (in_branch true b) r w = gather-Hunts b r w
branch-IsWaiting (in_branch false b) r w = seek-Hunts b r

run-IsWaiting :
    (events : List Event) (g : Stage) (r : Receiver)
    → IsWaiting g r
    → StartsWithSync (run events (record { stage = g; receiver = r }))
unfolding run step
run-IsWaiting [] g r w = tt
run-IsWaiting (test_flag b ∷ events) g r w =
    run-IsWaiting events (test b g r) r (test-IsWaiting b g r w)
run-IsWaiting (clear ∷ events) g r w =
    run-IsWaiting events g (dsp_clear_sync r) (clear-IsWaiting g r w)
run-IsWaiting (finish ∷ events) g r w = elim (branch-IsWaiting g r w) [
  | inl quiet ↦ rw quiet.0 (run-IsWaiting events before_test (branch g r).1 quiet.1)
  | inr found ↦ rw found refl
]

-- The branch in sync does not look at the sync flag and leaves it.
gather-cleared :
    (b : ℕ) (r : Receiver)
    → ((gather b (dsp_clear_sync r)).0 ≡ (gather b r).0)
      × ((gather b (dsp_clear_sync r)).1.insync ≡ false)
unfolding dsp_clear_sync
gather-cleared b r =
    let r' : Receiver = record r { insync = false } in
    elim (Bool-cases (next_clock b r).0) [
      | inl t ↦ rw (gather-tick b r t, gather-tick b r' t) (refl, refl)
      | inr t ↦ rw (gather-wait b r t, gather-wait b r' t) (refl, refl)
    ]

-- Nothing, or what the branch under way gives and then bytes from a sync byte on.
abbrev pub Finishes : Option ℕ → List ℕ → Type 0
Finishes out bytes =
    (bytes ≡ []) ⊎ ((rest : List ℕ) × (bytes ≡ emit out rest) × StartsWithSync rest)

-- The bytes after a call of `DSPClearSync`, by where it comes.
abbrev pub Resyncs : Stage → Receiver → List ℕ → Type 0
Resyncs before_test r bytes = StartsWithSync bytes
Resyncs (in_branch false b) r bytes = StartsWithSync bytes
Resyncs (in_branch true b) r bytes = Finishes (gather b r).0 bytes

run-Finishes :
    (events : List Event) (b : ℕ) (r : Receiver)
    → Finishes
        (gather b r).0
        (run events (record { stage = in_branch true b; receiver = dsp_clear_sync r }))
unfolding run step dsp_clear_sync
run-Finishes [] b r = inl refl
run-Finishes (test_flag b' ∷ events) b r = run-Finishes events b r
run-Finishes (clear ∷ events) b r = run-Finishes events b r
run-Finishes (finish ∷ events) b r =
    let p = gather b (dsp_clear_sync r) in
    let rest = run events (record { stage = before_test; receiver = p.1 }) in
    inr (
      rest,
      ap (λ o. emit o rest) (gather-cleared b r).0,
      run-IsWaiting events before_test p.1 (inl (gather-cleared b r).1),
    )

-- After `DSPClearSync`, in every order of the thread's steps and of further calls, the first byte
-- delivered is the sync byte. Only where the call comes while the branch in sync runs, the byte that
-- this branch gives, if any, comes before.
pub clear_sync-Resyncs :
    (events : List Event) (s : System) → Resyncs s.stage s.receiver (run events (step clear s).1)
unfolding step dsp_clear_sync
clear_sync-Resyncs events s = by_stage s.stage s.receiver
  where
    by_stage :
        (g : Stage) (r : Receiver)
        → Resyncs g r (run events (record { stage = g; receiver = dsp_clear_sync r }))
    by_stage before_test r = run-IsWaiting events before_test (dsp_clear_sync r) (inl refl)
    by_stage (in_branch false b) r = run-IsWaiting events (in_branch false b) (dsp_clear_sync r) tt
    by_stage (in_branch true b) r = run-Finishes events b r
