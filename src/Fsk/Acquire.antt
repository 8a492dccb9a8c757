-- ===== src/Fsk/Acquire.antt =====
-- The search for the sync code in JNI/Common/FSKdsp.c on an ideal signal.
use piwxrx.Prelude.{
  ℕ, zero, suc, ◌+◌, ◌-◌, ◌*◌, ◌≤◌, ◌<◌, ◌≡◌, refl, ◌∙◌, ap, true, false, Bool-cases, ◌⊎◌, inl, inr,
  List, [], ◌∷◌, ◌++◌, none, length, get_or, replicate, arith,
}
use piwxrx.Demod.{bit_divisor, n_corr_bits, sync_bits, sync_correlator}
use piwxrx.Demod.Sync as Sync
use piwxrx.Demod.Sync.{sync_correlator_iff, sync_correlator-IsValid}
use piwxrx.Fsk.Edge.{edge_detect}
use piwxrx.Fsk.Clock.{run_bit_clock}
use piwxrx.Fsk.Frame.{emit, frame_bits}
use piwxrx.Fsk.Receiver.{
  Receiver, seek, receive, receive_all, picked, receive-seek, seek_lem, receive_all-insync,
}
use piwxrx.Fsk.Recovery.{settled, counting}

-- The sync code stands in the bit `b` and the history before it.
abbrev pub IsMatch : ℕ → List ℕ → Type 0
IsMatch b hist =
    (k : ℕ) → k < n_corr_bits → get_or (b ∷ hist) (k * bit_divisor) 0 ≡ get_or sync_bits k 0

-- The receiver is out of sync, and its correlator holds the newest of a history.
pub record IsSeeking (r : Receiver) (hist : List ℕ) : Type 0 where
  pub out_of_sync : r.insync ≡ false
  pub valid : Sync.IsValid r.correlator hist

-- A history with samples put before it, the last of them first.
abbrev pub onto : List ℕ → List ℕ → List ℕ
onto [] hist = hist
onto (x ∷ xs) hist = onto xs (x ∷ hist)

-- None of the samples completes the sync code.
abbrev pub HasNoMatch : List ℕ → List ℕ → Type 0
HasNoMatch [] hist = Unit {0}
HasNoMatch (x ∷ xs) hist = (¬ IsMatch x hist) × HasNoMatch xs (x ∷ hist)

-- The receiver after a sequence of samples.
abbrev pub after_all : List ℕ → Receiver → Receiver
after_all [] r = r
after_all (x ∷ xs) r = after_all xs (receive x r).1

receive-IsSeeking :
    (x : ℕ) (r : Receiver) (hist : List ℕ)
    → IsSeeking r hist
    → ¬ IsMatch x hist
    → ((receive x r).0 ≡ none) × IsSeeking (receive x r).1 (x ∷ hist)
receive-IsSeeking x r hist s other =
    let step = seek_lem x r s.out_of_sync s.valid in
    let still : (receive x r).1.insync ≡ false = elim (Bool-cases (receive x r).1.insync) [
      | inl e ↦ absurd (other (step.2.0 e))
      | inr e ↦ e
    ] in
    (step.0, record { out_of_sync = still; valid = step.3 })

-- Samples without the sync code deliver nothing, and the search goes on.
pub receive_all-IsSeeking :
    (xs rest : List ℕ) (r : Receiver) (hist : List ℕ)
    → IsSeeking r hist
    → HasNoMatch xs hist
    → IsSeeking (after_all xs r) (onto xs hist)
      × (receive_all (xs ++ rest) r ≡ receive_all rest (after_all xs r))
unfolding receive_all
receive_all-IsSeeking [] rest r hist s quiet = (s, refl)
receive_all-IsSeeking (x ∷ xs) rest r hist s quiet =
    let r1 = (receive x r).1 in
    let step = receive-IsSeeking x r hist s quiet.0 in
    let more = receive_all-IsSeeking xs rest r1 (x ∷ hist) step.1 quiet.1 in
    (more.0, ap (λ o. emit o (receive_all (xs ++ rest) r1)) step.0 ∙ more.1)

-- The receiver that is in sync since the last sample.
abbrev pub found_sync : ℕ → Receiver → Receiver
found_sync b r = record {
  insync = true;
  correlator = (sync_correlator b r.correlator).1;
  edge = settled b;
  clock = counting 11 23;
  frame = record { bytesync = false; demod_byte = 0; bitctr = 0 };
}

pub receive-match :
    (b : ℕ) (r : Receiver) (hist : List ℕ)
    → IsSeeking r hist
    → IsMatch b hist
    → receive b r ≡ (none, found_sync b r)
unfolding seek edge_detect run_bit_clock
receive-match b r hist s m =
    let found : (sync_correlator b r.correlator).0 ≡ true = (sync_correlator_iff b s.valid).1 m in
    rw (receive-seek b r s.out_of_sync, found)

-- The sample that completes the sync code starts the edge detector, the clock and the framing.
pub receive_all-match :
    (b : ℕ) (rest : List ℕ) (r : Receiver) (hist : List ℕ)
    → IsSeeking r hist
    → IsMatch b hist
    → receive_all (b ∷ rest) r
      ≡ (frame_bits
          (picked rest (settled b) (counting 11 23))
          (record { bytesync = false; demod_byte = 0; bitctr = 0 })).0
unfolding receive_all
receive_all-match b rest r hist s m =
    ap (λ o. emit o.0 (receive_all rest o.1)) (receive-match b r hist s m)
    ∙ receive_all-insync rest (found_sync b r) refl

pub HasNoMatch-append :
    (xs ys hist : List ℕ)
    → HasNoMatch xs hist
    → HasNoMatch ys (onto xs hist)
    → HasNoMatch (xs ++ ys) hist
HasNoMatch-append [] ys hist p q = q
HasNoMatch-append (x ∷ xs) ys hist p q = (p.0, HasNoMatch-append xs ys (x ∷ hist) p.1 q)

-- The code ends in a one.
pub HasNoMatch-zeros : (n : ℕ) (hist : List ℕ) → HasNoMatch (replicate n 0) hist
HasNoMatch-zeros zero hist = tt
HasNoMatch-zeros (suc n) hist =
    ((λ m. absurd (omega (arith, m 0 (omega arith)))), HasNoMatch-zeros n (0 ∷ hist))

pub get_or-past :
    (xs ys : List ℕ) (k : ℕ) → length xs ≤ k → get_or (xs ++ ys) k 0 ≡ get_or ys (k - length xs) 0
get_or-past [] ys k h = let e : k - 0 ≡ k = omega arith in rw e refl
get_or-past (x ∷ xs) ys zero h = absurd (omega arith)
get_or-past (x ∷ xs) ys (suc k) h =
    let e : suc k - suc (length xs) ≡ k - length xs = omega arith in
    rw e (get_or-past xs ys k (omega arith))

-- Each place holds a one, or the place 46 samples before it a zero: so it is for the zeros that the
-- program starts with, for the ones that a phase of zero is demodulated to, and for ones after zeros.
abbrev pub IsIdle : List ℕ → Type 0
IsIdle hist = (k : ℕ) → (get_or hist k 0 ≡ 1) ⊎ (get_or hist (46 + k) 0 ≡ 0)

pub ones-IsIdle : (n : ℕ) (hist : List ℕ) → IsIdle hist → IsIdle (onto (replicate n 1) hist)
ones-IsIdle zero hist idle = idle
ones-IsIdle (suc n) hist idle = ones-IsIdle n (1 ∷ hist) more
  where
    more : IsIdle (1 ∷ hist)
    more zero = inl refl
    more (suc k) = let e : 46 + suc k ≡ suc (46 + k) = omega arith in rw e (idle k)

-- The code has a zero 299 samples before its end, and a one 46 samples before that.
pub HasNoMatch-early :
    (xs recent old : List ℕ)
    → IsIdle old
    → length recent + length xs ≤ 299
    → HasNoMatch xs (recent ++ old)
HasNoMatch-early [] recent old idle h = tt
HasNoMatch-early (x ∷ xs) recent old idle h =
    let n = length (x ∷ recent) in
    let e : 345 - n ≡ 46 + (299 - n) = omega arith in
    let newer = get_or-past (x ∷ recent) old 299 (omega arith) in
    let older = get_or-past (x ∷ recent) old 345 (omega arith) ∙ ap (λ k. get_or old k 0) e in
    (
      (λ m. elim (idle (299 - n)) [
        | inl one ↦ absurd (omega (arith, m 13 (omega arith), newer, one))
        | inr none_left ↦ absurd (omega (arith, m 15 (omega arith), older, none_left))
      ]),
      HasNoMatch-early xs (x ∷ recent) old idle (omega arith),
    )
