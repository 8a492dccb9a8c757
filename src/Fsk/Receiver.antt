-- ===== src/Fsk/Receiver.antt =====
-- `dsp_threads_fn` of JNI/Common/FSKdsp.c from the demodulated bit on: the search for the sync
-- code, then the bit clock and the bytes. `receive` is both parts of a pass, the test of the sync flag
-- and the branch; Clear has `DSPClearSync` between them.
use piwxrx.Prelude.{
  ℕ, ◌<◌, ◌≡◌, ◌↔◌, ◌⊎◌, inl, inr, refl, sym, ◌∙◌, ap, subst, Bool, true, false, Bool-cases, List,
  [], ◌∷◌, Option, none, some, ◌*◌, get_or, ◌==◌, ==_iff, if◌then◌else◌,
}
use piwxrx.Demod.{n_corr_bits, bit_divisor, sync_bits, sync_correlator}
use piwxrx.Demod.Sync as Sync
use piwxrx.Demod.Sync.{sync_correlator_iff, sync_correlator-IsValid}
use piwxrx.Fsk.Edge.{Edge, edge_detect}
use piwxrx.Fsk.Clock.{Clock, run_bit_clock}
use piwxrx.Fsk.Frame.{Frame, sync_byte, shift_in, frame_byte, frame_bit, emit, frame_bits}

pub record Receiver : Type 0 where
  pub insync : Bool
  pub correlator : List ℕ
  pub edge : Edge
  pub clock : Clock
  pub frame : Frame

unfoldable pub dsp_clear_sync : Receiver → Receiver
dsp_clear_sync r = record r { insync = false }

-- The branch out of sync.
unfoldable pub seek : ℕ → Receiver → Option ℕ × Receiver
seek demod_bit r =
    let (found, correlator) = sync_correlator demod_bit r.correlator in
    if found
    then (
      none,
      record {
        insync = true;
        correlator = correlator;
        edge = (edge_detect demod_bit true r.edge).1;
        clock = (run_bit_clock true r.clock).1;
        frame = record { bytesync = false; demod_byte = 0; bitctr = 0 };
      },
    )
    else (
      none,
      record r {
        insync = false;
        correlator = correlator;
        frame = record r.frame { bytesync = false };
      },
    )

-- The branch in sync.
unfoldable pub gather : ℕ → Receiver → Option ℕ × Receiver
gather demod_bit r =
    let (found, edge) = edge_detect demod_bit false r.edge in
    let (bit_time, clock) = run_bit_clock found r.clock in
    let (out, frame) = frame_bit demod_bit r.frame in
    if bit_time
    then (out, record r { edge = edge; clock = clock; frame = frame })
    else (none, record r { edge = edge; clock = clock })

unfoldable pub receive : ℕ → Receiver → Option ℕ × Receiver
receive demod_bit r = if r.insync then gather demod_bit r else seek demod_bit r

-- The bytes received from a sequence of demodulated samples.
unfoldable pub receive_all : List ℕ → Receiver → List ℕ
receive_all [] r = []
receive_all (b ∷ bits) r = let (out, r') = receive b r in emit out (receive_all bits r')

-- The samples that the bit clock picks.
unfoldable pub picked : List ℕ → Edge → Clock → List ℕ
picked [] edge clock = []
picked (b ∷ bits) edge clock =
    let (found, edge') = edge_detect b false edge in
    let (bit_time, clock') = run_bit_clock found clock in
    let rest = picked bits edge' clock' in if bit_time then b ∷ rest else rest

pub receive-gather : (b : ℕ) (r : Receiver) → r.insync ≡ true → receive b r ≡ gather b r
unfolding receive
receive-gather b r h = ap (λ t. if t then gather b r else seek b r) h

pub receive-seek : (b : ℕ) (r : Receiver) → r.insync ≡ false → receive b r ≡ seek b r
unfolding receive
receive-seek b r h = ap (λ t. if t then gather b r else seek b r) h

module _ (b : ℕ) (r : Receiver) where
  abbrev pub next_edge : Bool × Edge
  next_edge = edge_detect b false r.edge

  abbrev pub next_clock : Bool × Clock
  next_clock = run_bit_clock next_edge.0 r.clock

  pub gather-tick :
      next_clock.0 ≡ true
      → gather b r ≡ (
        (frame_bit b r.frame).0,
        record r { edge = next_edge.1; clock = next_clock.1; frame = (frame_bit b r.frame).1 },
      )
  unfolding gather
  gather-tick t = rw t

  pub gather-wait :
      next_clock.0 ≡ false
      → gather b r ≡ (none, record r { edge = next_edge.1; clock = next_clock.1 })
  unfolding gather
  gather-wait t = rw t

-- In sync the bytes delivered are those that the framing makes of the samples that the bit clock
-- picks, one sample at each bit time.
pub receive_all-insync :
    (bits : List ℕ) (r : Receiver)
    → r.insync ≡ true
    → receive_all bits r ≡ (frame_bits (picked bits r.edge r.clock) r.frame).0
unfolding receive_all picked frame_bits
receive_all-insync [] r h = refl
receive_all-insync (b ∷ bits) r h = elim (Bool-cases (next_clock b r).0) [
  | inl t ↦
      let r' : Receiver = record r {
        edge = (next_edge b r).1;
        clock = (next_clock b r).1;
        frame = (frame_bit b r.frame).1;
      } in
      rw (receive-gather b r h, gather-tick b r t, t)
        (ap (emit (frame_bit b r.frame).0) (receive_all-insync bits r' h))
  | inr t ↦
      let r' : Receiver = record r { edge = (next_edge b r).1; clock = (next_clock b r).1 } in
      rw (receive-gather b r h, gather-wait b r t, t) (receive_all-insync bits r' h)
]

-- Out of sync nothing is delivered and the byte sync is dropped; sync is gained exactly when the
-- last 16 bit times show the sync code.
pub seek_lem :
    {hist : List ℕ} (b : ℕ) (r : Receiver)
    → r.insync ≡ false
    → Sync.IsValid r.correlator hist
    → ((receive b r).0 ≡ none)
      × ((receive b r).1.frame.bytesync ≡ false)
      × (((receive b r).1.insync ≡ true) ↔ (
          (k : ℕ) → k < n_corr_bits → get_or (b ∷ hist) (k * bit_divisor) 0 ≡ get_or sync_bits k 0))
      × Sync.IsValid (receive b r).1.correlator (b ∷ hist)
unfolding seek
seek_lem b r h v =
    let iff = sync_correlator_iff b v in
    let v' = sync_correlator-IsValid b v in
    elim (Bool-cases (sync_correlator b r.correlator).0) [
      | inl e ↦ rw (receive-seek b r h, e) (refl, refl, ((λ t. iff.0 e), (λ m. refl)), v')
      | inr e ↦ rw (receive-seek b r h, e) (refl, refl, ((λ t. cc), (λ m. sym e ∙ iff.1 m)), v')
    ]

-- Out of sync or out of byte sync.
abbrev pub IsHunting : Receiver → Type 0
IsHunting r = (r.insync ≡ false) ⊎ (r.frame.bytesync ≡ false)

abbrev pub StartsWithSync : List ℕ → Type 0
StartsWithSync [] = Unit {0}
StartsWithSync (x ∷ xs) = x ≡ sync_byte

-- A step that delivers nothing and goes on hunting, or delivers the sync byte.
abbrev pub Hunts : Option ℕ × Receiver → Type 0
Hunts result = ((result.0 ≡ none) × IsHunting result.1) ⊎ (result.0 ≡ some sync_byte)

frame_byte-hunts :
    (byte n : ℕ)
    → (((frame_byte false byte n).0 ≡ none) × ((frame_byte false byte n).1.bytesync ≡ false))
      ⊎ ((frame_byte false byte n).0 ≡ some sync_byte)
frame_byte-hunts byte n = elim (Bool-cases (byte == sync_byte)) [
  | inl e ↦ inr (rw e (ap some ((==_iff byte sync_byte).0 e)))
  | inr e ↦ inl (rw e (refl, refl))
]

frame_bit-hunts :
    (b : ℕ) (f : Frame)
    → f.bytesync ≡ false
    → (((frame_bit b f).0 ≡ none) × ((frame_bit b f).1.bytesync ≡ false))
      ⊎ ((frame_bit b f).0 ≡ some sync_byte)
unfolding frame_bit
frame_bit-hunts b f h =
    subst
      (λ t.
        (((frame_byte t (shift_in b f.demod_byte) f.bitctr).0 ≡ none)
          × ((frame_byte t (shift_in b f.demod_byte) f.bitctr).1.bytesync ≡ false))
        ⊎ ((frame_byte t (shift_in b f.demod_byte) f.bitctr).0 ≡ some sync_byte))
      (sym h) (frame_byte-hunts (shift_in b f.demod_byte) f.bitctr)

pub seek-Hunts : (b : ℕ) (r : Receiver) → Hunts (seek b r)
unfolding seek
seek-Hunts b r = elim (Bool-cases (sync_correlator b r.correlator).0) [
  | inl e ↦ rw e (inl (refl, inr refl))
  | inr e ↦ rw e (inl (refl, inl refl))
]

pub gather-Hunts : (b : ℕ) (r : Receiver) → r.frame.bytesync ≡ false → Hunts (gather b r)
gather-Hunts b r h = elim (Bool-cases (next_clock b r).0) [
  | inl t ↦ rw (gather-tick b r t) (elim (frame_bit-hunts b r.frame h) [
    | inl quiet ↦ inl (quiet.0, inr quiet.1)
    | inr found ↦ inr found
  ])
  | inr t ↦ rw (gather-wait b r t) (inl (refl, inr h))
]
