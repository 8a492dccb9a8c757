-- ===== src/Fsk/Signal.antt =====
-- An ideal signal for JNI/Common/FSKdsp.c: each bit lasts 23 or 24 of the demodulated samples.
use native.Mathlib.Nat.{zero-add, suc-add}
use mathlib.Core.List.{append_assoc}
use piwxrx.Prelude.{
  ℕ, zero, suc, ◌+◌, ◌*◌, ◌≤◌, ◌≡◌, refl, ◌∙◌, sym, ap, Bool, true, false, List, [], ◌∷◌, ◌++◌,
  length, length-append, length-replicate, replicate, if◌then◌else◌, arith,
}

pub replicate-add : (b m n : ℕ) → replicate (m + n) b ≡ replicate m b ++ replicate n b
replicate-add b zero n = rw (zero-add n)
replicate-add b (suc m) n = rw (suc-add m n) (ap (λ l. b ∷ l) (replicate-add b m n))

-- How long a bit lasts, by whether it is a long one.
abbrev pub cell : Bool → ℕ
cell long = if long then 24 else 23

pub cell_between : (long : Bool) → (23 ≤ cell long) × (cell long ≤ 24)
cell_between true = (omega arith, omega arith)
cell_between false = (omega arith, omega arith)

-- The samples of a sequence of bits, with the long ones given by their places.
abbrev pub signal : List ℕ → (ℕ → Bool) → List ℕ
signal [] long = []
signal (b ∷ bits) long = replicate (cell (long 0)) b ++ signal bits (λ i. long (suc i))

-- The places from `n` on.
abbrev pub later : ℕ → (ℕ → Bool) → ℕ → Bool
later zero long = long
later (suc n) long = later n (λ i. long (suc i))

pub signal-append :
    (xs ys : List ℕ) (long : ℕ → Bool)
    → signal (xs ++ ys) long ≡ signal xs long ++ signal ys (later (length xs) long)
signal-append [] ys long = refl
signal-append (x ∷ xs) ys long =
    ap (λ r. replicate (cell (long 0)) x ++ r) (signal-append xs ys (λ i. long (suc i)))
    ∙ sym (append_assoc (replicate (cell (long 0)) x) _ _)

pub length-signal : (bits : List ℕ) (long : ℕ → Bool) → length (signal bits long) ≤ 24 * length bits
length-signal [] long = omega arith
length-signal (b ∷ bits) long =
    let h = cell (long 0) in
    omega (
      arith,
      length-append (replicate h b) (signal bits (λ i. long (suc i))),
      length-replicate h b,
      cell_between (long 0),
      length-signal bits (λ i. long (suc i)),
    )
