-- ===== src/Fsk/Edge.antt =====
-- `EdgeDetect` of JNI/Common/FSKdsp.c, and what it counts.
use native.Mathlib.Nat.{add-zero}
use piwxrx.Prelude.{
  ℕ, suc, ◌+◌, ◌<◌, ◌≡◌, ◌≢◌, Bool, true, false, List, [], ◌∷◌, ◌==◌, if◌then◌else◌, arith, ==_iff,
  length, replicate, ℕ_discrete, sym, ap,
}

abbrev pub xing_max : ℕ
xing_max = 3

-- The globals `current_sense` and `xingcnt`.
pub record Edge : Type 0 where
  pub current_sense : ℕ
  pub xingcnt : ℕ

unfoldable pub edge_detect : ℕ → Bool → Edge → Bool × Edge
edge_detect demod_out true e = (false, record { current_sense = demod_out; xingcnt = 0 })
edge_detect demod_out false e =
    if demod_out == e.current_sense
    then (false, e)
    else if suc e.xingcnt == xing_max
    then (true, record { current_sense = demod_out; xingcnt = 0 })
    else (false, record e { xingcnt = suc e.xingcnt })

pub same_sense : (x : ℕ) (e : Edge) → x ≡ e.current_sense → edge_detect x false e ≡ (false, e)
unfolding edge_detect
same_sense x e h = rw ((==_iff x e.current_sense).1 h)

pub other_sense :
    (x : ℕ) (e : Edge)
    → x ≢ e.current_sense
    → suc e.xingcnt < xing_max
    → edge_detect x false e ≡ (false, record e { xingcnt = suc e.xingcnt })
unfolding edge_detect
other_sense x e ne h =
    let p : (x == e.current_sense) ≡ false = ground arith in
    let q : (suc e.xingcnt == xing_max) ≡ false = ground arith in rw (p, q)

pub third_sense :
    (x : ℕ) (e : Edge)
    → x ≢ e.current_sense
    → suc e.xingcnt ≡ xing_max
    → edge_detect x false e ≡ (true, record { current_sense = x; xingcnt = 0 })
unfolding edge_detect
third_sense x e ne h =
    let p : (x == e.current_sense) ≡ false = ground arith in
    rw (p, (==_iff (suc e.xingcnt) xing_max).1 h)

-- A sequence of samples: whether each reports an edge, and the state after them.
unfoldable pub watch : List ℕ → Edge → List Bool × Edge
watch [] e = ([], e)
watch (x ∷ xs) e =
    let (found, e') = edge_detect x false e in let (rest, e'') = watch xs e' in (found ∷ rest, e'')

-- How many samples differ from a value.
abbrev pub differing : ℕ → List ℕ → ℕ
differing s [] = 0
differing s (x ∷ xs) = let n = differing s xs in if x == s then n else suc n

-- Samples that agree with the sense are passed over, and those that differ are counted.
pub watch-below :
    (xs : List ℕ) (e : Edge)
    → e.xingcnt + differing e.current_sense xs < xing_max
    → watch xs e ≡ (
      replicate (length xs) false,
      record e { xingcnt = e.xingcnt + differing e.current_sense xs },
    )
unfolding watch
watch-below [] e h = ap (λ n. ([], record e { xingcnt = n })) (sym (add-zero e.xingcnt))
watch-below (x ∷ xs) e h = elim (ℕ_discrete x e.current_sense) [
  | yes p ↦ rw (same_sense x e p) (ground (arith, watch-below xs e))
  | no p ↦
      rw (other_sense x e p (ground arith))
        (ground (arith, watch-below xs (record e { xingcnt = suc e.xingcnt })))
]

-- An edge is reported at the third sample that differs from the sense since the last edge, and not
-- before: the samples that agree, wherever they stand between those three, do not reset the count.
-- The sense is then the new sample's and the count starts again.
pub watch_third :
    (xs : List ℕ) (x : ℕ) (e : Edge)
    → e.xingcnt + differing e.current_sense xs ≡ 2
    → x ≢ e.current_sense
    → ((watch xs e).0 ≡ replicate (length xs) false)
      × (edge_detect x false (watch xs e).1 ≡ (true, record { current_sense = x; xingcnt = 0 }))
watch_third xs x e h ne =
    let passed = watch-below xs e (omega arith) in
    (
      ap (λ r. r.0) passed,
      rw passed (
          third_sense x (record e { xingcnt = e.xingcnt + differing e.current_sense xs }) ne
            (omega arith)),
    )
