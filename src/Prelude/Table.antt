-- ===== src/Prelude/Table.antt =====
-- Facts about bytes by evaluation at every value.
use piwxrx.Prelude.{ℕ, zero, suc, ◌+◌, ◌≤◌, ◌<◌, ◌≡◌, Bool, true, false, if◌then◌else◌, arith}

-- The count runs upwards from `i` for `n` values.
unfoldable pub passes_from : (ℕ → Bool) → ℕ → ℕ → Bool
passes_from test i zero = true
passes_from test i (suc n) = let rest = passes_from test (suc i) n in if test i then rest else false

abbrev pub passes : ℕ → (ℕ → Bool) → Bool
passes n test = passes_from test 0 n

passes_from-within :
    (test : ℕ → Bool) (i n : ℕ) {x : ℕ}
    → passes_from test i n ≡ true
    → i ≤ x
    → x < i + n
    → test x ≡ true
unfolding passes_from
passes_from-within test i zero h low high = absurd (omega arith)
passes_from-within test i (suc n) {x} h low high =
    let later = passes_from-within test (suc i) n {x = x} in ground (arith, later)

-- A test that passes a count is true of every number below it.
pub passes-below :
    (n : ℕ) (test : ℕ → Bool) → passes n test ≡ true → {x : ℕ} → x < n → test x ≡ true
passes-below n test h {x} lt = passes_from-within test 0 n h (omega arith) (omega arith)
