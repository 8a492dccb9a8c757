-- ===== src/Codecs/Deemph.antt =====
-- `deemph` of JNI/Common/codecs.c and the range of its state.
use piwxrx.Prelude.{ℕ, ◌+◌, ◌*◌, ◌≤◌, ◌≡◌, arith}
use piwxrx.Prelude.Int.{ℤ, pos, negsuc, abs, abs-*ℤ, abs-+ℤ, ◌+ℤ◌, ◌*ℤ◌}
use piwxrx.Prelude.Word.{int16_id, ashr, add32_exact, mul32_exact}
use piwxrx.Codecs.{deemph}

-- The largest input, and the state that it leads to.
abbrev pub max_input : ℕ
max_input = 10000

abbrev pub max_state : ℕ
max_state = 47640

-- The state after an input, and the output of a state.
abbrev pub leaked : ℤ → ℤ → ℤ
leaked input state = input +ℤ ashr (state *ℤ pos 25889) 15

abbrev pub output : ℤ → ℤ
output state = ashr (state *ℤ pos 6878) 14 +ℤ ashr (state *ℤ pos 6878) 15

scaled : (x : ℤ) (c m : ℕ) → abs x ≤ m → abs (x *ℤ pos c) ≤ m * c
scaled x c m h = rw (abs-*ℤ x (pos c)) (grow (abs x) h)
  where
    grow : (n : ℕ) → n ≤ m → n * (c + 0) ≤ m * c
    grow n hn = grind arith

leak_level : (x : ℤ) → abs x ≤ max_state * 25889 → abs (ashr x 15) ≤ 37640
leak_level (pos n) h = omega arith
leak_level (negsuc n) h = omega arith

high_level : (x : ℤ) → abs x ≤ max_state * 6878 → abs (ashr x 14) ≤ 20000
high_level (pos n) h = omega arith
high_level (negsuc n) h = omega arith

low_level : (x : ℤ) → abs x ≤ max_state * 6878 → abs (ashr x 15) ≤ 10000
low_level (pos n) h = omega arith
low_level (negsuc n) h = omega arith

-- For inputs within 10000 the state stays within 47640, and the filter computes its new state
-- and its output, which is within 30000, in exact integers.
pub deemph_lem :
    (input state : ℤ)
    → abs input ≤ max_input
    → abs state ≤ max_state
    → (deemph input state ≡ (output (leaked input state), leaked input state))
      × (abs (leaked input state) ≤ max_state)
      × (abs (output (leaked input state)) ≤ 30000)
unfolding deemph
deemph_lem input state hi hs =
    let grown = scaled state 25889 max_state hs in
    let leak = leak_level (state *ℤ pos 25889) grown in
    let sum = abs-+ℤ input (ashr (state *ℤ pos 25889) 15) in
    let new = leaked input state in
    let in_range : abs new ≤ max_state = omega arith in
    let gained = scaled new 6878 max_state in_range in
    let high = high_level (new *ℤ pos 6878) gained in
    let low = low_level (new *ℤ pos 6878) gained in
    let sum_out = abs-+ℤ (ashr (new *ℤ pos 6878) 14) (ashr (new *ℤ pos 6878) 15) in
    (
      rw (
        mul32_exact state (pos 25889) (omega arith),
        add32_exact input (ashr (state *ℤ pos 25889) 15) (omega arith),
        mul32_exact new (pos 6878) (omega arith),
        add32_exact (ashr (new *ℤ pos 6878) 14) (ashr (new *ℤ pos 6878) 15) (omega arith),
        int16_id (output new) (omega arith),
      ),
      in_range,
      omega arith,
    )
