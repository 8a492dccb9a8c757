-- ===== src/Prelude/Word.antt =====
-- The fixed-width signed types of C as integers: casts, shifts, masks and division.
-- A signed overflow of `int` is written out as the wrap-around that the compiled code has.
use piwxrx.Prelude.{
  ℕ, List, [], ◌∷◌, ◌+◌, ◌-◌, ◌/◌, ◌%◌, ◌^◌, ◌≤◌, ◌<◌, ◌≡◌, arith, leb, if◌then◌else◌,
}
use piwxrx.Prelude.Int.{ℤ, pos, negsuc, pos_part, neg_part, abs, sub_ℕ, ◌+ℤ◌, ◌-ℤ◌, ◌*ℤ◌}

-- x & (2 ^ k - 1), for a two's-complement x.
abbrev pub low_bits : ℕ → ℤ → ℕ
low_bits k (pos n) = n % 2 ^ k
low_bits k (negsuc n) = 2 ^ k - 1 - n % 2 ^ k

-- The integer that a 16-bit or a 32-bit pattern stands for.
abbrev pub signed16 : ℕ → ℤ
signed16 w = if leb (2 ^ 15) w then negsuc (2 ^ 16 - 1 - w) else pos w

abbrev pub signed32 : ℕ → ℤ
signed32 w = if leb (2 ^ 31) w then negsuc (2 ^ 32 - 1 - w) else pos w

abbrev pub signed64 : ℕ → ℤ
signed64 w = if leb (2 ^ 63) w then negsuc (2 ^ 64 - 1 - w) else pos w

-- The casts (int16_t)x, (int)x and (long)x.
unfoldable pub int16 : ℤ → ℤ
int16 x = signed16 (low_bits 16 x)

unfoldable pub int32 : ℤ → ℤ
int32 x = signed32 (low_bits 32 x)

unfoldable pub int64 : ℤ → ℤ
int64 x = signed64 (low_bits 64 x)

-- x >> k on a signed x: the sign is kept.
abbrev pub ashr : ℤ → ℕ → ℤ
ashr (pos n) k = pos (n / 2 ^ k)
ashr (negsuc n) k = negsuc (n / 2 ^ k)

-- x << k on an `int`.
unfoldable pub shl : ℤ → ℕ → ℤ
unfolding int32 ◌*ℤ◌
shl x k = int32 (x *ℤ pos (2 ^ k))

-- x / d rounds towards 0.
abbrev pub quot : ℤ → ℕ → ℤ
quot (pos n) d = pos (n / d)
quot (negsuc n) d = sub_ℕ 0 ((n + 1) / d)

-- The arithmetic of `int`.
unfoldable pub add32 : ℤ → ℤ → ℤ
unfolding int32 ◌+ℤ◌
add32 a b = int32 (a +ℤ b)

unfoldable pub sub32 : ℤ → ℤ → ℤ
unfolding int32 ◌-ℤ◌
sub32 a b = int32 (a -ℤ b)

unfoldable pub mul32 : ℤ → ℤ → ℤ
unfolding int32 ◌*ℤ◌
mul32 a b = int32 (a *ℤ b)

-- The sum of two values of type `long`.
unfoldable pub add64 : ℤ → ℤ → ℤ
unfolding int64 ◌+ℤ◌
add64 a b = int64 (a +ℤ b)

unfoldable pub sub64 : ℤ → ℤ → ℤ
unfolding int64 ◌-ℤ◌
sub64 a b = int64 (a -ℤ b)

unfoldable pub mul64 : ℤ → ℤ → ℤ
unfolding int64 ◌*ℤ◌
mul64 a b = int64 (a *ℤ b)

-- The ranges of int16_t and of int.
abbrev pub IsInt16 : ℤ → Type 0
IsInt16 x = (neg_part x ≤ 2 ^ 15) × (pos_part x < 2 ^ 15)

abbrev pub IsInt32 : ℤ → Type 0
IsInt32 x = (neg_part x ≤ 2 ^ 31) × (pos_part x < 2 ^ 31)

pub int16_id : (x : ℤ) → IsInt16 x → int16 x ≡ x
unfolding int16
int16_id x h = ground arith

pub int32_id : (x : ℤ) → IsInt32 x → int32 x ≡ x
unfolding int32
int32_id x h = ground arith

pub int16-IsInt16 : (x : ℤ) → IsInt16 (int16 x)
unfolding int16
int16-IsInt16 x = ground arith

pub int32-IsInt32 : (x : ℤ) → IsInt32 (int32 x)
unfolding int32
int32-IsInt32 x = ground arith

-- Where the true value fits, `int` arithmetic gives it.
pub add32_exact : (a b : ℤ) → IsInt32 (a +ℤ b) → add32 a b ≡ a +ℤ b
add32_exact a b h = unfold add32 in int32_id (a +ℤ b) h

pub sub32_exact : (a b : ℤ) → IsInt32 (a -ℤ b) → sub32 a b ≡ a -ℤ b
sub32_exact a b h = unfold sub32 in int32_id (a -ℤ b) h

pub mul32_exact : (a b : ℤ) → IsInt32 (a *ℤ b) → mul32 a b ≡ a *ℤ b
mul32_exact a b h = unfold mul32 in int32_id (a *ℤ b) h

abbrev pub IsInt64 : ℤ → Type 0
IsInt64 x = (neg_part x ≤ 2 ^ 63) × (pos_part x < 2 ^ 63)

pub int64_id : (x : ℤ) → IsInt64 x → int64 x ≡ x
unfolding int64
int64_id x h = ground arith

pub add64_exact : (a b : ℤ) → IsInt64 (a +ℤ b) → add64 a b ≡ a +ℤ b
add64_exact a b h = unfold add64 in int64_id (a +ℤ b) h

pub sub64_exact : (a b : ℤ) → IsInt64 (a -ℤ b) → sub64 a b ≡ a -ℤ b
sub64_exact a b h = unfold sub64 in int64_id (a -ℤ b) h

pub abs_int16 : (x : ℤ) → IsInt16 x → abs x ≤ 2 ^ 15
abs_int16 (pos n) h = omega arith
abs_int16 (negsuc n) h = omega arith

pub mul64_exact : (a b : ℤ) → IsInt64 (a *ℤ b) → mul64 a b ≡ a *ℤ b
mul64_exact a b h = unfold mul64 in int64_id (a *ℤ b) h

-- Every sample is a 16-bit value.
abbrev pub AllInt16 : List ℤ → Type 0
AllInt16 [] = Unit {0}
AllInt16 (x ∷ xs) = IsInt16 x × AllInt16 xs
