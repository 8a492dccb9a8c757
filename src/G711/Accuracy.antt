-- ===== src/G711/Accuracy.antt =====
-- Encoding and decoding a sample in JNI/Common/g711.c, segment by segment.
use piwxrx.Prelude.{ℕ, ◌+◌, ◌-◌, ◌*◌, ◌/◌, ◌%◌, ◌^◌, ◌≤◌, ◌<◌, arith}
use piwxrx.Prelude.Int.{pos, neg_ℕ, neg_laws, dist_ℤ}
use piwxrx.G711.{ulaw_code, ulaw_code_in, alaw_code, alaw_code_in}
use piwxrx.G711.{ulaw2linear, alaw2linear}
use piwxrx.G711.Codes.{ulaw2linear-code_pos, ulaw2linear-code_neg}
use piwxrx.G711.Codes.{alaw2linear-code_pos, alaw2linear-code_neg}
use piwxrx.G711.Segments.{segment_rule}

pub ulaw_code_pos :
    (v : ℕ)
    → 132 ≤ v
    → v < 0x8000
    → 32 * dist_ℤ (ulaw2linear (ulaw_code (pos v) 0xff)) (pos (v - 132)) ≤ v
unfolding ulaw_code
ulaw_code_pos v lo hi =
    segment_rule (λ s. 32 * dist_ℤ (ulaw2linear (ulaw_code_in s (pos v) 0xff)) (pos (v - 132)) ≤ v)
      v hi
      (λ a. rw (ulaw2linear-code_pos 0 (v / 2 ^ 3 % 16) (omega arith) (omega arith)) (omega arith))
      (λ a b.
        rw (ulaw2linear-code_pos 1 (v / 2 ^ 4 % 16) (omega arith) (omega arith)) (omega arith))
      (λ a b.
        rw (ulaw2linear-code_pos 2 (v / 2 ^ 5 % 16) (omega arith) (omega arith)) (omega arith))
      (λ a b.
        rw (ulaw2linear-code_pos 3 (v / 2 ^ 6 % 16) (omega arith) (omega arith)) (omega arith))
      (λ a b.
        rw (ulaw2linear-code_pos 4 (v / 2 ^ 7 % 16) (omega arith) (omega arith)) (omega arith))
      (λ a b.
        rw (ulaw2linear-code_pos 5 (v / 2 ^ 8 % 16) (omega arith) (omega arith)) (omega arith))
      (λ a b.
        rw (ulaw2linear-code_pos 6 (v / 2 ^ 9 % 16) (omega arith) (omega arith)) (omega arith))
      (λ a b.
        rw (ulaw2linear-code_pos 7 (v / 2 ^ 10 % 16) (omega arith) (omega arith)) (omega arith))

pub ulaw_code_neg :
    (v : ℕ)
    → 132 ≤ v
    → v < 0x8000
    → 32 * dist_ℤ (ulaw2linear (ulaw_code (pos v) 0x7f)) (neg_ℕ (v - 132)) ≤ v
unfolding ulaw_code
ulaw_code_neg v lo hi =
    segment_rule
      (λ s. 32 * dist_ℤ (ulaw2linear (ulaw_code_in s (pos v) 0x7f)) (neg_ℕ (v - 132)) ≤ v) v hi
      (λ a.
        rw (ulaw2linear-code_neg 0 (v / 2 ^ 3 % 16) (omega arith) (omega arith)) (omega neg_laws))
      (λ a b.
        rw (ulaw2linear-code_neg 1 (v / 2 ^ 4 % 16) (omega arith) (omega arith)) (omega neg_laws))
      (λ a b.
        rw (ulaw2linear-code_neg 2 (v / 2 ^ 5 % 16) (omega arith) (omega arith)) (omega neg_laws))
      (λ a b.
        rw (ulaw2linear-code_neg 3 (v / 2 ^ 6 % 16) (omega arith) (omega arith)) (omega neg_laws))
      (λ a b.
        rw (ulaw2linear-code_neg 4 (v / 2 ^ 7 % 16) (omega arith) (omega arith)) (omega neg_laws))
      (λ a b.
        rw (ulaw2linear-code_neg 5 (v / 2 ^ 8 % 16) (omega arith) (omega arith)) (omega neg_laws))
      (λ a b.
        rw (ulaw2linear-code_neg 6 (v / 2 ^ 9 % 16) (omega arith) (omega arith)) (omega neg_laws))
      (λ a b.
        rw (ulaw2linear-code_neg 7 (v / 2 ^ 10 % 16) (omega arith) (omega arith)) (omega neg_laws))

pub alaw_code_pos :
    (v : ℕ) → v < 0x8000 → 32 * dist_ℤ (alaw2linear (alaw_code (pos v) 0xd5)) (pos v) ≤ v + 256
unfolding alaw_code
alaw_code_pos v hi =
    segment_rule (λ s. 32 * dist_ℤ (alaw2linear (alaw_code_in s (pos v) 0xd5)) (pos v) ≤ v + 256) v
      hi
      (λ a. rw (alaw2linear-code_pos 0 (v / 2 ^ 4 % 16) (omega arith) (omega arith)) (omega arith))
      (λ a b.
        rw (alaw2linear-code_pos 1 (v / 2 ^ 4 % 16) (omega arith) (omega arith)) (omega arith))
      (λ a b.
        rw (alaw2linear-code_pos 2 (v / 2 ^ 5 % 16) (omega arith) (omega arith)) (omega arith))
      (λ a b.
        rw (alaw2linear-code_pos 3 (v / 2 ^ 6 % 16) (omega arith) (omega arith)) (omega arith))
      (λ a b.
        rw (alaw2linear-code_pos 4 (v / 2 ^ 7 % 16) (omega arith) (omega arith)) (omega arith))
      (λ a b.
        rw (alaw2linear-code_pos 5 (v / 2 ^ 8 % 16) (omega arith) (omega arith)) (omega arith))
      (λ a b.
        rw (alaw2linear-code_pos 6 (v / 2 ^ 9 % 16) (omega arith) (omega arith)) (omega arith))
      (λ a b.
        rw (alaw2linear-code_pos 7 (v / 2 ^ 10 % 16) (omega arith) (omega arith)) (omega arith))

pub alaw_code_neg :
    (v : ℕ)
    → v < 0x8000
    → 16 * dist_ℤ (alaw2linear (alaw_code (pos v) 0x55)) (neg_ℕ (v + 8)) ≤ v + 256
unfolding alaw_code
alaw_code_neg v hi =
    segment_rule
      (λ s. 16 * dist_ℤ (alaw2linear (alaw_code_in s (pos v) 0x55)) (neg_ℕ (v + 8)) ≤ v + 256) v hi
      (λ a.
        rw (alaw2linear-code_neg 0 (v / 2 ^ 4 % 16) (omega arith) (omega arith)) (omega neg_laws))
      (λ a b.
        rw (alaw2linear-code_neg 1 (v / 2 ^ 4 % 16) (omega arith) (omega arith)) (omega neg_laws))
      (λ a b.
        rw (alaw2linear-code_neg 2 (v / 2 ^ 5 % 16) (omega arith) (omega arith)) (omega neg_laws))
      (λ a b.
        rw (alaw2linear-code_neg 3 (v / 2 ^ 6 % 16) (omega arith) (omega arith)) (omega neg_laws))
      (λ a b.
        rw (alaw2linear-code_neg 4 (v / 2 ^ 7 % 16) (omega arith) (omega arith)) (omega neg_laws))
      (λ a b.
        rw (alaw2linear-code_neg 5 (v / 2 ^ 8 % 16) (omega arith) (omega arith)) (omega neg_laws))
      (λ a b.
        rw (alaw2linear-code_neg 6 (v / 2 ^ 9 % 16) (omega arith) (omega arith)) (omega neg_laws))
      (λ a b.
        rw (alaw2linear-code_neg 7 (v / 2 ^ 10 % 16) (omega arith) (omega arith)) (omega neg_laws))
