-- ===== src/Udp/Header.antt =====
-- The header of an RTP packet in JNI/Common/udp.c as a record, and its bytes.
use piwxrx.Prelude.{
  ℕ, ◌+◌, ◌*◌, ◌/◌, ◌%◌, ◌^◌, ◌<◌, ◌≡◌, refl, ◌∙◌, ap, bit_and, bit_or, true, List, [], ◌∷◌, some,
  set, drop, ==_iff, ◌==◌, arith,
}
use piwxrx.Prelude.Int.{pos}
use piwxrx.Prelude.Table.{passes, passes_from, passes-below}
use piwxrx.Prelude.Word.{int16, ashr, low_bits, add32}
use piwxrx.Udp.{Udp, mark, next_header, load_header, overwrite}

-- The two first bytes, the second with the mark in its high bit; the number of the packet; the
-- time stamp; the four bytes of the source's name.
pub record Header : Type 0 where
  pub first : ℕ
  pub second : ℕ
  pub sequence : ℕ
  pub timestamp : ℕ
  pub source : ℕ × ℕ × ℕ × ℕ

pub record IsValid (h : Header) : Type 0 where
  pub second_in : h.second < 2 ^ 8
  pub sequence_in : h.sequence < 2 ^ 16
  pub timestamp_in : h.timestamp < 2 ^ 32

-- The bytes on the wire, the high byte of a number first, before others.
abbrev pub with_header : Header → List ℕ → List ℕ
with_header h rest =
    h.first
    ∷ h.second
    ∷ h.sequence / 2 ^ 8
    ∷ h.sequence % 2 ^ 8
    ∷ h.timestamp / 2 ^ 24
    ∷ h.timestamp / 2 ^ 16 % 2 ^ 8
    ∷ h.timestamp / 2 ^ 8 % 2 ^ 8
    ∷ h.timestamp % 2 ^ 8
    ∷ h.source.0
    ∷ h.source.1
    ∷ h.source.2
    ∷ h.source.3
    ∷ rest

-- The header of the packet that follows one with `n` bytes: the mark is cleared.
abbrev pub following : ℕ → Header → Header
following n h = record h {
  second = h.second % 2 ^ 7;
  sequence = (h.sequence + 1) % 2 ^ 16;
  timestamp = (h.timestamp + n) % 2 ^ 32;
}

pub following-IsValid : (n : ℕ) {h : Header} → IsValid h → IsValid (following n h)
following-IsValid n {h} v = record {
  second_in = omega arith;
  sequence_in = omega arith;
  timestamp_in = omega arith;
}

unmark_table : passes 256 (λ b. bit_and b 0x7f == b % 2 ^ 7) ≡ true
unfolding passes_from
unmark_table = refl

unmark : (b : ℕ) → b < 2 ^ 8 → bit_and b 0x7f ≡ b % 2 ^ 7
unmark b h = (==_iff _ _).0 (passes-below 256 _ unmark_table h)

next_sequence :
    (s : ℕ) → s < 2 ^ 16 → int16 (add32 (int16 (pos s)) (pos 1)) ≡ int16 (pos ((s + 1) % 2 ^ 16))
unfolding int16 add32
next_sequence s h = ground arith

high_byte : (s : ℕ) → s < 2 ^ 16 → low_bits 8 (ashr (int16 (pos s)) 8) ≡ s / 2 ^ 8
unfolding int16
high_byte s h = ground arith

low_byte : (s : ℕ) → low_bits 8 (int16 (pos s)) ≡ s % 2 ^ 8
unfolding int16
low_byte s = ground arith

-- The globals agree with a header.
pub record Agrees (u : Udp) (h : Header) : Type 0 where
  pub sequence : u.sequence ≡ int16 (pos h.sequence)
  pub timestamp : u.timestamp ≡ h.timestamp

pub next_header_lem :
    (n : ℕ) (rest : List ℕ) (u : Udp) {h : Header}
    → IsValid h
    → Agrees u h
    → ((next_header n (with_header h rest) u).buffer ≡ some (with_header (following n h) rest))
      × Agrees (next_header n (with_header h rest) u) (following n h)
unfolding next_header
next_header_lem n rest u {h} v a =
    let moved : int16 (add32 u.sequence (pos 1)) ≡ int16 (pos ((h.sequence + 1) % 2 ^ 16)) =
      ap (λ s. int16 (add32 s (pos 1))) a.sequence ∙ next_sequence h.sequence v.sequence_in in
    let s' = (h.sequence + 1) % 2 ^ 16 in
    let bytes : set
          (set (set (with_header h rest) 1 (bit_and h.second 0x7f)) 2
            (low_bits 8 (ashr (int16 (add32 u.sequence (pos 1))) 8)))
          3 (low_bits 8 (int16 (add32 u.sequence (pos 1))))
        ≡ set (set (set (with_header h rest) 1 (h.second % 2 ^ 7)) 2 (s' / 2 ^ 8)) 3 (s' % 2 ^ 8) =
      rw (moved, unmark h.second v.second_in, high_byte s' (omega arith), low_byte s') refl in
    let top : (h.timestamp + n) % 2 ^ 32 / 2 ^ 24 % 2 ^ 8 ≡ (h.timestamp + n) % 2 ^ 32 / 2 ^ 24 =
      omega arith in
    (
      ap some (
          ap
            (λ b.
              set
                (set
                  (set (set b 4 ((u.timestamp + n) % 2 ^ 32 / 2 ^ 24 % 2 ^ 8)) 5
                    ((u.timestamp + n) % 2 ^ 32 / 2 ^ 16 % 2 ^ 8))
                  6 ((u.timestamp + n) % 2 ^ 32 / 2 ^ 8 % 2 ^ 8))
                7 ((u.timestamp + n) % 2 ^ 32 % 2 ^ 8))
            bytes
          ∙ rw (a.timestamp, top) refl),
      record { sequence = moved; timestamp = ap (λ t. (t + n) % 2 ^ 32) a.timestamp },
    )

mark_table : passes 256 (λ b. bit_or b mark == b % 2 ^ 7 + 2 ^ 7) ≡ true
unfolding passes_from
mark_table = refl

-- A header with its mark set.
abbrev pub marked : Header → Header
marked h = record h { second = h.second % 2 ^ 7 + 2 ^ 7 }

pub marked-IsValid : {h : Header} → IsValid h → IsValid (marked h)
marked-IsValid {h} v = record {
  second_in = omega arith;
  sequence_in = v.sequence_in;
  timestamp_in = v.timestamp_in;
}

-- The header loaded into a block has its mark set, and the globals agree with it.
pub load_header_lem :
    (h : Header) (block : List ℕ) (u : Udp)
    → IsValid h
    → ((load_header (with_header h []) block u).buffer
        ≡ some (with_header (marked h) (drop 12 block)))
      × Agrees (load_header (with_header h []) block u) (marked h)
unfolding load_header overwrite
load_header_lem h block u v =
    let set_mark : bit_or h.second mark ≡ h.second % 2 ^ 7 + 2 ^ 7 =
      (==_iff _ _).0 (passes-below 256 _ mark_table v.second_in) in
    let number : h.sequence / 2 ^ 8 % 2 ^ 8 * 2 ^ 8 + h.sequence % 2 ^ 8 % 2 ^ 8 ≡ h.sequence =
      omega (arith, v.sequence_in) in
    let stamp : h.timestamp / 2 ^ 24 % 2 ^ 8 * 2 ^ 24
          + h.timestamp / 2 ^ 16 % 2 ^ 8 % 2 ^ 8 * 2 ^ 16
          + h.timestamp / 2 ^ 8 % 2 ^ 8 % 2 ^ 8 * 2 ^ 8
          + h.timestamp % 2 ^ 8 % 2 ^ 8
        ≡ h.timestamp =
      omega (arith, v.timestamp_in) in
    (
      ap (λ b. some (with_header (record h { second = b }) (drop 12 block))) set_mark,
      record { sequence = ap (λ s. int16 (pos s)) number; timestamp = stamp },
    )
