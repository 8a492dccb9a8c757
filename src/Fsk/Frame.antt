-- ===== src/Fsk/Frame.antt =====
-- The bits of JNI/Common/FSKdsp.c put together to bytes: the part of `dsp_threads_fn` that runs at
-- a bit time.
use piwxrx.Prelude.{
  ℕ, zero, suc, ◌+◌, ◌*◌, ◌/◌, ◌%◌, ◌^◌, ◌<◌, ◌≡◌, refl, ◌∙◌, ap, Bool, true, false, List, [], ◌∷◌,
  ◌++◌, Option, none, some, bit_and, bit_or, ◌==◌, ◌&&◌, if◌then◌else◌, arith,
}
use piwxrx.Prelude.Table.{passes, passes_from, passes-below}

abbrev pub sync_byte : ℕ
sync_byte = 0xab

-- `bytesync`, `demod_byte` and `bitctr`.
pub record Frame : Type 0 where
  pub bytesync : Bool
  pub demod_byte : ℕ
  pub bitctr : ℕ

-- The new bit comes in at the top.
abbrev pub shift_in : ℕ → ℕ → ℕ
shift_in demod_bit demod_byte = bit_or (demod_byte / 2) (bit_and demod_bit 1 * 2 ^ 7)

abbrev pub frame_byte : Bool → ℕ → ℕ → Option ℕ × Frame
frame_byte false byte bitctr =
    if byte == sync_byte
    then (some byte, record { bytesync = true; demod_byte = byte; bitctr = 0 })
    else (none, record { bytesync = false; demod_byte = byte; bitctr = bitctr })
frame_byte true byte bitctr =
    if bitctr == 7
    then (some byte, record { bytesync = true; demod_byte = byte; bitctr = 0 })
    else (none, record { bytesync = true; demod_byte = byte; bitctr = suc bitctr })

-- The byte handed to `byte_rx_func`, if any.
unfoldable pub frame_bit : ℕ → Frame → Option ℕ × Frame
frame_bit demod_bit f = frame_byte f.bytesync (shift_in demod_bit f.demod_byte) f.bitctr

abbrev pub emit : Option ℕ → List ℕ → List ℕ
emit none bytes = bytes
emit (some byte) bytes = byte ∷ bytes

unfoldable pub frame_bits : List ℕ → Frame → List ℕ × Frame
frame_bits [] f = ([], f)
frame_bits (b ∷ bits) f =
    let (out, f') = frame_bit b f in let (bytes, f'') = frame_bits bits f' in (emit out bytes, f'')

shift_table : passes 256 (λ p. shift_in 0 p == p / 2 && shift_in 1 p == p / 2 + 128) ≡ true
unfolding passes_from
shift_table = refl

pub shift_in_lem : (b p : ℕ) → b < 2 → p < 256 → shift_in b p ≡ p / 2 + b * 128
shift_in_lem zero p hb hp = ground (arith, passes-below 256 _ shift_table hp)
shift_in_lem (suc zero) p hb hp = ground (arith, passes-below 256 _ shift_table hp)
shift_in_lem (suc (suc b)) p hb hp = absurd (omega arith)

-- The bits of a byte as they are sent, the lowest first.
abbrev pub bits_of : ℕ → List ℕ
bits_of x =
    x % 2
    ∷ x / 2 % 2
    ∷ x / 4 % 2
    ∷ x / 8 % 2
    ∷ x / 16 % 2
    ∷ x / 32 % 2
    ∷ x / 64 % 2
    ∷ x / 128 % 2
    ∷ []

abbrev pub send : List ℕ → List ℕ
send [] = []
send (x ∷ xs) = bits_of x ++ send xs

abbrev pub AllBytes : List ℕ → Type 0
AllBytes [] = Unit {0}
AllBytes (x ∷ xs) = (x < 256) × AllBytes xs

-- The shift register with the bit in, as a number.
abbrev shifted : ℕ → ℕ → ℕ
shifted b p = p / 2 + b * 128

frame_more :
    (b p k : ℕ)
    → b < 2
    → p < 256
    → k < 7
    → frame_bit b (record { bytesync = true; demod_byte = p; bitctr = k })
      ≡ (none, record { bytesync = true; demod_byte = shifted b p; bitctr = suc k })
unfolding frame_bit
frame_more b p k hb hp hk =
    let q : (k == 7) ≡ false = ground arith in rw (q, shift_in_lem b p hb hp)

frame_last :
    (b p : ℕ)
    → b < 2
    → p < 256
    → frame_bit b (record { bytesync = true; demod_byte = p; bitctr = 7 })
      ≡ (some (shifted b p), record { bytesync = true; demod_byte = shifted b p; bitctr = 0 })
unfolding frame_bit
frame_last b p hb hp = rw (shift_in_lem b p hb hp)

-- Eight bits make up a byte, the lowest first, whatever the register held.
frame_bits-byte :
    (x p : ℕ) (rest : List ℕ)
    → x < 256
    → p < 256
    → let start : Frame = record { bytesync = true; demod_byte = p; bitctr = 0 } in
      let next : Frame = record { bytesync = true; demod_byte = x; bitctr = 0 } in
      frame_bits (bits_of x ++ rest) start
      ≡ (x ∷ (frame_bits rest next).0, (frame_bits rest next).1)
unfolding frame_bits
frame_bits-byte x p rest hx hp =
    let p1 = shifted (x % 2) p in
    let p2 = shifted (x / 2 % 2) p1 in
    let p3 = shifted (x / 4 % 2) p2 in
    let p4 = shifted (x / 8 % 2) p3 in
    let p5 = shifted (x / 16 % 2) p4 in
    let p6 = shifted (x / 32 % 2) p5 in
    let p7 = shifted (x / 64 % 2) p6 in
    let e : shifted (x / 128 % 2) p7 ≡ x = omega arith in
    rw (
      frame_more (x % 2) p 0 (omega arith) hp (omega arith),
      frame_more (x / 2 % 2) p1 1 (omega arith) (omega arith) (omega arith),
      frame_more (x / 4 % 2) p2 2 (omega arith) (omega arith) (omega arith),
      frame_more (x / 8 % 2) p3 3 (omega arith) (omega arith) (omega arith),
      frame_more (x / 16 % 2) p4 4 (omega arith) (omega arith) (omega arith),
      frame_more (x / 32 % 2) p5 5 (omega arith) (omega arith) (omega arith),
      frame_more (x / 64 % 2) p6 6 (omega arith) (omega arith) (omega arith),
      frame_last (x / 128 % 2) p7 (omega arith) (omega arith),
      e,
    )

-- In byte sync, with no bit counted, the bits of a sequence of bytes come out as these bytes.
pub frame_bits-send :
    (xs : List ℕ) (p : ℕ)
    → AllBytes xs
    → p < 256
    → (frame_bits (send xs) (record { bytesync = true; demod_byte = p; bitctr = 0 })).0 ≡ xs
frame_bits-send [] p all hp = unfold frame_bits in refl
frame_bits-send (x ∷ xs) p all hp =
    ap (λ r. r.0) (frame_bits-byte x p (send xs) all.0 hp)
    ∙ ap (◌∷◌ x) (frame_bits-send xs x all.1 all.0)

-- From no byte sync and an empty register, as sync leaves them, a sync byte and the bytes after it
-- come out: the sync byte first, and no byte before it.
pub frame_bits-sync :
    (xs : List ℕ) (n : ℕ)
    → AllBytes xs
    → (frame_bits
        (send (sync_byte ∷ xs))
        (record { bytesync = false; demod_byte = 0; bitctr = n })).0
      ≡ sync_byte ∷ xs
frame_bits-sync xs n all =
    found ∙ ap (◌∷◌ sync_byte) (frame_bits-send xs sync_byte all (omega arith))
  where
    found :
        (frame_bits
          (send (sync_byte ∷ xs))
          (record { bytesync = false; demod_byte = 0; bitctr = n })).0
        ≡ sync_byte
          ∷ (frame_bits
              (send xs)
              (record { bytesync = true; demod_byte = sync_byte; bitctr = 0 })).0
    found = unfold frame_bits frame_bit in refl
