-- ===== src/G711.antt =====
-- JNI/Common/g711.c: conversions between 16-bit linear samples, A-law and u-law codes. A code is
-- a number below 256. The segment ends and the conversion tables are those of the file.
pub mod Tables
pub mod Codes
pub mod Segments
pub mod RoundTrip
pub mod Accuracy
pub mod Error
pub mod Transcode
mod Tests
use Tables.{seg_end, ulaw_to_alaw, alaw_to_ulaw}
use piwxrx.Prelude.{
  ℕ, ◌+◌, ◌-◌, ◌*◌, ◌/◌, ◌%◌, ◌^◌, bit_and, bit_or, bit_xor, List, [], ◌∷◌, ltb, leb, ◌==◌,
  if◌then◌else◌, get_or,
}
use piwxrx.Prelude.Int.{ℤ, pos, negsuc, ◌-ℤ◌, ltb_ℤ, leb_ℤ, neg_ℕ}
use piwxrx.Prelude.Word.{ashr, low_bits, add32, sub32}

abbrev pub bias : ℕ
bias = 0x84

abbrev pub sign_bit : ℕ
sign_bit = 0x80

abbrev pub quant_mask : ℕ
quant_mask = 0xf

abbrev pub seg_mask : ℕ
seg_mask = 0x70

-- `search` from index `i`; the table's size is the length of the list.
abbrev pub search_from : ℕ → ℤ → List ℕ → ℕ
search_from i val [] = i
search_from i val (t ∷ table) =
    let rest = search_from (i + 1) val table in if leb_ℤ val (pos t) then i else rest

unfoldable pub segment_of : ℤ → ℕ
segment_of val = search_from 0 val seg_end

-- The code of a segment and a quantisation field, under the mask of its sign.
abbrev pub code : ℕ → ℕ → ℕ → ℕ
code seg quant mask = bit_xor (bit_or (seg * 2 ^ 4) quant) mask

-- The code of a scaled magnitude in a segment. An A-law sample from -7 to -1 has a negative one.
abbrev pub alaw_code_in : ℕ → ℤ → ℕ → ℕ
alaw_code_in seg val mask =
    if leb 8 seg
    then bit_xor 0x7f mask
    else code seg (low_bits 4 (if ltb seg 2 then ashr val 4 else ashr val (seg + 3))) mask

unfoldable pub alaw_code : ℤ → ℕ → ℕ
unfolding segment_of
alaw_code val mask = alaw_code_in (segment_of val) val mask

unfoldable pub linear2alaw : ℤ → ℕ
linear2alaw pcm_val =
    if leb_ℤ (pos 0) pcm_val
    then alaw_code pcm_val 0xd5
    else alaw_code (pos 0 -ℤ pcm_val -ℤ pos 8) 0x55

abbrev pub ulaw_code_in : ℕ → ℤ → ℕ → ℕ
ulaw_code_in seg val mask =
    if leb 8 seg then bit_xor 0x7f mask else code seg (low_bits 4 (ashr val (seg + 3))) mask

unfoldable pub ulaw_code : ℤ → ℕ → ℕ
unfolding segment_of
ulaw_code val mask = ulaw_code_in (segment_of val) val mask

unfoldable pub linear2ulaw : ℤ → ℕ
linear2ulaw pcm_val =
    if ltb_ℤ pcm_val (pos 0)
    then ulaw_code (sub32 (pos bias) pcm_val) 0x7f
    else ulaw_code (add32 pcm_val (pos bias)) 0xff

-- The magnitude of an A-law code, by its segment.
abbrev pub alaw_magnitude : ℕ → ℕ → ℕ
alaw_magnitude seg t =
    if seg == 0 then t + 8 else if seg == 1 then t + 0x108 else (t + 0x108) * 2 ^ (seg - 1)

unfoldable pub alaw2linear : ℕ → ℤ
alaw2linear code =
    let a_val = bit_xor code 0x55 in
    let t = alaw_magnitude (bit_and a_val seg_mask / 2 ^ 4) (bit_and a_val quant_mask * 2 ^ 4) in
    if bit_and a_val sign_bit == 0 then neg_ℕ t else pos t

unfoldable pub ulaw2linear : ℕ → ℤ
unfolding ◌-ℤ◌
ulaw2linear code =
    let u_val = 255 - code in
    let t = (bit_and u_val quant_mask * 2 ^ 3 + bias) * 2 ^ (bit_and u_val seg_mask / 2 ^ 4) in
    if bit_and u_val sign_bit == 0 then pos t -ℤ pos bias else pos bias -ℤ pos t

unfoldable pub alaw2ulaw : ℕ → ℕ
alaw2ulaw code =
    let aval = bit_and code 0xff in
    if bit_and aval 0x80 == 0
    then bit_xor 0x7f (get_or alaw_to_ulaw (bit_xor aval 0x55) 0)
    else bit_xor 0xff (get_or alaw_to_ulaw (bit_xor aval 0xd5) 0)

unfoldable pub ulaw2alaw : ℕ → ℕ
ulaw2alaw code =
    let uval = bit_and code 0xff in
    if bit_and uval 0x80 == 0
    then bit_xor 0x55 (get_or ulaw_to_alaw (bit_xor 0x7f uval) 0 - 1)
    else bit_xor 0xd5 (get_or ulaw_to_alaw (bit_xor 0xff uval) 0 - 1)
