-- ===== src/DataBuffer/Queue.antt =====
-- The byte ring as the queue of the bytes that wait in it.
use piwxrx.Prelude.{
  ℕ, suc, zero, ◌+◌, ◌-◌, ◌%◌, ◌^◌, ◌<◌, ◌≡◌, refl, ◌∙◌, List, [], ◌∷◌, ◌++◌, leb, if◌then◌else◌,
  length, length-set, length-replicate, get_or, set, replicate, arith, false, sym, ap, ap₂,
}
use piwxrx.Prelude.Word.{low_bits}
use piwxrx.Prelude.Ring.{next, window, window-set}
use piwxrx.DataBuffer.{Buffer, buffer_size, no_byte, init, put, take_byte, is_empty, char}

pub record IsValid (b : Buffer) : Type 0 where
  pub size : length b.bytes ≡ buffer_size
  pub write_in : b.wrptr < buffer_size
  pub read_in : b.rdptr < buffer_size
  pub all_bytes : (i : ℕ) → get_or b.bytes i 0 < 256

-- How many bytes wait.
abbrev pub count : Buffer → ℕ
count b = if leb b.rdptr b.wrptr then b.wrptr - b.rdptr else b.wrptr + buffer_size - b.rdptr

-- The bytes that wait, oldest first.
abbrev pub pending : Buffer → List ℕ
pending b = window buffer_size 0 b.bytes b.rdptr (count b)

replicate-byte : (n i : ℕ) → get_or (replicate n no_byte) i 0 < 256
replicate-byte zero i = omega arith
replicate-byte (suc n) zero = omega arith
replicate-byte (suc n) (suc i) = replicate-byte n i

pub init-IsValid : IsValid init × (pending init ≡ [])
unfolding init
init-IsValid = (
  record {
    size = length-replicate buffer_size no_byte;
    write_in = omega arith;
    read_in = omega arith;
    all_bytes = replicate-byte buffer_size;
  },
  refl,
)

set-byte :
    (xs : List ℕ) (j x i : ℕ)
    → ((i : ℕ) → get_or xs i 0 < 256)
    → x < 256
    → get_or (set xs j x) i 0 < 256
set-byte [] j x i h hx = h i
set-byte (y ∷ xs) zero x zero h hx = hx
set-byte (y ∷ xs) zero x (suc i) h hx = h (suc i)
set-byte (y ∷ xs) (suc j) x zero h hx = h zero
set-byte (y ∷ xs) (suc j) x (suc i) h hx = set-byte xs j x i (λ k. h (suc k)) hx

pub put-IsValid : {b : Buffer} (x : ℕ) → IsValid b → x < 256 → IsValid (put b x)
unfolding put
put-IsValid {b} x v hx = record {
  size = length-set b.bytes b.wrptr x ∙ v.size;
  write_in = omega arith;
  read_in = v.read_in;
  all_bytes = λ i. set-byte b.bytes b.wrptr x i v.all_bytes hx;
}

pub take_byte-IsValid : {b : Buffer} → IsValid b → IsValid (take_byte b).1
unfolding take_byte
take_byte-IsValid {b} v = record {
  size = v.size;
  write_in = v.write_in;
  read_in = omega arith;
  all_bytes = v.all_bytes;
}

-- The conversions of `databuffer_get` keep a byte.
pub char_back : (x : ℕ) → x < 256 → low_bits 8 (char x) ≡ x
char_back x h = ground arith

pub count-put : {b : Buffer} (x : ℕ) → IsValid b → count b < 127 → count (put b x) ≡ suc (count b)
unfolding put
count-put x v h = ground arith

-- While fewer than 127 bytes wait, putting a byte appends it to those that wait.
pub pending-put :
    {b : Buffer} (x : ℕ) → IsValid b → count b < 127 → pending (put b x) ≡ pending b ++ (x ∷ [])
pending-put {b} x v h = rw (count-put x v h) (
    unfold put in
    window-set buffer_size 0 b.bytes x b.rdptr (count b) b.wrptr (omega arith) v.read_in
      (omega arith) (ground arith))

-- With 127 bytes waiting a byte more makes the ring look empty: all 128 are lost.
pub pending-put_full : {b : Buffer} (x : ℕ) → IsValid b → count b ≡ 127 → pending (put b x) ≡ []
pending-put_full {b} x v h = rw none_left
  where
    none_left : count (put b x) ≡ 0
    none_left = unfold put in ground arith

-- Where bytes wait, the oldest one is taken and the others stay.
pub pending-take_byte :
    {b : Buffer}
    → IsValid b
    → is_empty b ≡ false
    → pending b ≡ (take_byte b).0 ∷ pending (take_byte b).1
unfolding take_byte
pending-take_byte {b} v h = rw (one_less) (
    ap₂ ◌∷◌ (sym (char_back (get_or b.bytes b.rdptr 0) (v.all_bytes b.rdptr)))
      (ap (λ r. window buffer_size 0 b.bytes r (count (take_byte b).1)) moved))
  where
    moved : next buffer_size b.rdptr ≡ (b.rdptr + 1) % 2 ^ 7
    moved = ground (arith, v)

    one_less : count b ≡ suc (count (take_byte b).1)
    one_less = ground arith
