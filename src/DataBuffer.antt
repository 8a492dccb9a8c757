-- ===== src/DataBuffer.antt =====
-- JNI/Common/databuffer.c: the ring of 128 bytes between the demodulator thread, which puts, and
-- the application, which gets. A section under the mutex is one step; the byte is taken after it.
pub mod Queue
pub mod Schedule
mod Tests
use piwxrx.Prelude.{
  ℕ, ◌+◌, ◌-◌, ◌%◌, ◌^◌, Bool, true, false, List, [], ◌∷◌, Option, none, some, ltb, ◌==◌,
  if◌then◌else◌, get_or, set, replicate,
}
use piwxrx.Prelude.Int.{ℤ, pos, negsuc}
use piwxrx.Prelude.Word.{low_bits}

abbrev pub buffer_size : ℕ
buffer_size = 128

abbrev pub no_byte : ℕ
no_byte = 0xed

-- `struct data_buffer_t`, without its mutex and its condition.
pub record Buffer : Type 0 where
  pub wrptr : ℕ
  pub rdptr : ℕ
  pub bytes : List ℕ

unfoldable pub init : Buffer
init = record { wrptr = 0; rdptr = 0; bytes = replicate buffer_size no_byte }

pub put : Buffer → ℕ → Buffer
put b byterx = record b { bytes = set b.bytes b.wrptr byterx; wrptr = (b.wrptr + 1) % 2 ^ 7 }

abbrev pub is_empty : Buffer → Bool
is_empty b = b.rdptr == b.wrptr

-- `char retval`, which is signed, and its conversion to the result's DEMOD_BYTE.
abbrev pub char : ℕ → ℤ
char w = if ltb w 128 then pos w else negsuc (256 - w - 1)

-- What `databuffer_get` does after it has left the mutex.
pub take_byte : Buffer → ℕ × Buffer
take_byte b =
    (low_bits 8 (char (get_or b.bytes b.rdptr 0)), record b { rdptr = (b.rdptr + 1) % 2 ^ 7 })

-- Where the application stands in `databuffer_get`: before the test, in `pthread_cond_wait`, or
-- past the section under the mutex, before it takes the byte.
pub data Getter : Type 0 where
  ready waiting woken : Getter

pub record System : Type 0 where
  pub buffer : Buffer
  pub getter : Getter

-- `wake` is a return of `pthread_cond_wait` without a signal, which POSIX allows.
pub data Event : Type 0 where
  put_byte : ℕ → Event
  get wake : Event

abbrev pub signal : Getter → Getter
signal ready = ready
signal waiting = woken
signal woken = woken

pub take_now : Buffer → Option ℕ × System
take_now b = let (x, b') = take_byte b in (some x, record { buffer = b'; getter = Getter.ready })

pub advance : Getter → Buffer → Option ℕ × System
advance ready b =
    if is_empty b
    then (none, record { buffer = b; getter = Getter.waiting })
    else (none, record { buffer = b; getter = Getter.woken })
advance waiting b = (none, record { buffer = b; getter = Getter.waiting })
advance woken b = take_now b

pub step : Event → System → Option ℕ × System
step (put_byte x) s = (none, record { buffer = put s.buffer x; getter = signal s.getter })
step get s = advance s.getter s.buffer
step wake s = (none, record s { getter = signal s.getter })

abbrev pub collect : Option ℕ → List ℕ → List ℕ
collect none xs = xs
collect (some x) xs = x ∷ xs

-- A schedule, with the bytes that the application receives.
pub run : List Event → System → List ℕ × System
run [] s = ([], s)
run (e ∷ es) s = let (out, s') = step e s in let (xs, t) = run es s' in (collect out xs, t)
