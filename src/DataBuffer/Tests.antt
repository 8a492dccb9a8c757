-- ===== src/DataBuffer/Tests.antt =====
-- The byte ring at concrete inputs.
use piwxrx.Prelude.{◌≡◌, refl, List, [], ◌∷◌, ◌++◌, arith, replicate}
use piwxrx.DataBuffer.{
  Buffer, System, Getter, Event, put_byte, get, init, put, take_byte, step, advance, take_now, run,
}
use piwxrx.DataBuffer.Queue.{IsValid, pending, init-IsValid, pending-put_full}
use piwxrx.DataBuffer.Schedule.{IsFair, run_fifo}

abbrev start : System
start = record {
  buffer = record { wrptr = 0; rdptr = 0; bytes = replicate 128 0xed };
  getter = Getter.ready;
}

-- The application waits for the first of two bytes, and tests the ring before the second.
abbrev talk : List Event
talk = get ∷ put_byte 0xab ∷ put_byte 7 ∷ get ∷ get ∷ get ∷ []

received : (run talk start).0 ≡ 0xab ∷ 7 ∷ []
unfolding run step advance take_now take_byte put
received = refl

start-IsFair : IsFair start
unfolding init
start-IsFair = record { valid = init-IsValid.0; past_wait = tt }

run_fifo_example :
    let (xs, t) = run talk start in (xs ++ pending t.buffer ≡ 0xab ∷ 7 ∷ []) × IsFair t
run_fifo_example = run_fifo talk start-IsFair (
    unfold step advance take_now take_byte put in
    (omega arith, omega arith, (omega arith, omega arith, tt)))

-- A ring in which 127 bytes wait.
abbrev full : Buffer
full = record { wrptr = 127; rdptr = 0; bytes = replicate 128 0xed }

full-IsValid : IsValid full
unfolding init
full-IsValid = record {
  size = init-IsValid.0.size;
  write_in = omega arith;
  read_in = omega arith;
  all_bytes = init-IsValid.0.all_bytes;
}

pending-put_full_example : pending (put full 1) ≡ []
pending-put_full_example = pending-put_full 1 full-IsValid refl
