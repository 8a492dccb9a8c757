-- ===== src/DataBuffer/Schedule.antt =====
-- Every interleaving of the demodulator thread and of the application on the byte ring.
use mathlib.Core.List.{append-nil, append_assoc}
use piwxrx.Prelude.{
  ℕ, ◌<◌, ◌≡◌, refl, ◌∙◌, ap, sym, false, List, [], ◌∷◌, ◌++◌, Option, none, some, inl, inr,
  Bool-cases, arith,
}
use piwxrx.DataBuffer.{
  Buffer, System, Getter, ready, waiting, woken, Event, put_byte, get, wake, put, is_empty, signal,
  take_now, advance, step, collect, run,
}
use piwxrx.DataBuffer.Queue.{
  IsValid, count, pending, put-IsValid, take_byte-IsValid, pending-put, pending-take_byte,
}

-- The application past its test or its wait finds a byte.
abbrev pub HasByte : Getter → Buffer → Type 0
HasByte ready b = Unit {0}
HasByte waiting b = Unit {0}
HasByte woken b = is_empty b ≡ false

pub record IsFair (s : System) : Type 0 where
  pub valid : IsValid s.buffer
  pub past_wait : HasByte s.getter s.buffer

-- The bytes that a schedule puts, in order.
abbrev pub puts : List Event → List ℕ
puts [] = []
puts (put_byte x ∷ es) = x ∷ puts es
puts (get ∷ es) = puts es
puts (wake ∷ es) = puts es

-- Whenever the schedule puts, a byte is put and the ring has room; no wait ends without a signal.
abbrev pub KeepsUp : List Event → System → Type 0
KeepsUp [] s = Unit {0}
KeepsUp (put_byte x ∷ es) s =
    (x < 256) × (count s.buffer < 127) × KeepsUp es (step (put_byte x) s).1
KeepsUp (get ∷ es) s = KeepsUp es (step get s).1
KeepsUp (wake ∷ es) s = ⊥

not_empty-put : {b : Buffer} (x : ℕ) → IsValid b → count b < 127 → is_empty (put b x) ≡ false
unfolding put
not_empty-put x v h = ground arith

HasByte-put :
    (g : Getter) {b : Buffer} (x : ℕ) → IsValid b → count b < 127 → HasByte (signal g) (put b x)
HasByte-put ready x v h = tt
HasByte-put waiting x v h = not_empty-put x v h
HasByte-put woken x v h = not_empty-put x v h

pub put-IsFair :
    {s : System} (x : ℕ)
    → IsFair s
    → x < 256
    → count s.buffer < 127
    → IsFair (step (put_byte x) s).1
unfolding step
put-IsFair {s} x f hx h = record {
  valid = put-IsValid x f.valid hx;
  past_wait = HasByte-put s.getter x f.valid h;
}

pub pending-put_byte :
    {s : System} (x : ℕ)
    → IsFair s
    → count s.buffer < 127
    → pending (step (put_byte x) s).1.buffer ≡ pending s.buffer ++ (x ∷ [])
unfolding step
pending-put_byte x f h = pending-put x f.valid h

-- One call of the application: it stays fair, and what it takes is the oldest byte.
pub record Took (b : Buffer) (r : Option ℕ × System) : Type 0 where
  pub fair : IsFair r.1
  pub order : pending b ≡ collect r.0 (pending r.1.buffer)

take_now-Took : {b : Buffer} → IsValid b → is_empty b ≡ false → Took b (take_now b)
unfolding take_now
take_now-Took v h = record {
  fair = record { valid = take_byte-IsValid v; past_wait = tt };
  order = pending-take_byte v h;
}

advance-Took : (g : Getter) {b : Buffer} → IsValid b → HasByte g b → Took b (advance g b)
unfolding advance
advance-Took ready {b} v h = elim (Bool-cases (is_empty b)) [
  | inl e ↦ rw e (record { fair = record { valid = v; past_wait = tt }; order = refl })
  | inr e ↦ rw e (record { fair = record { valid = v; past_wait = e }; order = refl })
]
advance-Took waiting v h = record { fair = record { valid = v; past_wait = tt }; order = refl }
advance-Took woken v h = take_now-Took v h

pub get-Took : {s : System} → IsFair s → Took s.buffer (step get s)
unfolding step
get-Took {s} f = advance-Took s.getter f.valid f.past_wait

collect-append : (o : Option ℕ) (xs ys : List ℕ) → collect o xs ++ ys ≡ collect o (xs ++ ys)
collect-append none xs ys = refl
collect-append (some x) xs ys = refl

-- While only bytes are put, the ring has room for each of them and no wait ends without a signal, in
-- every interleaving the bytes that the application has received, followed by those that still wait,
-- are the bytes that waited at first followed by those put, in order, with none lost, repeated or
-- made up; and the application past its test or its wait finds a byte.
pub run_fifo :
    (es : List Event) {s : System}
    → IsFair s
    → KeepsUp es s
    → let (xs, t) = run es s in (xs ++ pending t.buffer ≡ pending s.buffer ++ puts es) × IsFair t
unfolding run step
run_fifo [] {s} f k = (sym (append-nil (pending s.buffer)), f)
run_fifo (put_byte x ∷ es) {s} f k =
    let rest = run_fifo es (put-IsFair x f k.0 k.1) k.2 in
    (
      rest.0
          ∙ ap (λ q. q ++ puts es) (pending-put x f.valid k.1)
          ∙ append_assoc (pending s.buffer) (x ∷ []) (puts es),
      rest.1,
    )
run_fifo (get ∷ es) {s} f k =
    let took = get-Took f in
    let rest = run_fifo es took.fair k in
    (
      collect-append (step get s).0 (run es (step get s).1).0 _
          ∙ ap (collect (step get s).0) rest.0
          ∙ sym (collect-append (step get s).0 (pending (step get s).1.buffer) (puts es))
          ∙ ap (λ q. q ++ puts es) (sym took.order),
      rest.1,
    )
run_fifo (wake ∷ es) f k = absurd k
