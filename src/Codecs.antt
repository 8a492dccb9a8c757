-- ===== src/Codecs.antt =====
-- JNI/Common/codecs.c: the conversion of a buffer of samples to the bytes of a packet and back,
-- with its decimation by three and the de-emphasis filter (JNI/Source/lpass.c has it once more).
-- The bit DEBUG_DEEMPHASIS of the debug level is an argument.
pub mod Encode
pub mod Deemph
pub mod Pipe
pub mod RoundTrip
pub mod State
pub mod Prefix
mod Tests
use piwxrx.Prelude.{
  ℕ, zero, suc, ◌+◌, ◌*◌, ◌/◌, ◌≤◌, Bool, true, false, List, [], ◌∷◌, get_or, set, leb,
  if◌then◌else◌, length, ◌≡◌,
}
use piwxrx.Prelude.Int.{ℤ, pos, negsuc, eqb_ℤ}
use piwxrx.Prelude.Word.{int16, ashr, shl, quot, add32, mul32}
use piwxrx.G711.{linear2ulaw, linear2alaw, ulaw2linear, alaw2linear}

abbrev pub codec_none : ℤ
codec_none = negsuc 0

abbrev pub codec_pcmu : ℤ
codec_pcmu = pos 0

abbrev pub codec_pcma : ℤ
codec_pcma = pos 8

-- `*buffer++`. What lies behind the samples is read as 0.
abbrev pub read_sample : List ℤ → ℤ × List ℤ
read_sample [] = (pos 0, [])
read_sample (x ∷ xs) = (x, xs)

-- The output for an input, and the new `state`.
unfoldable pub deemph : ℤ → ℤ → ℤ × ℤ
deemph input state =
    let state' = add32 input (ashr (mul32 state (pos 25889)) 15) in
    let accum = mul32 state' (pos 6878) in (int16 (add32 (ashr accum 14) (ashr accum 15)), state')

-- The three reads of a pass, and the mean of the three samples.
unfoldable pub decimate : List ℤ → ℤ × List ℤ
decimate buffer =
    let (a, buffer1) = read_sample buffer in
    let (b, buffer2) = read_sample buffer1 in
    let (c, buffer3) = read_sample buffer2 in (int16 (quot (add32 (add32 a b) c) 3), buffer3)

-- The one read of a pass of the A-law encoder.
unfoldable pub a_third : List ℤ → ℤ × List ℤ
a_third buffer = let (a, buffer1) = read_sample buffer in (int16 (quot a 3), buffer1)

-- What is encoded, for each value of the bit DEBUG_DEEMPHASIS.
abbrev pub emphasis : Bool → ℤ → ℤ → ℤ × ℤ
emphasis true x state = deemph (int16 x) state
emphasis false x state = (x, state)

module _ (deemphasis : Bool) (gain : ℕ) where
  -- The loops of the two encoders.
  unfoldable pub ulaw_loop : ℕ → List ℤ → ℤ → List ℕ × ℤ
  ulaw_loop zero buffer state = ([], state)
  ulaw_loop (suc n) buffer state =
      let (mean, rest) = decimate buffer in
      let (x, state1) = emphasis deemphasis (shl mean gain) state in
      let (out, state2) = ulaw_loop n rest state1 in (linear2ulaw x ∷ out, state2)

  unfoldable pub alaw_loop : ℕ → List ℤ → ℤ → List ℕ × ℤ
  alaw_loop zero buffer state = ([], state)
  alaw_loop (suc n) buffer state =
      let (third, rest) = a_third buffer in
      let (x, state1) = emphasis deemphasis (shl third gain) state in
      let (out, state2) = alaw_loop n rest state1 in (linear2alaw x ∷ out, state2)

-- The loop of `stdioOutEncode`.
unfoldable pub stdio_loop : ℕ → List ℤ → List ℤ
stdio_loop zero buffer = []
stdio_loop (suc n) buffer = let (mean, rest) = decimate buffer in mean ∷ stdio_loop n rest

-- The bytes stored, the samples written to the standard output, the value returned, the new state.
pub record Encoded : Type 0 where
  pub bytes : List ℕ
  pub written : List ℤ
  pub result : ℕ
  pub state : ℤ

unfoldable pub pcm_encode : Bool → List ℤ → ℕ → ℤ → ℕ → ℤ → Encoded
pcm_encode deemphasis buffer len codec gain state =
    let newlen = len / 3 in
    let (u, u_state) = ulaw_loop deemphasis gain newlen buffer state in
    let (a, a_state) = alaw_loop deemphasis gain newlen buffer state in
    if eqb_ℤ codec codec_none
    then record { bytes = []; written = stdio_loop newlen buffer; result = 0; state = state }
    else if eqb_ℤ codec codec_pcmu
    then record { bytes = u; written = []; result = newlen; state = u_state }
    else if eqb_ℤ codec codec_pcma
    then record { bytes = a; written = []; result = newlen; state = a_state }
    else record { bytes = []; written = []; result = 0; state = state }

-- `*inbuf++`
abbrev pub read_byte : List ℕ → ℕ × List ℕ
read_byte [] = (0, [])
read_byte (x ∷ xs) = (x, xs)

unfoldable pub ulaw_decode : ℕ → List ℕ → List ℤ
ulaw_decode zero inbuf = []
ulaw_decode (suc n) inbuf =
    let (byte, rest) = read_byte inbuf in int16 (ulaw2linear byte) ∷ ulaw_decode n rest

unfoldable pub alaw_decode : ℕ → List ℕ → List ℤ
alaw_decode zero inbuf = []
alaw_decode (suc n) inbuf =
    let (byte, rest) = read_byte inbuf in int16 (alaw2linear byte) ∷ alaw_decode n rest

-- The samples stored and the value returned.
unfoldable pub pcm_decode : List ℕ → ℕ → ℤ → List ℤ × ℕ
pcm_decode inbuf len codec =
    if eqb_ℤ codec codec_pcmu
    then (ulaw_decode len inbuf, len)
    else if eqb_ℤ codec codec_pcma
    then (alaw_decode len inbuf, len)
    else ([], len)

-- The loop of `PipeDecimate` from sample `i` on: the buffer is read and written in place.
unfoldable pub pipe_loop : ℕ → ℕ → List ℤ → List ℤ
pipe_loop zero i buffer = buffer
pipe_loop (suc n) i buffer =
    let dsamp = int16 (add32 (get_or buffer (2 * i) (pos 0)) (get_or buffer (2 * i + 1) (pos 0))) in
    pipe_loop n (i + 1) (set buffer i (quot dsamp 2))

unfoldable pub pipe_decimate : List ℤ → ℕ → ℕ → List ℤ × ℕ
pipe_decimate buffer readlen decimlen =
    if leb readlen decimlen then (buffer, readlen) else (pipe_loop readlen 0 buffer, decimlen)
