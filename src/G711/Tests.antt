-- ===== src/G711/Tests.antt =====
-- JNI/Common/g711.c at concrete inputs.
use piwxrx.Prelude.{◌+◌, ◌*◌, ◌≤◌, ◌≡◌, inr, arith}
use piwxrx.Prelude.Int.{negsuc, neg_ℕ, dist_ℤ, abs}
use piwxrx.G711.{linear2ulaw, ulaw2linear, linear2alaw, alaw2linear}
use piwxrx.G711.RoundTrip.{linear2ulaw-ulaw2linear, linear2alaw-alaw2linear}
use piwxrx.G711.Error.{ulaw_error, alaw_error, alaw_small_negative}

linear2ulaw-ulaw2linear_example : linear2ulaw (ulaw2linear 0x7f) ≡ 0xff
linear2ulaw-ulaw2linear_example = linear2ulaw-ulaw2linear 0x7f (omega arith)

linear2alaw-alaw2linear_example : linear2alaw (alaw2linear 0x2a) ≡ 0x2a
linear2alaw-alaw2linear_example = linear2alaw-alaw2linear 0x2a (omega arith)

ulaw_error_example :
    32 * dist_ℤ (ulaw2linear (linear2ulaw (negsuc 999))) (negsuc 999) ≤ abs (negsuc 999) + 132
ulaw_error_example = ulaw_error (negsuc 999) (omega arith)

alaw_error_example :
    16 * dist_ℤ (alaw2linear (linear2alaw (negsuc 999))) (negsuc 999) ≤ abs (negsuc 999) + 256
alaw_error_example = alaw_error (negsuc 999) (omega arith) (inr (omega arith))

alaw_small_negative_example : alaw2linear (linear2alaw (neg_ℕ 3)) ≡ neg_ℕ 248
alaw_small_negative_example = alaw_small_negative 3 (omega arith) (omega arith)
