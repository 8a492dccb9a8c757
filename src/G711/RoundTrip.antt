-- ===== src/G711/RoundTrip.antt =====
-- Decoding a code of JNI/Common/g711.c and encoding it again.
use piwxrx.Prelude.{ℕ, ◌<◌, ◌≡◌, refl, true, ◌==◌, ==_iff, if◌then◌else◌}
use piwxrx.Prelude.Table.{passes, passes_from, passes-below}
use piwxrx.Prelude.Int.{◌+ℤ◌, ◌-ℤ◌}
use piwxrx.Prelude.Word.{add32, sub32, int32}
use piwxrx.G711.{linear2ulaw, ulaw_code, ulaw2linear, linear2alaw, alaw_code, alaw2linear}

ulaw_table : passes 256 (λ u. linear2ulaw (ulaw2linear u) == (if u == 0x7f then 0xff else u)) ≡ true
unfolding passes_from linear2ulaw ulaw_code ulaw2linear add32 sub32 int32 ◌+ℤ◌ ◌-ℤ◌
ulaw_table = refl

-- Encoding the decoded sample of a u-law code gives the code back, except that the code 0x7f of
-- minus zero becomes the code 0xff of plus zero.
pub linear2ulaw-ulaw2linear :
    (u : ℕ) → u < 256 → linear2ulaw (ulaw2linear u) ≡ (if u == 0x7f then 0xff else u)
linear2ulaw-ulaw2linear u h = (==_iff _ _).0 (passes-below 256 _ ulaw_table h)

alaw_table : passes 256 (λ a. linear2alaw (alaw2linear a) == a) ≡ true
unfolding passes_from linear2alaw alaw_code alaw2linear ◌-ℤ◌
alaw_table = refl

-- Encoding the decoded sample of an A-law code gives the code back, for every code.
pub linear2alaw-alaw2linear : (a : ℕ) → a < 256 → linear2alaw (alaw2linear a) ≡ a
linear2alaw-alaw2linear a h = (==_iff _ _).0 (passes-below 256 _ alaw_table h)
