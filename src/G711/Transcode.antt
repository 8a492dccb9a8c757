-- ===== src/G711/Transcode.antt =====
-- The direct conversions between the two laws, against decoding.
use piwxrx.Prelude.{ℕ, ◌+◌, ◌*◌, ◌≤◌, ◌<◌, ◌≡◌, refl, true, leb, leb→le}
use piwxrx.Prelude.Int.{dist_ℤ, abs}
use piwxrx.Prelude.Table.{passes, passes_from, passes-below}
use piwxrx.G711.{alaw2ulaw, ulaw2alaw, ulaw2linear, alaw2linear}

alaw2ulaw_table :
    passes 256 (λ a.
      leb (16 * dist_ℤ (ulaw2linear (alaw2ulaw a)) (alaw2linear a)) (abs (alaw2linear a) + 132))
    ≡ true
unfolding passes_from alaw2ulaw ulaw2linear alaw2linear
alaw2ulaw_table = refl

ulaw2alaw_table :
    passes 256 (λ u.
      leb (16 * dist_ℤ (alaw2linear (ulaw2alaw u)) (ulaw2linear u)) (abs (ulaw2linear u) + 132))
    ≡ true
unfolding passes_from ulaw2alaw ulaw2linear alaw2linear
ulaw2alaw_table = refl

-- Converting a code by the tables, in either direction, moves the sample that it stands for by at
-- most a sixteenth of the sample's magnitude plus 132.
pub transcode_error :
    (c : ℕ)
    → c < 256
    → (16 * dist_ℤ (ulaw2linear (alaw2ulaw c)) (alaw2linear c) ≤ abs (alaw2linear c) + 132)
      × (16 * dist_ℤ (alaw2linear (ulaw2alaw c)) (ulaw2linear c) ≤ abs (ulaw2linear c) + 132)
transcode_error c h = (
  leb→le _ _ (passes-below 256 _ alaw2ulaw_table h),
  leb→le _ _ (passes-below 256 _ ulaw2alaw_table h),
)
