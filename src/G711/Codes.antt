-- ===== src/G711/Codes.antt =====
-- What a code with a given segment, quantisation field and sign stands for.
use piwxrx.Prelude.{ℕ, ◌+◌, ◌-◌, ◌*◌, ◌^◌, ◌<◌, ◌≡◌, refl, Bool, true}
use piwxrx.Prelude.Int.{pos, neg_ℕ, eqb_ℤ, eqb_ℤ→eq}
use piwxrx.Prelude.Table.{passes, passes_from, passes-below}
use piwxrx.G711.{code, ulaw2linear, alaw2linear, alaw_magnitude}

-- The magnitude of a u-law code.
abbrev pub ulaw_magnitude : ℕ → ℕ → ℕ
ulaw_magnitude seg quant = (quant * 8 + 132) * 2 ^ seg - 132

-- A check of every segment and field.
abbrev all_codes : (ℕ → ℕ → Bool) → Bool
all_codes p = passes 8 (λ s. passes 16 (λ q. p s q))

all_codes_sound : (p : ℕ → ℕ → Bool) (s q : ℕ) → all_codes p ≡ true → s < 8 → q < 16 → p s q ≡ true
all_codes_sound p s q h hs hq =
    passes-below 16 (λ q. p s q) (passes-below 8 (λ s. passes 16 (λ q. p s q)) h hs) hq

ulaw_pos_table :
    all_codes (λ s q. eqb_ℤ (ulaw2linear (code s q 0xff)) (pos (ulaw_magnitude s q))) ≡ true
unfolding passes_from ulaw2linear
ulaw_pos_table = refl

ulaw_neg_table :
    all_codes (λ s q. eqb_ℤ (ulaw2linear (code s q 0x7f)) (neg_ℕ (ulaw_magnitude s q))) ≡ true
unfolding passes_from ulaw2linear
ulaw_neg_table = refl

alaw_pos_table :
    all_codes (λ s q. eqb_ℤ (alaw2linear (code s q 0xd5)) (pos (alaw_magnitude s (q * 16)))) ≡ true
unfolding passes_from alaw2linear
alaw_pos_table = refl

alaw_neg_table :
    all_codes (λ s q. eqb_ℤ (alaw2linear (code s q 0x55)) (neg_ℕ (alaw_magnitude s (q * 16))))
    ≡ true
unfolding passes_from alaw2linear
alaw_neg_table = refl

module _ (s q : ℕ) (hs : s < 8) (hq : q < 16) where
  pub ulaw2linear-code_pos : ulaw2linear (code s q 0xff) ≡ pos (ulaw_magnitude s q)
  ulaw2linear-code_pos = eqb_ℤ→eq _ _ (all_codes_sound _ s q ulaw_pos_table hs hq)

  pub ulaw2linear-code_neg : ulaw2linear (code s q 0x7f) ≡ neg_ℕ (ulaw_magnitude s q)
  ulaw2linear-code_neg = eqb_ℤ→eq _ _ (all_codes_sound _ s q ulaw_neg_table hs hq)

  pub alaw2linear-code_pos : alaw2linear (code s q 0xd5) ≡ pos (alaw_magnitude s (q * 16))
  alaw2linear-code_pos = eqb_ℤ→eq _ _ (all_codes_sound _ s q alaw_pos_table hs hq)

  pub alaw2linear-code_neg : alaw2linear (code s q 0x55) ≡ neg_ℕ (alaw_magnitude s (q * 16))
  alaw2linear-code_neg = eqb_ℤ→eq _ _ (all_codes_sound _ s q alaw_neg_table hs hq)
