-- ===== src/Codecs/RoundTrip.antt =====
-- Decoding what the u-law encoder of JNI/Common/codecs.c stored.
use piwxrx.Prelude.{
  ℕ, zero, suc, ◌+◌, ◌-◌, ◌*◌, ◌/◌, ◌≤◌, ◌≡◌, refl, ap, subst, dec_lt, leb, leb→le, true, false,
  List, [], ◌∷◌, length, map, arith,
}
use piwxrx.Prelude.Int.{ℤ, abs, dist_ℤ, ◌-ℤ◌, ◌*ℤ◌}
use piwxrx.Prelude.Table.{passes, passes_from, passes-below}
use piwxrx.Prelude.Word.{AllInt16, int16, int16_id, shl}
use piwxrx.G711.{linear2ulaw, ulaw2linear}
use piwxrx.G711.Error.{ulaw_error}
use piwxrx.Codecs.{pcm_encode, pcm_decode, ulaw_decode, codec_pcmu}
use piwxrx.Codecs.Encode.{means, mean-IsInt16, pcm_encode-pcmu}

level_table : passes 256 (λ u. leb (abs (ulaw2linear u)) 32124) ≡ true
unfolding passes_from ulaw2linear ◌-ℤ◌
level_table = refl

-- A decoded value fits a sample.
ulaw2linear_level : (u : ℕ) → abs (ulaw2linear u) ≤ 32124
unfolding ulaw2linear
ulaw2linear_level u = elim (dec_lt u 256) [
  | yes p ↦ leb→le _ _ (passes-below 256 _ level_table p)
  | no p ↦
      let none_left : 255 - u ≡ 255 - 255 = omega arith in
      rw none_left (leb→le _ _ (passes-below 256 _ level_table {x = 255} (omega arith)))
]

cast_decoded : (u : ℕ) → int16 (ulaw2linear u) ≡ ulaw2linear u
cast_decoded u = int16_id (ulaw2linear u) (omega (arith, ulaw2linear_level u))

-- Each value lies within a 32nd of its original's magnitude plus 132.
abbrev pub AreNear : List ℤ → List ℤ → Type 0
AreNear [] [] = Unit {0}
AreNear (y ∷ ys) (x ∷ xs) = (32 * dist_ℤ y x ≤ abs x + 132) × AreNear ys xs
AreNear _ _ = ⊥

decode-encode :
    (xs : List ℤ)
    → AllInt16 xs
    → AreNear (ulaw_decode (length xs) (map (λ m. linear2ulaw (shl m 0)) xs)) xs
unfolding ulaw_decode
decode-encode [] w = tt
decode-encode (x ∷ xs) (wx, w) =
    let whole : shl x 0 ≡ x = unfold shl ◌*ℤ◌ in ground arith in
    rw (whole, cast_decoded (linear2ulaw x)) (ulaw_error x wx, decode-encode xs w)

means-AllInt16 : (n : ℕ) (buffer : List ℤ) → AllInt16 buffer → AllInt16 (means n buffer)
means-AllInt16 zero buffer w = tt
means-AllInt16 (suc n) [] w = tt
means-AllInt16 (suc n) (a ∷ []) w = tt
means-AllInt16 (suc n) (a ∷ b ∷ []) w = tt
means-AllInt16 (suc n) (a ∷ b ∷ c ∷ buffer) (wa, (wb, (wc, w))) =
    (mean-IsInt16 a b c wa wb wc, means-AllInt16 n buffer w)

length-means : (n : ℕ) (buffer : List ℤ) → 3 * n ≤ length buffer → length (means n buffer) ≡ n
length-means zero buffer h = refl
length-means (suc n) [] h = absurd (omega arith)
length-means (suc n) (a ∷ []) h = absurd (omega arith)
length-means (suc n) (a ∷ b ∷ []) h = absurd (omega arith)
length-means (suc n) (a ∷ b ∷ c ∷ buffer) h = ap suc (length-means n buffer (omega arith))

-- `PCMDecode` of the bytes and the length that `PCMEncode` for u-law gives, with de-emphasis and
-- gain off, gives back the means of the groups of three samples, each moved by at most a 32nd of
-- its magnitude plus 132.
pub pcm_decode-pcm_encode :
    (buffer : List ℤ) (len : ℕ) (state : ℤ)
    → AllInt16 buffer
    → len ≤ length buffer
    → AreNear
        (pcm_decode
          (pcm_encode false buffer len codec_pcmu 0 state).bytes
          (pcm_encode false buffer len codec_pcmu 0 state).result
          codec_pcmu).0
        (means (len / 3) buffer)
unfolding pcm_decode
pcm_decode-pcm_encode buffer len state w h =
    let enough = length-means (len / 3) buffer (omega arith) in
    rw (pcm_encode-pcmu buffer len 0 state w h) (
      subst
        (λ n.
          AreNear (ulaw_decode n (map (λ m. linear2ulaw (shl m 0)) (means (len / 3) buffer)))
            (means (len / 3) buffer))
        enough (decode-encode (means (len / 3) buffer) (means-AllInt16 (len / 3) buffer w)))
