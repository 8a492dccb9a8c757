-- ===== src/Fsk/Text.antt =====
-- The runs of equal bits in the bytes that a weather radio sends: sync bytes and printable text.
use piwxrx.Prelude.{
  ℕ, ◌<◌, ◌≡◌, refl, ◌∙◌, sym, ap, Bool, true, false, ◌&&◌, ◌||◌, Bool-cases, ◌⊎◌, inl, inr, List,
  [], ◌∷◌, ◌++◌, Option, none, some, ◌==◌, leb, if◌then◌else◌, arith,
}
use piwxrx.Prelude.Table.{passes, passes_from, passes-below}
use piwxrx.Fsk.Frame.{sync_byte, bits_of, send, AllBytes}
use piwxrx.Fsk.Recovery.{run_length, HasShortRuns}

-- The last bit and the length of its run after a sequence of bits, none after a run of ten.
abbrev pub run_after : ℕ → ℕ → List ℕ → Option (ℕ × ℕ)
run_after s c [] = some (s, c)
run_after s c (b ∷ bits) =
    let rest = run_after b (run_length s c b) bits in
    if leb (run_length s c b) 9 then rest else none

-- The end of a byte: at most two zeros, or a one.
abbrev pub ends_byte : Option (ℕ × ℕ) → Bool
ends_byte none = false
ends_byte (some (s, c)) = (s == 0 && leb c 2) || (s == 1 && c == 1)

HasShortRuns-append :
    (xs ys : List ℕ) (s c : ℕ)
    → ends_byte (run_after s c xs) ≡ true
    → ((s' c' : ℕ) → ends_byte (some (s', c')) ≡ true → HasShortRuns s' c' ys)
    → HasShortRuns s c (xs ++ ys)
HasShortRuns-append [] ys s c e next = next s c e
HasShortRuns-append (b ∷ xs) ys s c e next =
    let n = run_length s c b in
    let rest = run_after b n xs in
    elim (Bool-cases (leb n 9)) [
      | inl p ↦
          let e' : ends_byte rest ≡ true =
            sym (ap (λ t. ends_byte (if t then rest else none)) p) ∙ e in
          (ground (arith, p), HasShortRuns-append xs ys b n e' next)
      | inr p ↦
          let e' : false ≡ true = sym (ap (λ t. ends_byte (if t then rest else none)) p) ∙ e in
          absurd (cc)
    ]

-- A sync byte or a printable character.
abbrev pub is_text : ℕ → Bool
is_text x = x == sync_byte || (leb 32 x && leb x 126)

-- From every end of a byte the bits of a byte have no run of ten, and end like a byte.
abbrev text_test : ℕ → Bool
text_test x =
    ends_byte (run_after 0 0 (bits_of x))
    && (ends_byte (run_after 0 1 (bits_of x))
        && (ends_byte (run_after 0 2 (bits_of x)) && ends_byte (run_after 1 1 (bits_of x))))

text_table : passes 256 (λ x. if is_text x then text_test x else true) ≡ true
unfolding passes_from
text_table = refl

text_passes : (x : ℕ) → is_text x ≡ true → text_test x ≡ true
text_passes x h =
    let below : x < 256 = ground (arith, h) in
    sym (ap (λ t. if t then text_test x else true) h) ∙ passes-below 256 _ text_table below

ends_cases :
    (s c : ℕ)
    → ends_byte (some (s, c)) ≡ true
    → (((s ≡ 0) × (c ≡ 0)) ⊎ ((s ≡ 0) × (c ≡ 1))) ⊎ (((s ≡ 0) × (c ≡ 2)) ⊎ ((s ≡ 1) × (c ≡ 1)))
ends_cases s c h = ground (arith, h)

all_four :
    (a b c d : Bool)
    → (a && (b && (c && d))) ≡ true
    → (a ≡ true) × (b ≡ true) × (c ≡ true) × (d ≡ true)
all_four a b c d h = ground (arith, h)

ends-bits_of :
    (x s c : ℕ)
    → is_text x ≡ true
    → ends_byte (some (s, c)) ≡ true
    → ends_byte (run_after s c (bits_of x)) ≡ true
ends-bits_of x s c text e =
    let at = λ (s c : ℕ). ends_byte (run_after s c (bits_of x)) in
    let all = all_four (at 0 0) (at 0 1) (at 0 2) (at 1 1) (text_passes x text) in
    elim (ends_cases s c e) [
      | inl (inl p) ↦ rw (p.0, p.1) all.0
      | inl (inr p) ↦ rw (p.0, p.1) all.1
      | inr (inl p) ↦ rw (p.0, p.1) all.2
      | inr (inr p) ↦ rw (p.0, p.1) all.3
    ]

abbrev pub AreText : List ℕ → Type 0
AreText [] = Unit {0}
AreText (x ∷ xs) = (is_text x ≡ true) × AreText xs

pub AreText-AllBytes : (xs : List ℕ) → AreText xs → AllBytes xs
AreText-AllBytes [] h = tt
AreText-AllBytes (x ∷ xs) h = (ground (arith, h.0), AreText-AllBytes xs h.1)

-- Text has no run of ten equal bits, after the end of a byte.
pub send-HasShortRuns :
    (xs : List ℕ) (s c : ℕ)
    → AreText xs
    → ends_byte (some (s, c)) ≡ true
    → HasShortRuns s c (send xs)
send-HasShortRuns [] s c h e = tt
send-HasShortRuns (x ∷ xs) s c h e =
    HasShortRuns-append (bits_of x) (send xs) s c (ends-bits_of x s c h.0 e)
      (λ s' c' e'. send-HasShortRuns xs s' c' h.1 e')
