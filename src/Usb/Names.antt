-- ===== src/Usb/Names.antt =====
-- The texts by which JNI/Source/usb.c compares the numbers of a device with a card's.
use piwxrx.Prelude.{
  ℕ, zero, suc, ◌/◌, ◌%◌, ◌^◌, ◌<◌, ◌≡◌, ◌≢◌, ◌↔◌, refl, ◌∙◌, sym, ap, ap₂, true, false, Bool-cases,
  inl, inr, List, [], ◌∷◌, ◌++◌, some, ◌==◌, ==_iff, length, get_or, if◌then◌else◌, arith,
}
use piwxrx.Usb.{hex_digit, usb_id, newline, fgets, chomp, same_text, is_card}

abbrev HasNoNewline : List ℕ → Type 0
HasNoNewline [] = Unit {0}
HasNoNewline (c ∷ s) = (c ≢ newline) × HasNoNewline s

fgets_line :
    (s : List ℕ) (n : ℕ)
    → HasNoNewline s
    → length s < n
    → fgets n (s ++ (newline ∷ [])) ≡ s ++ (newline ∷ [])
fgets_line s zero w h = absurd (omega arith)
fgets_line [] (suc n) w h = refl
fgets_line (c ∷ s) (suc n) w h =
    let other : (c == newline) ≡ false = ground (arith, w.0) in
    rw other (ap (λ r. c ∷ r) (fgets_line s n w.1 (omega arith)))

chomp_line : (s : List ℕ) → chomp (s ++ (newline ∷ [])) ≡ s
chomp_line [] = refl
chomp_line (c ∷ []) = refl
chomp_line (c ∷ d ∷ s) = ap (λ r. c ∷ r) (chomp_line (d ∷ s))

same_text_self : (s : List ℕ) → same_text s s ≡ true
same_text_self [] = refl
same_text_self (c ∷ s) = ground (arith, same_text_self s)

same_text_sound : (s t : List ℕ) → same_text s t ≡ true → s ≡ t
same_text_sound [] [] h = refl
same_text_sound [] (d ∷ t) h = absurd cc
same_text_sound (c ∷ s) [] h = absurd cc
same_text_sound (c ∷ s) (d ∷ t) h = elim (Bool-cases (c == d)) [
  | inl e ↦
      let same : same_text (c ∷ s) (d ∷ t) ≡ same_text s t =
        ap (λ b. if b then same_text s t else false) e in
      ap₂ (λ a r. a ∷ r) ((==_iff c d).0 e) (same_text_sound s t (sym same ∙ h))
  | inr e ↦
      let differ : same_text (c ∷ s) (d ∷ t) ≡ false =
        ap (λ b. if b then same_text s t else false) e in
      absurd (cc (differ, h))
]

hex_digit_inj : (d e : ℕ) → d < 16 → e < 16 → hex_digit d ≡ hex_digit e → d ≡ e
hex_digit_inj d e hd he h = ground arith

hex_digit_text : (d : ℕ) → (hex_digit d ≢ newline)
hex_digit_text d = ground arith

-- Four digits determine a number of 16 bits.
same_digits :
    (m n : ℕ)
    → m < 2 ^ 16
    → n < 2 ^ 16
    → hex_digit (m / 2 ^ 12 % 16) ≡ hex_digit (n / 2 ^ 12 % 16)
    → hex_digit (m / 2 ^ 8 % 16) ≡ hex_digit (n / 2 ^ 8 % 16)
    → hex_digit (m / 2 ^ 4 % 16) ≡ hex_digit (n / 2 ^ 4 % 16)
    → hex_digit (m % 16) ≡ hex_digit (n % 16)
    → m ≡ n
same_digits m n hm hn a b c d =
    let a' = hex_digit_inj (m / 2 ^ 12 % 16) (n / 2 ^ 12 % 16) (omega arith) (omega arith) a in
    let b' = hex_digit_inj (m / 2 ^ 8 % 16) (n / 2 ^ 8 % 16) (omega arith) (omega arith) b in
    let c' = hex_digit_inj (m / 2 ^ 4 % 16) (n / 2 ^ 4 % 16) (omega arith) (omega arith) c in
    let d' = hex_digit_inj (m % 16) (n % 16) (omega arith) (omega arith) d in omega arith

usb_id_inj :
    (v p v' p' : ℕ)
    → (v < 2 ^ 16) × (p < 2 ^ 16) × (v' < 2 ^ 16) × (p' < 2 ^ 16)
    → usb_id v p ≡ usb_id v' p'
    → (v ≡ v') × (p ≡ p')
usb_id_inj v p v' p' h e =
    let at = λ (k : ℕ). ap (λ l. get_or l k 0) e in
    (
      same_digits v v' h.0 h.2 (at 0) (at 1) (at 2) (at 3),
      same_digits p p' h.1 h.3 (at 5) (at 6) (at 7) (at 8),
    )

usb_id-HasNoNewline : (v p : ℕ) → HasNoNewline (usb_id v p)
usb_id-HasNoNewline v p = (
  hex_digit_text (v / 2 ^ 12 % 16),
  (
    hex_digit_text (v / 2 ^ 8 % 16),
    (
      hex_digit_text (v / 2 ^ 4 % 16),
      (
        hex_digit_text (v % 16),
        (
          omega arith,
          (
            hex_digit_text (p / 2 ^ 12 % 16),
            (
              hex_digit_text (p / 2 ^ 8 % 16),
              (hex_digit_text (p / 2 ^ 4 % 16), (hex_digit_text (p % 16), tt)),
            ),
          ),
        ),
      ),
    ),
  ),
)

-- A card whose file has its numbers as text is taken for a device exactly if the numbers agree.
pub is_card_iff :
    (v p v' p' : ℕ)
    → (v < 2 ^ 16) × (p < 2 ^ 16) × (v' < 2 ^ 16) × (p' < 2 ^ 16)
    → (is_card (usb_id v p) (some (usb_id v' p' ++ (newline ∷ []))) ≡ true) ↔ ((v ≡ v') × (p ≡ p'))
is_card_iff v p v' p' h =
    let text = usb_id v' p' in
    let line : chomp (fgets 48 (text ++ (newline ∷ []))) ≡ text =
      ap chomp (fgets_line text 48 (usb_id-HasNoNewline v' p') (omega arith)) ∙ chomp_line text in
    (
      (λ e.
          let found =
            same_text_sound text (usb_id v p) (ap (λ s. same_text s (usb_id v p)) (sym line) ∙ e) in
          usb_id_inj v p v' p' h (sym found)),
      (λ e.
          ap (λ s. same_text s (usb_id v p)) line
          ∙ ap₂ (λ a b. same_text text (usb_id a b)) e.0 e.1
          ∙ same_text_self text),
    )
