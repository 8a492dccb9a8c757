-- ===== src/Usb/Search.antt =====
-- The search for a card in JNI/Source/usb.c, on cards that state their numbers.
use piwxrx.Prelude.{
  ℕ, zero, suc, ◌+◌, ◌*◌, ◌%◌, ◌^◌, ◌≤◌, ◌<◌, ◌≡◌, ◌↔◌, refl, sym, ap, subst, Bool, true, false,
  Bool-cases, ◌⊎◌, ◌∙◌, ==_iff, inl, inr, ℕ_discrete, List, [], ◌∷◌, ◌++◌, Option, none, some,
  length, if◌then◌else◌, arith,
}
use piwxrx.Usb.{
  UsbDev, Numbers, usb_id, newline, is_card, card_loop, take_card, get_usb_card_num, device_loop,
  is_wanted, find_usb_device,
}
use piwxrx.Usb.Names.{is_card_iff}

-- The text of a card's file, none for a card that is not there.
abbrev pub card_text : Option Numbers → Option (List ℕ)
card_text none = none
card_text (some x) = some (usb_id x.vendor x.product ++ (newline ∷ []))

-- Numbers of 16 bits.
abbrev pub AreNumbers : Option Numbers → Type 0
AreNumbers none = Unit {0}
AreNumbers (some x) = (x.vendor < 2 ^ 16) × (x.product < 2 ^ 16)

module _ (v p : ℕ) where
  abbrev pub Has : Option Numbers → Type 0
  Has none = ⊥
  Has (some x) = (v ≡ x.vendor) × (p ≡ x.product)

  is_card-Has :
      (card : Option Numbers)
      → v < 2 ^ 16
      → p < 2 ^ 16
      → AreNumbers card
      → (is_card (usb_id v p) (card_text card) ≡ true) ↔ Has card
  is_card-Has none hv hp w = ((λ e. absurd cc), (λ h. absurd h))
  is_card-Has (some x) hv hp w = is_card_iff v p x.vendor x.product (hv, hp, w.0, w.1)

  module _ (cards : ℕ → Option Numbers) where
    -- The first card from `i` on, of `n`, that has the numbers, or none of them has.
    abbrev pub IsFirst : ℕ → ℕ → Option ℕ → Type 0
    IsFirst i n none = (k : ℕ) → i ≤ k → k < i + n → ¬ Has (cards k)
    IsFirst i n (some j) =
        (i ≤ j) × (j < i + n) × Has (cards j) × ((k : ℕ) → i ≤ k → k < j → ¬ Has (cards k))

    module _ (hv : v < 2 ^ 16) (hp : p < 2 ^ 16) (w : (k : ℕ) → AreNumbers (cards k)) where
      IsFirst-here : (i n : ℕ) → Has (cards i) → IsFirst i (suc n) (some i)
      IsFirst-here i n h = (omega arith, omega arith, h, (λ k a b. absurd (omega arith)))

      IsFirst-later :
          (i n : ℕ) (r : Option ℕ) → ¬ Has (cards i) → IsFirst (suc i) n r → IsFirst i (suc n) r
      IsFirst-later i n none lacks f = λ k a b. elim (ℕ_discrete k i) [
        | yes e ↦ subst (λ m. ¬ Has (cards m)) (sym e) lacks
        | no ne ↦ f k (omega arith) (omega arith)
      ]
      IsFirst-later i n (some j) lacks f = (
        omega arith,
        omega arith,
        f.2,
        (λ k a b. elim (ℕ_discrete k i) [
          | yes e ↦ subst (λ m. ¬ Has (cards m)) (sym e) lacks
          | no ne ↦ f.3 k (omega arith) b
        ]),
      )

      card_loop-IsFirst :
          (n i : ℕ) → IsFirst i n (card_loop (usb_id v p) (λ k. card_text (cards k)) n i)
      unfolding card_loop
      card_loop-IsFirst zero i = λ k a b. absurd (omega arith)
      card_loop-IsFirst (suc n) i =
          let rest = card_loop (usb_id v p) (λ k. card_text (cards k)) n (suc i) in
          let iff = is_card-Has (cards i) hv hp (w i) in
          elim (Bool-cases (is_card (usb_id v p) (card_text (cards i)))) [
            | inl e ↦
                subst (IsFirst i (suc n)) (ap (λ b. if b then some i else rest) (sym e))
                  (IsFirst-here i n (iff.0 e))
            | inr e ↦ subst (IsFirst i (suc n)) (ap (λ b. if b then some i else rest) (sym e)) (
                IsFirst-later i n rest (λ h. absurd (cc (iff.1 h, e)))
                  (card_loop-IsFirst n (suc i)))
          ]

-- The descriptors of a list of devices, all of which can be read.
abbrev pub readable : List Numbers → List (Option Numbers)
readable [] = []
readable (x ∷ xs) = some x ∷ readable xs

-- A device with the numbers stands in the list behind descriptors that can all be read.
pub record IsListed (v p : ℕ) (devices : List (Option Numbers)) : Type 0 where
  pub before : List Numbers
  pub found : Numbers
  pub behind : List (Option Numbers)
  pub place : devices ≡ readable before ++ (some found ∷ behind)
  pub numbers : (v ≡ found.vendor) × (p ≡ found.product)

is_wanted_iff :
    (d : UsbDev) (x : Numbers)
    → (is_wanted d x ≡ true) ↔ ((d.id_vendor ≡ x.vendor) × (d.id_product ≡ x.product))
is_wanted_iff d x = (
  (λ e. (ground arith, ground arith)),
  (λ n. rw ((==_iff d.id_vendor x.vendor).1 n.0, (==_iff d.id_product x.product).1 n.1) refl),
)

device_loop-IsListed :
    (d : UsbDev) (devices : List (Option Numbers))
    → device_loop d devices ≡ true
    → IsListed d.id_vendor d.id_product devices
unfolding device_loop
device_loop-IsListed d [] e = absurd cc
device_loop-IsListed d (none ∷ devices) e = absurd cc
device_loop-IsListed d (some x ∷ devices) e = elim (Bool-cases (is_wanted d x)) [
  | inl w ↦ record {
    before = [];
    found = x;
    behind = devices;
    place = refl;
    numbers = (is_wanted_iff d x).0 w;
  }
  | inr w ↦
      let rest =
        device_loop-IsListed d devices
          (ap (λ b. if b then true else device_loop d devices) (sym w) ∙ e) in
      record {
        before = x ∷ rest.before;
        found = rest.found;
        behind = rest.behind;
        place = ap (λ l. let m : List (Option Numbers) = some x ∷ l in m) rest.place;
        numbers = rest.numbers;
      }
]

device_loop-readable :
    (d : UsbDev) (before : List Numbers) (x : Numbers) (behind : List (Option Numbers))
    → (d.id_vendor ≡ x.vendor) × (d.id_product ≡ x.product)
    → device_loop d (readable before ++ (some x ∷ behind)) ≡ true
unfolding device_loop
device_loop-readable d [] x behind n = rw ((is_wanted_iff d x).1 n) refl
device_loop-readable d (y ∷ before) x behind n = elim (Bool-cases (is_wanted d y)) [
  | inl w ↦ rw w refl
  | inr w ↦ rw w (device_loop-readable d before x behind n)
]

-- What `FindUSBDevice` returns, by a description of a listed device and of a card that is chosen.
abbrev pub Chosen : Type 0 → (Option ℕ → Type 0) → UsbDev → Bool × UsbDev → Type 0
Chosen Listed IsCard d (true, d') =
    Listed
    × (j : ℕ) × IsCard (some j)
    × (d' ≡ record d { part_id = d.id_vendor * 2 ^ 16 + d.id_product; card_num = j % 2 ^ 8 })
Chosen Listed IsCard d (false, d') =
    (¬ Listed × (d' ≡ d))
    ⊎ (Listed × IsCard none × (d' ≡ record d { part_id = d.id_vendor * 2 ^ 16 + d.id_product }))

take_card-Chosen :
    (Listed : Type 0) (IsCard : Option ℕ → Type 0) (d : UsbDev) (r : Option ℕ)
    → Listed
    → IsCard r
    → Chosen Listed IsCard d
        (take_card r (record d { part_id = d.id_vendor * 2 ^ 16 + d.id_product }))
take_card-Chosen Listed IsCard d none l h = inr (l, h, refl)
take_card-Chosen Listed IsCard d (some j) l h = (l, j, h, refl)

-- If the numbers have 16 bits and each card's file states the card's numbers, `FindUSBDevice`
-- returns TRUE exactly if a device with the numbers is listed behind descriptors that can all be
-- read and one of as many cards as there are devices has the numbers. It then leaves the number of
-- the first such card, cut to 8 bits, and both numbers as the part's; with no such device the
-- record is unchanged, and with no such card it has the part's numbers only.
pub find_usb_device_lem :
    (devices : List (Option Numbers)) (cards : ℕ → Option Numbers) (d : UsbDev)
    → d.id_vendor < 2 ^ 16
    → d.id_product < 2 ^ 16
    → ((k : ℕ) → AreNumbers (cards k))
    → Chosen
        (IsListed d.id_vendor d.id_product devices)
        (IsFirst d.id_vendor d.id_product cards 0 (length devices))
        d
        (find_usb_device devices (λ k. card_text (cards k)) d)
unfolding find_usb_device get_usb_card_num
find_usb_device_lem devices cards d hv hp w = elim (Bool-cases (device_loop d devices)) [
  | inl e ↦ rw e (
      take_card-Chosen (IsListed d.id_vendor d.id_product devices)
        (IsFirst d.id_vendor d.id_product cards 0 (length devices)) d
        (card_loop (usb_id d.id_vendor d.id_product) (λ k. card_text (cards k)) (length devices) 0)
        (device_loop-IsListed d devices e)
        (card_loop-IsFirst d.id_vendor d.id_product cards hv hp w (length devices) 0))
  | inr e ↦ rw e (
      inl (
        (λ l. absurd (
            let found = device_loop-readable d l.before l.found l.behind l.numbers in
            let same = ap (device_loop d) l.place in cc)),
        refl,
      ))
]
