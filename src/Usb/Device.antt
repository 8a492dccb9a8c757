-- ===== src/Usb/Device.antt =====
-- The opening and the reading of a card in JNI/Source/usb.c by what the calls of ALSA return.
use piwxrx.Prelude.{
  ℕ, suc, ◌*◌, ◌<◌, ◌≡◌, ◌≢◌, ◌↔◌, refl, ◌∙◌, ap, true, List, [], ◌∷◌, ◌++◌, none, some, arith,
}
use piwxrx.Prelude.Int.{ℤ, pos, negsuc, neg_part}
use piwxrx.Usb.{OpenCalls, in_order, until_failure, open_usb_device, broken_pipe, read_usb}

-- No call fails.
abbrev pub AreGood : List ℤ → Type 0
AreGood [] = Unit {0}
AreGood (r ∷ rs) = (neg_part r ≡ 0) × AreGood rs

until_failure_good : (rs : List ℤ) → ((until_failure rs).0 ≡ true) ↔ AreGood rs
until_failure_good [] = ((λ e. tt), (λ h. refl))
until_failure_good (pos n ∷ rs) =
    let rest = until_failure_good rs in
    ((λ e. (refl, rest.0 (ground (arith, e)))), (λ h. ground (arith, rest.1 h.1)))
until_failure_good (negsuc n ∷ rs) =
    ((λ e. absurd (ground (arith, e))), (λ h. absurd (omega (arith, h.0))))

-- `OpenUSBDevice` returns TRUE exactly if none of its twelve calls fails. The card is open after
-- it whenever the first call succeeds, also where it returns FALSE: it is not closed again.
pub open_usb_device_lem :
    (c : OpenCalls)
    → (((open_usb_device c).0 ≡ true) ↔ AreGood (in_order c))
      × (((open_usb_device c).1 ≡ true) ↔ (neg_part c.pcm_open ≡ 0))
unfolding open_usb_device
open_usb_device_lem c =
    (until_failure_good (in_order c), ((λ e. ground (arith, e)), (λ e. ground (arith, e))))

-- Results on which `readUSB` tries again: nothing read, or a broken pipe.
abbrev pub AreRetries : List ℤ → Type 0
AreRetries [] = Unit {0}
AreRetries (pos n ∷ rs) = (n ≡ 0) × AreRetries rs
AreRetries (negsuc n ∷ rs) = (n ≡ 31) × AreRetries rs

-- How many of them are broken pipes.
abbrev pub breaks : List ℤ → ℕ
breaks [] = 0
breaks (pos n ∷ rs) = breaks rs
breaks (negsuc n ∷ rs) = suc (breaks rs)

-- The bytes of a result that ends the loop: two for each frame, none for an error.
abbrev pub bytes_of : ℤ → ℕ
bytes_of (pos n) = n * 2
bytes_of (negsuc n) = 0

abbrev pub Ends : ℤ → Type 0
Ends (pos n) = 0 < n
Ends (negsuc n) = n ≢ 31

read_usb-Ends : (r : ℤ) (more : List ℤ) → Ends r → read_usb (r ∷ more) ≡ (some (bytes_of r), 0)
unfolding read_usb
read_usb-Ends (pos n) more h = ground arith
read_usb-Ends (negsuc n) more h = ground arith

read_usb-break :
    (rs : List ℤ) → read_usb (broken_pipe ∷ rs) ≡ ((read_usb rs).0, suc (read_usb rs).1)
unfolding read_usb
read_usb-break rs = refl

read_usb-empty : (rs : List ℤ) → read_usb (pos 0 ∷ rs) ≡ read_usb rs
unfolding read_usb
read_usb-empty rs = refl

-- Whatever number of empty reads and broken pipes comes first, `readUSB` returns on the first
-- result that is neither, with the bytes of its frames or with 0 for another error, and has
-- prepared the card again once for each broken pipe.
pub read_usb_lem :
    (retries : List ℤ) (r : ℤ) (more : List ℤ)
    → AreRetries retries
    → Ends r
    → read_usb (retries ++ (r ∷ more)) ≡ (some (bytes_of r), breaks retries)
read_usb_lem [] r more w h = read_usb-Ends r more h
read_usb_lem (pos n ∷ rs) r more w h =
    rw w.0 (read_usb-empty (rs ++ (r ∷ more)) ∙ read_usb_lem rs r more w.1 h)
read_usb_lem (negsuc n ∷ rs) r more w h =
    rw w.0
      (read_usb-break (rs ++ (r ∷ more)) ∙ ap (λ p. (p.0, suc p.1)) (read_usb_lem rs r more w.1 h))

-- While every read is empty or a broken pipe, `readUSB` does not return.
pub read_usb-waits : (retries : List ℤ) → AreRetries retries → (read_usb retries).0 ≡ none
unfolding read_usb
read_usb-waits [] w = refl
read_usb-waits (pos n ∷ rs) w = rw (w.0, read_usb-empty rs) (read_usb-waits rs w.1)
read_usb-waits (negsuc n ∷ rs) w = rw w.0 (read_usb-waits rs w.1)
