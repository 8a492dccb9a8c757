-- ===== src/Usb/Tests.antt =====
-- JNI/Source/usb.c on concrete devices, cards and results.
use piwxrx.Prelude.{ℕ, zero, suc, List, [], ◌∷◌, Option, none, some, length, arith}
use piwxrx.Prelude.Int.{ℤ, pos}
use piwxrx.Usb.{UsbDev, Numbers, find_usb_device, broken_pipe}
use piwxrx.Usb.Search.{card_text, AreNumbers, IsFirst, IsListed, Chosen, find_usb_device_lem}

abbrev dongle : Numbers
dongle = record { vendor = 3034; product = 10296 }

abbrev hub : Numbers
hub = record { vendor = 7531; product = 2 }

abbrev listed : List (Option Numbers)
listed = some hub ∷ some dongle ∷ none ∷ []

-- The device is the second card.
abbrev two_cards : ℕ → Option Numbers
two_cards zero = some hub
two_cards (suc zero) = some dongle
two_cards (suc (suc k)) = none

abbrev wanted : UsbDev
wanted = record { id_vendor = 3034; id_product = 10296; part_id = 0; card_num = 0; record_size = 0 }

two_cards-AreNumbers : (k : ℕ) → AreNumbers (two_cards k)
two_cards-AreNumbers zero = (omega arith, omega arith)
two_cards-AreNumbers (suc zero) = (omega arith, omega arith)
two_cards-AreNumbers (suc (suc k)) = tt

find_usb_device_lem_example :
    Chosen
      (IsListed 3034 10296 listed)
      (IsFirst 3034 10296 two_cards 0 (length listed))
      wanted
      (find_usb_device listed (λ k. card_text (two_cards k)) wanted)
find_usb_device_lem_example =
    find_usb_device_lem listed two_cards wanted (omega arith) (omega arith) two_cards-AreNumbers

abbrev retries : List ℤ
retries = pos 0 ∷ broken_pipe ∷ pos 0 ∷ broken_pipe ∷ []
