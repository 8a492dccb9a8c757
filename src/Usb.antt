-- ===== src/Usb.antt =====
-- JNI/Source/usb.c: the search for a sound card by its USB numbers, its opening and its reading.
-- The devices that libusb lists, the files under /proc/asound and what the calls of ALSA return are
-- arguments. JNI/Include/usb.c is an older copy of this file.
pub mod Names
pub mod Search
pub mod Device
mod Tests
use piwxrx.Prelude.{
  ℕ, zero, suc, ◌+◌, ◌-◌, ◌*◌, ◌/◌, ◌%◌, ◌^◌, Bool, true, false, ◌&&◌, List, [], ◌∷◌, ◌++◌, Option,
  none, some, ◌==◌, ltb, length, take, if◌then◌else◌,
}
use piwxrx.Prelude.Int.{ℤ, pos, negsuc, pos_part, eqb_ℤ, ltb_ℤ}

-- `USB_AUDIO_DEV`.
pub record UsbDev : Type 0 where
  pub id_vendor : ℕ
  pub id_product : ℕ
  pub part_id : ℕ
  pub card_num : ℕ
  pub record_size : ℕ

-- A lower-case digit of %x, and %04x of a number of 16 bits.
abbrev pub hex_digit : ℕ → ℕ
hex_digit d = if ltb d 10 then b'0' + d else b'a' + (d - 10)

abbrev pub hex4 : ℕ → List ℕ
hex4 n =
    hex_digit (n / 2 ^ 12 % 16)
    ∷ hex_digit (n / 2 ^ 8 % 16)
    ∷ hex_digit (n / 2 ^ 4 % 16)
    ∷ hex_digit (n % 16)
    ∷ []

abbrev pub usb_id : ℕ → ℕ → List ℕ
usb_id vendor product = hex4 vendor ++ (b':' ∷ hex4 product)

abbrev pub newline : ℕ
newline = 10

-- `fgets` with room for `n` bytes: up to the end of the line, which is kept.
abbrev pub fgets : ℕ → List ℕ → List ℕ
fgets zero text = []
fgets (suc n) [] = []
fgets (suc n) (c ∷ text) = let rest = fgets n text in if c == newline then c ∷ [] else c ∷ rest

-- The last character is cut off where it is the end of the line.
abbrev pub chomp : List ℕ → List ℕ
chomp [] = []
chomp (c ∷ []) = if c == newline then [] else c ∷ []
chomp (c ∷ d ∷ text) = c ∷ chomp (d ∷ text)

-- `strcmp` with 0 for equal.
abbrev pub same_text : List ℕ → List ℕ → Bool
same_text [] [] = true
same_text (c ∷ s) (d ∷ t) = let rest = same_text s t in if c == d then rest else false
same_text _ _ = false

-- The test of `getUSBCardNum` on the file of a card, none where it cannot be opened. For an empty
-- file, where the code reads what the array held, the text is empty here.
abbrev pub is_card : List ℕ → Option (List ℕ) → Bool
is_card usb_id none = false
is_card usb_id (some text) = same_text (chomp (fgets 48 text)) usb_id

-- The loop of `getUSBCardNum` from card `i`, with `n` cards left.
unfoldable pub card_loop : List ℕ → (ℕ → Option (List ℕ)) → ℕ → ℕ → Option ℕ
card_loop usb_id cards zero i = none
card_loop usb_id cards (suc n) i =
    let rest = card_loop usb_id cards n (suc i) in if is_card usb_id (cards i) then some i else rest

abbrev pub take_card : Option ℕ → UsbDev → Bool × UsbDev
take_card none d = (false, d)
take_card (some i) d = (true, record d { card_num = i % 2 ^ 8 })

unfoldable pub get_usb_card_num : (ℕ → Option (List ℕ)) → ℕ → List ℕ → UsbDev → Bool × UsbDev
get_usb_card_num cards ndev usb_id d = take_card (card_loop usb_id cards ndev 0) d

-- The two numbers in the descriptor of a device.
pub record Numbers : Type 0 where
  pub vendor : ℕ
  pub product : ℕ

abbrev pub is_wanted : UsbDev → Numbers → Bool
is_wanted d x = d.id_vendor == x.vendor && d.id_product == x.product

-- The loop of `FindUSBDevice`: whether the device is listed before a descriptor that cannot be read.
unfoldable pub device_loop : UsbDev → List (Option Numbers) → Bool
device_loop d [] = false
device_loop d (none ∷ devices) = false
device_loop d (some x ∷ devices) =
    let rest = device_loop d devices in if is_wanted d x then true else rest

-- The cards are searched up to the number of USB devices.
unfoldable pub find_usb_device :
    List (Option Numbers) → (ℕ → Option (List ℕ)) → UsbDev → Bool × UsbDev
find_usb_device devices cards d =
    if device_loop d devices
    then get_usb_card_num cards (length devices) (usb_id d.id_vendor d.id_product)
        (record d { part_id = d.id_vendor * 2 ^ 16 + d.id_product })
    else (false, d)

-- What the calls of `OpenUSBDevice` return, in the code's order.
pub record OpenCalls : Type 0 where
  pub pcm_open : ℤ
  pub params_any : ℤ
  pub set_access : ℤ
  pub nonblock : ℤ
  pub set_resample : ℤ
  pub set_format : ℤ
  pub set_rate : ℤ
  pub set_channels : ℤ
  pub set_periods : ℤ
  pub set_buffer_size : ℤ
  pub hw_params : ℤ
  pub prepare : ℤ

abbrev pub in_order : OpenCalls → List ℤ
in_order c =
    c.pcm_open ∷ c.params_any ∷ c.set_access ∷ c.nonblock ∷ c.set_resample ∷ c.set_format
    ∷ c.set_rate ∷ c.set_channels ∷ c.set_periods ∷ c.set_buffer_size ∷ c.hw_params ∷ c.prepare ∷ []

-- Calls are made up to the first that fails: whether all succeed, and how many are made.
abbrev pub until_failure : List ℤ → Bool × ℕ
until_failure [] = (true, 0)
until_failure (r ∷ rs) =
    let (ok, made) = until_failure rs in if ltb_ℤ r (pos 0) then (false, 1) else (ok, suc made)

-- `OpenUSBDevice`, and whether the card is left open.
unfoldable pub open_usb_device : OpenCalls → Bool × Bool
open_usb_device c =
    ((until_failure (in_order c)).0, (if ltb_ℤ c.pcm_open (pos 0) then false else true))

-- -EPIPE
abbrev pub broken_pipe : ℤ
broken_pipe = negsuc 31

-- The loop of `readUSB` by the results of `snd_pcm_readn`: the bytes read, and how often the card
-- is prepared again. None stands for a loop that goes on.
unfoldable pub read_usb : List ℤ → Option ℕ × ℕ
read_usb [] = (none, 0)
read_usb (nread ∷ results) =
    let (bytes, prepared) = read_usb results in
    if eqb_ℤ nread broken_pipe
    then (bytes, suc prepared)
    else if ltb_ℤ nread (pos 0)
    then (some 0, 0)
    else if eqb_ℤ nread (pos 0)
    then (bytes, prepared)
    else (some (pos_part nread * 2), 0)
