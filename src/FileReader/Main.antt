-- ===== src/FileReader/Main.antt =====
-- `main` of JNI/Source/filereader.c after its arguments: the opening and the loop.
use piwxrx.Prelude.{
  ℕ, zero, suc, Bool, not, List, [], ◌∷◌, ◌++◌, Option, none, some, ◌>>=◌, take, drop,
  if◌then◌else◌,
}
use piwxrx.Prelude.Int.{ℤ}
use piwxrx.Usb.{Numbers, OpenCalls, find_usb_device, open_usb_device}
use piwxrx.FileReader.{convert}
use piwxrx.FileReader.Args.{
  Mode, no_mode, file_mode, usb_mode_by_id, usb_mode_by_card, Config, Parsed, left, crashed,
  configured, usb_read_size,
}

-- What the two calls of malloc, `fopen` and the calls of usb.c meet.
pub record World : Type 0 where
  pub read_block : Bool
  pub write_block : Bool
  pub content : Option (List ℕ)
  pub devices : List (Option Numbers)
  pub cards : ℕ → Option (List ℕ)
  pub calls : OpenCalls

-- `main` has left with a code, has used a null pointer, or is at its loop.
pub data Started : Type 0 where
  exits : ℕ → Started
  crashes : Started
  running : Config → Started

abbrev pub open_file : Option (List ℕ) → Option (List ℕ) → Config → Started
open_file none content c = crashes
open_file (some name) none c = exits 100
open_file (some name) (some content) c = running c

unfoldable pub open_card : World → Config → Started
open_card w c =
    if (open_usb_device w.calls).0
    then running (record c {
      usbdev = record c.usbdev { record_size = usb_read_size };
      shift1 = 0;
      shift2 = 8;
    })
    else exits 100

abbrev pub open_mode : Mode → World → Config → Started
open_mode no_mode w c = exits 100
open_mode file_mode w c = open_file c.filename w.content c
open_mode usb_mode_by_card w c = open_card w c
open_mode usb_mode_by_id w c =
    let (found, d) = find_usb_device w.devices w.cards c.usbdev in
    if found then open_card w (record c { usbdev = d }) else exits 100

unfoldable pub start : World → Config → Started
start w c =
    if not w.read_block
    then exits 200
    else if not w.write_block
    then exits 200
    else open_mode c.mode w c

-- `main` up to its loop, from what the arguments gave.
abbrev pub open_reader : World → Parsed → Started
open_reader w (left code) = exits code
open_reader w crashed = crashes
open_reader w (configured c) = start w c

module _ (shift1 shift2 gain : ℕ) where
  -- The samples written for the bytes of a read.
  unfoldable pub written : List ℕ → List ℤ
  written bytes =
      let (out, samplestowrite) = convert shift1 shift2 gain bytes in take samplestowrite out

  -- A pass of the loop: it ends on an empty read, and otherwise goes on.
  abbrev pub loop_pass : List ℕ → Option (List ℤ) → Option (List ℤ)
  loop_pass [] more = some []
  loop_pass (b ∷ bytes) more = more >>= λ out. some (written (b ∷ bytes) ++ out)

  -- The loop in FILE_MODE, with reads of a size, as long as `fuel` lasts: what it writes.
  unfoldable pub file_loop : ℕ → ℕ → List ℕ → Option (List ℤ)
  file_loop size zero content = none
  file_loop size (suc fuel) content =
      loop_pass (take size content) (file_loop size fuel (drop size content))
