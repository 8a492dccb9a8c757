-- ===== src/FileReader/Args.antt =====
-- The arguments of `main` in JNI/Source/filereader.c. `scan_hex` and `scan_int` stand for `sscanf`
-- with %x and %d: none where nothing is read. A gain is a shift, for which C has no negative value.
use piwxrx.Prelude.{
  ℕ, ◌+◌, ◌*◌, ◌/◌, ◌%◌, ◌^◌, List, [], ◌∷◌, Option, none, some, get_or, ◌==◌, if◌then◌else◌,
}
use piwxrx.Usb.{UsbDev}

pub data Mode : Type 0 where
  no_mode file_mode usb_mode_by_id usb_mode_by_card : Mode

-- The local variables of `main` and the globals. The sizes are none before they are set, and the
-- file name is none for a null pointer.
pub record Config : Type 0 where
  pub mode : Mode
  pub filename : Option (List ℕ)
  pub usbdev : UsbDev
  pub gain : ℕ
  pub debug : ℕ
  pub shift1 : ℕ
  pub shift2 : ℕ
  pub rd_buf_size : Option ℕ
  pub wr_buf_size : Option ℕ

abbrev pub file_read_size : ℕ
file_read_size = 1440

abbrev pub usb_read_size : ℕ
usb_read_size = 1024

-- What an argument asks for by its first characters.
pub data Kind : Type 0 where
  plain file_flag id_flag card_flag gain_flag debug_flag little_flag big_flag unknown : Kind

abbrev pub usb_kind : ℕ → Kind
usb_kind c = if c == b'i' then id_flag else if c == b'c' then card_flag else unknown

abbrev pub flag_kind : List ℕ → Kind
flag_kind arg =
    let c = get_or arg 1 0 in
    if c == b'f'
    then file_flag
    else if c == b'u'
    then usb_kind (get_or arg 2 0)
    else if c == b'g'
    then gain_flag
    else if c == b'd'
    then debug_flag
    else if c == b'l'
    then little_flag
    else if c == b'b'
    then big_flag
    else unknown

abbrev pub kind : List ℕ → Kind
kind arg = if get_or arg 0 0 == b'-' then flag_kind arg else plain

-- What the argument that comes next is for.
pub data Next : Type 0 where
  flag file_name vendor product card gain_value : Next

-- The program has left with a code, has read through a null pointer, or goes on.
pub data Parsed : Type 0 where
  left : ℕ → Parsed
  crashed : Parsed
  configured : Config → Parsed

-- %x stores 32 bits at a field of 16: the rest goes to the field behind it.
abbrev pub store_vendor : Option ℕ → UsbDev → UsbDev
store_vendor none d = d
store_vendor (some v) d = record d { id_vendor = v % 2 ^ 16; id_product = v / 2 ^ 16 % 2 ^ 16 }

abbrev pub store_product : Option ℕ → UsbDev → UsbDev
store_product none d = d
store_product (some v) d = record d {
  id_product = v % 2 ^ 16;
  part_id = d.part_id / 2 ^ 16 * 2 ^ 16 + v / 2 ^ 16 % 2 ^ 16;
}

-- Behind the 8 bits of the card's number there are three bytes of padding.
abbrev pub store_card : Option ℕ → UsbDev → UsbDev
store_card none d = d
store_card (some v) d = record d { card_num = v % 2 ^ 8 }

abbrev pub store_gain : Option ℕ → Config → Config
store_gain none c = c
store_gain (some g) c = record c { gain = g }

abbrev pub use_file : Config → Config
use_file c = record c {
  mode = file_mode;
  rd_buf_size = some (file_read_size * 2);
  wr_buf_size = some file_read_size;
}

abbrev pub use_usb : Mode → Config → Config
use_usb mode c = record c {
  mode = mode;
  rd_buf_size = some (usb_read_size * 2);
  wr_buf_size = some usb_read_size;
}

-- The cases of the switch, and what goes on with the arguments that follow.
abbrev pub parse_flag : Kind → (Next → Config → Parsed) → Config → Parsed
parse_flag plain go c = go flag c
parse_flag file_flag go c = go file_name (use_file c)
parse_flag id_flag go c = go vendor (use_usb usb_mode_by_id c)
parse_flag card_flag go c = go card (use_usb usb_mode_by_card c)
parse_flag gain_flag go c = go gain_value c
parse_flag debug_flag go c = go flag (record c { debug = c.debug + 1 })
parse_flag little_flag go c = go flag (record c { shift1 = 0; shift2 = 8 })
parse_flag big_flag go c = go flag (record c { shift1 = 8; shift2 = 0 })
parse_flag unknown go c = left 100

-- The variables before the loop.
abbrev pub defaults : Config
defaults = record {
  mode = no_mode;
  filename = none;
  usbdev = record { id_vendor = 0; id_product = 0; part_id = 0; card_num = 0; record_size = 0 };
  gain = 0;
  debug = 0;
  shift1 = 8;
  shift2 = 0;
  rd_buf_size = none;
  wr_buf_size = none;
}

module _ (scan_hex scan_int : List ℕ → Option ℕ) where
  -- The loop over the arguments.
  unfoldable pub parse_loop : Next → List (List ℕ) → Config → Parsed
  parse_loop file_name [] c = configured (record c { filename = none })
  parse_loop vendor [] c = crashed
  parse_loop product [] c = crashed
  parse_loop card [] c = crashed
  parse_loop gain_value [] c = crashed
  parse_loop flag [] c = configured c
  parse_loop file_name (arg ∷ args) c = parse_loop flag args (record c { filename = some arg })
  parse_loop vendor (arg ∷ args) c =
      parse_loop product args (record c { usbdev = store_vendor (scan_hex arg) c.usbdev })
  parse_loop product (arg ∷ args) c =
      parse_loop flag args (record c { usbdev = store_product (scan_hex arg) c.usbdev })
  parse_loop card (arg ∷ args) c =
      parse_loop flag args (record c { usbdev = store_card (scan_hex arg) c.usbdev })
  parse_loop gain_value (arg ∷ args) c = parse_loop flag args (store_gain (scan_int arg) c)
  parse_loop flag (arg ∷ args) c = parse_flag (kind arg) (λ next c1. parse_loop next args c1) c

  unfoldable pub parse_args : List (List ℕ) → Parsed
  parse_args argv = parse_loop flag argv defaults
