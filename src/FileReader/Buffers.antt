-- ===== src/FileReader/Buffers.antt =====
-- The two buffers of `main` in JNI/Source/filereader.c.
use piwxrx.Prelude.{
  ℕ, ◌+◌, ◌-◌, ◌*◌, ◌%◌, ◌≤◌, ◌≡◌, refl, ◌∙◌, sym, ap, Bool, true, false, not, List, [], ◌∷◌,
  Option, none, some, length, length-take, take, if◌then◌else◌, arith,
}
use piwxrx.Prelude.Int.{ℤ, pos}
use piwxrx.Usb.{find_usb_device, open_usb_device}
use piwxrx.FileReader.{insample, convert_loop, convert}
use piwxrx.FileReader.Args.{
  Mode, no_mode, file_mode, usb_mode_by_id, usb_mode_by_card, Config, Kind, plain, file_flag,
  id_flag, card_flag, gain_flag, debug_flag, little_flag, big_flag, unknown, Next, flag, file_name,
  vendor, product, card, gain_value, Parsed, left, crashed, configured, parse_flag, parse_loop,
  parse_args, kind, defaults, store_vendor, store_product, store_card, store_gain, use_file,
  use_usb,
}
use piwxrx.FileReader.Main.{
  World, Started, exits, crashes, running, open_file, open_card, open_mode, start, open_reader,
}

-- The sizes that go with a mode.
abbrev HasSizes : Mode → Option ℕ → Option ℕ → Type 0
HasSizes no_mode rd wr = Unit {0}
HasSizes file_mode rd wr = (rd ≡ some 2880) × (wr ≡ some 1440)
HasSizes usb_mode_by_id rd wr = (rd ≡ some 2048) × (wr ≡ some 1024)
HasSizes usb_mode_by_card rd wr = (rd ≡ some 2048) × (wr ≡ some 1024)

abbrev IsSized : Config → Type 0
IsSized c = HasSizes c.mode c.rd_buf_size c.wr_buf_size

abbrev AllSized : Parsed → Type 0
AllSized (left code) = Unit {0}
AllSized crashed = Unit {0}
AllSized (configured c) = IsSized c

store_gain-IsSized : (g : Option ℕ) (c : Config) → IsSized c → IsSized (store_gain g c)
store_gain-IsSized none c h = h
store_gain-IsSized (some g) c h = h

parse_flag-AllSized :
    (k : Kind) (go : Next → Config → Parsed) (c : Config)
    → ((next : Next) (c1 : Config) → IsSized c1 → AllSized (go next c1))
    → IsSized c
    → AllSized (parse_flag k go c)
parse_flag-AllSized plain go c f h = f flag c h
parse_flag-AllSized file_flag go c f h = f file_name (use_file c) (refl, refl)
parse_flag-AllSized id_flag go c f h = f vendor (use_usb usb_mode_by_id c) (refl, refl)
parse_flag-AllSized card_flag go c f h = f card (use_usb usb_mode_by_card c) (refl, refl)
parse_flag-AllSized gain_flag go c f h = f gain_value c h
parse_flag-AllSized debug_flag go c f h = f flag (record c { debug = c.debug + 1 }) h
parse_flag-AllSized little_flag go c f h = f flag (record c { shift1 = 0; shift2 = 8 }) h
parse_flag-AllSized big_flag go c f h = f flag (record c { shift1 = 8; shift2 = 0 }) h
parse_flag-AllSized unknown go c f h = tt

module _ (scan_hex scan_int : List ℕ → Option ℕ) where
  parse_loop-AllSized :
      (args : List (List ℕ)) (next : Next) (c : Config)
      → IsSized c
      → AllSized (parse_loop scan_hex scan_int next args c)
  unfolding parse_loop
  parse_loop-AllSized [] flag c h = h
  parse_loop-AllSized [] file_name c h = h
  parse_loop-AllSized [] vendor c h = tt
  parse_loop-AllSized [] product c h = tt
  parse_loop-AllSized [] card c h = tt
  parse_loop-AllSized [] gain_value c h = tt
  parse_loop-AllSized (arg ∷ args) flag c h =
      parse_flag-AllSized (kind arg) (λ next c1. parse_loop scan_hex scan_int next args c1) c
        (parse_loop-AllSized args) h
  parse_loop-AllSized (arg ∷ args) file_name c h =
      parse_loop-AllSized args flag (record c { filename = some arg }) h
  parse_loop-AllSized (arg ∷ args) vendor c h =
      parse_loop-AllSized args product (record c { usbdev = store_vendor (scan_hex arg) c.usbdev })
        h
  parse_loop-AllSized (arg ∷ args) product c h =
      parse_loop-AllSized args flag (record c { usbdev = store_product (scan_hex arg) c.usbdev }) h
  parse_loop-AllSized (arg ∷ args) card c h =
      parse_loop-AllSized args flag (record c { usbdev = store_card (scan_hex arg) c.usbdev }) h
  parse_loop-AllSized (arg ∷ args) gain_value c h =
      parse_loop-AllSized args flag (store_gain (scan_int arg) c)
        (store_gain-IsSized (scan_int arg) c h)

-- The program is at its loop, with the property.
abbrev pub AtLoop : (Config → Type 0) → Started → Type 0
AtLoop P (exits code) = Unit {0}
AtLoop P crashes = Unit {0}
AtLoop P (running c) = P c

-- Nothing where no size is set.
abbrev pub size_of : Option ℕ → ℕ
size_of none = 0
size_of (some n) = n

-- A block twice as large as the other.
abbrev IsDouble : Config → Type 0
IsDouble c = size_of c.rd_buf_size ≡ 2 * size_of c.wr_buf_size

AtLoop-if :
    (P : Config → Type 0) (b : Bool) (x y : Started)
    → AtLoop P x
    → AtLoop P y
    → AtLoop P (if b then x else y)
AtLoop-if P true x y hx hy = hx
AtLoop-if P false x y hx hy = hy

double :
    (rd wr : Option ℕ) (m n : ℕ)
    → rd ≡ some m
    → wr ≡ some n
    → m ≡ 2 * n
    → size_of rd ≡ 2 * size_of wr
double rd wr m n r w e = ap size_of r ∙ e ∙ ap (λ s. 2 * size_of s) (sym w)

open_card-IsDouble : (w : World) (c : Config) → IsDouble c → AtLoop IsDouble (open_card w c)
unfolding open_card
open_card-IsDouble w c h = AtLoop-if IsDouble (open_usb_device w.calls).0 _ (exits 100) h tt

open_file-IsDouble :
    (name content : Option (List ℕ)) (c : Config)
    → IsDouble c
    → AtLoop IsDouble (open_file name content c)
open_file-IsDouble none content c h = tt
open_file-IsDouble (some name) none c h = tt
open_file-IsDouble (some name) (some content) c h = h

open_mode-IsDouble :
    (m : Mode) (w : World) (c : Config)
    → HasSizes m c.rd_buf_size c.wr_buf_size
    → AtLoop IsDouble (open_mode m w c)
open_mode-IsDouble no_mode w c h = tt
open_mode-IsDouble file_mode w c h =
    open_file-IsDouble c.filename w.content c
      (double c.rd_buf_size c.wr_buf_size 2880 1440 h.0 h.1 refl)
open_mode-IsDouble usb_mode_by_card w c h =
    open_card-IsDouble w c (double c.rd_buf_size c.wr_buf_size 2048 1024 h.0 h.1 refl)
open_mode-IsDouble usb_mode_by_id w c h =
    let found = find_usb_device w.devices w.cards c.usbdev in
    AtLoop-if IsDouble found.0 (open_card w (record c { usbdev = found.1 })) (exits 100)
      (open_card-IsDouble w (record c { usbdev = found.1 })
        (double c.rd_buf_size c.wr_buf_size 2048 1024 h.0 h.1 refl))
      tt

open_reader-IsDouble : (w : World) (p : Parsed) → AllSized p → AtLoop IsDouble (open_reader w p)
unfolding start
open_reader-IsDouble w (left code) h = tt
open_reader-IsDouble w crashed h = tt
open_reader-IsDouble w (configured c) h = AtLoop-if IsDouble (not w.read_block) (exits 200) _ tt (
    AtLoop-if IsDouble (not w.write_block) (exits 200) (open_mode c.mode w c) tt
      (open_mode-IsDouble c.mode w c h))

-- A conversion stores at most a sample for four bytes, and one more on an odd start.
length-convert_loop :
    (shift1 shift2 gain : ℕ) (bytes : List ℕ) (i : ℕ) (z : ℤ)
    → 4 * length (convert_loop shift1 shift2 gain i z bytes) ≤ length bytes + 2 * (i % 2)
unfolding convert_loop
length-convert_loop shift1 shift2 gain [] i z = omega arith
length-convert_loop shift1 shift2 gain (b ∷ []) i z = omega arith
length-convert_loop shift1 shift2 gain (b1 ∷ b2 ∷ bytes) i z =
    let rest =
      length-convert_loop shift1 shift2 gain bytes (i + 1) (insample shift1 shift2 gain b1 b2) in
    ground (arith, rest)

stored_fit :
    (c : Config) (bytes : List ℕ)
    → IsDouble c
    → length bytes ≤ size_of c.rd_buf_size
    → 2 * length (convert c.shift1 c.shift2 c.gain bytes).0 ≤ size_of c.wr_buf_size
unfolding convert
stored_fit c bytes d h =
    let n = length bytes - length bytes % 2 in
    let few = length-convert_loop c.shift1 c.shift2 c.gain (take n bytes) 0 (pos 0) in
    let cut = length-take n bytes in omega (arith, few, cut)

-- Whatever the arguments and whatever the calls return: if `main` reaches its loop, then the
-- samples that a pass stores for any bytes that fit its block for reading fit its block for
-- writing, at two bytes for each.
pub open_reader-fits :
    (scan_hex scan_int : List ℕ → Option ℕ) (w : World) (argv : List (List ℕ))
    → AtLoop
        (λ c.
          (bytes : List ℕ)
          → length bytes ≤ size_of c.rd_buf_size
          → 2 * length (convert c.shift1 c.shift2 c.gain bytes).0 ≤ size_of c.wr_buf_size)
        (open_reader w (parse_args scan_hex scan_int argv))
unfolding parse_args
open_reader-fits scan_hex scan_int w argv =
    AtLoop-map (open_reader w (parse_args scan_hex scan_int argv)) (
      open_reader-IsDouble w (parse_args scan_hex scan_int argv)
        (parse_loop-AllSized scan_hex scan_int argv flag defaults tt))
  where
    AtLoop-map :
        (s : Started)
        → AtLoop IsDouble s
        → AtLoop
            (λ c.
              (bytes : List ℕ)
              → length bytes ≤ size_of c.rd_buf_size
              → 2 * length (convert c.shift1 c.shift2 c.gain bytes).0 ≤ size_of c.wr_buf_size)
            s
    AtLoop-map (exits code) h = tt
    AtLoop-map crashes h = tt
    AtLoop-map (running c) h = λ bytes fits. stored_fit c bytes h fits
