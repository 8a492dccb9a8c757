-- ===== src/FileReader/Options.antt =====
-- Options written as the arguments of JNI/Source/filereader.c.
use piwxrx.Prelude.{
  ℕ, ◌+◌, ◌≡◌, ◌≢◌, refl, ◌∙◌, ap, false, List, [], ◌∷◌, Option, some, get_or, ◌==◌, if◌then◌else◌,
  arith,
}
use piwxrx.FileReader.Args.{
  usb_mode_by_id, usb_mode_by_card, Config, flag_kind, plain, flag, configured, parse_flag,
  parse_loop, parse_args, defaults, store_vendor, store_product, store_card, store_gain, use_file,
  use_usb,
}

pub data Choice : Type 0 where
  from_file : List ℕ → Choice
  by_id : List ℕ → List ℕ → Choice
  by_card : List ℕ → Choice
  with_gain : List ℕ → Choice
  verbose low_first high_first : Choice
  word : (arg : List ℕ) → get_or arg 0 0 ≢ b'-' → Choice

-- The arguments for a choice.
abbrev pub written : Choice → List (List ℕ) → List (List ℕ)
written (from_file name) rest = (b'-' ∷ b'f' ∷ []) ∷ name ∷ rest
written (by_id v p) rest = (b'-' ∷ b'u' ∷ b'i' ∷ []) ∷ v ∷ p ∷ rest
written (by_card n) rest = (b'-' ∷ b'u' ∷ b'c' ∷ []) ∷ n ∷ rest
written (with_gain g) rest = (b'-' ∷ b'g' ∷ []) ∷ g ∷ rest
written verbose rest = (b'-' ∷ b'd' ∷ []) ∷ rest
written low_first rest = (b'-' ∷ b'l' ∷ []) ∷ rest
written high_first rest = (b'-' ∷ b'b' ∷ []) ∷ rest
written (word arg ne) rest = arg ∷ rest

abbrev pub arguments : List Choice → List (List ℕ)
arguments [] = []
arguments (choice ∷ choices) = written choice (arguments choices)

module _ (scan_hex scan_int : List ℕ → Option ℕ) where
  -- What a choice changes.
  abbrev pub chosen : Choice → Config → Config
  chosen (from_file name) c = record (use_file c) { filename = some name }
  chosen (by_id v p) c = record (use_usb usb_mode_by_id c) {
    usbdev = store_product (scan_hex p) (store_vendor (scan_hex v) c.usbdev);
  }
  chosen (by_card n) c = record (use_usb usb_mode_by_card c) {
    usbdev = store_card (scan_hex n) c.usbdev;
  }
  chosen (with_gain g) c = store_gain (scan_int g) c
  chosen verbose c = record c { debug = c.debug + 1 }
  chosen low_first c = record c { shift1 = 0; shift2 = 8 }
  chosen high_first c = record c { shift1 = 8; shift2 = 0 }
  chosen (word arg ne) c = c

  abbrev pub all_chosen : List Choice → Config → Config
  all_chosen [] c = c
  all_chosen (choice ∷ choices) c = all_chosen choices (chosen choice c)

  parse_loop-written :
      (choice : Choice) (rest : List (List ℕ)) (c : Config)
      → parse_loop scan_hex scan_int flag (written choice rest) c
        ≡ parse_loop scan_hex scan_int flag rest (chosen choice c)
  unfolding parse_loop
  parse_loop-written (from_file name) rest c = refl
  parse_loop-written (by_id v p) rest c = refl
  parse_loop-written (by_card n) rest c = refl
  parse_loop-written (with_gain g) rest c = refl
  parse_loop-written verbose rest c = refl
  parse_loop-written low_first rest c = refl
  parse_loop-written high_first rest c = refl
  parse_loop-written (word arg ne) rest c =
      let other : (get_or arg 0 0 == b'-') ≡ false = ground arith in
      ap
        (λ b.
          parse_flag (if b then flag_kind arg else plain)
            (λ next c1. parse_loop scan_hex scan_int next rest c1) c)
        other

  parse_loop-arguments :
      (choices : List Choice) (c : Config)
      → parse_loop scan_hex scan_int flag (arguments choices) c ≡ configured (all_chosen choices c)
  unfolding parse_loop
  parse_loop-arguments [] c = refl
  parse_loop-arguments (choice ∷ choices) c =
      parse_loop-written choice (arguments choices) c
      ∙ parse_loop-arguments choices (chosen choice c)

  -- Every sequence of choices can be written as arguments: `main` reads them back in order, so that
  -- a later choice overrides an earlier one, and words that do not begin with a dash change
  -- nothing.
  pub parse_args-arguments :
      (choices : List Choice)
      → parse_args scan_hex scan_int (arguments choices) ≡ configured (all_chosen choices defaults)
  unfolding parse_args
  parse_args-arguments choices = parse_loop-arguments choices defaults
