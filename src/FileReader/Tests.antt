-- ===== src/FileReader/Tests.antt =====
-- JNI/Source/filereader.c at concrete inputs.
use piwxrx.Prelude.{ℕ, ◌*◌, ◌%◌, ◌≤◌, ◌≡◌, true, List, [], ◌∷◌, Option, none, some, length, arith}
use piwxrx.Prelude.Int.{ℤ, pos, negsuc}
use piwxrx.Usb.{OpenCalls}
use piwxrx.Fsk.Samples.{pair_means}
use piwxrx.FileReader.{convert}
use piwxrx.FileReader.Args.{configured, parse_args, defaults, file_read_size}
use piwxrx.FileReader.Options.{
  Choice, from_file, with_gain, low_first, word, arguments, all_chosen, parse_args-arguments,
}
use piwxrx.FileReader.Main.{World, open_reader, file_loop}
use piwxrx.FileReader.Convert.{low_byte, high_byte, bytes_of}
use piwxrx.FileReader.Stream.{file_loop_lem}
use piwxrx.FileReader.Buffers.{AtLoop, size_of, open_reader-fits}

abbrev three : List ℤ
three = pos 300 ∷ negsuc 299 ∷ pos 7 ∷ []

file_loop_lem_example :
    (file_loop 0 8 0 (2 * file_read_size) 4 (bytes_of low_byte high_byte three)
      ≡ some (pair_means three))
    × (file_loop 8 0 0 (2 * file_read_size) 4 (bytes_of high_byte low_byte three)
        ≡ some (pair_means three))
file_loop_lem_example =
    file_loop_lem three 4 (omega arith, (omega arith, (omega arith, tt))) (omega arith)

-- A scanner for one digit.
abbrev one_digit : List ℕ → Option ℕ
one_digit [] = none
one_digit (c ∷ s) = some (c % 16)

abbrev name : List ℕ
name = b'a' ∷ b'.' ∷ b'p' ∷ []

abbrev choices : List Choice
choices = low_first ∷ with_gain (b'2' ∷ []) ∷ word name (omega arith) ∷ from_file name ∷ []

parse_args-arguments_example :
    parse_args one_digit one_digit (arguments choices)
    ≡ configured (all_chosen one_digit one_digit choices defaults)
parse_args-arguments_example = parse_args-arguments one_digit one_digit choices

abbrev good_calls : OpenCalls
good_calls = record {
  pcm_open = pos 0;
  params_any = pos 0;
  set_access = pos 0;
  nonblock = pos 0;
  set_resample = pos 0;
  set_format = pos 0;
  set_rate = pos 0;
  set_channels = pos 0;
  set_periods = pos 0;
  set_buffer_size = pos 0;
  hw_params = pos 0;
  prepare = pos 0;
}

abbrev here : World
here = record {
  read_block = true;
  write_block = true;
  content = some (bytes_of low_byte high_byte three);
  devices = [];
  cards = λ k. none;
  calls = good_calls;
}

open_reader-fits_example :
    AtLoop
      (λ c.
        (bytes : List ℕ)
        → length bytes ≤ size_of c.rd_buf_size
        → 2 * length (convert c.shift1 c.shift2 c.gain bytes).0 ≤ size_of c.wr_buf_size)
      (open_reader here (parse_args one_digit one_digit (arguments choices)))
open_reader-fits_example = open_reader-fits one_digit one_digit here (arguments choices)
