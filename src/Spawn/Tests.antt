-- ===== src/Spawn/Tests.antt =====
-- The child process of JNI/Common/linux_spawn.c at concrete inputs.
use piwxrx.Prelude.{ℕ, ◌≡◌, refl, true, false, List, [], ◌∷◌, none, some, arith}
use piwxrx.Prelude.Int.{pos}
use piwxrx.Spawn.{
  parse_command, to_child, errors, read_end, write_end, other, Files, install, Fds, Child, Calls,
  start_child, close_child_process,
}
use piwxrx.Spawn.Command.{words, all_words, join, HaveNoSpace, parse_command_lem}
use piwxrx.Spawn.Pipes.{Succeed, IsConnected, start_child_lem, close_child_process-start_child}

-- `a -b`
abbrev command : List ℕ
command = b'a' ∷ b' ' ∷ b'-' ∷ b'b' ∷ []

parse_command_lem_example :
    (parse_command command ≡ some ((b'a' ∷ []) ∷ (b'-' ∷ b'b' ∷ []) ∷ []))
    × HaveNoSpace (all_words command)
    × (join (words command).0 (words command).1 ≡ command)
parse_command_lem_example = parse_command_lem command

abbrev nothing : Files
nothing k = none

abbrev zeros : Fds
zeros = record { rd = 0; wr = 0 }

abbrev before : Child
before = record {
  files = nothing;
  parent_read = zeros;
  parent_write = zeros;
  stderr_pipe = zeros;
  child_proc = pos 0;
  capture_exit = false;
}

abbrev r : Fds
r = record { rd = 3; wr = 4 }

abbrev w : Fds
w = record { rd = 5; wr = 6 }

abbrev e : Fds
e = record { rd = 7; wr = 8 }

abbrev all_succeed : Calls
all_succeed = record {
  sigaction = pos 0;
  read_pipe = some r;
  write_pipe = some w;
  stderr_pipe = some e;
  fork = pos 99;
}

calls-Succeed : Succeed all_succeed r w e
calls-Succeed = record {
  reads = refl;
  writes = refl;
  catches = refl;
  forks = refl;
  distinct = omega arith;
}

start_child_lem_example :
    ((start_child all_succeed before).0 ≡ true)
    × IsConnected (start_child all_succeed before).1.files nothing r w e
start_child_lem_example = start_child_lem before calls-Succeed

-- Number 4 has gone to a socket in between.
abbrev stopped : Child
stopped =
    let c1 = (start_child all_succeed before).1 in
    close_child_process (record c1 { files = install 4 (other 1) c1.files })

close_child_process-start_child_example :
    (stopped.files 3 ≡ none)
    × (stopped.files 4 ≡ none)
    × (stopped.files 6 ≡ some (write_end to_child))
    × (stopped.files 7 ≡ some (read_end errors))
    × (stopped.files 8 ≡ some (write_end errors))
close_child_process-start_child_example = close_child_process-start_child before 1 calls-Succeed
