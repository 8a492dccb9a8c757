-- ===== src/Spawn.antt =====
-- JNI/Common/linux_spawn.c: the child process, its pipes and the thread that copies its errors.
-- What the system's calls return is an argument; the table of open files is part of the state.
pub mod Command
pub mod Pipes
pub mod Redirect
mod Tests
use Prim.Native.String.{String}
use piwxrx.Prelude.{
  ℕ, zero, suc, ◌+◌, ◌≡◌, Bool, true, false, List, [], ◌∷◌, Option, none, some, ◌>>=◌, ◌==◌, leb,
  length, if◌then◌else◌,
}
use piwxrx.Prelude.Int.{ℤ, pos, negsuc, pos_part, eqb_ℤ, ltb_ℤ, leb_ℤ}
use piwxrx.Errno.{geterrno}

-- `strsep` for a space: the token, and what follows the space.
unfoldable pub strsep : List ℕ → List ℕ × Option (List ℕ)
strsep [] = ([], none)
strsep (c ∷ s) = let (tok, rest) = strsep s in if c == b' ' then ([], some s) else (c ∷ tok, rest)

-- The loop that splits the command line, as long as `fuel` lasts.
unfoldable pub split_loop : ℕ → List ℕ → Option (List (List ℕ))
split_loop zero cmd = none
split_loop (suc fuel) cmd =
    let (tok, rest) = strsep cmd in
    elim rest [
      | none ↦ some (tok ∷ [])
      | some cmd' ↦ split_loop fuel cmd' >>= λ toks. some (tok ∷ toks)
    ]

-- The places of `argv`.
abbrev pub max_argv : ℕ
max_argv = 24

-- `argv` without the closing NULL. None stands for a write past the array's end.
unfoldable pub parse_command : List ℕ → Option (List (List ℕ))
parse_command cmdline = split_loop (suc (length cmdline)) cmdline >>= λ argv.
    if leb (length argv + 1) max_argv then some argv else none

-- The pipes: what the child writes, what it reads, and its errors.
pub data Pipe : Type 0 where
  from_child to_child errors : Pipe

pub data File : Type 0 where
  read_end : Pipe → File
  write_end : Pipe → File
  other : ℕ → File

-- The files open in a process, by number.
abbrev pub Files : Type 0
Files = ℕ → Option File

-- `close`, and a call that opens a file with a number.
abbrev pub close : ℕ → Files → Files
close fd files k = if k == fd then none else files k

abbrev pub install : ℕ → File → Files → Files
install fd file files k = if k == fd then some file else files k

-- The two numbers that `pipe` gives, READ_FD first.
pub record Fds : Type 0 where
  pub rd : ℕ
  pub wr : ℕ

abbrev pub install_pipe : Pipe → Fds → Files → Files
install_pipe p fds files = install fds.wr (write_end p) (install fds.rd (read_end p) files)

-- The globals `pipes`, `stderr_capture` and `child_proc`, and the files of the process.
pub record Child : Type 0 where
  pub files : Files
  pub parent_read : Fds
  pub parent_write : Fds
  pub stderr_pipe : Fds
  pub child_proc : ℤ
  pub capture_exit : Bool

-- What `sigaction`, the three calls of `pipe` and `fork` return. None is -1.
pub record Calls : Type 0 where
  pub sigaction : ℤ
  pub read_pipe : Option Fds
  pub write_pipe : Option Fds
  pub stderr_pipe : Option Fds
  pub fork : ℤ

abbrev pub take_read_pipe : Fds → Child → Child
take_read_pipe fds c = record c { parent_read = fds; files = install_pipe from_child fds c.files }

abbrev pub take_write_pipe : Fds → Child → Child
take_write_pipe fds c = record c { parent_write = fds; files = install_pipe to_child fds c.files }

abbrev pub take_stderr_pipe : Fds → Child → Child
take_stderr_pipe fds c = record c { stderr_pipe = fds; files = install_pipe errors fds c.files }

-- The two calls of `pipe` for reading and writing: the second is made if the first succeeds, and
-- only a failure of the second is reported.
abbrev pub make_pipes : Option Fds → Option Fds → Child → Bool × Child
make_pipes none w c = (true, c)
make_pipes (some r) none c = (false, take_read_pipe r c)
make_pipes (some r) (some w) c = (true, take_write_pipe w (take_read_pipe r c))

abbrev pub make_stderr : Option Fds → Child → Bool × Child
make_stderr none c = (false, c)
make_stderr (some e) c = (true, take_stderr_pipe e c)

-- The parent after `fork`: it starts the thread of `capture_fn` and closes the child's ends.
unfoldable pub parent_side : ℤ → Child → Child
parent_side fork c = record c {
  child_proc = fork;
  capture_exit = false;
  files = close c.parent_read.wr (close c.parent_write.rd c.files);
}

-- `initChildProcess` in the parent, after the command line is split.
unfoldable pub start_child : Calls → Child → Bool × Child
start_child calls c =
    let (piped, c1) = make_pipes calls.read_pipe calls.write_pipe c in
    let (captured, c2) = make_stderr calls.stderr_pipe c1 in
    if piped
    then (if captured
        then (if eqb_ℤ calls.fork (negsuc 0)
            then (false, record c2 { child_proc = calls.fork })
            else (true, parent_side calls.fork c2))
        else (false, c2))
    else (false, c1)

-- `initChildProcess` in the parent. None stands for a write past the end of `argv`.
unfoldable pub init_child_process : List ℕ → Calls → Child → Option (Bool × Child)
init_child_process cmdline calls c =
    if ltb_ℤ calls.sigaction (pos 0)
    then some (false, c)
    else parse_command cmdline >>= λ argv. some (start_child calls c)

unfoldable pub close_child_process : Child → Child
close_child_process c = record c {
  capture_exit = true;
  files = close c.parent_read.rd (close c.parent_read.wr c.files);
}

-- What the three calls of `dup2` in the child return.
pub record Dups : Type 0 where
  pub dup_err : ℤ
  pub dup_in : ℤ
  pub dup_out : ℤ

-- `dup2(fd, target)`, which changes nothing where it fails.
abbrev pub dup2 : ℤ → ℕ → ℕ → Files → Files
dup2 result fd target files k =
    if k == target then (if ltb_ℤ result (pos 0) then files target else files fd) else files k

-- The child has left, or runs the command with these files.
pub data ChildEnd : Type 0 where
  exited : ChildEnd
  runs : Files → ChildEnd

-- `initChildProcess` in the child, up to `execv`.
unfoldable pub child_side : Dups → Child → ChildEnd
child_side d c =
    let files1 = dup2 d.dup_err c.stderr_pipe.wr 2 c.files in
    let files2 = dup2 d.dup_in c.parent_write.rd 0 files1 in
    let files3 = dup2 d.dup_out c.parent_read.wr 1 files2 in
    if ltb_ℤ d.dup_err (pos 0)
    then exited
    else if ltb_ℤ d.dup_in (pos 0)
    then exited
    else if eqb_ℤ d.dup_out (pos 0)
    then exited
    else runs (close c.parent_write.wr (close c.parent_read.rd files3))

-- The places of the buffer of `capture_fn`.
abbrev pub max_capture : ℕ
max_capture = 256

-- The text that `%s` prints: the bytes before the first 0.
abbrev pub c_string : List ℕ → List ℕ
c_string [] = []
c_string (b ∷ bytes) = let rest = c_string bytes in if b == 0 then [] else b ∷ rest

-- What a pass of `capture_fn` prints for the bytes read; none read stands for 0 or -1. None stands
-- for a write past the buffer's end.
unfoldable pub capture_pass : List ℕ → Option (List ℕ)
capture_pass [] = some []
capture_pass (b ∷ bytes) =
    if leb (length (b ∷ bytes) + 1) max_capture then some (c_string (b ∷ bytes)) else none

-- The loop of `handle_sigchild`, by the results of its calls of `waitpid`: how many are made.
abbrev pub reap : List ℤ → ℕ
reap [] = 0
reap (pid ∷ pids) = let rest = reap pids in if leb_ℤ pid (pos 0) then 1 else suc rest
