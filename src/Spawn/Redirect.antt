-- ===== src/Spawn/Redirect.antt =====
-- The child's files in JNI/Common/linux_spawn.c, and the failures that it does not see.
use piwxrx.Prelude.{◌≡◌, ◌<◌, refl, true, false, none, some, arith}
use piwxrx.Prelude.Int.{pos, negsuc, eqb_ℤ}
use piwxrx.Spawn.{
  from_child, to_child, errors, read_end, write_end, Files, Fds, Child, Calls, parent_side,
  start_child, ChildEnd, exited, runs, child_side,
}

-- The numbers of the parent's ends are no standard ones.
pub record IsForked (c : Child) : Type 0 where
  pub catches : c.files c.stderr_pipe.wr ≡ some (write_end errors)
  pub reads : c.files c.parent_write.rd ≡ some (read_end to_child)
  pub writes : c.files c.parent_read.wr ≡ some (write_end from_child)
  pub read_apart : 2 < c.parent_write.rd
  pub write_apart : 2 < c.parent_read.wr
  pub own_apart : (2 < c.parent_write.wr) × (2 < c.parent_read.rd)

-- Where the standard streams of the command lead.
abbrev pub Leads : ChildEnd → (Files → Type 0) → Type 0
Leads exited P = ⊥
Leads (runs files) P = P files

-- When `dup2` succeeds three times, as 2, 0 and 1, the child runs the command with its input read
-- from the parent, its output written to the parent and its errors to the pipe for errors, and
-- without the parent's own ends.
pub child_side_lem :
    (c : Child)
    → IsForked c
    → Leads (child_side (record { dup_err = pos 2; dup_in = pos 0; dup_out = pos 1 }) c) (λ files.
      (files 0 ≡ some (read_end to_child))
      × (files 1 ≡ some (write_end from_child))
      × (files 2 ≡ some (write_end errors))
      × (files c.parent_write.wr ≡ none)
      × (files c.parent_read.rd ≡ none))
unfolding child_side
child_side_lem c f =
    (ground (arith, f), ground (arith, f), ground (arith, f), ground (arith, f), ground (arith, f))

-- A failure of the last `dup2` is not seen, since its result is compared with 0: the child runs
-- the command, and the command's output goes where the parent's own output goes.
pub child_side-unseen :
    (c : Child)
    → IsForked c
    → Leads
        (child_side (record { dup_err = pos 2; dup_in = pos 0; dup_out = negsuc 0 }) c)
        (λ files. files 1 ≡ c.files 1)
unfolding child_side
child_side-unseen c f = ground (arith, f)

-- A failure of the first `pipe` is not seen: `initChildProcess` returns TRUE, and the parent
-- closes the files whose numbers `pipes` had before, which are 0 when the program starts.
pub start_child-no_pipe :
    (calls : Calls) (c : Child) {e : Fds}
    → calls.read_pipe ≡ none
    → calls.stderr_pipe ≡ some e
    → eqb_ℤ calls.fork (negsuc 0) ≡ false
    → ((start_child calls c).0 ≡ true)
      × ((start_child calls c).1.files c.parent_write.rd ≡ none)
      × ((start_child calls c).1.files c.parent_read.wr ≡ none)
unfolding start_child parent_side
start_child-no_pipe calls c no_pipe catches forks =
    rw (no_pipe, catches, forks) (refl, ground arith, ground arith)
