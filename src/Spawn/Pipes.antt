-- ===== src/Spawn/Pipes.antt =====
-- The open files of the parent in JNI/Common/linux_spawn.c.
use piwxrx.Prelude.{
  ℕ, ◌≡◌, ◌≢◌, refl, ◌∙◌, ap₂, Bool, true, false, List, [], ◌∷◌, none, some, if◌then◌else◌, arith,
}
use piwxrx.Prelude.Int.{negsuc, eqb_ℤ}
use piwxrx.Spawn.{
  from_child, to_child, errors, read_end, write_end, other, Files, install, Fds, Child, Calls,
  take_read_pipe, take_write_pipe, take_stderr_pipe, make_pipes, make_stderr, parent_side,
  start_child, close_child_process,
}

abbrev DiffersFrom : ℕ → List ℕ → Type 0
DiffersFrom k [] = Unit {0}
DiffersFrom k (n ∷ ns) = (k ≢ n) × DiffersFrom k ns

abbrev AreDistinct : List ℕ → Type 0
AreDistinct [] = Unit {0}
AreDistinct (n ∷ ns) = DiffersFrom n ns × AreDistinct ns

-- The calls of `initChildProcess` succeed, with six numbers that differ.
pub record Succeed (calls : Calls) (r w e : Fds) : Type 0 where
  pub reads : calls.read_pipe ≡ some r
  pub writes : calls.write_pipe ≡ some w
  pub catches : calls.stderr_pipe ≡ some e
  pub forks : eqb_ℤ calls.fork (negsuc 0) ≡ false
  pub distinct : AreDistinct (r.rd ∷ r.wr ∷ w.rd ∷ w.wr ∷ e.rd ∷ e.wr ∷ [])

-- The globals after the three pipes are made.
abbrev piped : Fds → Fds → Fds → Child → Child
piped r w e c = take_stderr_pipe e (take_write_pipe w (take_read_pipe r c))

start_child-piped :
    {calls : Calls} {r w e : Fds} (c : Child)
    → Succeed calls r w e
    → start_child calls c ≡ (true, parent_side calls.fork (piped r w e c))
unfolding start_child
start_child-piped {calls} {r} {w} {e} c s =
    ap₂
      (λ x y.
        let (ok, c1) = make_pipes x y c in
        let (captured, c2) = make_stderr calls.stderr_pipe c1 in
        let out : Bool × Child =
          (if ok
            then (if captured
                then (if eqb_ℤ calls.fork (negsuc 0)
                    then (false, record c2 { child_proc = calls.fork })
                    else (true, parent_side calls.fork c2))
                else (false, c2))
            else (false, c1)) in
        out)
      s.reads s.writes
    ∙ ap₂
        (λ x b.
          let (captured, c2) = make_stderr x (take_write_pipe w (take_read_pipe r c)) in
          let out : Bool × Child =
            (if captured
              then (if b
                  then (false, record c2 { child_proc = calls.fork })
                  else (true, parent_side calls.fork c2))
              else (false, c2)) in
          out)
        s.catches s.forks

-- What the parent has open once the child runs.
pub record IsConnected (files before : Files) (r w e : Fds) : Type 0 where
  pub reads : files r.rd ≡ some (read_end from_child)
  pub writes : files w.wr ≡ some (write_end to_child)
  pub catches : files e.rd ≡ some (read_end errors)
  pub catches_too : files e.wr ≡ some (write_end errors)
  pub child_writes : files r.wr ≡ none
  pub child_reads : files w.rd ≡ none
  pub others :
      (k : ℕ) → DiffersFrom k (r.rd ∷ r.wr ∷ w.rd ∷ w.wr ∷ e.rd ∷ e.wr ∷ []) → files k ≡ before k

-- When all its calls from the first `pipe` on succeed, `initChildProcess` returns TRUE, and the parent then has its end of
-- the child's output and input and both ends of the pipe for errors, has closed the child's ends,
-- and has every other file as before.
pub start_child_lem :
    {calls : Calls} {r w e : Fds} (c : Child)
    → Succeed calls r w e
    → ((start_child calls c).0 ≡ true) × IsConnected (start_child calls c).1.files c.files r w e
unfolding parent_side
start_child_lem {calls} {r} {w} {e} c s =
    let d = s.distinct in
    rw (start_child-piped c s) (
      refl,
      record {
        reads = ground (arith, d);
        writes = ground (arith, d);
        catches = ground (arith, d);
        catches_too = ground (arith, d);
        child_writes = ground (arith, d);
        child_reads = ground (arith, d);
        others = λ k h. ground (arith, h);
      },
    )

-- `CloseChildProcess` closes the number of the child's end of its output, which the parent has
-- closed already: a file that was opened under that number in between is closed, while the end for
-- the child's input and the pipe for errors stay open.
pub close_child_process-start_child :
    {calls : Calls} {r w e : Fds} (c : Child) (n : ℕ)
    → Succeed calls r w e
    → let c1 = (start_child calls c).1 in
      let c2 = close_child_process (record c1 { files = install r.wr (other n) c1.files }) in
      (c2.files r.rd ≡ none)
      × (c2.files r.wr ≡ none)
      × (c2.files w.wr ≡ some (write_end to_child))
      × (c2.files e.rd ≡ some (read_end errors))
      × (c2.files e.wr ≡ some (write_end errors))
unfolding close_child_process parent_side
close_child_process-start_child {calls} {r} {w} {e} c n s =
    let d = s.distinct in
    rw (start_child-piped c s) (
      ground (arith, d),
      ground (arith, d),
      ground (arith, d),
      ground (arith, d),
      ground (arith, d),
    )
