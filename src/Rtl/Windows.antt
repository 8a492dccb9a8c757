-- ===== src/Rtl/Windows.antt =====
-- `RunRTL` of JNI/Source/rtl.c on Windows, which has a loop of its own in place of a timer's signals.
-- The join of the timer thread is taken to come back: Shutdown has the steps of that thread.
use piwxrx.Prelude.{
  ℕ, zero, suc, ◌≡◌, refl, ap, Bool, true, false, List, [], ◌∷◌, ◌++◌, Option, none, some, ◌>>=◌,
  if◌then◌else◌, replicate,
}
use piwxrx.Prelude.Int.{ℤ}

-- What `RunRTL` returns and leaves: the block, the thread, and how often it has signalled it.
pub record Outcome : Type 0 where
  pub result : Bool
  pub allocated : Bool
  pub thread_runs : Bool
  pub signals : ℕ

-- The signals of the loop, by what each pass reads as the exit at its end; none while it goes on.
unfoldable pub wait_loop : List Bool → Option ℕ
wait_loop [] = none
wait_loop (exit ∷ exits) =
    let rest = wait_loop exits in if exit then some 1 else rest >>= λ n. some (suc n)

-- By the block from malloc and whether the waitable timer is created.
unfoldable pub run_rtl : Option (List ℤ) → Bool → List Bool → Option Outcome
run_rtl none created exits =
    some (record { result = false; allocated = false; thread_runs = false; signals = 0 })
run_rtl (some block) false exits =
    some (record { result = false; allocated = false; thread_runs = false; signals = 0 })
run_rtl (some block) true exits = do
  signals ← wait_loop exits
  some (record { result = true; allocated = false; thread_runs = false; signals = signals })

-- The exit is seen at the end of the pass that follows `k` passes without it, after its signal.
wait_loop-exit :
    (k : ℕ) (later : List Bool) → wait_loop (replicate k false ++ (true ∷ later)) ≡ some (suc k)
unfolding wait_loop
wait_loop-exit zero later = refl
wait_loop-exit (suc k) later = ap (λ m. m >>= λ n. some (suc n)) (wait_loop-exit k later)

-- With a block and a timer `RunRTL` comes back TRUE once a pass has seen the exit: it has signalled
-- the thread once in each pass, and the block is freed.
pub run_rtl-exit :
    (block : List ℤ) (k : ℕ) (later : List Bool)
    → run_rtl (some block) true (replicate k false ++ (true ∷ later))
      ≡ some (record { result = true; allocated = false; thread_runs = false; signals = suc k })
unfolding run_rtl
run_rtl-exit block k later =
    ap
      (λ m. m >>= λ signals.
        let o : Outcome = record {
          result = true;
          allocated = false;
          thread_runs = false;
          signals = signals;
        } in
        some o)
      (wait_loop-exit k later)
