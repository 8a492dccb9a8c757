-- ===== src/Jni/Start.antt =====
-- `init` of JNI/Common/RTLjni.c.
use piwxrx.Prelude.{
  ℕ, ◌<◌, ◌≡◌, refl, Bool, true, false, List, [], Option, none, some, ◌>>=◌, length, if◌then◌else◌,
  arith,
}
use piwxrx.Prelude.Int.{ℤ}
use piwxrx.DataBuffer.{Getter}
use piwxrx.DataBuffer as DataBuffer
use piwxrx.DataBuffer.Queue.{init-IsValid}
use piwxrx.Spawn.{Child, init_child_process}
use piwxrx.Spawn as Spawn
use piwxrx.Fsk.Samples.{sample_bfrsiz}
use piwxrx.Fsk.Thread.{dsp_init}
use piwxrx.Rtl.{init_rtl}
use piwxrx.Rtl.Flow.{If}
use piwxrx.Jni.{App, testing, init}
use piwxrx.Jni.Stream.{IsGood, samples_waiting, bytes_waiting}

-- What `init` leaves.
abbrev pub Starts : App → Bool × App → Type 0
Starts a r =
    (r.0 ≡ true → IsGood r.1 × (samples_waiting r.1 ≡ []) × (bytes_waiting r.1 ≡ []))
    × (r.0 ≡ false → (r.1.system ≡ a.system) × (r.1.rtl.thread ≡ a.rtl.thread))

module _ (cosine : ℕ → ℤ) (debug_write deemphasis : Bool) (a : App) where
  init_after :
      (size : length a.rtl.thread.samples.buffer ≡ sample_bfrsiz)
      → a.rtl.thread.receiver.frame.demod_byte < 256
      → a.system.getter ≡ Getter.ready
      → (c : Option (Bool × Child))
      → If
          (c >>= λ c.
            let (started, rtl) = init_rtl cosine c.0 debug_write deemphasis a.rtl in
            let a1 : App = record a { rtl = rtl; child = c.1 } in
            if started
            then some (
              true,
              record a1 { system = record a.system { buffer = DataBuffer.init }; waiter = testing },
            )
            else some (false, a1))
          (Starts a)
  unfolding init_rtl dsp_init
  init_after size byte waits none = tt
  init_after size byte waits (some (false, child)) = ((λ e. absurd cc), (λ e. (refl, refl)))
  init_after size byte waits (some (true, child)) = (
    (λ e. (
      record {
        runs = refl;
        byte = byte;
        samples = record { size = size; write_in = omega arith; read_in = omega arith };
        found = tt;
        safe = refl;
        fair = record { valid = init-IsValid.0; past_wait = rw waits tt };
      },
      refl,
      init-IsValid.1,
    )),
    (λ e. absurd cc),
  )

  -- With the arrays that the program has, and while the application is not in `getRxByte`: where
  -- `init` returns TRUE, the receiver's thread runs, both rings are in order and empty, and no
  -- packet is sent to a block that may not be used; where it returns FALSE, the byte ring and the
  -- receiver are as they were.
  pub init-Starts :
      (cmd : List ℕ) (calls : Spawn.Calls)
      → length a.rtl.thread.samples.buffer ≡ sample_bfrsiz
      → a.rtl.thread.receiver.frame.demod_byte < 256
      → a.system.getter ≡ Getter.ready
      → If (init cosine cmd calls debug_write deemphasis a) (Starts a)
  unfolding init
  init-Starts cmd calls size byte waits =
      init_after size byte waits (init_child_process cmd calls a.child)
