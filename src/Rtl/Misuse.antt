-- ===== src/Rtl/Misuse.antt =====
-- Orders of calls that JNI/Source/rtl.c and JNI/Common/udp.c do not guard against.
use piwxrx.Prelude.{ℕ, ◌≡◌, ◌∙◌, ap, ap₂, true, false, List, [], ◌∷◌, Option, none, some, ◌>>=◌}
use piwxrx.Prelude.Int.{eqb_ℤ}
use piwxrx.Codecs.{codec_none}
use piwxrx.Rtl.{Rtl, stop, step, run, stop_udp, close_mode, is_none}

module _ (inet_pton : List ℕ → Option ℕ) where
  -- With a codec and a block, a second `StopUDP` after a first frees the block again, since
  -- `CloseUDP` leaves the pointer as it is.
  pub run-stop_twice :
      (r : Rtl) {block : List ℕ}
      → eqb_ℤ r.udp.codec codec_none ≡ false
      → r.udp_live ≡ true
      → r.udp.buffer ≡ some block
      → run inet_pton (stop ∷ stop ∷ []) r ≡ none
  unfolding run step stop_udp
  run-stop_twice r coded live holds =
      let r1 : Rtl = record r { sending_udp = false } in
      let r2 : Rtl = record r1 { udp_live = is_none r.udp.buffer } in
      ap₂ (λ a b. close_mode a b r1 >>= run inet_pton (stop ∷ [])) coded live
      ∙ ap₂ (λ a b. close_mode a b r2 >>= run inet_pton []) coded (ap (λ b. is_none b) holds)
