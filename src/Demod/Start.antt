-- ===== src/Demod/Start.antt =====
-- The globals of JNI/Common/demod.c when the program starts: all zero.
use piwxrx.Prelude.{ℕ, refl, ◌∙◌, sym, List, replicate, arith}
use piwxrx.Prelude.Int.{ℤ, pos}
use piwxrx.Prelude.Ring.{behind, get_or-replicate}
use piwxrx.Demod.{Discrim, demod_dly_len, corr_length}
use piwxrx.Demod.Delay.{IsLine, IsValid}
use piwxrx.Demod.Sync as Sync

abbrev pub still : List ℤ
still = replicate demod_dly_len (pos 0)

abbrev pub start_discrim : Discrim
start_discrim = record { i_demod_dly = still; q_demod_dly = still; curr_index = 0 }

still-IsLine : IsLine still 0 still
still-IsLine = record {
  size = refl;
  enough = omega arith;
  holds = λ k hk hl.
      get_or-replicate demod_dly_len (behind demod_dly_len 0 k) (pos 0)
      ∙ sym (get_or-replicate demod_dly_len k (pos 0));
  level = λ k. rw (get_or-replicate demod_dly_len k (pos 0)) (omega arith);
}

pub start_discrim-IsValid : IsValid start_discrim still still
start_discrim-IsValid = record {
  index_in = omega arith;
  i_line = still-IsLine;
  q_line = still-IsLine;
}

abbrev pub start_correlator : List ℕ
start_correlator = replicate corr_length 0

pub start_correlator-IsValid : Sync.IsValid start_correlator start_correlator
start_correlator-IsValid = record { size = refl; enough = omega arith; holds = λ k h. refl }
