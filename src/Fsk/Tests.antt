-- ===== src/Fsk/Tests.antt =====
-- The receiver at concrete inputs.
use piwxrx.Prelude.{◌≡◌, refl, true, false, List, [], ◌∷◌, replicate, arith}
use piwxrx.Demod.{corr_length}
use piwxrx.Fsk.Edge.{Edge, edge_detect, watch, watch_third}
use piwxrx.Fsk.Clock.{cycle_start}
use piwxrx.Fsk.Receiver.{Receiver}
use piwxrx.Fsk.Clear.{
  System, in_branch, Event, test_flag, finish, clear, step, run, passes, Resyncs,
  clear_sync-Resyncs,
}

abbrev low : Edge
low = record { current_sense = 0; xingcnt = 0 }

-- Two samples that differ, with samples between them that agree.
watch_third_example :
    ((watch (1 ∷ 0 ∷ 0 ∷ 1 ∷ 0 ∷ []) low).0 ≡ replicate 5 false)
    × (edge_detect 1 false (watch (1 ∷ 0 ∷ 0 ∷ 1 ∷ 0 ∷ []) low).1
        ≡ (true, record { current_sense = 1; xingcnt = 0 }))
watch_third_example = watch_third (1 ∷ 0 ∷ 0 ∷ 1 ∷ 0 ∷ []) 1 low refl (omega arith)

abbrev deaf : Receiver
deaf = record {
  insync = false;
  correlator = replicate corr_length 0;
  edge = low;
  clock = cycle_start;
  frame = record { bytesync = true; demod_byte = 7; bitctr = 2 };
}

abbrev hearing : Receiver
hearing = record deaf { insync = true }

abbrev in_last_bit : System
in_last_bit = record { stage = in_branch true 1; receiver = hearing }

-- `DSPClearSync` comes while the branch in sync runs, and once more after it.
abbrev cut_short : List Event
cut_short = finish ∷ test_flag 1 ∷ clear ∷ finish ∷ passes (replicate 60 1)

clear_sync-Resyncs_example :
    Resyncs (in_branch true 1) hearing (run cut_short (step clear in_last_bit).1)
clear_sync-Resyncs_example = clear_sync-Resyncs cut_short in_last_bit
