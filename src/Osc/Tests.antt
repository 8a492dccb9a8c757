-- ===== src/Osc/Tests.antt =====
-- The oscillator of JNI/Common/osc.c at a concrete table.
use piwxrx.Prelude.{ℕ, ◌≡◌, []}
use piwxrx.Prelude.Int.{ℤ, pos}
use piwxrx.Osc.{init_osc, start_osc}
use piwxrx.Osc.Phase.{oscillate, rounds, oscillate_lem}

abbrev ramp : ℕ → ℤ
ramp i = pos i

-- The phases go round the table.
oscillate_lem_example : oscillate 9 (init_osc ramp (start_osc [])) ≡ rounds ramp 0 9
oscillate_lem_example = oscillate_lem ramp [] 9
