-- ===== src/G711/Segments.antt =====
-- The segment search of JNI/Common/g711.c by cases.
use piwxrx.Prelude.{ℕ, ◌+◌, ◌≤◌, ◌<◌, List, ◌∷◌, inl, inr, arith}
use piwxrx.Prelude.{drop, Bool-cases}
use piwxrx.G711.Tables.{seg_end}
use piwxrx.Prelude.Int.{pos, leb_ℤ}
use piwxrx.G711.{search_from, segment_of}

module _ {ℓ} (P : ℕ → Type ℓ) (v : ℕ) where
  search_step :
      (i t : ℕ) (table : List ℕ)
      → (v ≤ t → P i)
      → (t < v → P (search_from (i + 1) (pos v) table))
      → P (search_from i (pos v) (t ∷ table))
  search_step i t table here there = elim (Bool-cases (leb_ℤ (pos v) (pos t))) [
    | inl e ↦ rw e (here (ground arith))
    | inr e ↦ rw e (there (ground arith))
  ]

  -- A number below 2 ^ 15 lies in one of the eight segments.
  pub segment_rule :
      (v < 0x8000)
      → (v < 0x100 → P 0)
      → (0x100 ≤ v → v < 0x200 → P 1)
      → (0x200 ≤ v → v < 0x400 → P 2)
      → (0x400 ≤ v → v < 0x800 → P 3)
      → (0x800 ≤ v → v < 0x1000 → P 4)
      → (0x1000 ≤ v → v < 0x2000 → P 5)
      → (0x2000 ≤ v → v < 0x4000 → P 6)
      → (0x4000 ≤ v → v < 0x8000 → P 7)
      → P (segment_of (pos v))
  unfolding segment_of
  segment_rule h p0 p1 p2 p3 p4 p5 p6 p7 =
      search_step 0 0xff (drop 1 seg_end) (λ a. p0 (omega arith))
        λ b0.
          search_step 1 0x1ff (drop 2 seg_end) (λ a. p1 (omega arith) (omega arith))
            λ b1.
              search_step 2 0x3ff (drop 3 seg_end) (λ a. p2 (omega arith) (omega arith))
                λ b2.
                  search_step 3 0x7ff (drop 4 seg_end) (λ a. p3 (omega arith) (omega arith))
                    λ b3.
                      search_step 4 0xfff (drop 5 seg_end) (λ a. p4 (omega arith) (omega arith))
                        λ b4.
                          search_step 5 0x1fff (drop 6 seg_end)
                            (λ a. p5 (omega arith) (omega arith))
                            λ b5.
                              search_step 6 0x3fff (drop 7 seg_end)
                                (λ a. p6 (omega arith) (omega arith))
                                λ b6.
                                  search_step 7 0x7fff (drop 8 seg_end)
                                    (λ a. p7 (omega arith) (omega arith)) λ b7. absurd (omega arith)
