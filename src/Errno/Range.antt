-- ===== src/Errno/Range.antt =====
-- The numbers that the table of JNI/Common/errno.c has a text for.
use piwxrx.Prelude.{
  ℕ, zero, suc, ◌≤◌, ◌≡◌, ◌↔◌, refl, List, [], ◌∷◌, none, length, get_elem?, arith,
}
use piwxrx.Errno.{geterrno, linux_errnos}

get_elem?-none {ℓ} : {A : Type ℓ} (xs : List A) (i : ℕ) → (get_elem? xs i ≡ none) ↔ (length xs ≤ i)
get_elem?-none [] i = ((λ e. omega arith), (λ h. refl))
get_elem?-none (x ∷ xs) zero = ((λ e. absurd cc), (λ h. absurd (omega arith)))
get_elem?-none (x ∷ xs) (suc i) =
    let rest = get_elem?-none xs i in ((λ e. omega (arith, rest.0 e)), (λ h. rest.1 (omega arith)))

-- `geterrno` has a text exactly for the numbers below 125: for ECANCELED (125) and the numbers
-- above it, it reads past the end of the table.
pub geterrno_range : (errnum : ℕ) → (geterrno errnum ≡ none) ↔ (125 ≤ errnum)
unfolding geterrno
geterrno_range errnum = get_elem?-none linux_errnos errnum
