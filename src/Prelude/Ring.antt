-- ===== src/Prelude/Ring.antt =====
-- Arrays used as rings of `size` places: a FIFO read at one index and written at another, and a
-- history that remembers the last values written.
use piwxrx.Prelude.{
  ℕ, zero, suc, ◌+◌, ◌-◌, ◌≤◌, ◌<◌, ◌≡◌, ◌≢◌, refl, ap, ap₂, ◌∙◌, List, [], ◌∷◌, ◌++◌, arith, ltb,
  leb, ◌==◌, if◌then◌else◌, length, get_or, set, replicate,
}

-- The place after `i`.
abbrev pub next : ℕ → ℕ → ℕ
next size i = if suc i == size then 0 else suc i

-- The place `n` places after `h`.
abbrev pub ahead : ℕ → ℕ → ℕ → ℕ
ahead size h n = if ltb (h + n) size then h + n else h + n - size

-- The place written `k` writes before the last one, where `w` is the next to be written.
abbrev pub behind : ℕ → ℕ → ℕ → ℕ
behind size w k = if ltb k w then w - 1 - k else w + size - 1 - k

module _ {ℓ} {A : Type ℓ} where
  pub get_or-replicate : (n i : ℕ) (d : A) → get_or (replicate n d) i d ≡ d
  get_or-replicate zero i d = refl
  get_or-replicate (suc n) zero d = refl
  get_or-replicate (suc n) (suc i) d = get_or-replicate n i d

  pub get_or-set_self :
      (xs : List A) (i : ℕ) (v d : A) → i < length xs → get_or (set xs i v) i d ≡ v
  get_or-set_self [] i v d h = absurd (omega arith)
  get_or-set_self (x ∷ xs) zero v d h = refl
  get_or-set_self (x ∷ xs) (suc i) v d h = get_or-set_self xs i v d (omega arith)

  pub get_or-set_ne :
      (xs : List A) (i j : ℕ) (v d : A) → i ≢ j → get_or (set xs i v) j d ≡ get_or xs j d
  get_or-set_ne [] i j v d h = refl
  get_or-set_ne (x ∷ xs) zero zero v d h = absurd (h refl)
  get_or-set_ne (x ∷ xs) zero (suc j) v d h = refl
  get_or-set_ne (x ∷ xs) (suc i) zero v d h = refl
  get_or-set_ne (x ∷ xs) (suc i) (suc j) v d h = get_or-set_ne xs i j v d (λ e. h (ap suc e))

module _ {ℓ} {A : Type ℓ} (size : ℕ) (d : A) where
  -- The `n` values from place `h` on.
  abbrev pub window : List A → ℕ → ℕ → List A
  window buf h zero = []
  window buf h (suc n) = get_or buf h d ∷ window buf (next size h) n

  pub length-window : (buf : List A) (h n : ℕ) → length (window buf h n) ≡ n
  length-window buf h zero = refl
  length-window buf h (suc n) = ap suc (length-window buf (next size h) n)

  pub window-set :
      (buf : List A) (x : A) (h n i : ℕ)
      → size ≤ length buf
      → h < size
      → n < size
      → i ≡ ahead size h n
      → window (set buf i x) h (suc n) ≡ window buf h n ++ (x ∷ [])
  window-set buf x h zero i fits hh hn e =
      let e' : i ≡ h = ground arith in rw (e', get_or-set_self buf h x d (omega arith))
  window-set buf x h (suc n) i fits hh hn e =
      ap₂ ◌∷◌ (get_or-set_ne buf i h x d (ground arith))
        (window-set buf x (next size h) n i fits (ground arith) (omega arith) (ground arith))

  -- The last values written, newest first, stand behind place `w`.
  abbrev pub Holds : List A → ℕ → List A → Type ℓ
  Holds buf w hist =
      (k : ℕ) → k < size → k < length hist → get_or buf (behind size w k) d ≡ get_or hist k d

  pub Holds-set :
      (buf : List A) (w : ℕ) (hist : List A) (x : A)
      → size ≤ length buf
      → w < size
      → Holds buf w hist
      → Holds (set buf w x) (next size w) (x ∷ hist)
  Holds-set buf w hist x fits hw h zero hk hl =
      let e : behind size (next size w) 0 ≡ w = ground arith in
      rw (e, get_or-set_self buf w x d (omega arith))
  Holds-set buf w hist x fits hw h (suc k) hk hl =
      let e : behind size (next size w) (suc k) ≡ behind size w k = ground arith in
      let ne : w ≢ behind size w k = ground arith in
      rw e (get_or-set_ne buf w (behind size w k) x d ne ∙ h k (omega arith) (omega arith))

-- How many places lie from `r` up to `w`.
abbrev pub between : ℕ → ℕ → ℕ → ℕ
between size r w = if leb r w then w - r else w + size - r

module _ {ℓ} {A : Type ℓ} (size : ℕ) (d : A) (buf : List A) (r w : ℕ) where
  -- Writing at `w` and moving it on appends to what waits between the two places.
  pub window-write :
      (x : A)
      → size ≤ length buf
      → r < size
      → w < size
      → suc (between size r w) < size
      → window size d (set buf w x) r (between size r (next size w))
        ≡ window size d buf r (between size r w) ++ (x ∷ [])
  window-write x fits hr hw room =
      let e : between size r (next size w) ≡ suc (between size r w) = ground arith in
      rw e (window-set size d buf x r (between size r w) w fits hr (omega arith) (ground arith))

  -- What waits begins with the value at `r`, unless nothing waits.
  pub window-read :
      r < size
      → w < size
      → r ≢ w
      → window size d buf r (between size r w)
        ≡ get_or buf r d ∷ window size d buf (next size r) (between size (next size r) w)
  window-read hr hw ne =
      let e : between size r w ≡ suc (between size (next size r) w) = ground arith in rw e
