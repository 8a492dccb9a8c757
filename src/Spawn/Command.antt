-- ===== src/Spawn/Command.antt =====
-- The command line of JNI/Common/linux_spawn.c split at its spaces.
use piwxrx.Prelude.{
  ℕ, zero, suc, ◌+◌, ◌<◌, ◌≡◌, ◌≢◌, refl, ◌∙◌, sym, ap, ap₂, true, false, Bool-cases, inl, inr,
  List, [], ◌∷◌, ◌++◌, Option, none, some, ◌>>=◌, ◌==◌, ==_iff, leb, length, if◌then◌else◌, arith,
}
use piwxrx.Spawn.{strsep, split_loop, parse_command}

-- The words between the spaces, the first one apart: two spaces together have an empty word
-- between them.
abbrev pub words : List ℕ → List ℕ × List (List ℕ)
words [] = ([], [])
words (c ∷ s) = let (w, ws) = words s in if c == b' ' then ([], w ∷ ws) else (c ∷ w, ws)

abbrev pub all_words : List ℕ → List (List ℕ)
all_words s = (words s).0 ∷ (words s).1

-- Words with a space before each but the first.
abbrev pub join : List ℕ → List (List ℕ) → List ℕ
join w [] = w
join w (v ∷ ws) = w ++ (b' ' ∷ join v ws)

abbrev HasNoSpace : List ℕ → Type 0
HasNoSpace [] = Unit {0}
HasNoSpace (c ∷ w) = (c ≢ b' ') × HasNoSpace w

abbrev pub HaveNoSpace : List (List ℕ) → Type 0
HaveNoSpace [] = Unit {0}
HaveNoSpace (w ∷ ws) = HasNoSpace w × HaveNoSpace ws

join-cons : (c : ℕ) (w : List ℕ) (ws : List (List ℕ)) → join (c ∷ w) ws ≡ c ∷ join w ws
join-cons c w [] = refl
join-cons c w (v ∷ ws) = refl

join-words : (s : List ℕ) → join (words s).0 (words s).1 ≡ s
join-words [] = refl
join-words (c ∷ s) = elim (Bool-cases (c == b' ')) [
  | inl e ↦ rw e (ap₂ (λ a b. a ∷ b) (sym ((==_iff c b' ').0 e)) (join-words s))
  | inr e ↦ rw e (join-cons c (words s).0 (words s).1 ∙ ap (λ r. c ∷ r) (join-words s))
]

words-HaveNoSpace : (s : List ℕ) → HaveNoSpace (all_words s)
words-HaveNoSpace [] = (tt, tt)
words-HaveNoSpace (c ∷ s) = elim (Bool-cases (c == b' ')) [
  | inl e ↦ rw e (tt, words-HaveNoSpace s)
  | inr e ↦
      let rest = words-HaveNoSpace s in
      let ne : c ≢ b' ' = ground arith in rw e ((ne, rest.0), rest.1)
]

words-space : (c : ℕ) (s : List ℕ) → (c == b' ') ≡ true → words (c ∷ s) ≡ ([], all_words s)
words-space c s e = ap (λ b. if b then ([], all_words s) else (c ∷ (words s).0, (words s).1)) e

words-other :
    (c : ℕ) (s : List ℕ) → (c == b' ') ≡ false → words (c ∷ s) ≡ (c ∷ (words s).0, (words s).1)
words-other c s e = ap (λ b. if b then ([], all_words s) else (c ∷ (words s).0, (words s).1)) e

-- What `strsep` gives, against the words.
abbrev Follows : List ℕ → List ℕ × Option (List ℕ) → Type 0
Follows s (tok, none) = words s ≡ (tok, [])
Follows s (tok, some rest) = (words s ≡ (tok, all_words rest)) × (length rest < length s)

Follows-cons :
    (c : ℕ) (s : List ℕ) (r : List ℕ × Option (List ℕ))
    → Follows s r
    → Follows (c ∷ s) (if c == b' ' then ([], some s) else (c ∷ r.0, r.1))
Follows-cons c s (tok, none) h = elim (Bool-cases (c == b' ')) [
  | inl e ↦ rw e (words-space c s e, omega arith)
  | inr e ↦ rw e (words-other c s e ∙ ap (λ p. (c ∷ p.0, p.1)) h)
]
Follows-cons c s (tok, some rest) h = elim (Bool-cases (c == b' ')) [
  | inl e ↦ rw e (words-space c s e, omega arith)
  | inr e ↦ rw e (words-other c s e ∙ ap (λ p. (c ∷ p.0, p.1)) h.0, omega (arith, h.1))
]

strsep-Follows : (s : List ℕ) → Follows s (strsep s)
unfolding strsep
strsep-Follows [] = refl
strsep-Follows (c ∷ s) = Follows-cons c s (strsep s) (strsep-Follows s)

abbrev after : ℕ → List ℕ × Option (List ℕ) → Option (List (List ℕ))
after fuel r = elim r.1 [
  | none ↦ some (r.0 ∷ [])
  | some cmd' ↦ split_loop fuel cmd' >>= λ toks. some (r.0 ∷ toks)
]

split_loop_words :
    (fuel : ℕ) (s : List ℕ) → length s < fuel → split_loop fuel s ≡ some (all_words s)
unfolding split_loop
split_loop_words zero s h = absurd (omega arith)
split_loop_words (suc fuel) s h = go (strsep s) (strsep-Follows s) (split_loop_words fuel)
  where
    go :
        (r : List ℕ × Option (List ℕ))
        → Follows s r
        → ((t : List ℕ) → length t < fuel → split_loop fuel t ≡ some (all_words t))
        → after fuel r ≡ some (all_words s)
    go (tok, none) f more = ap (λ p. some (p.0 ∷ p.1)) (sym f)
    go (tok, some rest) f more =
        ap (λ m. m >>= λ toks. some (tok ∷ toks)) (more rest (omega arith))
        ∙ ap (λ p. some (p.0 ∷ p.1)) (sym f.0)

-- For every command line the loop ends, and `argv` has its words: they have no space in them, and
-- joined by spaces they are the line. Up to 23 of them fit with the closing NULL; with more, the
-- loop writes past the end of `argv`.
pub parse_command_lem :
    (cmdline : List ℕ)
    → (parse_command cmdline
        ≡ (if leb (length (all_words cmdline)) 23 then some (all_words cmdline) else none))
      × HaveNoSpace (all_words cmdline)
      × (join (words cmdline).0 (words cmdline).1 ≡ cmdline)
unfolding parse_command
parse_command_lem cmdline =
    let n = length (all_words cmdline) in
    let room : leb (n + 1) 24 ≡ leb n 23 = ground arith in
    (
      ap (λ m. m >>= λ argv. if leb (length argv + 1) 24 then some argv else none)
            (split_loop_words (suc (length cmdline)) cmdline (omega arith))
          ∙ ap (λ b. if b then some (all_words cmdline) else none) room,
      words-HaveNoSpace cmdline,
      join-words cmdline,
    )
