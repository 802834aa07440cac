-- ===== src/Paths/Parts.antt =====
-- The parts of a path: splitting undoes joining, and what a cleaned path is made of.
use db_backup_app.Base.{
  ◌≡◌, refl, ◌∙◌, true, false, List, [], ◌∷◌, ◌++◌, arith, ◌==◌, Text, All, any, has_prefix, branch,
}
use db_backup_app.Paths.{Split, split, parts, slash, join_parts}

pub parts-append : (t u : Text) → parts (t ++ slash ∷ u) ≡ parts t ++ parts u
unfolding parts split
parts-append [] u = refl
parts-append (c ∷ t) u = ground (arith, parts-append t u)

-- No slash in it.
abbrev pub Whole : Text → Type 0
Whole s = any (λ c. c == slash) s ≡ false

pub parts-unslashed : (s : Text) → Whole s → parts s ≡ s ∷ []
unfolding parts split
parts-unslashed [] h = refl
parts-unslashed (c ∷ s) h = ground (arith, parts-unslashed s)

split-Whole : (s : Text) → Whole (split s).first × All Whole (split s).rest
unfolding split
split-Whole [] = (refl, tt)
split-Whole (c ∷ s) =
    branch (λ (r : Split). Whole r.first × All Whole r.rest) (c == slash)
      (λ e. (refl, split-Whole s)) (λ e. (ground (arith, (split-Whole s).0), (split-Whole s).1))

pub parts-Whole : (s : Text) → All Whole (parts s)
unfolding parts
parts-Whole s = split-Whole s

pub has_prefix_sound : (s p : Text) → has_prefix s p ≡ true → (u : Text) × (s ≡ p ++ u)
unfolding has_prefix
has_prefix_sound s [] h = (s, refl)
has_prefix_sound [] (p ∷ ps) h = absurd (cc)
has_prefix_sound (c ∷ s) (p ∷ ps) h =
    let (u, e) = has_prefix_sound s ps (ground arith) in (u, ground arith)

pub parts-join_parts :
    (s : Text) (rest : List Text) → All Whole (s ∷ rest) → parts (join_parts (s ∷ rest)) ≡ s ∷ rest
unfolding join_parts
parts-join_parts s [] h = parts-unslashed s h.0
parts-join_parts s (t ∷ rest) h =
    parts-append s (join_parts (t ∷ rest))
    ∙ rw (parts-unslashed s h.0, parts-join_parts t rest h.1) refl
