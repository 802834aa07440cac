-- ===== src/Base/Rows.antt =====
-- A database table as the list of its live rows, oldest insert first, and the statements that the
-- handlers issue: `UPDATE … WHERE` with its count of affected rows, `COUNT`, `First`.
use Prim.Native.Nat.{ℕ, suc, ◌+◌, ◌≤◌}
use mathlib.Core.Path.{◌≡◌, refl, sym, ap, subst}
use mathlib.Core.Bool.{Bool, true, false, ◌&&◌, ◌||◌}
use mathlib.Core.List.{List, [], ◌∷◌, ◌++◌}
use mathlib.Core.Option.{Option, none, some}
use native.Mathlib.Omega.{arith}
use mathlib.Core.Logic.{inl, inr}
use db_backup_app.Base.Tests.{if◌then◌else◌, branch, Bool-cases}
use db_backup_app.Base.Lists.{All, length, keep, any}

module _ {ℓ} {A : Type ℓ} where
  abbrev pub update_where : (A → Bool) → (A → A) → List A → List A
  update_where p f [] = []
  update_where p f (r ∷ rs) = (if p r then f r else r) ∷ update_where p f rs

  abbrev pub count_where : (A → Bool) → List A → ℕ
  count_where p [] = 0
  count_where p (r ∷ rs) = let n = count_where p rs in if p r then suc n else n

  abbrev pub first_where : (A → Bool) → List A → Option A
  first_where p [] = none
  first_where p (r ∷ rs) = let rest = first_where p rs in if p r then some r else rest

  pub first_where_sound :
      (p : A → Bool) (rs : List A) {r : A} → first_where p rs ≡ some r → p r ≡ true
  first_where_sound p [] h = cc
  first_where_sound p (x ∷ rs) {r} h = ground (arith, first_where_sound p rs {r = r})

  -- No row fits: the statement changes nothing.
  pub update_where-none :
      (p : A → Bool) (f : A → A) (rs : List A) → count_where p rs ≡ 0 → update_where p f rs ≡ rs
  update_where-none p f [] h = refl
  update_where-none p f (r ∷ rs) h = ground (arith, update_where-none p f rs)

  -- The row that was found for one test counts for a weaker one.
  pub first_where-count :
      (p q : A → Bool) (rs : List A) (a : A)
      → ((r : A) → p r ≡ true → q r ≡ true)
      → first_where p rs ≡ some a
      → 1 ≤ count_where q rs
  first_where-count p q [] a weaker h = absurd (cc)
  first_where-count p q (r ∷ rs) a weaker h =
      ground (arith, weaker r, first_where-count p q rs a weaker)

  pub first_where-none :
      (p : A → Bool) (rs : List A) → first_where p rs ≡ none → count_where p rs ≡ 0
  first_where-none p [] h = refl
  first_where-none p (r ∷ rs) h = ground (arith, first_where-none p rs)

  pub any-none : (p : A → Bool) (rs : List A) → any p rs ≡ false → count_where p rs ≡ 0
  any-none p [] h = refl
  any-none p (r ∷ rs) h = ground (arith, any-none p rs)

  pub count_where-append :
      (p : A → Bool) (rs ss : List A)
      → count_where p (rs ++ ss) ≡ count_where p rs + count_where p ss
  count_where-append p [] ss = omega arith
  count_where-append p (r ∷ rs) ss = ground (arith, count_where-append p rs ss)

  -- An update that makes no row fit `p` which did not fit before.
  pub count_where-update_where-le :
      (p q : A → Bool) (f : A → A) (rs : List A)
      → ((r : A) → q r ≡ true → p (f r) ≡ true → p r ≡ true)
      → count_where p (update_where q f rs) ≤ count_where p rs
  count_where-update_where-le p q f [] h = omega arith
  count_where-update_where-le p q f (r ∷ rs) h =
      ground (arith, h r, count_where-update_where-le p q f rs h)

  -- An update after which no row that it touched fits `p`, where every row that fits is touched.
  pub count_where-update_where-zero :
      (p q : A → Bool) (f : A → A) (rs : List A)
      → ((r : A) → q r ≡ true → p (f r) ≡ false)
      → All (λ r. p r ≡ true → q r ≡ true) rs
      → count_where p (update_where q f rs) ≡ 0
  count_where-update_where-zero p q f [] h k = refl
  count_where-update_where-zero p q f (r ∷ rs) h k =
      ground (arith, h r, k.0, count_where-update_where-zero p q f rs h k.1)

  pub count_where-keep-le :
      (p q : A → Bool) (rs : List A) → count_where p (keep q rs) ≤ count_where p rs
  count_where-keep-le p q [] = omega arith
  count_where-keep-le p q (r ∷ rs) = ground (arith, count_where-keep-le p q rs)

  pub All-update_where {κ} :
      (P : A → Type κ) (p : A → Bool) (f : A → A) (rs : List A)
      → ((r : A) → p r ≡ true → P r → P (f r))
      → All P rs
      → All P (update_where p f rs)
  All-update_where P p f [] keeps h = tt
  All-update_where P p f (r ∷ rs) keeps h =
      (ground (arith, keeps r), All-update_where P p f rs keeps h.1)

  pub first_where-All {κ} :
      (P : A → Type κ) (p : A → Bool) (rs : List A) (r : A)
      → All P rs
      → first_where p rs ≡ some r
      → P r
  first_where-All P p [] r h e = absurd (cc)
  first_where-All P p (x ∷ rs) r h e = ground (arith, first_where-All P p rs r h.1)

  -- An update that changes no row's fit for `p`: the first that fits is still the first.
  pub first_where-update_where :
      (p q : A → Bool) (f : A → A) (rs : List A) (a : A)
      → ((r : A) → p (f r) ≡ p r)
      → first_where p rs ≡ some a
      → q a ≡ true
      → first_where p (update_where q f rs) ≡ some (f a)
  first_where-update_where p q f [] a h e k = absurd (cc)
  first_where-update_where p q f (r ∷ rs) a h e k =
      ground (arith, h r, first_where-update_where p q f rs a h)

  pub length-update_where :
      (p : A → Bool) (f : A → A) (rs : List A) → length (update_where p f rs) ≡ length rs
  length-update_where p f [] = refl
  length-update_where p f (r ∷ rs) = ap suc (length-update_where p f rs)

  pub first_where-append :
      (p : A → Bool) (rs : List A) (a : A)
      → count_where p rs ≡ 0
      → p a ≡ true
      → first_where p (rs ++ a ∷ []) ≡ some a
  first_where-append p [] a h k = ground arith
  first_where-append p (r ∷ rs) a h k = ground (arith, first_where-append p rs a)

  pub first_where-zero :
      (p : A → Bool) (rs : List A) → count_where p rs ≡ 0 → first_where p rs ≡ none
  first_where-zero p [] h = refl
  first_where-zero p (r ∷ rs) h = ground (arith, first_where-zero p rs)

  pub any-zero : (p : A → Bool) (rs : List A) → count_where p rs ≡ 0 → any p rs ≡ false
  any-zero p [] h = refl
  any-zero p (r ∷ rs) h = ground (arith, any-zero p rs)

  pub length-keep : (p : A → Bool) (rs : List A) → length (keep p rs) ≡ count_where p rs
  length-keep p [] = refl
  length-keep p (r ∷ rs) = ground (arith, length-keep p rs)

  pub any-append : (p : A → Bool) (rs ss : List A) → any p (rs ++ ss) ≡ (any p rs || any p ss)
  any-append p [] ss = refl
  any-append p (r ∷ rs) ss = ground (arith, any-append p rs ss)

  pub any-keep : (p q : A → Bool) (rs : List A) → any p (keep q rs) ≡ any (λ r. q r && p r) rs
  any-keep p q [] = refl
  any-keep p q (r ∷ rs) = ground (arith, any-keep p q rs)

  -- The first row that fits is found again after more rows, and after an update that changes no fit.
  pub first_where-append-some :
      (p : A → Bool) (rs ss : List A) (a : A)
      → first_where p rs ≡ some a
      → first_where p (rs ++ ss) ≡ some a
  first_where-append-some p [] ss a h = absurd (cc)
  first_where-append-some p (r ∷ rs) ss a h = ground (arith, first_where-append-some p rs ss a)

  pub first_where-update_where-if :
      (p q : A → Bool) (f : A → A) (rs : List A) (a : A)
      → ((r : A) → p (f r) ≡ p r)
      → first_where p rs ≡ some a
      → first_where p (update_where q f rs) ≡ some (if q a then f a else a)
  first_where-update_where-if p q f [] a h e = absurd (cc)
  first_where-update_where-if p q f (r ∷ rs) a h e =
      ground (arith, h r, first_where-update_where-if p q f rs a h)

  pub first_where-any :
      (p : A → Bool) (rs : List A) (a : A) → first_where p rs ≡ some a → any p rs ≡ true
  first_where-any p [] a h = absurd (cc)
  first_where-any p (r ∷ rs) a h = ground (arith, first_where-any p rs a)

  pub All-keep {κ} : (P : A → Type κ) (p : A → Bool) (rs : List A) → All P rs → All P (keep p rs)
  All-keep P p [] h = tt
  All-keep P p (r ∷ rs) h =
      branch (All P) (p r) (λ _. (h.0, All-keep P p rs h.1)) (λ _. All-keep P p rs h.1)

  -- An update of one row, which was found by another test.
  pub All-update_one {κ} :
      (P : A → Type κ) (p q : A → Bool) (f : A → A) (rs : List A) (a : A)
      → ((r : A) → q r ≡ true → p r ≡ true)
      → count_where p rs ≤ 1
      → first_where q rs ≡ some a
      → P (f a)
      → All P rs
      → All P (update_where p f rs)
  All-update_one P p q f [] a weaker once found good h = tt
  All-update_one P p q f (r ∷ rs) a weaker once found good h = elim (Bool-cases (p r)) [
    | inl taken ↦ (
      rw taken
          (subst (λ x. P (f x)) (sym (ground (arith, first_where-count q p rs a weaker))) good),
      subst (All P) (sym (update_where-none p f rs (ground arith))) h.1,
    )
    | inr other ↦ (
      rw other h.0,
      All-update_one P p q f rs a weaker (ground arith) (ground (arith, weaker r)) good h.1,
    )
  ]

  pub any-false : (p : A → Bool) (rs : List A) → any p rs ≡ false → All (λ r. p r ≡ false) rs
  any-false p [] h = tt
  any-false p (r ∷ rs) h = (ground (arith, h), any-false p rs (ground (arith, h)))

  -- A row that fits is kept if what fits is kept.
  pub any-kept :
      (p q : A → Bool) (rs : List A)
      → ((r : A) → p r ≡ true → q r ≡ true)
      → any p rs ≡ true
      → any p (keep q rs) ≡ true
  any-kept p q [] stays h = h
  any-kept p q (r ∷ rs) stays h = ground (arith, stays r, any-kept p q rs stays)
