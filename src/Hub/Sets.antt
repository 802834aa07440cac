-- ===== src/Hub/Sets.antt =====
-- The sets of peers that the hub keeps for each organization.
use db_backup_app.Base.{
  ℕ, ◌≤◌, ◌≡◌, refl, sym, ap, ◌∙◌, inl, inr, true, false, ◌&&◌, ◌||◌, not, List, [], ◌∷◌, arith,
  ◌==◌, ==_iff, Text, any-none, any-append, count_where, count_where-append, count_where-keep-le,
  Bool-cases, text_eq, text_eq_sound, text_eq_refl,
}
use db_backup_app.Hub.{has_peer, has_org, delete, remove_from, set_text, add_peer}

pub has_peer-delete :
    (p q : ℕ) (ps : List ℕ) → has_peer q (delete p ps) ≡ (not (q == p) && has_peer q ps)
has_peer-delete p q [] = ground arith
has_peer-delete p q (x ∷ ps) = ground (arith, has_peer-delete p q ps)

-- Leaving takes the peer out of the sets of its organizations, and touches nobody else.
pub has_peer-remove_from :
    (p q : ℕ) (os : List Text) (sets : Text → List ℕ) (o : Text)
    → has_peer q (remove_from p os sets o) ≡ (not (q == p && has_org o os) && has_peer q (sets o))
unfolding remove_from
has_peer-remove_from p q [] sets o = ground arith
has_peer-remove_from p q (t ∷ os) sets o = elim (Bool-cases (text_eq o t)) [
  | inl e ↦
      has_peer-remove_from p q os _ o
      ∙ rw (e, has_peer-delete p q (sets t))
          (ground (arith, ap (λ k. has_peer q (sets k)) (text_eq_sound o t e), flip_back e))
  | inr e ↦ has_peer-remove_from p q os _ o ∙ rw e (ground (arith, flip))
]
  where
    flip : text_eq t o ≡ true → text_eq o t ≡ true
    flip h = rw (text_eq_sound t o h) (text_eq_refl o)

    flip_back : text_eq o t ≡ true → text_eq t o ≡ true
    flip_back h = rw (text_eq_sound o t h) (text_eq_refl t)

pub count-remove_from :
    (p q : ℕ) (os : List Text) (sets : Text → List ℕ) (o : Text)
    → count_where (λ x. x == q) (remove_from p os sets o) ≤ count_where (λ x. x == q) (sets o)
unfolding remove_from
count-remove_from p q [] sets o = omega arith
count-remove_from p q (t ∷ os) sets o = elim (Bool-cases (text_eq o t)) [
  | inl e ↦ omega (arith, count-remove_from p q os (set_text t (delete p (sets t)) sets) o, shorter)
  | inr e ↦ omega (arith, count-remove_from p q os (set_text t (delete p (sets t)) sets) o, kept e)
]
  where
    shorter :
        count_where (λ x. x == q) (set_text t (delete p (sets t)) sets o)
        ≤ count_where (λ x. x == q) (sets o)
    shorter = elim (Bool-cases (text_eq o t)) [
      | inl e ↦
          rw (e, text_eq_sound o t e)
            (count_where-keep-le (λ x. x == q) (λ x. not (x == p)) (sets t))
      | inr e ↦ rw e (omega arith)
    ]

    kept :
        text_eq o t ≡ false
        → count_where (λ x. x == q) (set_text t (delete p (sets t)) sets o)
          ≤ count_where (λ x. x == q) (sets o)
    kept e = shorter

pub has_peer-add_peer :
    (p q : ℕ) (ps : List ℕ) → has_peer q (add_peer p ps) ≡ (p == q || has_peer q ps)
has_peer-add_peer p q ps = elim (Bool-cases (has_peer p ps)) [
  | inl e ↦ rw e (elim (Bool-cases (p == q)) [
    | inl k ↦ rw k (ap (λ x. has_peer x ps) (sym ((==_iff p q).0 k)) ∙ e)
    | inr k ↦ rw k refl
  ])
  | inr e ↦ rw (e, any-append) (ground arith)
]

pub count-add_peer :
    (p q : ℕ) (ps : List ℕ)
    → count_where (λ x. x == q) ps ≤ 1
    → count_where (λ x. x == q) (add_peer p ps) ≤ 1
count-add_peer p q ps h = elim (Bool-cases (has_peer p ps)) [
  | inl e ↦ rw e h
  | inr e ↦
      rw (e, count_where-append)
        (elim (Bool-cases (p == q)) [
          | inl k ↦ rw k (
              omega (
                arith,
                ap (λ x. count_where (λ y. y == x) ps) (sym ((==_iff p q).0 k)),
                any-none (λ x. x == p) ps e,
              ))
          | inr k ↦ rw k (omega (arith, h))
        ])
]
