-- ===== src/Jobs/References.antt =====
-- What the references and the export format of a request resolve to.
use db_backup_app.Base.{
  ℕ, ◌≡◌, subst, inl, inr, Bool, true, not, Option, none, some, List, [], ◌∷◌, if◌then◌else◌, Text,
  lit, text_eq, text_eq_refl, is_empty, trim_space, branch, on_option, Bool-cases, any, first_where,
  first_where-any,
}
use db_backup_app.Jobs.{
  Connection, PolicyKey, Reference, unset, refused, refers, referred, is_mongo, is_format,
  normalize_export_format, is_connection, is_policy, resolve_policy, resolve_connection, or_kept,
}

abbrev pub fits_source : Text → Text → Bool
fits_source source format =
    if is_mongo source then is_format format else text_eq format (lit "ARCHIVE")

pub resolve_policy-Owned :
    (parse : Text → Option ℕ) (org : ℕ) (text : Text) (policies : List PolicyKey) (id : ℕ)
    → referred (resolve_policy parse org text policies) ≡ some id
    → any (is_policy id org) policies ≡ true
unfolding resolve_policy
resolve_policy-Owned parse org text policies id =
    branch Owned (is_empty (trim_space text)) (λ _ h. absurd (cc))
      (λ _.
        on_option Owned (parse text) (λ _ h. absurd (cc))
          (λ found _.
            branch Owned (any (is_policy found org) policies)
              (λ there h.
                subst
                  (λ (o : Option ℕ).
                    elim o [ none ↦ true | some i ↦ any (is_policy i org) policies ] ≡ true)
                  h there)
              (λ _ h. absurd (cc))))
  where
    Owned : Reference → Type 0
    Owned r = referred r ≡ some id → any (is_policy id org) policies ≡ true

pub resolve_connection-Owned :
    (parse : Text → Option ℕ) (allows : Connection → Bool) (org : ℕ) (text : Text)
    (connections : List Connection) (id : ℕ)
    → referred (resolve_connection parse allows org text connections) ≡ some id
    → any (is_connection id org) connections ≡ true
unfolding resolve_connection
resolve_connection-Owned parse allows org text connections id =
    branch Owned (is_empty (trim_space text)) (λ _ h. absurd (cc))
      (λ _.
        on_option Owned (parse text) (λ _ h. absurd (cc))
          (λ i _.
            on_option Owned (first_where (is_connection i org) connections) (λ _ h. absurd (cc))
              (λ c found.
                branch Owned (allows c)
                  (λ _ h.
                    subst
                      (λ (o : Option ℕ).
                        elim o [ none ↦ true | some k ↦ any (is_connection k org) connections ]
                        ≡ true)
                      h (first_where-any (is_connection i org) connections c found))
                  (λ _ h. absurd (cc)))))
  where
    Owned : Reference → Type 0
    Owned r = referred r ≡ some id → any (is_connection id org) connections ≡ true

is_format-some :
    (f format : Text)
    → (if is_format f then some f else none) ≡ some format
    → is_format format ≡ true
is_format-some f format =
    branch (λ o. o ≡ some format → is_format format ≡ true) (is_format f)
      (λ known h.
        subst (λ (o : Option Text). elim o [ none ↦ true | some x ↦ is_format x ] ≡ true) h known)
      (λ _ h. absurd (cc))

is_archive-some :
    (format : Text) → some (lit "ARCHIVE") ≡ some format → text_eq format (lit "ARCHIVE") ≡ true
is_archive-some format h =
    subst (λ (o : Option Text). elim o [ none ↦ true | some x ↦ text_eq x (lit "ARCHIVE") ] ≡ true)
      h (text_eq_refl (lit "ARCHIVE"))

pub or_kept-Owned :
    (P : ℕ → Type 0) (r : Reference) (kept : Option ℕ)
    → ((id : ℕ) → referred r ≡ some id → P id)
    → ((id : ℕ) → kept ≡ some id → P id)
    → (id : ℕ) → or_kept r kept ≡ some id
    → P id
or_kept-Owned P (refers i) kept new old id h = new id h
or_kept-Owned P unset kept new old id h = old id h
or_kept-Owned P refused kept new old id h = old id h

module _ (upper : Text → Text) (empty : upper [] ≡ []) where
  pub normalize_export_format-fits :
      (source raw format : Text)
      → normalize_export_format upper source raw ≡ some format
      → fits_source source format ≡ true
  unfolding normalize_export_format trim_space
  normalize_export_format-fits source raw format = elim (Bool-cases (is_mongo source)) [
    | inl e ↦ rw e (is_format-some _ format)
    | inr e ↦ rw e (archive raw)
  ]
    where
      archive :
          (s : Text)
          → (if not (is_empty s)
              then none
              else some
                  (if is_empty (upper (trim_space s)) then lit "ARCHIVE" else upper (trim_space s)))
            ≡ some format
          → text_eq format (lit "ARCHIVE") ≡ true
      archive [] = rw empty (is_archive-some format)
      archive (c ∷ s) = λ h. absurd (cc)
