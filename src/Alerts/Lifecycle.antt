-- ===== src/Alerts/Lifecycle.antt =====
-- What a request may do to the rows of the alert table.
use db_backup_app.Base.{
  ℕ, ◌+◌, ◌≤◌, ◌≡◌, refl, ◌&&◌, not, Bool, true, false, List, [], ◌∷◌, ◌++◌, arith, ◌==◌, ==_refl,
  branch, Bool-cases, inl, inr, any, keep, update_where, count_where, All, All-map,
}
use db_backup_app.Alerts.{Alert, AlertStatus, firing, acknowledged, resolved, is_firing, among}

-- An alert is acknowledged while it fires, and resolved from either.
infix 40 ◌⇢◌
pub data ◌⇢◌ : AlertStatus → AlertStatus → Type 0 where
  stays : {s : AlertStatus} → s ⇢ s
  taken_up : firing ⇢ acknowledged
  put_right : firing ⇢ resolved
  closed : acknowledged ⇢ resolved

pub record Moves (r q : Alert) : Type 0 where
  pub same_id : q.id ≡ r.id
  pub same_organization : q.organization_id ≡ r.organization_id
  pub same_key : q.dedup_key ≡ r.dedup_key
  pub forward : r.status ⇢ q.status
  pub counted : r.occurrence_count ≤ q.occurrence_count
  pub sealed : r.status ≡ resolved → q.resolved_at ≡ r.resolved_at

-- The table before and after: rows move on, rows that do not fire may go, and new ones come last.
pub data Follows : List Alert → List Alert → Type 0 where
  ends : Follows [] []
  comes :
      {q : Alert} {qs : List Alert}
      → q.status ≡ firing
      → q.occurrence_count ≡ 1
      → Follows [] qs
      → Follows [] (q ∷ qs)
  goes :
      {r : Alert} {rs qs : List Alert}
      → is_firing r.status ≡ false
      → Follows rs qs
      → Follows (r ∷ rs) qs
  moves : {r q : Alert} {rs qs : List Alert} → Moves r q → Follows rs qs → Follows (r ∷ rs) (q ∷ qs)

Moves-refl : (r : Alert) → Moves r r
Moves-refl r = record {
  same_id = refl;
  same_organization = refl;
  same_key = refl;
  forward = stays;
  counted = omega arith;
  sealed = λ _. refl;
}

pub Follows-refl : (rows : List Alert) → Follows rows rows
Follows-refl [] = ends
Follows-refl (r ∷ rows) = moves (Moves-refl r) (Follows-refl rows)

pub Follows-append :
    (rows : List Alert) (q : Alert)
    → q.status ≡ firing
    → q.occurrence_count ≡ 1
    → Follows rows (rows ++ q ∷ [])
Follows-append [] q f o = comes f o ends
Follows-append (r ∷ rows) q f o = moves (Moves-refl r) (Follows-append rows q f o)

pub Follows-update_where :
    (hit : Alert → Bool) (change : Alert → Alert) (rows : List Alert)
    → All (λ r. hit r ≡ true → Moves r (change r)) rows
    → Follows rows (update_where hit change rows)
Follows-update_where hit change [] h = ends
Follows-update_where hit change (r ∷ rows) h =
    moves (branch (Moves r) (hit r) h.0 (λ _. Moves-refl r))
      (Follows-update_where hit change rows h.1)

pub Follows-keep :
    (kept : Alert → Bool) (rows : List Alert)
    → ((r : Alert) → kept r ≡ false → is_firing r.status ≡ false)
    → Follows rows (keep kept rows)
Follows-keep kept [] h = ends
Follows-keep kept (r ∷ rows) h =
    branch (Follows (r ∷ rows)) (kept r) (λ _. moves (Moves-refl r) (Follows-keep kept rows h))
      (λ e. goes (h r e) (Follows-keep kept rows h))

pub every : (P : Alert → Type 0) (rows : List Alert) → ((r : Alert) → P r) → All P rows
every P [] h = tt
every P (r ∷ rows) h = (h r, every P rows h)

-- The identifier is the table's primary key.
abbrev pub UniqueIds : List Alert → Type 0
UniqueIds rows = (id : ℕ) → count_where (λ (a : Alert). a.id == id) rows ≤ 1

-- Which rows have an identifier among those that were found.
among-count :
    (p : Alert → Bool) (k : ℕ) (rows : List Alert)
    → any (λ a. a.id == k) (keep p rows) ≡ true
    → 1 ≤ count_where (λ a. a.id == k && p a) rows
among-count p k [] h = absurd (cc)
among-count p k (a ∷ rows) h = ground (arith, among-count p k rows)

split-count :
    (p : Alert → Bool) (k : ℕ) (rows : List Alert)
    → count_where (λ a. a.id == k && p a) rows + count_where (λ a. a.id == k && not (p a)) rows
      ≡ count_where (λ (a : Alert). a.id == k) rows
split-count p k [] = refl
split-count p k (a ∷ rows) = ground (arith, split-count p k rows)

self-count :
    (p : Alert → Bool) (rows : List Alert)
    → All (λ r. p r ≡ false → 1 ≤ count_where (λ a. a.id == r.id && not (p a)) rows) rows
self-count p [] = tt
self-count p (r ∷ rows) = (
  λ e. ground (arith, ==_refl r.id),
  All-map _ _ rows (λ q h e. ground (arith, h e)) (self-count p rows),
)

pub among-found :
    (p : Alert → Bool) (rows : List Alert)
    → UniqueIds rows
    → All (λ r. among (keep p rows) r ≡ true → p r ≡ true) rows
among-found p rows unique =
    All-map _ _ rows
      (λ r h found. elim (Bool-cases (p r)) [
        | inl e ↦ e
        | inr e ↦ absurd (
            omega (arith, h e, among-count p r.id rows found, split-count p r.id rows, unique r.id))
      ])
      (self-count p rows)
