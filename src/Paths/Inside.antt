-- ===== src/Paths/Inside.antt =====
-- The guard on a path is right: a path that passes lies in the directory, part by part.
use db_backup_app.Base.{
  ◌≡◌, ◌≢◌, refl, ap, sym, ◌∙◌, subst, inl, inr, Bool, true, false, ◌||◌, not, List, [], ◌∷◌, ◌++◌,
  arith, Text, All, All-append, is_empty, has_prefix, branch, text_eq, text_eq_sound, Bool-cases,
  some,
}
use mathlib.Core.List.{reverse, reverse-cons, append-nil, append_assoc}
use db_backup_app.Paths.{
  split, parts, slash, push, push_all, clean, join_parts, render, is_dot, is_dot_dot, is_rooted,
  is_within, Clean, join, entry_target,
}
use db_backup_app.Paths.Parts.{Whole, parts-append, parts-Whole, parts-join_parts, has_prefix_sound}

-- A part that a cleaned absolute path may have.
pub record IsName (s : Text) : Type 0 where
  pub whole : Whole s
  pub some_text : is_empty s ≡ false
  pub no_climb : is_dot_dot s ≡ false

-- Of any cleaned path.
abbrev pub Part : Text → Type 0
Part s = Whole s × (is_empty s ≡ false)

All-reverse : (P : Text → Type 0) (xs : List Text) → All P xs → All P (reverse xs)
All-reverse P [] h = tt
All-reverse P (x ∷ xs) h =
    subst (All P) (sym (reverse-cons x xs))
      (All-append P (reverse xs) (x ∷ []) (All-reverse P xs h.1) (h.0, tt))

push-Part :
    (rooted : Bool) (stack : List Text) (s : Text)
    → Whole s
    → All Part stack
    → All Part (push rooted stack s)
unfolding push
push-Part rooted [] s w h =
    branch (All Part) (is_empty s || is_dot s) (λ _. tt)
      (λ e.
        branch (All Part) (not (is_dot_dot s)) (λ _. ((w, ground arith), tt))
          (λ _. branch (All Part) rooted (λ _. tt) (λ _. ((w, ground arith), tt))))
push-Part rooted (top ∷ below) s w h =
    branch (All Part) (is_empty s || is_dot s) (λ _. h)
      (λ e.
        branch (All Part) (not (is_dot_dot s)) (λ _. ((w, ground arith), h))
          (λ _. branch (All Part) (is_dot_dot top) (λ _. ((w, ground arith), h)) (λ _. h.1)))

push-IsName :
    (stack : List Text) (s : Text) → Whole s → All IsName stack → All IsName (push true stack s)
unfolding push
push-IsName [] s w h =
    branch (All IsName) (is_empty s || is_dot s) (λ _. tt)
      (λ e.
        branch (All IsName) (not (is_dot_dot s))
          (λ n. (record { whole = w; some_text = ground arith; no_climb = ground arith }, tt))
          (λ _. tt))
push-IsName (top ∷ below) s w h =
    branch (All IsName) (is_empty s || is_dot s) (λ _. h)
      (λ e.
        branch (All IsName) (not (is_dot_dot s))
          (λ n. (record { whole = w; some_text = ground arith; no_climb = ground arith }, h))
          (λ _. branch (All IsName) (is_dot_dot top) (λ c. absurd (cc h.0.no_climb)) (λ _. h.1)))

push_all-keeps :
    (P : Text → Type 0) (rooted : Bool)
    → ((stack : List Text) (s : Text) → Whole s → All P stack → All P (push rooted stack s))
    → (ss : List Text) (stack : List Text) → All Whole ss
    → All P stack
    → All P (push_all rooted stack ss)
unfolding push_all
push_all-keeps P rooted k [] stack w h = h
push_all-keeps P rooted k (s ∷ ss) stack w h =
    push_all-keeps P rooted k ss (push rooted stack s) w.1 (k stack s w.0 h)

clean-Part : (s : Text) → All Part (clean s).segments
unfolding clean
clean-Part s =
    All-reverse Part _
      (push_all-keeps Part (is_rooted s) (push-Part (is_rooted s)) (parts s) [] (parts-Whole s) tt)

-- A cleaned absolute path consists of names: no part is empty, has a slash, or climbs.
pub clean-IsName : (s : Text) → is_rooted s ≡ true → All IsName (clean s).segments
unfolding clean
clean-IsName s r =
    rw r (
      All-reverse IsName _ (push_all-keeps IsName true push-IsName (parts s) [] (parts-Whole s) tt))

All-Whole : (ss : List Text) → All Part ss → All Whole ss
All-Whole [] h = tt
All-Whole (s ∷ ss) h = (h.0.0, All-Whole ss h.1)

abbrev path_of : Bool → List Text → Clean
path_of rooted segments = record { rooted = rooted; segments = segments }

parts-rooted :
    (s : Text) (ss : List Text)
    → All Part (s ∷ ss)
    → parts (render (path_of true (s ∷ ss))) ≡ [] ∷ s ∷ ss
unfolding render parts split
parts-rooted s ss h =
    parts-append [] (join_parts (s ∷ ss))
    ∙ ap (λ l. [] ∷ l) (parts-join_parts s ss (All-Whole (s ∷ ss) h))

-- The parts of the written path begin with those of an absolute directory: so do its segments.
below_parts :
    (rooted : Bool) (ss : List Text) (d : Text) (ds : List Text)
    → is_empty d ≡ false
    → All Part ss
    → parts (render (path_of rooted ss)) ≡ [] ∷ d ∷ ds
    → (rooted ≡ true) × (ss ≡ d ∷ ds)
unfolding render parts split join_parts
below_parts true [] d ds named h e = absurd (ground arith)
below_parts true (s ∷ ss) d ds named h e =
    let k : [] ∷ s ∷ ss ≡ [] ∷ d ∷ ds = sym (parts-rooted s ss h) ∙ e in (refl, cc)
below_parts false [] d ds named h e = absurd (ground arith)
below_parts false (s ∷ ss) d ds named h e =
    let k : s ∷ ss ≡ [] ∷ d ∷ ds = sym (parts-join_parts s ss (All-Whole (s ∷ ss) h)) ∙ e in
    absurd (ground (arith, h.0.1))

-- A cleaned path inside another one: absolute like it, with its parts first.
abbrev pub Below : Clean → Clean → Type 0
Below d p = (p.rooted ≡ true) × ((rest : List Text) × (p.segments ≡ d.segments ++ rest))

passes-Below :
    (rooted : Bool) (ss : List Text) (d : Text) (ds : List Text)
    → All Part (d ∷ ds)
    → All Part ss
    → (has_prefix (render (path_of rooted ss)) (render (path_of true (d ∷ ds)) ++ slash ∷ [])
        || text_eq (render (path_of rooted ss)) (render (path_of true (d ∷ ds))))
      ≡ true
    → Below (path_of true (d ∷ ds)) (path_of rooted ss)
passes-Below rooted ss d ds hd hp h =
    elim (Bool-cases (text_eq (render (path_of rooted ss)) (render (path_of true (d ∷ ds))))) [
      | inl same ↦
          let e =
            below_parts rooted ss d ds hd.0.1 hp
              (ap parts (text_eq_sound _ _ same) ∙ parts-rooted d ds hd) in
          (e.0, ([], e.1 ∙ sym (append-nil (d ∷ ds))))
      | inr other ↦
          let (u, e) =
            has_prefix_sound (render (path_of rooted ss))
              (render (path_of true (d ∷ ds)) ++ slash ∷ []) (ground arith) in
          let k = below_parts rooted ss d (ds ++ parts u) hd.0.1 hp (
            ap parts (e ∙ append_assoc (render (path_of true (d ∷ ds))) (slash ∷ []) u)
            ∙ parts-append (render (path_of true (d ∷ ds))) u
            ∙ ap (λ l. l ++ parts u) (parts-rooted d ds hd)) in
          (k.0, (parts u, k.1))
    ]

-- A path that passes the guard of an absolute directory other than the root is absolute, its cleaned
-- parts begin with those of the directory, and none of its parts is empty, has a slash, or climbs.
pub is_within-Below :
    (path dir : Text)
    → is_rooted dir ≡ true
    → (clean dir).segments ≢ []
    → is_within path dir ≡ true
    → Below (clean dir) (clean path) × All IsName (clean path).segments
unfolding is_within clean
is_within-Below path dir r some_part h = (inside, clean-IsName path inside.0)
  where
    go :
        (rooted : Bool) (ds : List Text)
        → rooted ≡ true
        → ds ≢ []
        → All Part ds
        → (has_prefix (render (clean path)) (render (path_of rooted ds) ++ slash ∷ [])
            || text_eq (render (clean path)) (render (path_of rooted ds)))
          ≡ true
        → Below (path_of rooted ds) (clean path)
    go true [] e k hd g = absurd (k refl)
    go true (d ∷ ds) e k hd g =
        passes-Below (clean path).rooted (clean path).segments d ds hd (clean-Part path) g
    go false ds e k hd g = absurd (cc)

    inside : Below (clean dir) (clean path)
    inside = go (clean dir).rooted (clean dir).segments r some_part (clean-Part dir) h

-- An archive entry is written inside the destination, an absolute directory other than the root, or
-- not at all, whatever its name is.
pub entry_target-Below :
    (dest name target : Text)
    → is_rooted dest ≡ true
    → (clean dest).segments ≢ []
    → entry_target dest name ≡ some target
    → Below (clean dest) (clean target) × All IsName (clean target).segments
unfolding entry_target
entry_target-Below dest name target r some_part h = is_within-Below target dest r some_part (
    branch (λ o. o ≡ some target → is_within target dest ≡ true) (is_within (join dest name) dest)
      (λ ok e. subst (λ t. is_within t dest ≡ true) (the_target e) ok) (λ _ e. absurd (cc)) h)
  where
    the_target : {a b : Text} → some a ≡ some b → a ≡ b
    the_target e = cc
