-- ===== src/Runner/Config/Escape.antt =====
-- User names and passwords in a connection string.
use db_backup_app.Base.{
  ℕ, ◌+◌, ◌-◌, ◌*◌, ◌≡◌, refl, ap, ◌∙◌, false, [], ◌∷◌, ◌++◌, arith, ◌==◌, if◌then◌else◌, leb, Text,
  lit, All, All-append, branch,
}
use db_backup_app.Runner.Config.{replace_all, escape_user}

abbrev hex : ℕ → ℕ
hex c = if leb c 57 then c - 48 else c - 55

-- Percent-decoding.
pub unescape : Text → Text
unescape [] = []
unescape (c ∷ []) = c ∷ []
unescape (c ∷ a ∷ []) = c ∷ a ∷ []
unescape (c ∷ a ∷ b ∷ s) =
    let coded = (hex a * 16 + hex b) ∷ unescape s in
    let plain = c ∷ unescape (a ∷ b ∷ s) in if c == b'%' then coded else plain

-- Not a byte that ends the user name, the password or the host.
abbrev pub IsSafe : ℕ → Type 0
IsSafe c = ((c == b'@') ≡ false) × ((c == b'/') ≡ false) × ((c == b':') ≡ false)

escape_byte : ℕ → Text
escape_byte c =
    if c == b'%'
    then lit "%25"
    else if c == b'@'
    then lit "%40"
    else if c == b'/'
    then lit "%2F"
    else if c == b':'
    then lit "%3A"
    else c ∷ []

escape_user-cons : (c : ℕ) (s : Text) → escape_user (c ∷ s) ≡ escape_byte c ++ escape_user s
unfolding escape_user replace_all escape_byte lit
escape_user-cons c s = ground arith

unescape-plain : (c : ℕ) (s : Text) → (c == b'%') ≡ false → unescape (c ∷ s) ≡ c ∷ unescape s
unfolding unescape
unescape-plain c [] h = refl
unescape-plain c (a ∷ []) h = refl
unescape-plain c (a ∷ b ∷ s) h = rw h refl

unescape-escape_byte : (c : ℕ) (s : Text) → unescape (escape_byte c ++ s) ≡ c ∷ unescape s
unfolding escape_byte lit unescape
unescape-escape_byte c s = ground (arith, unescape-plain c s)

escape_byte-IsSafe : (c : ℕ) → All IsSafe (escape_byte c)
unfolding escape_byte lit
escape_byte-IsSafe c =
    branch (All IsSafe) (c == b'%')
      (λ _. ((refl, refl, refl), ((refl, refl, refl), ((refl, refl, refl), tt))))
      (λ _.
        branch (All IsSafe) (c == b'@')
          (λ _. ((refl, refl, refl), ((refl, refl, refl), ((refl, refl, refl), tt))))
          (λ a.
            branch (All IsSafe) (c == b'/')
              (λ _. ((refl, refl, refl), ((refl, refl, refl), ((refl, refl, refl), tt))))
              (λ b.
                branch (All IsSafe) (c == b':')
                  (λ _. ((refl, refl, refl), ((refl, refl, refl), ((refl, refl, refl), tt))))
                  (λ d. ((a, b, d), tt)))))

-- An escaped user name or password decodes to itself, and has no byte in it that would end it early.
pub unescape-escape_user : (s : Text) → (unescape (escape_user s) ≡ s) × All IsSafe (escape_user s)
unfolding escape_user replace_all unescape
unescape-escape_user [] = (refl, tt)
unescape-escape_user (c ∷ s) =
    let ih = unescape-escape_user s in
    rw (escape_user-cons c s) (
      unescape-escape_byte c (escape_user s) ∙ ap (λ t. c ∷ t) ih.0,
      All-append IsSafe (escape_byte c) (escape_user s) (escape_byte-IsSafe c) ih.1,
    )
