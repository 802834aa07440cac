-- ===== src/Runner/Config/Decimal.antt =====
-- Decimal numbers read back as what was written.
use db_backup_app.Base.{
  ℕ, zero, suc, ◌+◌, ◌-◌, ◌*◌, ◌/◌, ◌%◌, ◌≤◌, ◌<◌, ◌≡◌, refl, ap, ◌∙◌, inl, inr, [], ◌∷◌, ◌++◌,
  arith, ◌==◌, pos, negsuc, Text, lit, Bool-cases, All, branch,
}
use db_backup_app.Runner.Config.{digits, itoa}

-- The number that digits stand for, after the one that was read so far.
abbrev pub value : ℕ → Text → ℕ
value v [] = v
value v (c ∷ s) = value (v * 10 + (c - 48)) s

abbrev pub IsDigit : ℕ → Type 0
IsDigit c = (48 ≤ c) × (c ≤ 57)

-- The least power of ten that the buffer cannot hold.
abbrev pow10 : ℕ → ℕ
pow10 zero = 1
pow10 (suc n) = pow10 n * 10

digits-value :
    (fuel n : ℕ) (acc : Text)
    → n < pow10 fuel
    → All IsDigit acc
    → (value 0 (digits fuel n acc) ≡ value n acc) × All IsDigit (digits fuel n acc)
unfolding digits
digits-value zero n acc h d = (ap (λ k. value k acc) (omega arith), d)
digits-value (suc fuel) n acc h d = elim (Bool-cases (n == 0)) [
  | inl e ↦ rw e (ap (λ k. value k acc) (ground arith), d)
  | inr e ↦
      let ih =
        digits-value fuel (n / 10) ((48 + n % 10) ∷ acc) (omega (arith, h)) (omega arith, d) in
      rw e (ih.0 ∙ ap (λ k. value k acc) (omega arith), ih.1)
]

-- An int64 other than the least one fits in the buffer: it is written as digits that stand for it, with a
-- minus sign in front if it is negative.
pub itoa-value :
    (n m : ℕ)
    → n < 9_223_372_036_854_775_808
    → suc m < 9_223_372_036_854_775_808
    → (value 0 (itoa (pos n)) ≡ n)
      × All IsDigit (itoa (pos n))
      × ((ds : Text) × (itoa (negsuc m) ≡ lit "-" ++ ds) × (value 0 ds ≡ suc m) × All IsDigit ds)
unfolding itoa lit
itoa-value n m h k =
    let p = digits-value 20 n [] (omega (arith, h)) tt in
    let q = digits-value 19 (suc m) [] (omega (arith, k)) tt in
    (
      branch (λ t. value 0 t ≡ n) (n == 0) (λ e. ground arith) (λ _. p.0),
      branch (All IsDigit) (n == 0) (λ _. ((omega arith, omega arith), tt)) (λ _. p.1),
      (digits 19 (suc m) [], refl, q.0, q.1),
    )
