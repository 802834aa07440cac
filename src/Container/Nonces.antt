-- ===== src/Container/Nonces.antt =====
-- No two frames of a file are sealed under one nonce.
use db_backup_app.Base.{ℕ, ◌%◌, ◌^◌, ◌<◌, ◌≡◌, ap, sym, ◌∙◌, arith, length, drop, take, Text}
use db_backup_app.Container.{big_endian, of_big_endian, nonce_for}
use db_backup_app.Container.Bytes.{drop-append, length-take}

of_big_endian-eight :
    (v : ℕ) → v < 18_446_744_073_709_551_616 → of_big_endian 0 (big_endian 8 v) ≡ v
unfolding of_big_endian big_endian
of_big_endian-eight v h = omega arith

drop-nonce_for :
    (prefix : Text) (counter : ℕ)
    → length prefix ≡ 4
    → counter < 18_446_744_073_709_551_616
    → drop 4 (nonce_for prefix counter) ≡ big_endian 8 counter
unfolding nonce_for
drop-nonce_for prefix counter four small =
    drop-append (take 4 prefix) (big_endian 8 (counter % 2 ^ 64)) 4
      (length-take 4 prefix (omega (arith, four)))
    ∙ ap (big_endian 8) (omega arith)

-- Under one prefix of four bytes two counters below 2^64 never give the same nonce.
pub nonce_for-distinct :
    (prefix : Text) (i j : ℕ)
    → length prefix ≡ 4
    → i < 18_446_744_073_709_551_616
    → j < 18_446_744_073_709_551_616
    → nonce_for prefix i ≡ nonce_for prefix j
    → i ≡ j
nonce_for-distinct prefix i j four hi hj e =
    sym (of_big_endian-eight i hi)
    ∙ ap (of_big_endian 0)
        (sym (drop-nonce_for prefix i four hi) ∙ ap (drop 4) e ∙ drop-nonce_for prefix j four hj)
    ∙ of_big_endian-eight j hj
