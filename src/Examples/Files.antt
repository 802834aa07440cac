-- ===== src/Examples/Files.antt =====
-- Paths, and a cipher that adds sixteen bytes.
use db_backup_app.Base.{
  ◌-◌, ◌≡◌, ◌≢◌, refl, ap, some, [], ◌∷◌, ◌++◌, arith, Text, length, length-append, take, All,
  has_prefix, text_eq,
}
use db_backup_app.Container.{Gcm, encrypt_file, decrypt_file}
use db_backup_app.Container.Bytes.{take-append}
use db_backup_app.Container.RoundTrip.{IsGcm, decrypt_file-encrypt_file}
use db_backup_app.Paths.{
  clean, parts, split, push_all, push, is_rooted, render, join_parts, is_within, entry_target, join,
}
use db_backup_app.Paths.Inside.{Below, IsName, entry_target-Below}

abbrev dir : Text
dir = 47 ∷ 97 ∷ []

abbrev file : Text
file = 47 ∷ 97 ∷ 47 ∷ 98 ∷ []

named : (s : Text) → s ∷ [] ≢ []
named s e = absurd (cc)

some_part : (clean dir).segments ≢ []
unfolding clean parts split push_all push is_rooted text_eq
some_part = named (97 ∷ [])

entry_target-Below_example : Below (clean dir) (clean file) × All IsName (clean file).segments
unfolding entry_target join is_within clean parts split push_all push is_rooted render join_parts
    has_prefix text_eq
entry_target-Below_example = entry_target-Below dir (46 ∷ 47 ∷ 98 ∷ []) file refl some_part refl

abbrev tag : Text
tag = 0 ∷ 0 ∷ 0 ∷ 0 ∷ 0 ∷ 0 ∷ 0 ∷ 0 ∷ 0 ∷ 0 ∷ 0 ∷ 0 ∷ 0 ∷ 0 ∷ 0 ∷ 0 ∷ []

-- Only what the proofs ask of a cipher.
abbrev plain : Gcm
plain = record {
  seal = λ key nonce text. text ++ tag;
  open_ = λ key nonce text. some (take (length text - 16) text);
}

without_tag : (text : Text) → take (length (text ++ tag) - 16) (text ++ tag) ≡ text
without_tag text = take-append text tag _ (omega (arith, length-append text tag))

plain-IsGcm : IsGcm plain
plain-IsGcm = record {
  opens = λ key nonce text. ap some (without_tag text);
  longer = λ key nonce text. length-append text tag;
}

abbrev key : Text
key = tag ++ tag

decrypt_file-encrypt_file_example :
    (src : Text) × (encrypt_file plain 2 key (1 ∷ 2 ∷ 3 ∷ 4 ∷ []) (10 ∷ 11 ∷ 12 ∷ []) ≡ some src)
    × (decrypt_file plain 2 key src ≡ some (10 ∷ 11 ∷ 12 ∷ []))
decrypt_file-encrypt_file_example =
    decrypt_file-encrypt_file plain 2 key (1 ∷ 2 ∷ 3 ∷ 4 ∷ []) (10 ∷ 11 ∷ 12 ∷ []) plain-IsGcm
      (omega arith) (omega arith) refl refl
