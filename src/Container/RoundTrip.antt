-- ===== src/Container/RoundTrip.antt =====
-- Decrypting undoes encrypting, for any file and any key of the right length.
use db_backup_app.Base.{
  ℕ, zero, suc, ◌+◌, ◌≤◌, ◌<◌, ◌≡◌, refl, ap, sym, ◌∙◌, false, Option, some, [], ◌∷◌, ◌++◌, arith,
  length, take, drop, Text, text_eq_refl, is_empty, length-append,
}
use mathlib.Core.List.{append_assoc}
use db_backup_app.Container.{
  Gcm, enc_magic, big_endian, of_big_endian, nonce_for, frame, frames, encrypt_file, open_frame,
  stated, open_frames, decrypt_file,
}
use db_backup_app.Container.Bytes.{
  take-append, drop-append, take-drop, length-take-le, length-drop, length-big_endian,
  length-nonce_for, of_big_endian-big_endian,
}

-- What is documented of AES-GCM: what was sealed opens, and a sealed text is 16 bytes longer.
pub record IsGcm (gcm : Gcm) : Type 0 where
  pub opens : (key nonce text : Text) → gcm.open_ key nonce (gcm.seal key nonce text) ≡ some text
  pub longer : (key nonce text : Text) → length (gcm.seal key nonce text) ≡ length text + 16

-- The first twelve bytes, the next four, and what follows.
seams :
    (n b x l : Text)
    → length n ≡ 12
    → length b ≡ 4
    → l ≡ n ++ (b ++ x)
    → (take 12 l ≡ n) × (take 4 (drop 12 l) ≡ b) × (drop 16 l ≡ x) × (length l ≡ 16 + length x)
seams n b x l hn hb e = rw e (
  take-append n (b ++ x) 12 hn,
  rw (drop-append n (b ++ x) 12 hn) (take-append b x 4 hb),
  ap (drop 16) (sym (append_assoc n b x))
      ∙ drop-append (n ++ b) x 16 (omega (arith, length-append n b, hn, hb)),
  omega (arith, length-append n (b ++ x), length-append b x, hn, hb),
)

long-is_empty : (l : Text) → 1 ≤ length l → is_empty l ≡ false
long-is_empty [] h = absurd (omega (arith, h))
long-is_empty (x ∷ l) h = refl

module _ (gcm : Gcm) (size : ℕ) (key : Text) where
  open_frames-suc :
      (fuel : ℕ) (src : Text)
      → open_frames gcm size key (suc fuel) src
        ≡ open_frame gcm size key src
            (open_frames gcm size key fuel (drop (stated gcm size key src) (drop 16 src)))
  unfolding open_frames
  open_frames-suc fuel src = refl

  open_frame-nil : (rest : Option Text) → open_frame gcm size key [] rest ≡ some []
  unfolding open_frame
  open_frame-nil rest = refl

  left_over :
      (fuel : ℕ) (src c rest more : Text)
      → stated gcm size key src ≡ length c
      → drop 16 src ≡ c ++ rest
      → open_frames gcm size key fuel rest ≡ some more
      → open_frames gcm size key fuel (drop (stated gcm size key src) (drop 16 src)) ≡ some more
  left_over fuel src c rest more len body h = rw (len, body, drop-append c rest (length c) refl) h

  opened :
      (src nonce c rest chunk more : Text)
      → 16 ≤ length src
      → stated gcm size key src ≡ length c
      → 1 ≤ length c
      → length c ≤ size + 32
      → drop 16 src ≡ c ++ rest
      → take 12 src ≡ nonce
      → gcm.open_ key nonce c ≡ some chunk
      → open_frame gcm size key src (some more) ≡ some (chunk ++ more)
  unfolding open_frame
  opened src nonce c rest chunk more long len some_text fits body at_front opens =
      rw
        (
          len,
          body,
          long-is_empty src (omega (arith, long)),
          take-append c rest (length c) refl,
          at_front,
          opens,
        )
        (ground (arith, length-append c rest))

  -- One turn of the loop, on bytes that begin with a frame whose sealed text is `c`.
  turn :
      (fuel : ℕ) (src nonce c rest chunk more : Text)
      → 16 ≤ length src
      → stated gcm size key src ≡ length c
      → 1 ≤ length c
      → length c ≤ size + 32
      → drop 16 src ≡ c ++ rest
      → take 12 src ≡ nonce
      → gcm.open_ key nonce c ≡ some chunk
      → open_frames gcm size key fuel rest ≡ some more
      → open_frames gcm size key (suc fuel) src ≡ some (chunk ++ more)
  turn fuel src nonce c rest chunk more long len some_text fits body at_front opens h =
      open_frames-suc fuel src
      ∙ ap (open_frame gcm size key src) (left_over fuel src c rest more len body h)
      ∙ opened src nonce c rest chunk more long len some_text fits body at_front opens

module _ (gcm : Gcm) (ok : IsGcm gcm) (size : ℕ) (key prefix : Text) (some_size : 1 ≤ size)
    (small : size < 4_294_967_000) (four : length prefix ≡ 4) where
  open_frames-frame :
      (fuel counter : ℕ) (chunk rest more : Text)
      → length chunk ≤ size
      → open_frames gcm size key fuel rest ≡ some more
      → open_frames gcm size key (suc fuel) (frame gcm size key prefix counter chunk ++ rest)
        ≡ some (chunk ++ more)
  unfolding frame stated
  open_frames-frame fuel counter chunk rest more fits h =
      turn gcm size key fuel src nonce c rest chunk more (omega (arith, seam.3))
        (ap (of_big_endian 0) seam.1
          ∙ of_big_endian-big_endian (length c) (omega (arith, long, small, fits)))
        (omega (arith, long)) (omega (arith, long, fits)) seam.2 seam.0 (ok.opens key nonce chunk) h
    where
      nonce : Text
      nonce = nonce_for prefix counter

      c : Text
      c = gcm.seal key nonce chunk

      src : Text
      src = frame gcm size key prefix counter chunk ++ rest

      long : length c ≡ length chunk + 16
      long = ok.longer key nonce chunk

      together : src ≡ nonce ++ (big_endian 4 (length c) ++ (c ++ rest))
      together =
          append_assoc (nonce ++ big_endian 4 (length c)) c rest
          ∙ append_assoc nonce (big_endian 4 (length c)) (c ++ rest)

      seam :
          (take 12 src ≡ nonce)
          × (take 4 (drop 12 src) ≡ big_endian 4 (length c))
          × (drop 16 src ≡ c ++ rest)
          × (length src ≡ 16 + length (c ++ rest))
      seam =
          seams nonce (big_endian 4 (length c)) (c ++ rest) src
            (length-nonce_for prefix counter four) (length-big_endian 4 (length c)) together

  frame-long : (counter : ℕ) (chunk : Text) → 1 ≤ length (frame gcm size key prefix counter chunk)
  unfolding frame
  frame-long counter chunk =
      let c : Text = gcm.seal key (nonce_for prefix counter) chunk in
      omega (
        arith,
        length-append (nonce_for prefix counter ++ big_endian 4 (length c)) c,
        length-append (nonce_for prefix counter) (big_endian 4 (length c)),
        length-nonce_for prefix counter four,
      )

  -- Enough fuel on both sides: one more than the bytes to read.
  open_frames-frames :
      (n m counter : ℕ) (text : Text)
      → length text < n
      → length (frames gcm size key n prefix counter text) < m
      → open_frames gcm size key m (frames gcm size key n prefix counter text) ≡ some text
  unfolding frames
  open_frames-frames zero m counter text h k = absurd (omega (arith, h))
  open_frames-frames (suc n) zero counter text h k = absurd (omega (arith, k))
  open_frames-frames (suc n) (suc m) counter [] h k =
      open_frames-suc gcm size key m [] ∙ open_frame-nil gcm size key _
  open_frames-frames (suc n) (suc m) counter (x ∷ text) h k =
      open_frames-frame m counter (take size (x ∷ text))
        (frames gcm size key n prefix (suc counter) after) after (length-take-le size (x ∷ text))
        (open_frames-frames n m (suc counter) after
          (omega (arith, length-drop size (x ∷ text), h, some_size))
          (omega (
            arith,
            k,
            length-append (frame gcm size key prefix counter (take size (x ∷ text)))
                (frames gcm size key n prefix (suc counter) after),
            frame-long counter (take size (x ∷ text)),
          )))
      ∙ ap some (take-drop size (x ∷ text))
    where
      after : Text
      after = drop size (x ∷ text)

decrypt_file-opens :
    (gcm : Gcm) (size : ℕ) (key prefix frames_read text : Text)
    → length prefix ≡ 4
    → length key ≡ 32
    → open_frames gcm size key (suc (length (enc_magic ++ prefix ++ frames_read))) frames_read
      ≡ some text
    → decrypt_file gcm size key (enc_magic ++ prefix ++ frames_read) ≡ some text
unfolding decrypt_file
decrypt_file-opens gcm size key prefix frames_read text four right h =
    rw (right, drop-append prefix frames_read 4 four, h, text_eq_refl enc_magic)
      (ground (arith, length-append prefix frames_read, four))

-- Whatever the file and the random prefix of four bytes, with a key of 32 bytes and a chunk size
-- between 1 and 4,294,966,999, encrypting succeeds and decrypting what it wrote gives the file back.
pub decrypt_file-encrypt_file :
    (gcm : Gcm) (size : ℕ) (key prefix text : Text)
    → IsGcm gcm
    → 1 ≤ size
    → size < 4_294_967_000
    → length prefix ≡ 4
    → length key ≡ 32
    → (src : Text) × (encrypt_file gcm size key prefix text ≡ some src)
      × (decrypt_file gcm size key src ≡ some text)
unfolding encrypt_file
decrypt_file-encrypt_file gcm size key prefix text ok some_size small four right = (
  enc_magic ++ prefix ++ written,
  ground arith,
  decrypt_file-opens gcm size key prefix written text four right reads,
)
  where
    written : Text
    written = frames gcm size key (suc (length text)) prefix 0 text

    reads :
        open_frames gcm size key (suc (length (enc_magic ++ prefix ++ written))) written ≡ some text
    reads =
        open_frames-frames gcm ok size key prefix some_size small four (suc (length text))
          (suc (length (enc_magic ++ prefix ++ written))) 0 text (omega arith)
          (omega (arith, length-append prefix written))
