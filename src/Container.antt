-- ===== src/Container.antt =====
-- agent/internal/agent/crypto.go, EncryptFile and DecryptFile: the container of an encrypted backup.
--
-- Files are lists of bytes and the disk does not fail. `Gcm` is AES-256-GCM under a key, and `size` the
-- chunk size. The frames are written and read with fuel, one more than the bytes there are.
pub mod Bytes
pub mod RoundTrip
pub mod Nonces
use db_backup_app.Base.{
  ℕ, zero, suc, ◌+◌, ◌*◌, ◌-◌, ◌/◌, ◌%◌, ◌^◌, Bool, true, false, ◌||◌, not, Option, none, some,
  List, [], ◌∷◌, ◌++◌, ◌==◌, ltb, if◌then◌else◌, length, take, drop, Text, text_eq, is_empty,
}

-- Seal and Open of the cipher, both without additional data: key, nonce, text.
pub record Gcm : Type 0 where
  pub seal : Text → Text → Text → Text
  pub open_ : Text → Text → Text → Option Text

abbrev pub enc_chunk_size : ℕ
enc_chunk_size = 1_048_576

abbrev pub overhead : ℕ
overhead = 16

-- "VG01"
abbrev pub enc_magic : Text
enc_magic = 86 ∷ 71 ∷ 48 ∷ 49 ∷ []

-- The lowest `n` bytes of a number, the highest of them first.
unfoldable pub big_endian : ℕ → ℕ → Text
big_endian zero v = []
big_endian (suc n) v = v / 256 ^ n % 256 ∷ big_endian n v

unfoldable pub of_big_endian : ℕ → Text → ℕ
of_big_endian acc [] = acc
of_big_endian acc (b ∷ bs) = of_big_endian (acc * 256 + b) bs

-- The counter is a uint64.
unfoldable pub nonce_for : Text → ℕ → Text
nonce_for prefix counter = take 4 prefix ++ big_endian 8 (counter % 2 ^ 64)

module _ (gcm : Gcm) (size : ℕ) (key : Text) where
  unfoldable pub frame : Text → ℕ → Text → Text
  frame prefix counter chunk =
      let nonce = nonce_for prefix counter in
      let ct = gcm.seal key nonce chunk in nonce ++ big_endian 4 (length ct) ++ ct

  unfoldable pub frames : ℕ → Text → ℕ → Text → Text
  frames zero prefix counter text = []
  frames (suc fuel) prefix counter text =
      let rest = frames fuel prefix (suc counter) (drop size text) in
      if is_empty text then [] else frame prefix counter (take size text) ++ rest

  -- EncryptFile; `prefix` are the random bytes.
  unfoldable pub encrypt_file : Text → Text → Option Text
  encrypt_file prefix text =
      if length key == 32
      then some (enc_magic ++ prefix ++ frames (suc (length text)) prefix 0 text)
      else none

  -- The length that the next frame states.
  unfoldable pub stated : Text → ℕ
  stated src = of_big_endian 0 (take 4 (drop 12 src))

  -- One turn of DecryptFile's loop on the bytes that are left; `rest` is what the turns after it yield.
  unfoldable pub open_frame : Text → Option Text → Option Text
  open_frame src rest =
      let body = drop 16 src in
      let n = stated src in
      if is_empty src
      then some []
      else if ltb (length src) 16
      then none
      else if n == 0 || ltb (size + overhead + 16) n
      then none
      else if ltb (length body) n
      then none
      else elim (gcm.open_ key (take 12 src) (take n body)) [
        | none ↦ none
        | some text ↦ elim rest [ none ↦ none | some more ↦ some (text ++ more) ]
      ]

  unfoldable pub open_frames : ℕ → Text → Option Text
  open_frames zero src = none
  open_frames (suc fuel) src = open_frame src (open_frames fuel (drop (stated src) (drop 16 src)))

  -- DecryptFile; none is an error, which leaves no output.
  unfoldable pub decrypt_file : Text → Option Text
  decrypt_file src =
      if not (length key == 32)
      then none
      else if ltb (length src) 4 || not (text_eq (take 4 src) enc_magic)
      then none
      else if ltb (length src) 8
      then none
      else open_frames (suc (length src)) (drop 8 src)
