-- ===== src/Cipher/Aes.antt =====
-- `Encrypt` and `Decrypt` of src/AES.cpp with what they call. The buffers are lists of bytes; `none` is
-- an access outside a buffer. A call of OpenSSL that fails is only reported, and the model's never fail.
-- The calls write the bytes whose number they return and no others; the room beyond these that the
-- manual asks for in the buffer of `EVP_DecryptUpdate` is not required.
use bomap.Base.{
  ℕ, suc, ◌+◌, ◌-◌, ◌≡◌, leb, if◌then◌else◌, List, [], ◌∷◌, ◌++◌, Option, none, some, length, take,
  drop, replicate, ◌>>=◌,
}
use bomap.Slots.{write}
use bomap.Cipher.{get_ciphertext_length}

-- What `EVP_EncryptUpdate` and `EVP_EncryptFinal_ex` write for a key, an initialisation vector and a
-- plaintext, and what the calls for the decryption write.
pub record OpenSsl : Type 0 where
  pub encrypt_update : List ℕ → List ℕ → List ℕ → List ℕ
  pub encrypt_final : List ℕ → List ℕ → List ℕ → List ℕ
  pub decrypt_update : List ℕ → List ℕ → List ℕ → List ℕ
  pub decrypt_final : List ℕ → List ℕ → List ℕ → List ℕ

-- What OpenSSL documents: the ciphertext is padded to the next multiple of 16 bytes, and the
-- decryption with the same key and vector gives the plaintext.
pub record Documented (ssl : OpenSsl) : Type 0 where
  pub padded :
      (key iv p : List ℕ)
      → length (ssl.encrypt_update key iv p ++ ssl.encrypt_final key iv p)
        ≡ get_ciphertext_length (length p)
  pub opens :
      (key iv p : List ℕ)
      → let c = ssl.encrypt_update key iv p ++ ssl.encrypt_final key iv p in
        ssl.decrypt_update key iv c ++ ssl.decrypt_final key iv c ≡ p

-- `IV`
abbrev pub iv_size : ℕ
iv_size = 16

-- bytes written into a buffer from an index on
unfoldable pub put : List ℕ → ℕ → List ℕ → Option (List ℕ)
put a i [] = some a
put a i (x ∷ xs) = do b ← write a i x; put b (suc i) xs

-- the first bytes of a buffer, read through its pointer
unfoldable pub read : ℕ → List ℕ → Option (List ℕ)
read n a = if leb n (length a) then some (take n a) else none

-- `resize(n)`
unfoldable pub resize : ℕ → List ℕ → List ℕ
resize n a = take n a ++ replicate (n - length a) 0

module _ (ssl : OpenSsl) where
  -- `EncryptBytes(key, iv, plaintext, plen, ciphertext)`: the buffer, and the length of the ciphertext
  unfoldable pub encrypt_bytes : List ℕ → List ℕ → List ℕ → ℕ → List ℕ → Option (List ℕ × ℕ)
  unfolding put read
  encrypt_bytes key iv plaintext plen ciphertext = do
    p ← read plen plaintext
    let u : List ℕ = ssl.encrypt_update key iv p
    let f : List ℕ = ssl.encrypt_final key iv p
    c1 ← put ciphertext 0 u
    c2 ← put c1 (length u) f
    some (c2, length u + length f)

  -- `DecryptBytes(key, iv, ciphertext, clen, plaintext)`
  unfoldable pub decrypt_bytes : List ℕ → List ℕ → List ℕ → ℕ → List ℕ → Option (List ℕ × ℕ)
  unfolding put read
  decrypt_bytes key iv ciphertext clen plaintext = do
    c ← read clen ciphertext
    let u : List ℕ = ssl.decrypt_update key iv c
    let f : List ℕ = ssl.decrypt_final key iv c
    p1 ← put plaintext 0 u
    p2 ← put p1 (length u) f
    some (p2, length u + length f)

  -- `EncryptBlock(key, iv, plaintext, clen_size, plaintext_size)`
  unfoldable pub encrypt_block : List ℕ → List ℕ → List ℕ → ℕ → ℕ → Option (List ℕ)
  unfolding encrypt_bytes
  encrypt_block key iv plaintext clen_size plaintext_size = do
    (c, _) ← encrypt_bytes key iv plaintext plaintext_size (replicate clen_size 0)
    some c

  -- `DecryptBlock(key, iv, ciphertext, clen_size)`
  unfoldable pub decrypt_block : List ℕ → List ℕ → List ℕ → ℕ → Option (List ℕ)
  unfolding decrypt_bytes resize
  decrypt_block key iv ciphertext clen_size = do
    (p, plen) ← decrypt_bytes key iv ciphertext clen_size (replicate clen_size 0)
    some (resize plen p)

  -- `Encrypt(key, plaintext, clen_size, plaintext_size)` with the vector that `GenerateIV` draws
  unfoldable pub encrypt : List ℕ → List ℕ → List ℕ → ℕ → ℕ → Option (List ℕ)
  unfolding encrypt_block
  encrypt iv key plaintext clen_size plaintext_size = do
    c ← encrypt_block key iv plaintext clen_size plaintext_size
    some (c ++ iv)

  -- `Decrypt(key, ciphertext, clen_size)`: the vector is the last bytes of the ciphertext
  unfoldable pub decrypt : List ℕ → List ℕ → ℕ → Option (List ℕ)
  unfolding decrypt_block
  decrypt key ciphertext clen_size =
      if leb iv_size (length ciphertext)
      then decrypt_block key (drop (length ciphertext - iv_size) ciphertext) ciphertext clen_size
      else none
