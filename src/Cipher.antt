-- ===== src/Cipher.antt =====
-- The length arithmetic of src/AES.cpp.
pub mod Aes
pub mod RoundTrip
mod Examples
use bomap.Base.{ℕ, ◌+◌, ◌*◌, ◌/◌, ◌%◌, ◌≤◌, ◌<◌, ◌≡◌, arith}

-- `GetCiphertextLength(plen)`
unfoldable pub get_ciphertext_length : ℕ → ℕ
get_ciphertext_length plen = (plen / 16 + 1) * 16

-- The ciphertext length is the next multiple of the block of 16 bytes above the plaintext length,
-- with at least one and at most 16 bytes of padding.
pub get_ciphertext_length_bounds :
    (plen : ℕ)
    → (get_ciphertext_length plen % 16 ≡ 0)
      × (plen < get_ciphertext_length plen)
      × (get_ciphertext_length plen ≤ plen + 16)
unfolding get_ciphertext_length
get_ciphertext_length_bounds plen = omega arith
