-- ===== src/Cipher/Examples.antt =====
-- The ciphertext of a whole number of blocks has a block of padding.
use bomap.Base.{◌%◌, ◌+◌, ◌<◌, ◌≤◌, ◌≡◌}
use bomap.Cipher.{get_ciphertext_length, get_ciphertext_length_bounds}

get_ciphertext_length_bounds_example :
    (get_ciphertext_length 32 % 16 ≡ 0)
    × (32 < get_ciphertext_length 32)
    × (get_ciphertext_length 32 ≤ 32 + 16)
get_ciphertext_length_bounds_example = get_ciphertext_length_bounds 32
