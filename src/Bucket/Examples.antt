-- ===== src/Bucket/Examples.antt =====
-- A bucket of blocks of three bytes, sealed by a cipher that only pads.
use bomap.Base.{
  ℕ, ◌-◌, ◌%◌, ◌≡◌, refl, sym, ap, ◌∙◌, arith, List, [], ◌∷◌, ◌++◌, some, length, take, replicate,
  ◌>>=◌, pos, take-append_length,
}
use mathlib.Core.List.{append-nil, append_assoc}
use bomap.Bid
use bomap.Bid.{Bid}
use bomap.Base.{length-append, length-replicate}
use bomap.Cipher.{get_ciphertext_length}
use bomap.Cipher.Aes.{OpenSsl, Documented, encrypt, decrypt}
use bomap.Cipher.RoundTrip.{decrypt-encrypt}
use bomap.Base.{false, true}
use bomap.Slots.Holds.{Yields}
use bomap.Root.{RootNode, empty_root}
use bomap.Map.Init.{Memory, Started, init, Restores, init-Restores}
use bomap.Bucket.{Block, seal_bucket, open_bucket, open_bucket-seal_bucket}

-- the padding: as many bytes as its last byte says
abbrev padding : ℕ → List ℕ
padding n = replicate (15 - n % 16) 0 ++ (16 - n % 16) ∷ []

abbrev last_byte : ℕ → List ℕ → ℕ
last_byte d [] = d
last_byte d (x ∷ xs) = last_byte x xs

abbrev ssl : OpenSsl
ssl = record {
  encrypt_update = λ key iv p. p;
  encrypt_final = λ key iv p. padding (length p);
  decrypt_update = λ key iv c. take (length c - last_byte 0 c) c;
  decrypt_final = λ key iv c. [];
}

last_byte-append : (d : ℕ) (xs : List ℕ) (x : ℕ) → last_byte d (xs ++ x ∷ []) ≡ x
last_byte-append d [] x = refl
last_byte-append d (y ∷ xs) x = last_byte-append y xs x

length-padding : (n : ℕ) → length (padding n) ≡ 16 - n % 16
length-padding n = omega (
  arith,
  length-append (replicate (15 - n % 16) 0) ((16 - n % 16) ∷ []),
  length-replicate {A = ℕ} (15 - n % 16) 0,
)

length-sealed : (p : List ℕ) → length (p ++ padding (length p)) ≡ get_ciphertext_length (length p)
unfolding get_ciphertext_length
length-sealed p = omega (arith, length-append p (padding (length p)), length-padding (length p))

take-sealed :
    (p : List ℕ) → let c = p ++ padding (length p) in take (length c - last_byte 0 c) c ≡ p
take-sealed p =
    let zeros : List ℕ = replicate (15 - length p % 16) 0 in
    let last : last_byte 0 (p ++ padding (length p)) ≡ 16 - length p % 16 =
      ap (last_byte 0) (sym (append_assoc p zeros ((16 - length p % 16) ∷ [])))
      ∙ last_byte-append 0 (p ++ zeros) (16 - length p % 16) in
    let left : length (p ++ padding (length p)) - last_byte 0 (p ++ padding (length p)) ≡ length p =
      omega (arith, last, length-append p (padding (length p)), length-padding (length p)) in
    ap (λ k. take k (p ++ padding (length p))) left ∙ take-append_length p (padding (length p))

ssl-Documented : Documented ssl
ssl-Documented = record {
  padded = λ key iv p. length-sealed p;
  opens = λ key iv p.
      append-nil (
        take (length (p ++ padding (length p)) - last_byte 0 (p ++ padding (length p)))
          (p ++ padding (length p)))
      ∙ take-sealed p;
}

abbrev iv : List ℕ
iv = replicate 16 5

abbrev key : List ℕ
key = replicate 128 1

decrypt-encrypt_example :
    let n = get_ciphertext_length 3 in
    (encrypt ssl iv key (1 ∷ 2 ∷ 3 ∷ []) n 3 >>= λ c. decrypt ssl key c n) ≡ some (1 ∷ 2 ∷ 3 ∷ [])
decrypt-encrypt_example = decrypt-encrypt ssl ssl-Documented key iv (1 ∷ 2 ∷ 3 ∷ []) refl

-- the identifier of a node is its first byte
abbrev id_of : List ℕ → Bid
id_of [] = Bid.blank
id_of (x ∷ xs) = Bid.of_int (pos x)

abbrev block : ℕ → Block
block n = record { id = Bid.of_int (pos n); bytes = n ∷ 7 ∷ n ∷ [] }

abbrev bucket : List Block
bucket = block 3 ∷ block 8 ∷ block 0 ∷ block 0 ∷ []

open_bucket-seal_bucket_example :
    (seal_bucket id_of 3 ssl iv key bucket >>= open_bucket id_of 3 ssl key) ≡ some bucket
open_bucket-seal_bucket_example =
    open_bucket-seal_bucket id_of 3 ssl ssl-Documented iv key bucket refl refl
      (refl, refl, (refl, refl, (refl, refl, (refl, refl, tt))))

-- a root, and a memory that has only this one
abbrev sent_root : RootNode
sent_root = record empty_root { max_value = Bid.of_int (pos 7); p1 = 1 }

abbrev memory : Memory
memory = record { size = 3; to_bytes = λ r. 7 ∷ 1 ∷ 0 ∷ []; of_bytes = λ bytes. sent_root }

init-Restores_example :
    (first : Started) × (c : List ℕ) × (init ssl memory key 4 false sent_root iv [] ≡ some first)
    × (first.dummy ≡ some c)
    × Yields (Restores ssl memory key sent_root first) (init ssl memory key 4 true empty_root iv c)
init-Restores_example =
    init-Restores ssl memory key ssl-Documented iv sent_root refl refl refl 4 empty_root iv []
