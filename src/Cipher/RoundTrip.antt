-- ===== src/Cipher/RoundTrip.antt =====
-- The decryption of src/AES.cpp undoes the encryption.
use mathlib.Core.List.{append-nil, append_assoc}
use bomap.Base.{
  ℕ, zero, suc, ◌+◌, ◌-◌, ◌≡◌, ◌≤◌, refl, sym, ap, ◌∙◌, arith, leb, true, List, [], ◌∷◌, ◌++◌, some,
  length, drop, replicate, ◌>>=◌, length-append, take-append_length, drop-append_length,
  length-replicate,
}
use bomap.Slots.Moves.{write_at}
use bomap.Cipher.{get_ciphertext_length, get_ciphertext_length_bounds}
use bomap.Cipher.Aes.{
  OpenSsl, Documented, iv_size, put, read, resize, encrypt_bytes, decrypt_bytes, encrypt_block,
  decrypt_block, encrypt, decrypt,
}

-- a new buffer
abbrev blanks : ℕ → List ℕ
blanks n = replicate n 0

blanks-plus : (m n : ℕ) → blanks (m + n) ≡ blanks m ++ blanks n
blanks-plus zero n = let e : 0 + n ≡ n = omega arith in ap (λ k. blanks k) e
blanks-plus (suc m) n =
    let e : suc m + n ≡ suc (m + n) = omega arith in
    rw e (ap (λ (z : List ℕ). 0 ∷ z) (blanks-plus m n))

put-middle :
    (front old xs back : List ℕ) (i : ℕ)
    → i ≡ length front
    → length old ≡ length xs
    → put (front ++ (old ++ back)) i xs ≡ some (front ++ (xs ++ back))
unfolding put
put-middle front [] [] back i e e' = refl
put-middle front (y ∷ old) [] back i e e' = absurd (omega arith)
put-middle front [] (x ∷ xs) back i e e' = absurd (omega arith)
put-middle front (y ∷ old) (x ∷ xs) back i e e' =
    let next : suc i ≡ length (front ++ x ∷ []) = omega (arith, length-append front (x ∷ [])) in
    rw (write_at front (old ++ back) y x i e, ◌>>=◌)
      (ap (λ a. put a (suc i) xs) (sym (append_assoc front (x ∷ []) (old ++ back)))
        ∙ put-middle (front ++ x ∷ []) old xs back (suc i) next (omega arith)
        ∙ ap some (append_assoc front (x ∷ []) (xs ++ back)))

-- the two writes into a new buffer
put_twice :
    (u f : List ℕ) (n : ℕ)
    → length u + length f ≤ n
    → (a : List ℕ) × (put (blanks n) 0 u ≡ some a)
      × (put a (length u) f ≡ some ((u ++ f) ++ blanks (n - (length u + length f))))
put_twice u f n h =
    let r = n - (length u + length f) in
    let whole : n ≡ length u + (length f + r) = omega arith in
    let zeros : blanks n ≡ blanks (length u) ++ (blanks (length f) ++ blanks r) =
      ap (λ k. blanks k) whole
      ∙ blanks-plus (length u) (length f + r)
      ∙ ap (λ z. blanks (length u) ++ z) (blanks-plus (length f) r) in
    (
      u ++ (blanks (length f) ++ blanks r),
      rw zeros (
          put-middle [] (blanks (length u)) u (blanks (length f) ++ blanks r) 0 refl
            (length-replicate (length u) 0)),
      put-middle u (blanks (length f)) f (blanks r) (length u) refl (length-replicate (length f) 0)
          ∙ ap some (sym (append_assoc u f (blanks r))),
    )

read_whole : (a back : List ℕ) (n : ℕ) → n ≡ length a → read n (a ++ back) ≡ some a
unfolding read
read_whole a back n e =
    let enough : leb (length a) (length (a ++ back)) ≡ true =
      ground (arith, length-append a back) in
    rw (e, enough, take-append_length a back) refl

pub read_all : (a : List ℕ) (n : ℕ) → n ≡ length a → read n a ≡ some a
read_all a n e = ap (read n) (sym (append-nil a)) ∙ read_whole a [] n e

nothing_left : (m n : ℕ) → m ≡ n → n - m ≡ 0
nothing_left m n e = omega arith

resize-append : (a back : List ℕ) (n : ℕ) → n ≡ length a → resize n (a ++ back) ≡ a
unfolding resize
resize-append a back n e =
    let none_new : length a - length (a ++ back) ≡ 0 = omega (arith, length-append a back) in
    rw (e, take-append_length a back, none_new) (append-nil a)

module _ (ssl : OpenSsl) (doc : Documented ssl) where
  encrypt-some :
      (key iv p : List ℕ)
      → let n = get_ciphertext_length (length p) in
        encrypt ssl iv key p n (length p)
        ≡ some ((ssl.encrypt_update key iv p ++ ssl.encrypt_final key iv p) ++ iv)
  unfolding encrypt encrypt_block encrypt_bytes
  encrypt-some key iv p =
      let u = ssl.encrypt_update key iv p in
      let f = ssl.encrypt_final key iv p in
      let n = get_ciphertext_length (length p) in
      let size : length u + length f ≡ n = sym (length-append u f) ∙ doc.padded key iv p in
      let all : read (length p) p ≡ some p = read_all p (length p) refl in
      let full : (u ++ f) ++ blanks (n - (length u + length f)) ≡ u ++ f =
        ap (λ k. (u ++ f) ++ blanks k) (nothing_left (length u + length f) n size)
        ∙ append-nil (u ++ f) in
      let (a, first, second) = put_twice u f n (omega (arith, size)) in
      rw (all, ◌>>=◌, first, second, full) refl

  -- What is encrypted into a ciphertext of the length that the program computes is decrypted to the
  -- same plaintext, for every key and every initialisation vector of 16 bytes, and neither of the two
  -- reaches outside a buffer: the vector is found at the end, and the padding is cut off.
  pub decrypt-encrypt :
      (key iv p : List ℕ)
      → length iv ≡ iv_size
      → let n = get_ciphertext_length (length p) in
        (encrypt ssl iv key p n (length p) >>= λ c. decrypt ssl key c n) ≡ some p
  unfolding decrypt decrypt_block decrypt_bytes resize
  decrypt-encrypt key iv p sixteen =
      let c = ssl.encrypt_update key iv p ++ ssl.encrypt_final key iv p in
      let u = ssl.decrypt_update key iv c in
      let f = ssl.decrypt_final key iv c in
      let n = get_ciphertext_length (length p) in
      let whole : length (c ++ iv) ≡ n + 16 =
        omega (arith, length-append c iv, doc.padded key iv p, sixteen) in
      let long : leb iv_size (length (c ++ iv)) ≡ true = ground (arith, whole) in
      let before : length (c ++ iv) - iv_size ≡ length c =
        omega (arith, whole, doc.padded key iv p) in
      let vector : drop (length (c ++ iv) - iv_size) (c ++ iv) ≡ iv =
        ap (λ k. drop k (c ++ iv)) before ∙ drop-append_length c iv in
      let size : length u + length f ≡ length p =
        sym (length-append u f) ∙ ap length (doc.opens key iv p) in
      let (_, above, _) = get_ciphertext_length_bounds (length p) in
      let (a, first, second) = put_twice u f n (omega (arith, size, above)) in
      let r = n - (length u + length f) in
      let cut = resize-append (u ++ f) (blanks r) (length u + length f) (sym (length-append u f)) in
      rw
        (
          encrypt-some key iv p,
          ◌>>=◌,
          long,
          vector,
          read_whole c iv n (sym (doc.padded key iv p)),
          first,
          second,
          cut,
        )
        (ap some (doc.opens key iv p))
