-- ===== src/SecureBox/Sealed.antt =====
-- What a sealed secret opens to.
use nginx_atlas.Prelude.{
  Bool-cases, Text, [], ap, arith, drop, false, inl, inr, leb, length, length-append, nat_eq_iff,
  non_empty, refl, some, strip_prefix, subst, take, ◌++◌, ◌∷◌, ◌≡◌, ◌≤◌,
}
use nginx_atlas.SecureBox.Defs.{
  Box, Sealing, done, open_payload, open_secret, seal_secret, version_prefix,
}

-- What base64 and AES-GCM promise: what was encoded is decoded, and what was sealed is opened with
-- the same nonce and the same data.
pub record Lawful (box : Box) : Type 0 where
  pub decoded : (s : Text) → box.raw_url.decode (box.raw_url.encode s) ≡ some s
  pub opened :
      (n plaintext purpose : Text)
      → length n ≡ box.aead.nonce_size
      → box.aead.open_sealed n (box.aead.seal n plaintext purpose) purpose ≡ some plaintext
  pub tagged :
      (n plaintext purpose : Text)
      → length n ≡ box.aead.nonce_size
      → 1 ≤ length (box.aead.seal n plaintext purpose)

take-append : (xs ys : Text) → take (length xs) (xs ++ ys) ≡ xs
take-append [] ys = refl
take-append (x ∷ xs) ys = ap (λ t. x ∷ t) (take-append xs ys)

drop-append : (xs ys : Text) → drop (length xs) (xs ++ ys) ≡ ys
drop-append [] ys = refl
drop-append (x ∷ xs) ys = drop-append xs ys

strip_prefix-append : (p s : Text) → strip_prefix p (p ++ s) ≡ some s
unfolding strip_prefix
strip_prefix-append [] s = refl
strip_prefix-append (c ∷ p) s = rw ((nat_eq_iff c c).1 refl) (strip_prefix-append p s)

done_inj : {E A : Type 0} {a b : A} → Path (Sealing E A) (done a) (done b) → a ≡ b
done_inj h = cc

module _ (box : Box) (lawful : Lawful box) where
  open_payload-sealed :
      (n plaintext purpose : Text)
      → length n ≡ box.aead.nonce_size
      → open_payload box purpose (n ++ box.aead.seal n plaintext purpose) ≡ done plaintext
  unfolding open_payload
  open_payload-sealed n plaintext purpose size =
      let sealed = box.aead.seal n plaintext purpose in
      let tag = lawful.tagged n plaintext purpose size in
      let long : leb (length (n ++ sealed)) (length n) ≡ false =
        rw (length-append n sealed) (ground (arith, tag)) in
      rw (← size) (
        rw
          (long, take-append n sealed, drop-append n sealed, lawful.opened n plaintext purpose size)
          refl)

  -- If base64 decodes what it encoded, and AES-GCM opens what it sealed, with a tag of one byte at
  -- least: a secret that was sealed with a nonce of the right size is opened under its purpose.
  pub seal-open :
      (n plaintext purpose value : Text)
      → length n ≡ box.aead.nonce_size
      → seal_secret box (some n) purpose plaintext ≡ done value
      → open_secret box purpose value ≡ done plaintext
  unfolding seal_secret open_secret
  seal-open n plaintext purpose value size e = elim (Bool-cases (non_empty plaintext)) [
    | inr empty ↦ absurd (cc (rw empty at e))
    | inl full ↦
        let sealed = box.aead.seal n plaintext purpose in
        let made : done (version_prefix ++ box.raw_url.encode (n ++ sealed)) ≡ done value =
          rw full at e in
        subst (λ v. open_secret box purpose v ≡ done plaintext) (done_inj made)
          (rw
            (
              strip_prefix-append version_prefix (box.raw_url.encode (n ++ sealed)),
              lawful.decoded (n ++ sealed),
              open_secret,
            )
            (open_payload-sealed n plaintext purpose size))
  ]
