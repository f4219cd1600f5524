-- ===== src/Administration/Removed.antt =====
-- What the removal of certificates leaves behind.
use nginx_atlas.Administration.Records.{
  delete_all, delete_certificates, has_active_certificate_reference,
}
use nginx_atlas.Effects.{Env, World, add_audit, ok, ok_inj}
use nginx_atlas.Model.{Certificate, Domain}
use nginx_atlas.Prelude.{
  ==_iff, All, Bool, Bool-cases, Dict, List, Option, Text, [], all, any, arith, bytes, contains,
  delete, false, if◌then◌else◌, inl, inr, is_some, length, lookup, lookup-delete, none, not, refl,
  subst, true, values, ℕ, ◌==◌, ◌∙◌, ◌∷◌, ◌≡◌, ◌⊎◌,
}

-- No domain, and no job that is queued or running, refers to the certificate.
abbrev pub IsUnreferenced : (Text → Option Text) → World → Text → Type 0
IsUnreferenced decode_reference w k =
    (any (λ (domain : Domain). domain.certificate_id == k) (values w.domains) ≡ false)
    × (has_active_certificate_reference decode_reference w.jobs k ≡ false)

any-fewer :
    {A : Type 0} (p q : A → Bool)
    → ((x : A) → p x ≡ false → q x ≡ false)
    → (xs : List A) → any p xs ≡ false
    → any q xs ≡ false
any-fewer p q h [] e = refl
any-fewer p q h (x ∷ xs) e = ground (arith, h x, any-fewer p q h xs)

contains-All :
    (k : Text) (ks : List Text) (P : Text → Type 0) → All P ks → contains k ks ≡ true → P k
unfolding contains
contains-All k [] P h c = absurd (cc)
contains-All k (x ∷ xs) P (q, h) c = elim (Bool-cases (x == k)) [
  | inl t ↦ subst P ((==_iff x k).0 t) q
  | inr f ↦ contains-All k xs P h (rw f at c)
]

All-any : {A : Type 0} (p : A → Bool) (xs : List A) → any p xs ≡ false → All (λ x. p x ≡ false) xs
All-any p [] h = tt
All-any p (x ∷ xs) h = ground (arith, All-any p xs)

-- Deletions change no other key, and no deleted one is there.
lookup-delete_all :
    (j : Text) (ks : List Text) (m : Dict Certificate)
    → lookup j (delete_all ks m) ≡ (if contains j ks then none else lookup j m)
unfolding delete_all contains
lookup-delete_all j [] m = refl
lookup-delete_all j (k ∷ ks) m =
    ground (arith, lookup-delete_all j ks (delete k m), lookup-delete k j m)

-- A certificate that was named is gone, and any other is as it was.
abbrev pub IsLeft : (Text → Option Text) → List Text → Text → World → World → Type 0
IsLeft decode_reference ids k w w' =
    ((contains k ids ≡ true)
      × (lookup k w'.certificates ≡ none)
      × IsUnreferenced decode_reference w' k)
    ⊎ ((contains k ids ≡ false) × (lookup k w'.certificates ≡ lookup k w.certificates))

-- After certificates were deleted: one that was named is gone, and neither a domain nor a job that
-- is queued or running refers to it; every other certificate is as it was.
pub delete_certificates_sound :
    (env : Env) (decode_reference : Text → Option Text) (message : ℕ → Text) (ids : List Text)
    (w w' : World) (k : Text)
    → delete_certificates env decode_reference message ids w ≡ ok w'
    → IsLeft decode_reference ids k w w'
unfolding delete_certificates add_audit
delete_certificates_sound env decode_reference message ids w w' k e =
    elim (Bool-cases (not (all (λ j. is_some (lookup j w.certificates)) ids))) [
      | inl t ↦ absurd (cc (rw (t, delete_certificates) at e))
      | inr f ↦
          elim (Bool-cases
            (any (λ (domain : Domain). contains domain.certificate_id ids) (values w.domains))) [
              | inl t ↦ absurd (cc (rw (f, t, delete_certificates) at e))
              | inr g ↦
                  elim (Bool-cases
                    (any (has_active_certificate_reference decode_reference w.jobs) ids)) [
                      | inl t ↦ absurd (cc (rw (f, g, t, delete_certificates) at e))
                      | inr h ↦
                          subst (IsLeft decode_reference ids k w)
                            (ok_inj (rw (f, g, h, delete_certificates) at e))
                            (left (Bool-cases (contains k ids)) g h)
                    ]
            ]
    ]
  where
    unnamed :
        contains k ids ≡ true
        → any (λ (domain : Domain). contains domain.certificate_id ids) (values w.domains) ≡ false
        → any (λ (domain : Domain). domain.certificate_id == k) (values w.domains) ≡ false
    unnamed t g =
        any-fewer (λ (domain : Domain). contains domain.certificate_id ids)
          (λ (domain : Domain). domain.certificate_id == k)
          (λ domain f. ground (arith, f, t, ==_iff domain.certificate_id k)) (values w.domains) g

    left :
        ((contains k ids ≡ true) ⊎ (contains k ids ≡ false))
        → any (λ (domain : Domain). contains domain.certificate_id ids) (values w.domains) ≡ false
        → any (has_active_certificate_reference decode_reference w.jobs) ids ≡ false
        → IsLeft decode_reference ids k w (
            add_audit env
              (bytes "warning")
              (bytes "certificate.deleted")
              (message (length ids))
              []
              (record w {
                state = record w.state { certificates = delete_all ids w.certificates };
              }))
    left (inr n) g h = inr (n, lookup-delete_all k ids w.certificates ∙ rw n refl)
    left (inl t) g h = inl (
      t,
      lookup-delete_all k ids w.certificates ∙ rw t refl,
      (
        unnamed t g,
        contains-All k ids (λ j. has_active_certificate_reference decode_reference w.jobs j ≡ false)
            (All-any (has_active_certificate_reference decode_reference w.jobs) ids h) t,
      ),
    )
