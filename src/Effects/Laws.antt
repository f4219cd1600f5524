-- ===== src/Effects/Laws.antt =====
-- Results behind a guard, and results of a bind.
use nginx_atlas.Effects.Environment.{Error, Result, err, ok, ◌>>=◌}
use nginx_atlas.Prelude.{Bool, false, if◌then◌else◌, refl, true, ◌≡◌}

pub ok_inj {ℓ} : {A : Type ℓ} {a b : A} → ok a ≡ ok b → a ≡ b
ok_inj h = cc

-- A result behind a guard.
pub guarded-ok {ℓ} :
    {A : Type ℓ} (stop : Bool) (e : Error) (q : A) {p : A}
    → (if stop then err e else ok q) ≡ ok p
    → (stop ≡ false) × (q ≡ p)
guarded-ok true e q h = absurd (cc)
guarded-ok false e q h = (refl, cc)

-- The parts of a bind that succeeds.
pub bind-ok {ℓ κ} :
    {A : Type ℓ} {B : Type κ} (first : Result A) (rest : A → Result B) {b : B}
    → (first >>= rest) ≡ ok b
    → (a : A) × (first ≡ ok a) × (rest a ≡ ok b)
bind-ok (err reason) rest e = absurd (cc)
bind-ok (ok a) rest e = (a, refl, e)
