-- ===== src/Status/Inversion.antt =====
-- What a chain of checks passed, when it returned a value.
use shibadb.Status.{Status, Result, ok, err, fail_if, ◌>>=◌, ◌>>◌}
use shibadb.Prelude.{◌≡◌, refl, Bool, true, false}

pub then_ok {ℓ} :
    {A : Type ℓ} (bad : Bool) (e : Status) (next : Result A) (value : A)
    → (fail_if bad e >> next) ≡ ok value
    → (bad ≡ false) × (next ≡ ok value)
then_ok true e next value h = absurd (cc h)
then_ok false e next value h = (refl, h)

pub bind_ok {ℓ κ} :
    {A : Type ℓ} {B : Type κ} (first : Result A) (next : A → Result B) (value : B)
    → (first >>= next) ≡ ok value
    → (a : A) × (first ≡ ok a) × (next a ≡ ok value)
bind_ok (err e) next value h = absurd (cc h)
bind_ok (ok a) next value h = (a, refl, h)
