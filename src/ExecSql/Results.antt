-- ===== src/ExecSql/Results.antt =====
-- Results of calls that may throw: lemmas on chains of them.
use sqlanvil.Base.{◌≡◌, refl, arith}
use sqlanvil.ExecSql.Types.{Result, ok, error, ◌>>=◌}

-- A step of a chain of results that has succeeded.
pub bind-ok {ℓ κ} :
    {A : Type ℓ} {B : Type κ} (r : Result A) (f : A → Result B) (b : B)
    → (r >>= f) ≡ ok b
    → (a : A) × (r ≡ ok a) × (f a ≡ ok b)
bind-ok (ok a) f b h = (a, refl, h)
bind-ok (error e) f b h = absurd (ground (arith, h))

pub ok-injective {ℓ} : {A : Type ℓ} {a b : A} → ok a ≡ ok b → a ≡ b
ok-injective h = ground (arith, h)
