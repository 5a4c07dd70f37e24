-- ===== src/Common/Results.antt =====
-- Inverting a chain of fallible steps.
use talos_mcp_server.Common.{◌≡◌, refl, ◌>>=◌, Result, ok, err}

-- A chain of steps succeeds only if its first step does.
pub bind-ok :
    {E A B : Type 0} (m : Result E A) (f : A → Result E B) (b : B)
    → (m >>= f) ≡ ok b
    → (a : A) × (m ≡ ok a) × (f a ≡ ok b)
bind-ok (ok a) f b p = (a, refl, p)
bind-ok (err e) f b p = cc

pub ok_same : {E A : Type 0} {a b : A} → ◌≡◌ {A = Result E A} (ok a) (ok b) → a ≡ b
ok_same p = cc
