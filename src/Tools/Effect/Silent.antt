-- ===== src/Tools/Effect/Silent.antt =====
-- Steps of a handler that make no mutating call, and how they are put together.
use talos_mcp_server.Common.{
  ◌≡◌, refl, ◌∙◌, inl, inr, Bool, true, false, ◌∷◌, arith, Result-cases, Text, Result, ok, err,
}
use talos_mcp_server.Tools.Effect.{
  History, M, continue, ◌>>=◌, require, lift, call, call_logged, is_mutation, mutations, Call,
  Channel, Env, rpc,
}

abbrev pub Silent : {E A : Type 0} → M E A → Type 0
Silent m = (hist : History) → mutations (m hist).1 ≡ mutations hist

continue-mutations :
    {E A B : Type 0} (f : A → M E B) (r : Result E A × History)
    → ((a : A) → Silent (f a))
    → mutations (continue f r).1 ≡ mutations r.1
continue-mutations f (ok a, h) k = k a h
continue-mutations f (err e, h) k = refl

pub bind-Silent :
    {E A B : Type 0} (m : M E A) (f : A → M E B)
    → Silent m
    → ((a : A) → Silent (f a))
    → Silent (m >>= f)
bind-Silent m f q k hist = continue-mutations f (m hist) k ∙ q hist

pub call-Silent :
    {E : Type 0} (env : Env) (wrap : Text → E) (channel : Channel) (c : Call)
    → is_mutation c ≡ false
    → Silent (call env wrap channel c)
call-Silent env wrap channel c q hist = ground arith

lift-Silent : {D E A : Type 0} (wrap : D → E) (r : Result D A) → Silent (lift wrap r)
lift-Silent wrap (ok a) hist = refl
lift-Silent wrap (err e) hist = refl

require-Silent : {E : Type 0} (b : Bool) (e : E) → Silent (require b e)
require-Silent true e hist = refl
require-Silent false e hist = refl

-- A mutating call with silent steps behind it.
pub call_logged-mutations :
    {E B : Type 0} (env : Env) (tool : Text) (wrap : Text → E) (channel : Channel) (c : Call)
    (k : Text → M E B)
    → is_mutation c ≡ true
    → ((a : Text) → Silent (k a))
    → (hist : History)
    → mutations ((call_logged env tool wrap channel c >>= k) hist).1 ≡ (channel, c) ∷ mutations hist
call_logged-mutations env tool wrap channel c k q silent hist =
    elim (Result-cases (env.reply hist channel c)) [
      | inl (a, p) ↦ rw p (silent a (rpc channel c ∷ hist) ∙ rw q refl)
      | inr (e, p) ↦ rw p (rw q refl)
    ]
