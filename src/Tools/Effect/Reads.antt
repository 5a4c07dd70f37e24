-- ===== src/Tools/Effect/Reads.antt =====
-- The calls of the API that a run makes, and runs that only read, over one connection.
use talos_mcp_server.Common.{
  ◌≡◌, refl, sym, ap, ◌∙◌, inl, inr, false, List, [], ◌∷◌, ◌++◌, append_assoc, if◌then◌else◌,
  Bool-cases, Result-cases, Text, All, All-append, Result, ok, err,
}
use talos_mcp_server.Tools.Effect.{
  History, M, continue, ◌>>=◌, pure, lift, call, Refusal, is_mutation, mutations, Call, Channel,
  Event, Env, rpc,
}

abbrev call_of : Event → List (Channel × Call)
call_of (rpc channel c) = (channel, c) ∷ []
call_of _ = []

-- All calls, newest first.
abbrev pub calls : History → List (Channel × Call)
calls [] = []
calls (e ∷ h) = call_of e ++ calls h

-- Since then, only calls over that connection, and none that changes a node.
abbrev pub OnlyReads : Channel → History → History → Type 0
OnlyReads channel after before =
    (cs : List (Channel × Call)) × (calls after ≡ cs ++ calls before)
    × All (λ c. (c.0 ≡ channel) × (is_mutation c.1 ≡ false)) cs

unfoldable pub Reading : {E A : Type 0} → Channel → M E A → Type 0
Reading channel m = (hist : History) → OnlyReads channel (m hist).1 hist

OnlyReads-trans :
    (channel : Channel) (a b c : History)
    → OnlyReads channel b a
    → OnlyReads channel c b
    → OnlyReads channel c a
OnlyReads-trans channel a b c (cs, p, x) (ds, q, y) =
    (ds ++ cs, q ∙ ap (λ t. ds ++ t) p ∙ sym (append_assoc ds cs (calls a)), All-append _ ds cs y x)

continue-Reads :
    {E A B : Type 0} (channel : Channel) (f : A → M E B) (r : Result E A × History) (hist : History)
    → OnlyReads channel r.1 hist
    → ((a : A) → Reading channel (f a))
    → OnlyReads channel (continue f r).1 hist
unfolding Reading
continue-Reads channel f (ok a, h) hist q k = OnlyReads-trans channel hist h (f a h).1 q (k a h)
continue-Reads channel f (err e, h) hist q k = q

pub bind-Reading :
    {E A B : Type 0} (channel : Channel) (m : M E A) (f : A → M E B)
    → Reading channel m
    → ((a : A) → Reading channel (f a))
    → Reading channel (m >>= f)
unfolding Reading
bind-Reading channel m f q k hist = continue-Reads channel f (m hist) hist (q hist) k

pub call-Reading :
    {E : Type 0} (env : Env) (wrap : Text → E) (channel : Channel) (c : Call)
    → is_mutation c ≡ false
    → Reading channel (call env wrap channel c)
unfolding Reading
call-Reading env wrap channel c q hist = elim (Result-cases (env.reply hist channel c)) [
  | inl (a, e) ↦ ((channel, c) ∷ [], rw e refl, ((refl, q), tt))
  | inr (a, e) ↦ ((channel, c) ∷ [], rw e refl, ((refl, q), tt))
]

pub lift-Reading :
    {D E A : Type 0} (channel : Channel) (wrap : D → E) (r : Result D A)
    → Reading channel (lift wrap r)
unfolding Reading
lift-Reading channel wrap (ok a) hist = ([], refl, tt)
lift-Reading channel wrap (err e) hist = ([], refl, tt)

pub pure-Reading : {A : Type 0} (channel : Channel) (a : A) → Reading channel (pure {E = Refusal} a)
unfolding Reading
pure-Reading channel a hist = ([], refl, tt)

changes : List (Channel × Call) → List (Channel × Call)
changes [] = []
changes ((channel, c) ∷ cs) = if is_mutation c then (channel, c) ∷ changes cs else changes cs

mutations-calls : (h : History) → mutations h ≡ changes (calls h)
unfolding changes
mutations-calls [] = refl
mutations-calls (rpc channel c ∷ h) = elim (Bool-cases (is_mutation c)) [
  | inl e ↦ rw (e, mutations-calls h) refl
  | inr e ↦ rw (e, mutations-calls h) refl
]
mutations-calls (e ∷ h) = mutations-calls h

changes-append :
    (channel : Channel) (cs ds : List (Channel × Call))
    → All (λ c. (c.0 ≡ channel) × (is_mutation c.1 ≡ false)) cs
    → changes (cs ++ ds) ≡ changes ds
unfolding changes
changes-append channel [] ds a = refl
changes-append channel ((k, c) ∷ cs) ds ((_, e), a) = rw e (changes-append channel cs ds a)

-- Such a run changes no node.
pub OnlyReads-mutations :
    (channel : Channel) (after before : History)
    → OnlyReads channel after before
    → mutations after ≡ mutations before
OnlyReads-mutations channel after before (cs, p, a) =
    mutations-calls after
    ∙ ap changes p
    ∙ changes-append channel cs (calls before) a
    ∙ sym (mutations-calls before)

pub calls-mutations :
    (after before : History) → calls after ≡ calls before → mutations after ≡ mutations before
calls-mutations after before same =
    mutations-calls after ∙ ap changes same ∙ sym (mutations-calls before)
