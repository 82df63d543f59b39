-- ===== src/Http/Rules.antt =====
-- How facts about the state pass through the steps of a handler.
use fastapi_auth_api.Base.{sym, ap, ◌∙◌, subst, ◌≡◌, refl, ◌⊎◌, inl, inr}
use fastapi_auth_api.Http.{Result, ok, err, HttpException, Action, ◌>>=◌}

-- A call returns a value or ends in an exception.
pub result_cases :
    {S A : Type 0} (x : Result A × S)
    → ((a : A) × (x ≡ (ok a, x.1))) ⊎ ((e : HttpException) × (x ≡ (err e, x.1)))
result_cases (ok a, s) = inl (a, refl)
result_cases (err e, s) = inr (e, refl)

-- A fact that holds after every value and after every exception of a call holds after the call.
pub after_both :
    {S A : Type 0} (P : S → Type 0) (x : Result A × S)
    → ((a : A) → x ≡ (ok a, x.1) → P x.1)
    → ((e : HttpException) → x ≡ (err e, x.1) → P x.1)
    → P x.1
after_both P (ok a, s) returned raised = returned a refl
after_both P (err e, s) returned raised = raised e refl

-- What a handler does after the outcome of its first step.
abbrev pub continue : {S A B : Type 0} → (A → Action S B) → Result A × S → Result B × S
continue f (ok a, s) = f a s
continue f (err e, s) = (err e, s)

pub continue_lem :
    {S A B : Type 0} (f : A → Action S B) (x : Result A × S)
    → continue f x ≡ (let (r, s) = x in elim r [ ok a ↦ f a s | err e ↦ (err e, s) ])
continue_lem f (ok a, s) = refl
continue_lem f (err e, s) = refl

-- What a handler does after a step that returns.
pub bind_ok :
    {S A B : Type 0} (m : Action S A) (f : A → Action S B) (s s' : S) {a : A}
    → m s ≡ (ok a, s')
    → (m >>= f) s ≡ f a s'
bind_ok m f s s' h = sym (continue_lem f (m s)) ∙ ap (continue f) h

continue_assoc :
    {S A B C : Type 0} (f : A → Action S B) (g : B → Action S C) (x : Result A × S)
    → continue (λ a. f a >>= g) x ≡ continue g (continue f x)
continue_assoc f g (ok a, s) = sym (continue_lem g (f a s))
continue_assoc f g (err e, s) = refl

pub bind_assoc :
    {S A B C : Type 0} (m : Action S A) (f : A → Action S B) (g : B → Action S C) (s : S)
    → (m >>= λ a. f a >>= g) s ≡ ((m >>= f) >>= g) s
bind_assoc m f g s =
    sym (continue_lem (λ a. f a >>= g) (m s))
    ∙ continue_assoc f g (m s)
    ∙ ap (continue g) (continue_lem f (m s))
    ∙ continue_lem g ((m >>= f) s)

-- A step that ends in an exception in the state it began in, or returns in it a value after which
-- the rest keeps a fact, keeps it.
pub after_reader :
    {S A B : Type 0} (P : S → Type 0) (m : Action S A) (f : A → Action S B) (s : S)
    → ((a : A) × (m s ≡ (ok a, s)) × P (f a s).1) ⊎ ((e : HttpException) × (m s ≡ (err e, s)))
    → P s
    → P ((m >>= f) s).1
after_reader P m f s (inl (a, e, h)) p =
    subst (λ x. P x.1) (ap (continue f) (sym e) ∙ continue_lem f (m s)) h
after_reader P m f s (inr (x, e)) p =
    subst (λ x. P x.1) (ap (continue f) (sym e) ∙ continue_lem f (m s)) p

-- A call after which a fact still holds that held before.
abbrev pub Keeps : {S A : Type 0} → (S → Type 0) → Action S A → Type 0
Keeps {S} P m = (s : S) → P s → P (m s).1

after_continue :
    {S A B : Type 0} (P : S → Type 0) (f : A → Action S B) (x : Result A × S)
    → ((a : A) → Keeps P (f a))
    → P x.1
    → P (continue f x).1
after_continue P f (ok a, s) keeps p = keeps a s p
after_continue P f (err e, s) keeps p = p

-- One step after another.
pub Keeps-bind :
    {S A B : Type 0} (P : S → Type 0) (m : Action S A) (f : A → Action S B)
    → Keeps P m
    → ((a : A) → Keeps P (f a))
    → Keeps P (m >>= f)
Keeps-bind P m f first rest s p =
    subst (λ x. P x.1) (continue_lem f (m s)) (after_continue P f (m s) rest (first s p))
