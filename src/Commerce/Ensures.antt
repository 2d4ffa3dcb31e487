-- ===== src/Commerce/Ensures.antt =====
-- What an operation guarantees where it succeeds: a condition on its state before, and one on its
-- value and the state after.
use fulfillhub_go_commerce_p.Prelude.{◌≡◌, refl, ap, ◌⊎◌, inl, inr}
use fulfillhub_go_commerce_p.Commerce.Result.{Result, Op, ok, err, continue, ◌>>=◌, Error}

abbrev pub Ensures : {S A : Type 0} → (S → Type 0) → Op S A → (A → S → Type 0) → Type 0
Ensures {S} {A} P m Q = (s : S) → P s → (a : A) (t : S) → m s ≡ (ok a, t) → Q a t

abbrev pub Keeps : {S A : Type 0} → (S → Type 0) → Op S A → Type 0
Keeps P m = Ensures P m (λ a. P)

module _ {S A B : Type 0} where
  pub continue-ok :
      (r : Result A) (s : S) (f : A → Op S B) (b : B) (t : S)
      → continue r f s ≡ (ok b, t)
      → (a : A) × (r ≡ ok a) × (f a s ≡ (ok b, t))
  continue-ok (ok a) s f b t h = (a, refl, h)
  continue-ok (err e) s f b t h = cc h

  -- The first step of a successful sequence, with its value and the state it left.
  pub bind-ok :
      (m : Op S A) (f : A → Op S B) (s : S) (b : B) (t : S)
      → (m >>= f) s ≡ (ok b, t)
      → (a : A) × (u : S) × (m s ≡ (ok a, u)) × (f a u ≡ (ok b, t))
  bind-ok m f s b t h =
      let (a, e, k) = continue-ok (m s).0 (m s).1 f b t h in
      (a, (m s).1, ap (λ r. (r, (m s).1)) e, k)

  continue-err :
      (r : Result A) (s : S) (f : A → Op S B) (e : Error) (t : S)
      → continue r f s ≡ (err e, t)
      → ((r ≡ err e) × (s ≡ t)) ⊎ ((a : A) × (r ≡ ok a) × (f a s ≡ (err e, t)))
  continue-err (ok a) s f e t h = inr (a, refl, h)
  continue-err (err x) s f e t h = inl (cc h, cc h)

  -- The step at which a sequence failed.
  pub bind-err :
      (m : Op S A) (f : A → Op S B) (s : S) (e : Error) (t : S)
      → (m >>= f) s ≡ (err e, t)
      → (m s ≡ (err e, t)) ⊎ ((a : A) × (u : S) × (m s ≡ (ok a, u)) × (f a u ≡ (err e, t)))
  bind-err m f s e t h = elim (continue-err (m s).0 (m s).1 f e t h) [
    | inl (r, q) ↦ inl (cc (r, q))
    | inr (a, r, k) ↦ inr (a, (m s).1, ap (λ r. (r, (m s).1)) r, k)
  ]

  pub bind-Ensures :
      (P : S → Type 0) (Q : A → S → Type 0) (R : B → S → Type 0) (m : Op S A) (f : A → Op S B)
      → Ensures P m Q
      → ((a : A) → Ensures (Q a) (f a) R)
      → Ensures P (m >>= f) R
  bind-Ensures P Q R m f hm hf s p b t h =
      let (a, e, k) = continue-ok (m s).0 (m s).1 f b t h in
      hf a (m s).1 (hm s p a (m s).1 (ap (λ r. (r, (m s).1)) e)) b t k
