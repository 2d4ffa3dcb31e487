-- ===== src/Postgres/Ledger/Totals.antt =====
-- Counts and totals of a table after a write.
use mathlib.Core.Option.{some-injective}
use fulfillhub_go_commerce_p.Prelude.{
  ℕ, ◌+◌, ◌≤◌, ◌≡◌, refl, Bool, true, false, List, [], ◌∷◌, ◌++◌, any, none, some, arith, subst,
  Bool-cases, inl, inr, if◌then◌else◌,
}
use fulfillhub_go_commerce_p.Postgres.Tables.{select_row, update, upsert, count, total}

module _ {A : Type 0} where
  pub total-snoc :
      (g : A → ℕ) (rows : List A) (x : A) → total g (rows ++ x ∷ []) ≡ total g rows + g x
  unfolding total
  total-snoc g [] x = omega arith
  total-snoc g (y ∷ rows) x = omega (arith, total-snoc g rows x)

  pub count-snoc :
      (p : A → Bool) (rows : List A) (x : A)
      → count p (rows ++ x ∷ []) ≡ count p rows + (if p x then 1 else 0)
  unfolding count
  count-snoc p [] x = ground arith
  count-snoc p (y ∷ rows) x = ground (arith, count-snoc p rows x)

  pub count-update :
      (q p : A → Bool) (f : A → A) (rows : List A)
      → ((x : A) → q (f x) ≡ q x)
      → count q (update p f rows) ≡ count q rows
  unfolding count
  count-update q p f [] keeps = refl
  count-update q p f (x ∷ rows) keeps = ground (arith, count-update q p f rows keeps, keeps x)

  pub any-count : (p : A → Bool) (rows : List A) → any p rows ≡ false → count p rows ≡ 0
  unfolding count
  any-count p [] h = refl
  any-count p (x ∷ rows) h = ground (arith, h, any-count p rows)

  pub any-select_row :
      (p : A → Bool) (rows : List A) → select_row p rows ≡ none → any p rows ≡ false
  unfolding select_row
  any-select_row p [] h = refl
  any-select_row p (x ∷ rows) h = ground (arith, h, any-select_row p rows)

  pub any-some :
      (p : A → Bool) (rows : List A) (r : A) → select_row p rows ≡ some r → any p rows ≡ true
  unfolding select_row
  any-some p [] r h = cc h
  any-some p (x ∷ rows) r h = ground (arith, h, any-some p rows r)

  -- Rows that match nothing add nothing.
  pub total-none :
      (p : A → Bool) (g : A → ℕ) (rows : List A)
      → ((x : A) → p x ≡ false → g x ≡ 0)
      → count p rows ≡ 0
      → total g rows ≡ 0
  unfolding count total
  total-none p g [] zero h = refl
  total-none p g (x ∷ rows) zero h = ground (arith, h, zero x, total-none p g rows zero)

  update-none_total :
      (p : A → Bool) (f : A → A) (g : A → ℕ) (rows : List A)
      → count p rows ≡ 0
      → total g (update p f rows) ≡ total g rows
  unfolding count total
  update-none_total p f g [] h = refl
  update-none_total p f g (x ∷ rows) h = ground (arith, h, update-none_total p f g rows)

  -- Where one row at most matches, an update changes the total by what it does to that row.
  pub total-update :
      (p : A → Bool) (f : A → A) (g : A → ℕ) (rows : List A) (r : A)
      → count p rows ≤ 1
      → select_row p rows ≡ some r
      → total g (update p f rows) + g r ≡ total g rows + g (f r)
  unfolding count total select_row
  total-update p f g [] r one h = cc h
  total-update p f g (x ∷ rows) r one h =
      ground (arith, one, h, update-none_total p f g rows, total-update p f g rows r)

  pub upsert-there :
      (p : A → Bool) (new : A) (f : A → A) (rows : List A)
      → any p rows ≡ true
      → upsert p new f rows ≡ update p f rows
  unfolding upsert
  upsert-there p new f rows h = rw h

  pub upsert-absent :
      (p : A → Bool) (new : A) (f : A → A) (rows : List A)
      → any p rows ≡ false
      → upsert p new f rows ≡ rows ++ new ∷ []
  unfolding upsert
  upsert-absent p new f rows h = rw h

  pub select_row-holds :
      (p : A → Bool) (rows : List A) (r : A) → select_row p rows ≡ some r → p r ≡ true
  unfolding select_row
  select_row-holds p [] r h = cc h
  select_row-holds p (x ∷ rows) r h = elim (Bool-cases (p x)) [
    | inl hit ↦ subst (λ y. p y ≡ true) (some-injective x r (rw hit at h)) hit
    | inr miss ↦ select_row-holds p rows r (rw miss at h)
  ]
