-- ===== src/Postgres/Rules.antt =====
-- What a statement or a transaction did, read off its success or its error.
use fulfillhub_go_commerce_p.Prelude.{
  ℕ, String, ◌≡◌, refl, Option, none, some, Bool-cases, inl, inr, ◌==◌,
}
use fulfillhub_go_commerce_p.Commerce.Result.{Error, Result, Op, ok, err}
use fulfillhub_go_commerce_p.Postgres.Tables.{Database}
use fulfillhub_go_commerce_p.Postgres.{
  PgError, Engine, exec, exec_checked, query, found, in_transaction, some_affected, answered,
  refused_then, closed, breach_of, finish, begun,
}

module _ {A : Type 0} where
  answered-ok :
      (g : PgError → Error) (r : Option PgError) (a : A) (before after : Database) (b : A)
      (t : Database)
      → answered g r a before after ≡ (ok b, t)
      → (b ≡ a) × (t ≡ after)
  unfolding answered
  answered-ok g none a before after b t h = (cc h, cc h)
  answered-ok g (some e) a before after b t h = cc h

  answered-err :
      (g : PgError → Error) (r : Option PgError) (a : A) (before after : Database) (e : Error)
      (t : Database)
      → answered g r a before after ≡ (err e, t)
      → t ≡ before
  unfolding answered
  answered-err g none a before after e t h = cc h
  answered-err g (some x) a before after e t h = cc h

  pub found-ok :
      (o : Option A) (db : Database) (a : A) (t : Database)
      → found o db ≡ (ok a, t)
      → (o ≡ some a) × (t ≡ db)
  unfolding found
  found-ok none db a t h = cc h
  found-ok (some x) db a t h = (cc h, cc h)

refused_then-ok :
    (g : PgError → Error) (r breach : Option PgError) (before after : Database) (t : Database)
    → refused_then g r breach tt before after ≡ (ok tt, t)
    → (breach ≡ none) × (t ≡ after)
unfolding refused_then answered
refused_then-ok g none none before after t h = (refl, cc h)
refused_then-ok g none (some e) before after t h = cc h
refused_then-ok g (some e) breach before after t h = cc h

pub some_affected-ok :
    (rows : ℕ) (db : Database) (t : Database) → some_affected rows db ≡ (ok tt, t) → t ≡ db
unfolding some_affected
some_affected-ok rows db t h = elim (Bool-cases (rows == 0)) [
  | inl z ↦ cc (rw (z, some_affected) at h)
  | inr z ↦ cc (rw (z, some_affected) at h)
]

module _ (engine : Engine) where
  pub exec-ok :
      (label : String) (f : Database → Database) (db t : Database)
      → exec engine label f db ≡ (ok tt, t)
      → t ≡ f db
  unfolding exec
  exec-ok label f db t h = (answered-ok _ (engine.refuses label db) tt db (f db) tt t h).1

  pub query-ok :
      {A : Type 0} (label : String) (f : Database → A) (db : Database) (a : A) (t : Database)
      → query engine label f db ≡ (ok a, t)
      → (a ≡ f db) × (t ≡ db)
  unfolding query
  query-ok label f db a t h = answered-ok _ (engine.refuses label db) (f db) db db a t h

  pub exec-err :
      (label : String) (f : Database → Database) (db : Database) (e : Error) (t : Database)
      → exec engine label f db ≡ (err e, t)
      → t ≡ db
  unfolding exec
  exec-err label f db e t h = answered-err _ (engine.refuses label db) tt db (f db) e t h

  pub query-err :
      {A : Type 0} (label : String) (f : Database → A) (db : Database) (e : Error) (t : Database)
      → query engine label f db ≡ (err e, t)
      → t ≡ db
  unfolding query
  query-err label f db e t h = answered-err _ (engine.refuses label db) (f db) db db e t h

  breach_of-none :
      (label : String) (o : Option String) (db : Database)
      → breach_of engine label o db ≡ none
      → o ≡ none
  unfolding breach_of
  breach_of-none label none db h = refl
  breach_of-none label (some code) db h = cc h

  pub exec_checked-ok :
      (label : String) (g : PgError → Error) (breaks : Database → Option String)
      (f : Database → Database) (db t : Database)
      → exec_checked engine label g breaks f db ≡ (ok tt, t)
      → (breaks db ≡ none) × (t ≡ f db)
  unfolding exec_checked
  exec_checked-ok label g breaks f db t h =
      let (free, e) =
        refused_then-ok g (engine.refuses label db) (breach_of engine label (breaks db) db) db
          (f db) t h in
      (breach_of-none label (breaks db) db free, e)

module _ (engine : Engine) {A : Type 0} where
  closed-ok :
      (r : Option PgError) (w : String → PgError → Error) (label : String) (a b : A)
      (before after t : Database)
      → closed r w label a before after ≡ (ok b, t)
      → (b ≡ a) × (t ≡ after)
  unfolding closed
  closed-ok none w label a b before after t h = (cc h, cc h)
  closed-ok (some e) w label a b before after t h = cc h

  finish-ok :
      (commit : A → String) (before : Database) (r : Result A) (s : Database) (a : A) (t : Database)
      → finish engine commit before (r, s) ≡ (ok a, t)
      → Path (Result A × Database) (r, s) (ok a, t)
  unfolding finish
  finish-ok commit before (ok b) s a t h =
      let (x, y) = closed-ok (engine.refuses (commit b) s) _ (commit b) b a before s t h in
      cc (x, y)
  finish-ok commit before (err e) s a t h = cc h

  begun-ok :
      (r : Option PgError) (label : String) (commit : A → String) (body : Op Database A)
      (db : Database) (a : A) (t : Database)
      → begun engine r label commit body db ≡ (ok a, t)
      → body db ≡ (ok a, t)
  unfolding begun
  begun-ok none label commit body db a t h = finish-ok commit db (body db).0 (body db).1 a t h
  begun-ok (some e) label commit body db a t h = cc h

  -- A transaction that reports success has done what its body does.
  pub in_transaction-ok :
      (label : String) (commit : A → String) (body : Op Database A) (db : Database) (a : A)
      (t : Database)
      → in_transaction engine label commit body db ≡ (ok a, t)
      → body db ≡ (ok a, t)
  unfolding in_transaction
  in_transaction-ok label commit body db a t h =
      begun-ok (engine.refuses label db) label commit body db a t h

  closed-err :
      (r : Option PgError) (w : String → PgError → Error) (label : String) (a : A) (e : Error)
      (before after t : Database)
      → closed r w label a before after ≡ (err e, t)
      → t ≡ before
  unfolding closed
  closed-err none w label a e before after t h = cc h
  closed-err (some x) w label a e before after t h = cc h

  finish-err :
      (commit : A → String) (before : Database) (r : Result A) (s : Database) (e : Error)
      (t : Database)
      → finish engine commit before (r, s) ≡ (err e, t)
      → t ≡ before
  unfolding finish
  finish-err commit before (ok b) s e t h =
      closed-err (engine.refuses (commit b) s) _ (commit b) b e before s t h
  finish-err commit before (err x) s e t h = cc h

  begun-err :
      (r : Option PgError) (label : String) (commit : A → String) (body : Op Database A)
      (db : Database) (e : Error) (t : Database)
      → begun engine r label commit body db ≡ (err e, t)
      → t ≡ db
  unfolding begun
  begun-err none label commit body db e t h = finish-err commit db (body db).0 (body db).1 e t h
  begun-err (some x) label commit body db e t h = cc h

  -- A transaction that reports an error has done nothing.
  pub in_transaction-err :
      (label : String) (commit : A → String) (body : Op Database A) (db : Database) (e : Error)
      (t : Database)
      → in_transaction engine label commit body db ≡ (err e, t)
      → t ≡ db
  unfolding in_transaction
  in_transaction-err label commit body db e t h =
      begun-err (engine.refuses label db) label commit body db e t h
