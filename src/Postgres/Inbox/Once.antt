-- ===== src/Postgres/Inbox/Once.antt =====
-- The inbox of internal/postgres/store.go as a set of consumers and messages.
use fulfillhub_go_commerce_p.Prelude.{
  ◌≡◌, refl, sym, ap, ◌∙◌, subst, String, Bool, true, false, not, ◌&&◌, ◌||◌, List, [], ◌∷◌, ◌++◌,
  any, arith, Bool-cases, inl, inr, str_eq, eq_iff, eq_refl,
}
use fulfillhub_go_commerce_p.Commerce.Event.{OutboxEvent}
use fulfillhub_go_commerce_p.Commerce.Result.{ok, err, return, ◌>>◌}
use fulfillhub_go_commerce_p.Commerce.Ensures.{bind-ok}
use fulfillhub_go_commerce_p.Postgres.Tables.{Database, InboxRow, select}
use fulfillhub_go_commerce_p.Postgres.{Engine, exec, query}
use fulfillhub_go_commerce_p.Postgres.Inbox.{
  is_message, add_inbox_row, record_inbox_message, release_inbox_message,
}
use fulfillhub_go_commerce_p.Postgres.Rules.{exec-ok, query-ok}

abbrev pub knows : Database → String → String → Bool
knows db consumer message_id = any (is_message consumer message_id) db.inbox_messages

abbrev pub same_message : String → String → String → String → Bool
same_message c m consumer message_id = str_eq c consumer && str_eq m message_id

any-snoc :
    (p : InboxRow → Bool) (rows : List InboxRow) (x : InboxRow)
    → any p (rows ++ x ∷ []) ≡ (any p rows || p x)
any-snoc p [] x = ground arith
any-snoc p (y ∷ rows) x = ground (arith, any-snoc p rows x)

same_consumer :
    (c m consumer message_id : String) → same_message c m consumer message_id ≡ true → c ≡ consumer
same_consumer c m consumer message_id h = ground (arith, h, eq_iff c consumer)

same_id :
    (c m consumer message_id : String)
    → same_message c m consumer message_id ≡ true
    → m ≡ message_id
same_id c m consumer message_id h = ground (arith, h, eq_iff m message_id)

or_comm : (a b : Bool) → (a || b) ≡ (b || a)
or_comm a b = ground arith

any-add_inbox_row :
    (c : String) (e : OutboxEvent) (rows : List InboxRow) (consumer message_id : String)
    → any (is_message consumer message_id) (add_inbox_row c e rows) ≡ (
        same_message c e.message_id consumer message_id
        || any (is_message consumer message_id) rows)
unfolding add_inbox_row
any-add_inbox_row c e rows consumer message_id =
    elim (Bool-cases (any (is_message c e.message_id) rows)) [
      | inl known ↦ rw known (elim (Bool-cases (same_message c e.message_id consumer message_id)) [
        | inl same ↦ rw same (
            subst (λ x. any (is_message x message_id) rows ≡ true)
              (same_consumer c e.message_id consumer message_id same)
              (subst (λ x. any (is_message c x) rows ≡ true)
                (same_id c e.message_id consumer message_id same) known))
        | inr other ↦ rw other refl
      ])
      | inr fresh ↦ rw fresh (
          any-snoc (is_message consumer message_id) rows _
          ∙ or_comm (any (is_message consumer message_id) rows)
              (same_message c e.message_id consumer message_id))
    ]

any-select :
    (c m : String) (rows : List InboxRow) (consumer message_id : String)
    → any (is_message consumer message_id) (select (λ row. not (is_message c m row)) rows)
      ≡ (not (same_message c m consumer message_id) && any (is_message consumer message_id) rows)
unfolding select
any-select c m [] consumer message_id = ground arith
any-select c m (row ∷ rows) consumer message_id = ground (
  arith,
  any-select c m rows consumer message_id,
  eq_iff row.consumer_name c,
  eq_iff row.message_id m,
  eq_iff row.consumer_name consumer,
  eq_iff row.message_id message_id,
  eq_iff c consumer,
  eq_iff m message_id,
)

module _ (engine : Engine) (c : String) (e : OutboxEvent) (db : Database) where
  -- A successful `RecordInboxMessage` says whether the message is new, and adds it and nothing else.
  pub record_inbox_message-adds :
      (b : Bool) (t : Database)
      → record_inbox_message engine c e db ≡ (ok b, t)
      → (b ≡ not (knows db c e.message_id))
        × ((consumer message_id : String)
            → knows t consumer message_id
              ≡ (same_message c e.message_id consumer message_id || knows db consumer message_id))
  unfolding record_inbox_message
  record_inbox_message-adds b t h =
      let inserting =
        exec engine "record inbox message"
          (λ d. record d { inbox_messages = add_inbox_row c e d.inbox_messages }) in
      let (known, u, asked, rest) =
        bind-ok (query engine "record inbox message" (λ d. knows d c e.message_id))
          (λ k. inserting >> return (not k)) db b t h in
      let (x, s, inserted, done) = bind-ok inserting (λ y. return (not known)) u b t rest in
      let (read, same) = query-ok engine _ _ db known u asked in
      (
        sym (ap (λ p. elim p.0 [ ok a ↦ a | err z ↦ b ]) done) ∙ ap not read,
        λ consumer message_id.
            ap (λ d. knows d consumer message_id)
              (sym (ap (λ p. p.1) done) ∙ exec-ok engine _ _ u s inserted)
            ∙ (any-add_inbox_row c e u.inbox_messages consumer message_id
                ∙ ap
                    (λ d.
                      same_message c e.message_id consumer message_id
                      || knows d consumer message_id)
                    same),
      )

  -- A successful `ReleaseInboxMessage` takes the message out, and nothing else.
  pub release_inbox_message-removes :
      (t : Database)
      → release_inbox_message engine c e db ≡ (ok tt, t)
      → (consumer message_id : String)
      → knows t consumer message_id
        ≡ (not (same_message c e.message_id consumer message_id) && knows db consumer message_id)
  unfolding release_inbox_message
  release_inbox_message-removes t h consumer message_id =
      ap (λ d. knows d consumer message_id) (exec-ok engine _ _ db t h)
      ∙ any-select c e.message_id db.inbox_messages consumer message_id

-- Of three successful recordings of a message, with a release before the last, the second says that it
-- is not new and the third that it is.
pub recorded_once :
    (engine : Engine) (c : String) (e : OutboxEvent) (db t u v : Database) (b b' b'' : Bool)
    (w : Database)
    → record_inbox_message engine c e db ≡ (ok b, t)
    → record_inbox_message engine c e t ≡ (ok b', u)
    → release_inbox_message engine c e u ≡ (ok tt, v)
    → record_inbox_message engine c e v ≡ (ok b'', w)
    → (b' ≡ false) × (b'' ≡ true)
recorded_once engine c e db t u v b b' b'' w first second released third =
    let known = (record_inbox_message-adds engine c e db b t first).1 c e.message_id in
    let again = (record_inbox_message-adds engine c e t b' u second).0 in
    let gone = release_inbox_message-removes engine c e u v released c e.message_id in
    let anew = (record_inbox_message-adds engine c e v b'' w third).0 in
    (
      ground (arith, known, again, eq_refl c, eq_refl e.message_id),
      ground (arith, gone, anew, eq_refl c, eq_refl e.message_id),
    )
