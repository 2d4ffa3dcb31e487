-- ===== src/Commerce/Contract/Moves.antt =====
-- What the steps of the memory store's methods do to what the contract sees.
use mathlib.Core.List.{append-nil, map}
use fulfillhub_go_commerce_p.Prelude.{
  String, ◌≡◌, refl, sym, ap, subst, ◌∙◌, List, [], ◌∷◌, ◌++◌, Option, none, some, arith,
  Option-cases, inl, inr, str_eq, if◌then◌else◌,
}
use fulfillhub_go_commerce_p.Dict
use fulfillhub_go_commerce_p.Dict.{get-put, get-put_cases}
use fulfillhub_go_commerce_p.Commerce.Status.{OrderStatus, validate_order_transition}
use fulfillhub_go_commerce_p.Commerce.Model.{Order}
use fulfillhub_go_commerce_p.Commerce.Event.{OutboxEvent, AuditLog, with_envelope_defaults}
use fulfillhub_go_commerce_p.Commerce.Event.Message.{
  Message, message, message-with_envelope_defaults,
}
use fulfillhub_go_commerce_p.Commerce.Result.{Result, ok, ◌>>=◌, ◌>>◌}
use fulfillhub_go_commerce_p.Commerce.Store.{
  MemoryStore, find_order, check_transition, save_order, emit, append_audit, append_outbox_event,
}
use fulfillhub_go_commerce_p.Commerce.Contract.{View, Effect, Fulfils, untouched, moved, nothing}

unfoldable pub status_of : Option Order → Option OrderStatus
status_of none = none
status_of (some o) = some o.status

unfoldable pub memory_view : MemoryStore → View
unfolding status_of
memory_view s = record {
  status = λ id. status_of (Dict.get s.orders id);
  outbox = map message s.outbox;
  audits = s.audit_logs;
}

pub map-snoc :
    (events : List OutboxEvent) (e : OutboxEvent)
    → map message (events ++ with_envelope_defaults e ∷ []) ≡ map message events ++ message e ∷ []
map-snoc [] e = ap (λ m. m ∷ []) (message-with_envelope_defaults e)
map-snoc (x ∷ events) e = ap (λ ms. message x ∷ ms) (map-snoc events e)

-- An order written back under its key changes the status of that key only.
pub put_moved :
    (s : MemoryStore) (id : String) (new : Order) (j : String)
    → status_of (Dict.get (Dict.put s.orders id new) j)
      ≡ (if str_eq id j then some new.status else status_of (Dict.get s.orders j))
unfolding status_of
put_moved s id new j = rw (get-put s.orders id j new) (ground arith)

put_same :
    (s : MemoryStore) (id : String) (old new : Order)
    → Dict.get s.orders id ≡ some old
    → new.status ≡ old.status
    → (j : String)
    → status_of (Dict.get (Dict.put s.orders id new) j) ≡ status_of (Dict.get s.orders j)
unfolding status_of
put_same s id old new found h j = elim (get-put_cases s.orders id j new) [
  | inl (hit, e) ↦ rw (e, sym hit, found) (ap some h)
  | inr (miss, e) ↦ rw e refl
]

-- What a call guarantees where it succeeds.
abbrev pub Delivers : Effect → MemoryStore → Result (Unit {0}) × MemoryStore → Type 0
Delivers e s r = (t : MemoryStore) → r ≡ (ok tt, t) → Fulfils e (memory_view s) (memory_view t)

pub finished :
    (e : Effect) (s t : MemoryStore)
    → Fulfils e (memory_view s) (memory_view t)
    → Delivers e s (ok tt, t)
finished e s t f t' h = subst (λ x. Fulfils e (memory_view s) (memory_view x)) (ap (λ p. p.1) h) f

module _ (id : String) (status : OrderStatus) (f : Order → Order) (event : Order → OutboxEvent)
    (audit : AuditLog) (m : Message) (s : MemoryStore)
    (target : (o : Order) → (f o).status ≡ status)
    (named : (o : Order) → message (event o) ≡ m) where
  pub moved_view :
      (o : Order)
      → Dict.get s.orders id ≡ some o
      → validate_order_transition o.status status ≡ none
      → Fulfils
          (record { target = moved id status; messages = m ∷ []; audits = audit ∷ [] })
          (memory_view s)
          (memory_view (record s {
            orders = Dict.put s.orders id (f o);
            outbox = s.outbox ++ with_envelope_defaults (event o) ∷ [];
            audit_logs = s.audit_logs ++ audit ∷ [];
          }))
  unfolding memory_view status_of
  moved_view o found legal = record {
    target = (
      (o.status, rw found refl, legal),
      λ j.
          put_moved s id (f o) j
          ∙ ap (λ x. if str_eq id j then some x else status_of (Dict.get s.orders j)) (target o),
    );
    outbox = map-snoc s.outbox (event o) ∙ ap (λ x. map message s.outbox ++ x ∷ []) (named o);
    audits = refl;
  }

  moved_step :
      (o : Order)
      → Dict.get s.orders id ≡ some o
      → Delivers
          (record { target = moved id status; messages = m ∷ []; audits = audit ∷ [] })
          s
          ((check_transition o.status status >> (save_order id (f o) >> emit (event o) audit)) s)
  unfolding check_transition save_order emit append_audit append_outbox_event
  moved_step o found = elim (Option-cases (validate_order_transition o.status status)) [
    | inl legal ↦ rw (legal, check_transition) (finished _ s _ (moved_view o found legal))
    | inr (issue, illegal) ↦ rw (illegal, check_transition) (λ t h. cc h)
  ]

  pub moved_Delivers :
      Delivers
        (record { target = moved id status; messages = m ∷ []; audits = audit ∷ [] })
        s
        ((find_order id >>= λ o.
            check_transition o.status status >> (save_order id (f o) >> emit (event o) audit))
          s)
  unfolding find_order
  moved_Delivers = elim (Option-cases (Dict.get s.orders id)) [
    | inl missing ↦ rw (missing, find_order) (λ t h. cc h)
    | inr (o, found) ↦ rw (found, find_order) (moved_step o found)
  ]

module _ (id : String) (f : Order → Order) (event : Order → OutboxEvent) (audit : AuditLog)
    (m : Message) (s : MemoryStore) (same : (o : Order) → (f o).status ≡ o.status)
    (named : (o : Order) → message (event o) ≡ m) where
  pub reported_Delivers :
      Delivers
        (record { target = untouched; messages = m ∷ []; audits = audit ∷ [] })
        s
        ((find_order id >>= λ o. save_order id (f o) >> emit (event o) audit) s)
  unfolding find_order save_order emit append_audit append_outbox_event memory_view
  reported_Delivers = elim (Option-cases (Dict.get s.orders id)) [
    | inl missing ↦ rw (missing, find_order) (λ t h. cc h)
    | inr (o, found) ↦
        rw (found, find_order)
          (finished _ s _ (record {
            target = put_same s id o (f o) found (same o);
            outbox =
                map-snoc s.outbox (event o) ∙ ap (λ x. map message s.outbox ++ x ∷ []) (named o);
            audits = refl;
          }))
  ]

pub unchanged_Delivers :
    (s t : MemoryStore)
    → t.orders ≡ s.orders
    → t.outbox ≡ s.outbox
    → t.audit_logs ≡ s.audit_logs
    → Delivers nothing s (ok tt, t)
unfolding memory_view
unchanged_Delivers s t a b c = finished _ s t (record {
  target = λ j. ap (λ o. status_of (Dict.get o j)) a;
  outbox = ap (map message) b ∙ sym (append-nil _);
  audits = c ∙ sym (append-nil _);
})
