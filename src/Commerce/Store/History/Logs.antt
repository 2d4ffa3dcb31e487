-- ===== src/Commerce/Store/History/Logs.antt =====
-- The outbox and the audit log along a history.
use mathlib.Core.List.{append-nil, append_assoc}
use fulfillhub_go_commerce_p.Prelude.{◌≡◌, refl, sym, ◌∙◌, subst, List, [], ◌∷◌, ◌++◌}
use fulfillhub_go_commerce_p.Commerce.Event.{OutboxEvent, AuditLog}
use fulfillhub_go_commerce_p.Commerce.Store.{MemoryStore}
use fulfillhub_go_commerce_p.Commerce.Store.Move.{Move, stay, insert, advance, note, relay}
use fulfillhub_go_commerce_p.Commerce.Store.History.{Call, step, run, step-Move}

-- `t` has what `s` has in front, in both logs.
pub record Extends (s t : MemoryStore) : Type 0 where
  pub events : List OutboxEvent
  pub audits : List AuditLog
  pub outbox : t.outbox ≡ s.outbox ++ events
  pub audit_logs : t.audit_logs ≡ s.audit_logs ++ audits

Extends-refl : (s : MemoryStore) → Extends s s
Extends-refl s = record {
  events = [];
  audits = [];
  outbox = rw append-nil;
  audit_logs = rw append-nil;
}

Extends-trans : {s t u : MemoryStore} → Extends s t → Extends t u → Extends s u
Extends-trans {s} a b = record {
  events = a.events ++ b.events;
  audits = a.audits ++ b.audits;
  outbox = b.outbox ∙ (rw (a.outbox) (append_assoc s.outbox a.events b.events));
  audit_logs = b.audit_logs ∙ (rw (a.audit_logs) (append_assoc s.audit_logs a.audits b.audits));
}

Move-Extends : {D : Type 0} {s t : MemoryStore} → Move D s t → Extends s t
Move-Extends {s = s} (stay e) = subst (Extends s) (sym e) (Extends-refl s)
Move-Extends {s = s} (insert merchant_id key order event audit drawn new free e) =
    subst (Extends s) (sym e) (record { events = _; audits = _; outbox = refl; audit_logs = refl })
Move-Extends {s = s} (advance id old new events audit found terms legal e) =
    subst (Extends s) (sym e) (record { events = _; audits = _; outbox = refl; audit_logs = refl })
Move-Extends {s = s} (note audit e) =
    subst (Extends s) (sym e)
      (record { events = []; audits = _; outbox = rw append-nil; audit_logs = refl })
Move-Extends {s = s} (relay d' published claimed e) =
    subst (Extends s) (sym e)
      (record { events = []; audits = []; outbox = rw append-nil; audit_logs = rw append-nil })

-- Along any history the outbox and the audit log only grow at their ends: nothing that was written
-- is lost, changed or reordered.
pub run-Extends : (s : MemoryStore) (cs : List Call) → Extends s (run s cs)
unfolding run
run-Extends s [] = Extends-refl s
run-Extends s (c ∷ cs) = Extends-trans (Move-Extends (step-Move s c)) (run-Extends (step s c) cs)
