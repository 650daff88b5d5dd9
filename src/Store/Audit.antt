-- ===== src/Store/Audit.antt =====
-- The audit trail of reference/bass/store.py: the table of events, which `checkpoint` and `cancel_run`
-- append to and of which `purge_event_payloads` blanks payloads.
use bass_platform.Base.{
  ℕ, suc, String, ◌≡◌, refl, sym, ap, ◌∙◌, List, [], ◌∷◌, ◌++◌, Bool, Bool-cases, ◌==◌, update_by,
  arith, inl, inr, find_by, Option-cases,
}
use bass_platform.Errors.{Result, ok, err, Result-cases}
use bass_platform.Value.{Fields}
use bass_platform.Models.{Run, Event, is_terminal}
use bass_platform.Redaction.{Patterns, redact_fields}
use bass_platform.Exec.Relates.{IsPreorder}
use bass_platform.Store.{transaction, EventRow, Db, append_event, assert_owns, is_run_of}
use bass_platform.Store.Runs.{
  ensure_tenant, create_or_get_run, cancel_run, canceled_event, set_canceled,
}
use bass_platform.Store.Trace.{
  insert_events, checkpoint, purge_event_payloads, purge_row, is_purged, update_run,
}
use bass_platform.Store.Ledger.{record_effect}
use bass_platform.Store.Approvals.{create_approval, resolve_approval}
use bass_platform.Store.History.{Op, apply, apply_all}

-- A row of events without its payload: its number, its time and all else of the event stay.
abbrev pub without_payload : EventRow → EventRow
without_payload r = record r { event = record (r.event) { payload = Fields.end } }

-- The events without their payloads, which alone a purge may take.
abbrev blank : List EventRow → List EventRow
blank [] = []
blank (r ∷ rest) = without_payload r ∷ blank rest

-- The rows are numbered one by one from the first number up to the last, which is not used.
abbrev IsNumbered : ℕ → List EventRow → ℕ → Type 0
IsNumbered n [] m = n ≡ m
IsNumbered n (r ∷ rest) m = (r.seq ≡ n) × IsNumbered (suc n) rest m

-- The trail of the second database is that of the first with numbered events after it.
pub record Extends (d e : Db) : Type 0 where
  pub added : List EventRow
  pub trail : blank e.events ≡ blank d.events ++ added
  pub numbered : IsNumbered d.next_seq added e.next_seq

append_none : (xs : List EventRow) → xs ++ [] ≡ xs
append_none [] = refl
append_none (x ∷ xs) = ap (λ ys. x ∷ ys) (append_none xs)

append_assoc : (xs ys zs : List EventRow) → (xs ++ ys) ++ zs ≡ xs ++ (ys ++ zs)
append_assoc [] ys zs = refl
append_assoc (x ∷ xs) ys zs = ap (λ ws. x ∷ ws) (append_assoc xs ys zs)

blank-append : (xs ys : List EventRow) → blank (xs ++ ys) ≡ blank xs ++ blank ys
blank-append [] ys = refl
blank-append (x ∷ xs) ys = ap (λ ws. without_payload x ∷ ws) (blank-append xs ys)

blank-purge :
    (p : EventRow → Bool) (xs : List EventRow) → blank (update_by p purge_row xs) ≡ blank xs
blank-purge p [] = refl
blank-purge p (x ∷ xs) = elim (Bool-cases (p x)) [
  | inl purged ↦ rw (purged, blank-purge p xs) refl
  | inr kept ↦ rw (kept, blank-purge p xs) refl
]

IsNumbered-append :
    (xs ys : List EventRow) (l m n : ℕ)
    → IsNumbered l xs m
    → IsNumbered m ys n
    → IsNumbered l (xs ++ ys) n
IsNumbered-append [] ys l m n h k = rw h k
IsNumbered-append (x ∷ xs) ys l m n h k = (h.0, IsNumbered-append xs ys (suc l) m n h.1 k)

-- A change that leaves the events as they are.
same_events : (d e : Db) → e.events ≡ d.events → e.next_seq ≡ d.next_seq → Extends d e
same_events d e events next = record {
  added = [];
  trail = ap blank events ∙ sym (append_none (blank d.events));
  numbered = sym next;
}

trail_order : IsPreorder Extends
trail_order = record {
  same = λ d. same_events d d refl refl;
  trans = λ d e f h k. record {
    added = h.added ++ k.added;
    trail =
        k.trail ∙ ap (λ xs. xs ++ k.added) h.trail ∙ append_assoc (blank d.events) h.added k.added;
    numbered =
        IsNumbered-append h.added k.added d.next_seq e.next_seq f.next_seq h.numbered k.numbered;
  };
}

append_event-Extends : (ev : Event) (now : ℕ) (db : Db) → Extends db (append_event ev now db)
append_event-Extends ev now db = record {
  added = without_payload (record { seq = db.next_seq; event = ev; created_at = now }) ∷ [];
  trail = blank-append db.events (record { seq = db.next_seq; event = ev; created_at = now } ∷ []);
  numbered = (refl, refl);
}

-- The insertions of a checkpoint, as far as they are made.
insert_events-Extends :
    (p : Patterns) (t : String) (clock : ℕ → ℕ) (i : ℕ) (events : List Event) (db : Db)
    → Extends db (insert_events p t clock i events db).1
unfolding insert_events
insert_events-Extends p t clock i [] db = trail_order.same db
insert_events-Extends p t clock i (ev ∷ rest) db =
    let next = append_event (record ev { payload = redact_fields p ev.payload }) (clock i) db in
    let following =
      trail_order.trans db next (insert_events p t clock (suc i) rest next).1
        (append_event-Extends (record ev { payload = redact_fields p ev.payload }) (clock i) db)
        (insert_events-Extends p t clock (suc i) rest next) in
    elim (Bool-cases (ev.tenant_id == t)) [
      | inl own ↦ rw own following
      | inr foreign ↦ rw foreign (trail_order.same db)
    ]

transaction-Extends :
    (r : Result (Unit {0}) × Db) (db : Db) → Extends db r.1 → Extends db (transaction r db).1
transaction-Extends (ok _, after) db h = h
transaction-Extends (err _, after) db h = trail_order.same db

checkpoint-Extends :
    (p : Patterns) (clock : ℕ → ℕ) (run : Run) (events : List Event) (db : Db)
    → Extends db (checkpoint p clock run events db).1
unfolding checkpoint
checkpoint-Extends p clock run events db =
    elim (Result-cases (assert_owns run.tenant_id run.id db)) [
      | inr (e, refused) ↦ rw (refused, checkpoint) (trail_order.same db)
      | inl (_, owned) ↦
          let updated = update_run (clock 0) run db in
          rw (owned, checkpoint)
            (transaction-Extends _ db (
              trail_order.trans db updated _ (same_events db updated refl refl)
                (insert_events-Extends p run.tenant_id clock 1 events updated)))
    ]

cancel_run-Extends : (t id : String) (now : ℕ) (db : Db) → Extends db (cancel_run t id now db).1
unfolding cancel_run
cancel_run-Extends t id now db = elim (Option-cases (find_by (is_run_of t id) db.runs)) [
  | inl missing ↦ rw (missing, cancel_run) (trail_order.same db)
  | inr (r, found) ↦
      let updated = record db { runs = update_by (is_run_of t id) (set_canceled now) db.runs } in
      elim (Bool-cases (is_terminal r.run.status)) [
        | inl ended ↦ rw (found, cancel_run) (rw ended (trail_order.same db))
        | inr live ↦
            rw (found, cancel_run)
              (rw live (
                trail_order.trans db updated (append_event (canceled_event t id) now updated)
                  (same_events db updated refl refl)
                  (append_event-Extends (canceled_event t id) now updated)))
      ]
]

apply-Extends : (p : Patterns) (op : Op) (db : Db) → Extends db (apply p op db)
unfolding purge_event_payloads ensure_tenant record_effect create_approval resolve_approval
    create_or_get_run
apply-Extends p (Op.ensure t name settings now) db = same_events db _ (ground arith) (ground arith)
apply-Extends p (Op.create run now) db = same_events db _ (ground arith) (ground arith)
apply-Extends p (Op.save clock run events) db = checkpoint-Extends p clock run events db
apply-Extends p (Op.cancel t id now) db = cancel_run-Extends t id now db
apply-Extends p (Op.effect t k id step tool v now) db =
    same_events db _ (ground arith) (ground arith)
apply-Extends p (Op.request aid t id step approvers now) db =
    same_events db _ (ground arith) (ground arith)
apply-Extends p (Op.resolve t aid approved by note now) db =
    same_events db _ (ground arith) (ground arith)
apply-Extends p (Op.purge t before) db = record {
  added = [];
  trail = blank-purge (is_purged t before) db.events ∙ sym (append_none (blank db.events));
  numbered = refl;
}

-- Whatever calls of the store are made, in whatever order, the trail only grows: no event is removed,
-- reordered or rewritten but for its payload, and the new events are numbered one by one from the
-- next number.
pub apply_all-Extends : (p : Patterns) (ops : List Op) (db : Db) → Extends db (apply_all p ops db)
apply_all-Extends p [] db = trail_order.same db
apply_all-Extends p (op ∷ rest) db =
    trail_order.trans db (apply p op db) (apply_all p rest (apply p op db)) (apply-Extends p op db)
      (apply_all-Extends p rest (apply p op db))
