-- ===== src/Postgres/Methods.antt =====
-- Each method of the PostgreSQL store (reference/bass/store_postgres.py) beside that of the SQLite
-- store (reference/bass/store.py), on databases that differ in the numbers of the events alone.
use bass_platform.Base.{
  ℕ, suc, String, ◌≡◌, refl, Bool, ◌||◌, Option, none, List, [], ◌∷◌, ◌++◌, map, length, keep,
  find_by, update_by, arith,
}
use bass_platform.Errors.{Result, ok, err}
use bass_platform.Models.{Run, Event}
use bass_platform.Redaction.{Patterns, redact_fields}
use bass_platform.Store.{EventRow, Db, assert_owns, is_run, append_event, transaction}
use bass_platform.Store.Runs.{canceled_event, is_key_of}
use bass_platform.Store.Approvals.{is_approval}
use bass_platform.Value.{Value, Fields}
use bass_platform.Store.Runs
use bass_platform.Store.Trace.{
  is_purged, purge_row, insert_events, checkpoint, purge_event_payloads, update_run,
}
use bass_platform.Store.Ledger
use bass_platform.Store.Approvals
use bass_platform.Postgres

-- An event without its number.
abbrev pub unnumbered : EventRow → EventRow
unnumbered r = record r { seq = 0 }

-- Two databases with the same rows, up to the numbers of the events.
pub record Same (a b : Db) : Type 0 where
  pub tenants : a.tenants ≡ b.tenants
  pub runs : a.runs ≡ b.runs
  pub events : map unnumbered a.events ≡ map unnumbered b.events
  pub approvals : a.approvals ≡ b.approvals
  pub effects : a.effects ≡ b.effects

-- Two outcomes with the same reply and the same rows.
abbrev pub Agree {ℓ} : {A : Type ℓ} → A × Db → A × Db → Type ℓ
Agree x y = (x.0 ≡ y.0) × Same x.1 y.1

map-append :
    (xs ys : List EventRow) → map unnumbered (xs ++ ys) ≡ map unnumbered xs ++ map unnumbered ys
map-append [] ys = refl
map-append (x ∷ xs) ys = cc (map-append xs ys)

find_by_or :
    {A : Type 0} (p q : A → Bool) (xs : List A)
    → find_by p xs ≡ none
    → find_by (λ x. p x || q x) xs ≡ find_by q xs
find_by_or p q [] h = refl
find_by_or p q (x ∷ xs) h = ground (arith, find_by_or p q xs)

-- The database `a` with other event rows and another next number.
abbrev pub renumber : List EventRow → ℕ → Db → Db
renumber events n a = record a { events = events; next_seq = n }

module _ (a : Db) (events : List EventRow) (n : ℕ)
    (h : map unnumbered a.events ≡ map unnumbered events) where
  abbrev pub b : Db
  b = renumber events n a

  append_event_agrees :
      (ev : Event) (now : ℕ) → Same (append_event ev now a) (append_event ev now b)
  append_event_agrees ev now = record {
    tenants = refl;
    runs = refl;
    approvals = refl;
    effects = refl;
    events = cc (
      h,
      map-append a.events (record { seq = a.next_seq; event = ev; created_at = now } ∷ []),
      map-append events (record { seq = n; event = ev; created_at = now } ∷ []),
    );
  }

  same : Same a b
  same = record { tenants = refl; runs = refl; approvals = refl; effects = refl; events = h }

  pub ensure_agrees :
      (t name : String) (settings : Fields) (now : ℕ)
      → Same
          (Postgres.ensure_tenant t name settings now a)
          (Runs.ensure_tenant t name settings now b)
  unfolding Postgres.ensure_tenant Runs.ensure_tenant
  ensure_agrees t name settings now = ground (arith, h)

  pub create_agrees :
      (run : Run) (now : ℕ)
      → find_by (is_run run.id) a.runs ≡ none
      → Agree (Postgres.create_or_get_run run now a) (Runs.create_or_get_run run now b)
  unfolding Postgres.create_or_get_run Runs.create_or_get_run Postgres.load_by_key
      Runs.load_run_by_key Postgres.row_to_run Runs.row_to_run
  create_agrees run now fresh = ground (
    arith,
    h,
    find_by_or (is_run run.id) (is_key_of run.tenant_id run.idempotency_key) a.runs fresh,
  )

  pub cancel_agrees :
      (t id : String) (now : ℕ)
      → Agree (Postgres.cancel_run t id now a) (Runs.cancel_run t id now b)
  unfolding Postgres.cancel_run Runs.cancel_run Postgres.assert_owns assert_owns
  cancel_agrees t id now = ground (arith, same, append_event_agrees (canceled_event t id) now)

  pub effect_agrees :
      (t key id : String) (step : Option String) (tool : String) (v : Value) (now : ℕ)
      → Same
          (Postgres.record_effect t key id step tool v now a)
          (Ledger.record_effect t key id step tool v now b)
  unfolding Postgres.record_effect Ledger.record_effect
  effect_agrees t key id step tool v now = ground (arith, h)

  pub request_agrees :
      (aid t id step : String) (approvers : List String) (now : ℕ)
      → find_by (is_approval aid) a.approvals ≡ none
      → Agree
          (Postgres.create_approval aid t id step approvers now a)
          (Approvals.create_approval aid t id step approvers now b)
  unfolding Postgres.create_approval Approvals.create_approval Postgres.assert_owns assert_owns
  request_agrees aid t id step approvers now fresh = ground (arith, h, fresh)

  pub resolve_agrees :
      (t aid : String) (approved : Bool) (by note : String) (now : ℕ)
      → Agree
          (Postgres.resolve_approval t aid approved by note now a)
          (Approvals.resolve_approval t aid approved by note now b)
  unfolding Postgres.resolve_approval Approvals.resolve_approval
  resolve_agrees t aid approved by note now = ground (arith, h)

-- The loop over the events; on PostgreSQL a raise keeps what it is rolled back from.
insert_events_agrees :
    (p : Patterns) (t : String) (clock : ℕ → ℕ) (i : ℕ) (evs : List Event) (a : Db)
    (events : List EventRow) (n : ℕ)
    → map unnumbered a.events ≡ map unnumbered events
    → Agree
        (Postgres.insert_events p t clock i evs a)
        (insert_events p t clock i evs (renumber events n a))
unfolding Postgres.insert_events insert_events
insert_events_agrees p t clock i [] a events n h = (refl, same a events n h)
insert_events_agrees p t clock i (ev ∷ evs) a events n h =
    let row = record ev { payload = redact_fields p ev.payload } in
    let ih =
      insert_events_agrees p t clock (suc i) evs (append_event row (clock i) a)
        (append_event row (clock i) (renumber events n a)).events (suc n)
        (append_event_agrees a events n h row (clock i)).events in
    ground (arith, ih, same a events n h)

keep-unnumbered :
    (t : String) (before : ℕ) (rows : List EventRow)
    → length (keep (is_purged t before) rows)
      ≡ length (keep (is_purged t before) (map unnumbered rows))
keep-unnumbered t before [] = refl
keep-unnumbered t before (r ∷ rows) = ground (arith, keep-unnumbered t before rows)

update_by-unnumbered :
    (t : String) (before : ℕ) (rows : List EventRow)
    → map unnumbered (update_by (is_purged t before) purge_row rows)
      ≡ update_by (is_purged t before) purge_row (map unnumbered rows)
update_by-unnumbered t before [] = refl
update_by-unnumbered t before (r ∷ rows) = ground (arith, update_by-unnumbered t before rows)

transaction_agrees :
    {A : Type 0} (x y : Result A × Db) (a b : Db)
    → Agree x y
    → Same a b
    → Agree (Postgres.transaction x a) (transaction y b)
transaction_agrees (ok u, after) (ok v, after') a b h k = h
transaction_agrees (err e, after) (err e', after') a b h k = (
  h.0,
  record {
    tenants = k.tenants;
    runs = k.runs;
    events = k.events;
    approvals = k.approvals;
    effects = k.effects;
  },
)
transaction_agrees (ok u, after) (err e, after') a b h k = cc (h.0)
transaction_agrees (err e, after) (ok u, after') a b h k = cc (h.0)

module _ (a : Db) (events : List EventRow) (n : ℕ)
    (h : map unnumbered a.events ≡ map unnumbered events) where
  pub save_agrees :
      (p : Patterns) (clock : ℕ → ℕ) (run : Run) (evs : List Event)
      → Agree
          (Postgres.checkpoint p clock run evs a)
          (checkpoint p clock run evs (renumber events n a))
  unfolding Postgres.checkpoint checkpoint Postgres.assert_owns assert_owns
  save_agrees p clock run evs =
      let b = renumber events n a in
      let inserted =
        insert_events_agrees p run.tenant_id clock 1 evs (update_run (clock 0) run a) events n h in
      let done =
        transaction_agrees
          (Postgres.insert_events p run.tenant_id clock 1 evs (update_run (clock 0) run a))
          (insert_events p run.tenant_id clock 1 evs (update_run (clock 0) run b)) a b inserted
          (same a events n h) in
      ground (arith, done, same a events n h)

  pub purge_agrees :
      (t : String) (before : ℕ)
      → Agree
          (Postgres.purge_event_payloads t before a)
          (purge_event_payloads t before (renumber events n a))
  unfolding Postgres.purge_event_payloads purge_event_payloads
  purge_agrees t before = ground (
    arith,
    h,
    keep-unnumbered t before a.events,
    keep-unnumbered t before events,
    update_by-unnumbered t before a.events,
    update_by-unnumbered t before events,
  )
