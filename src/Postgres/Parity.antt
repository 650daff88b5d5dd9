-- ===== src/Postgres/Parity.antt =====
-- How far the PostgreSQL store (reference/bass/store_postgres.py) does what the SQLite store
-- (reference/bass/store.py) does. Event numbers may differ, since a rollback leaves a gap in the
-- sequence of PostgreSQL.
use bass_platform.Base.{ℕ, ◌≡◌, refl, List, [], ◌∷◌, map, arith}
use bass_platform.Redaction.{Patterns}
use bass_platform.Store.{Db, EventRow}
use bass_platform.Store.History.{Op}
use bass_platform.Store.Interface.{Choices, sqlite_store, postgres_store}
use bass_platform.Postgres.Calls.{call, calls, Fresh, AllFresh}
use bass_platform.Postgres.Methods.{
  Same, Agree, renumber, unnumbered, ensure_agrees, create_agrees, cancel_agrees, effect_agrees,
  request_agrees, resolve_agrees, save_agrees, purge_agrees,
}

call_agrees :
    (choices own : Choices) (p : Patterns) (op : Op) (a : Db) (events : List EventRow) (n : ℕ)
    → map unnumbered a.events ≡ map unnumbered events
    → Fresh op a
    → Agree
        (call (postgres_store choices p) op a)
        (call (sqlite_store own p) op (renumber events n a))
call_agrees choices own p (Op.ensure t name settings now) a e n h fresh =
    (refl, ensure_agrees a e n h t name settings now)
call_agrees choices own p (Op.create run now) a e n h fresh =
    ground (arith, create_agrees a e n h run now fresh)
call_agrees choices own p (Op.save clock run events) a e n h fresh =
    ground (arith, save_agrees a e n h p clock run events)
call_agrees choices own p (Op.cancel t id now) a e n h fresh =
    ground (arith, cancel_agrees a e n h t id now)
call_agrees choices own p (Op.effect t key id step tool v now) a e n h fresh =
    (refl, effect_agrees a e n h t key id step tool v now)
call_agrees choices own p (Op.request aid t id step approvers now) a e n h fresh =
    ground (arith, request_agrees a e n h aid t id step approvers now fresh)
call_agrees choices own p (Op.resolve t aid approved by note now) a e n h fresh =
    ground (arith, resolve_agrees a e n h t aid approved by note now)
call_agrees choices own p (Op.purge t before) a e n h fresh =
    ground (arith, purge_agrees a e n h t before)

same_call :
    (choices own : Choices) (p : Patterns) (op : Op) (a b : Db)
    → Same a b
    → Fresh op a
    → Agree (call (postgres_store choices p) op a) (call (sqlite_store own p) op b)
same_call choices own p op a b h fresh =
    let e : renumber b.events b.next_seq a ≡ b = (λ i. record {
      tenants = h.tenants i;
      runs = h.runs i;
      events = b.events;
      next_seq = b.next_seq;
      approvals = h.approvals i;
      effects = h.effects i;
    }) in
    rw e at (call_agrees choices own p op a b.events b.next_seq h.events fresh)

-- From databases with the same rows, a sequence of calls in which each new id is free returns the
-- same on PostgreSQL as on SQLite, call by call, errors included, and leaves the same rows in every
-- table, in the same order, up to the numbers of the events, whatever order each of the two database
-- engines chooses for rows that a query holds equal.
pub postgres_refines_sqlite :
    (choices own : Choices) (p : Patterns) (ops : List Op) (a b : Db)
    → Same a b
    → AllFresh (postgres_store choices p) ops a
    → Agree (calls (postgres_store choices p) ops a) (calls (sqlite_store own p) ops b)
postgres_refines_sqlite choices own p [] a b h fresh = (refl, h)
postgres_refines_sqlite choices own p (op ∷ rest) a b h (fresh, later) =
    let (same_reply, same_rows) = same_call choices own p op a b h fresh in
    let (same_replies, same_end) =
      postgres_refines_sqlite choices own p rest (call (postgres_store choices p) op a).1
        (call (sqlite_store own p) op b).1 same_rows later in
    (cc (same_reply, same_replies), same_end)
