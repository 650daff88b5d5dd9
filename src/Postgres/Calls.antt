-- ===== src/Postgres/Calls.antt =====
-- The calls that change a store (reference/bass/store.py, the protocol `Store`), with what they return.
use bass_platform.Base.{ℕ, Bool, none, List, [], ◌∷◌, find_by, ◌≡◌}
use bass_platform.Errors.{Result}
use bass_platform.Models.{Run}
use bass_platform.Store.{Db, is_run}
use bass_platform.Store.Approvals.{is_approval}
use bass_platform.Store.History.{Op}
use bass_platform.Store.Interface.{Methods}

pub data Reply : Type 0 where
  nothing : Reply
  created : Result (Run × Bool) → Reply
  canceled : Result Bool → Reply
  done : Result (Unit {0}) → Reply
  purged : ℕ → Reply

abbrev pub replied {ℓ} : {A : Type ℓ} → (A → Reply) → A × Db → Reply × Db
replied f (a, db) = (f a, db)

-- A call of a store's method.
abbrev pub call : Methods → Op → Db → Reply × Db
call m (Op.ensure t name settings now) db = (Reply.nothing, m.ensure_tenant t name settings now db)
call m (Op.create run now) db = replied Reply.created (m.create_or_get_run run now db)
call m (Op.save clock run events) db = replied Reply.done (m.checkpoint clock run events db)
call m (Op.cancel t id now) db = replied Reply.canceled (m.cancel_run t id now db)
call m (Op.effect t key id step tool v now) db =
    (Reply.nothing, m.record_effect t key id step tool v now db)
call m (Op.request aid t id step approvers now) db =
    replied Reply.done (m.create_approval aid t id step approvers now db)
call m (Op.resolve t aid approved by note now) db =
    replied Reply.done (m.resolve_approval t aid approved by note now db)
call m (Op.purge t before) db = replied Reply.purged (m.purge_event_payloads t before db)

-- A call whose new id is in use by no row.
abbrev pub Fresh : Op → Db → Type 0
Fresh (Op.create run now) db = find_by (is_run run.id) db.runs ≡ none
Fresh (Op.request aid t id step approvers now) db = find_by (is_approval aid) db.approvals ≡ none
Fresh _ db = Unit

-- A sequence of calls, with the replies in order.
abbrev pub calls : Methods → List Op → Db → List Reply × Db
calls m [] db = ([], db)
calls m (op ∷ rest) db =
    let (r, db') = call m op db in let (rs, end) = calls m rest db' in (r ∷ rs, end)

-- Each new id is free when its call comes.
abbrev pub AllFresh : Methods → List Op → Db → Type 0
AllFresh m [] db = Unit
AllFresh m (op ∷ rest) db = Fresh op db × AllFresh m rest (call m op db).1
