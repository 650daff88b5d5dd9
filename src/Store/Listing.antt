-- ===== src/Store/Listing.antt =====
-- What `list_runs` of reference/bass/store.py returns.
use mathlib.Core.List.{Perm}
use bass_platform.Base.{
  ==_comm, ℕ, zero, suc, ◌≤◌, String, ◌≡◌, refl, ◌==◌, true, Bool, ◌&&◌, ◌||◌, Option, none, some,
  List, [], ◌∷◌, map, take, keep, All, arith, sort_by, sort_by-IsSortedBy, sort_by-perm,
  All-sort_by, IsSortedBy,
}
use bass_platform.Errors.{ok}
use bass_platform.Models.{RunStatus, status_value}
use bass_platform.Store.{RunRow, Db}
use bass_platform.Store.Runs.{newer, has_status, rows_to_runs, row_to_run, list_runs}

-- The texts that name a status.
abbrev pub names_status : String → RunStatus → Bool
names_status s RunStatus.pending = s == "pending"
names_status s RunStatus.running = s == "running"
names_status s RunStatus.waiting_approval = s == "waiting_approval"
names_status s RunStatus.succeeded = s == "succeeded"
names_status s RunStatus.failed = s == "failed"
names_status s RunStatus.canceled = s == "canceled"

-- A row of the tenant, whose status is the one that the text names; no text and the empty text ask for
-- every status.
abbrev pub is_wanted : String → Option String → RunRow → Bool
is_wanted tenant none r = r.run.tenant_id == tenant
is_wanted tenant (some s) r = r.run.tenant_id == tenant && (s == "" || names_status s r.run.status)

abbrev pub IsNewestFirst : List RunRow → Type 0
IsNewestFirst = IsSortedBy (λ (r q : RunRow). q.started_at ≤ r.started_at)

abbrev Own : String → RunRow → Type 0
Own tenant r = (r.run.tenant_id == tenant) ≡ true

names_status_lem :
    (s : String) (status : RunStatus) → (status_value status == s) ≡ names_status s status
names_status_lem s RunStatus.pending = ==_comm "pending" s
names_status_lem s RunStatus.running = ==_comm "running" s
names_status_lem s RunStatus.waiting_approval = ==_comm "waiting_approval" s
names_status_lem s RunStatus.succeeded = ==_comm "succeeded" s
names_status_lem s RunStatus.failed = ==_comm "failed" s
names_status_lem s RunStatus.canceled = ==_comm "canceled" s

is_wanted_lem :
    (tenant : String) (status : Option String) (r : RunRow)
    → (r.run.tenant_id == tenant && has_status status r) ≡ is_wanted tenant status r
is_wanted_lem tenant none r = ground arith
is_wanted_lem tenant (some s) r = rw (names_status_lem s r.run.status) refl

wanted-keep :
    (tenant : String) (status : Option String) (rows : List RunRow)
    → keep (λ (r : RunRow). r.run.tenant_id == tenant && has_status status r) rows
      ≡ keep (is_wanted tenant status) rows
wanted-keep tenant status [] = refl
wanted-keep tenant status (r ∷ rows) =
    rw (is_wanted_lem tenant status r, wanted-keep tenant status rows) refl

wanted-Own :
    (tenant : String) (status : Option String) (rows : List RunRow)
    → All (Own tenant) (keep (is_wanted tenant status) rows)
wanted-Own tenant status [] = tt
wanted-Own tenant none (r ∷ rows) = ground (arith, wanted-Own tenant none rows)
wanted-Own tenant (some s) (r ∷ rows) = ground (arith, wanted-Own tenant (some s) rows)

All-take : (P : RunRow → Type 0) (n : ℕ) (rows : List RunRow) → All P rows → All P (take n rows)
All-take P zero rows all = tt
All-take P (suc n) [] all = tt
All-take P (suc n) (r ∷ rows) (here, all) = (here, All-take P n rows all)

rows_to_runs-Own :
    (tenant : String) (rows : List RunRow)
    → All (Own tenant) rows
    → rows_to_runs tenant rows ≡ ok (map (λ (r : RunRow). r.run) rows)
unfolding row_to_run
rows_to_runs-Own tenant [] all = refl
rows_to_runs-Own tenant (r ∷ rows) (own, all) =
    let rest = rows_to_runs-Own tenant rows all in rw (own, rows_to_runs) (rw rest refl)

-- `list_runs` returns the first `limit` runs of a permutation of the tenant's rows with the wanted
-- status in which the later a run started, the earlier it stands, however the database engine orders
-- runs that started together.
pub list_runs_lem :
    (before : RunRow → RunRow → Bool) (tenant : String) (limit : ℕ) (status : Option String)
    (db : Db)
    → (rows : List RunRow) × (list_runs before tenant limit status db
        ≡ ok (map (λ (r : RunRow). r.run) (take limit rows)))
      × IsNewestFirst rows
      × Perm rows (keep (is_wanted tenant status) db.runs)
unfolding list_runs
list_runs_lem before tenant limit status db =
    let rows = keep (is_wanted tenant status) db.runs in
    let sorted = sort_by (newer before) rows in
    let own = rows_to_runs-Own tenant (take limit sorted) (
      All-take (Own tenant) limit sorted
        (All-sort_by (newer before) (Own tenant) rows (wanted-Own tenant status db.runs))) in
    (
      sorted,
      rw (list_runs, wanted-keep tenant status db.runs) own,
      sort_by-IsSortedBy (newer before) _ (λ r q h. ground arith) (λ r q h. ground arith)
          (λ r q s h k. omega arith) rows,
      sort_by-perm (newer before) rows,
    )
