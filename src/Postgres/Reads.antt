-- ===== src/Postgres/Reads.antt =====
-- What the reads of the PostgreSQL store (reference/bass/store_postgres.py) return on the rows that
-- the SQLite store (reference/bass/store.py) has.
use bass_platform.Base.{
  ℕ, String, ◌≡◌, ◌≢◌, refl, Bool, true, ◌&&◌, Option, none, some, List, [], ◌∷◌, map, keep, inl,
  inr, arith, All, AllPairs, sort_by-same, Bool-cases, Option-cases, ◌==◌,
}
use bass_platform.Errors.{Result, ok, err}
use bass_platform.Store.{Db, RunRow, EventRow, ApprovalRow, assert_owns}
use bass_platform.Store.Interface.{Choices}
use bass_platform.Store.Runs
use bass_platform.Store.Trace
use bass_platform.Store.Ledger
use bass_platform.Store.Approvals
use bass_platform.Store.Approvals.{is_request, later}
use bass_platform.Postgres
use bass_platform.Postgres.Methods.{Same, unnumbered}

-- No two of the rows that pass a test have one time.
abbrev pub DistinctTimes : {R : Type 0} → (R → ℕ) → (R → Bool) → List R → Type 0
DistinctTimes time p [] = Unit
DistinctTimes time p (r ∷ rest) =
    All (λ q. p r ≡ true → p q ≡ true → time r ≢ time q) rest × DistinctTimes time p rest

given :
    {R : Type 0} (time : R → ℕ) (p : R → Bool) (r : R) (rows : List R)
    → p r ≡ true
    → All (λ q. p r ≡ true → p q ≡ true → time r ≢ time q) rows
    → All (λ q. p q ≡ true → time r ≢ time q) rows
given time p r [] passes h = tt
given time p r (q ∷ rows) passes (here, h) = (here passes, given time p r rows passes h)

latest_among :
    (p : ApprovalRow → Bool) (k : ℕ) (rows : List ApprovalRow)
    → All (λ (q : ApprovalRow). p q ≡ true → k ≢ q.requested_at) rows
    → (q : ApprovalRow) → Approvals.latest p rows ≡ some q
    → k ≢ q.requested_at
latest_among p k [] h q e = cc
latest_among p k (r ∷ rest) (here, h) q e = elim (Option-cases (Approvals.latest p rest)) [
  | inl none_left ↦ ground (arith, none_left, here, e)
  | inr (q', found) ↦ ground (arith, found, here, e, latest_among p k rest h q' found)
]

latest_agrees :
    (before : ApprovalRow → ApprovalRow → Bool) (p : ApprovalRow → Bool) (rows : List ApprovalRow)
    → DistinctTimes (λ (r : ApprovalRow). r.requested_at) p rows
    → Postgres.latest before p rows ≡ Approvals.latest p rows
latest_agrees before p [] h = refl
latest_agrees before p (r ∷ rest) (here, h) = elim (Bool-cases (p r)) [
  | inr other ↦ ground (arith, other, latest_agrees before p rest h)
  | inl passes ↦
      let among = given (λ (r : ApprovalRow). r.requested_at) p r rest passes here in
      elim (Option-cases (Approvals.latest p rest)) [
        | inl none_left ↦ ground (arith, none_left, latest_agrees before p rest h)
        | inr (q, found) ↦ ground (
          arith,
          found,
          latest_agrees before p rest h,
          latest_among p r.requested_at rest among q found,
        )
      ]
]

-- The rows that `list_runs` selects, before they are sorted.
abbrev pub is_listed : String → Option String → RunRow → Bool
is_listed t status r = r.run.tenant_id == t && Runs.has_status status r

module _ (before before' : RunRow → RunRow → Bool) (t : String) (status : Option String) where
  newer_agree :
      (r : RunRow) (rows : List RunRow)
      → All (λ q. is_listed t status q ≡ true → r.started_at ≢ q.started_at) rows
      → All
          (λ q. Postgres.newer before r q ≡ Runs.newer before' r q)
          (keep (is_listed t status) rows)
  newer_agree r [] h = tt
  newer_agree r (q ∷ rows) (here, h) = elim (Bool-cases (is_listed t status q)) [
    | inr other ↦ rw other (newer_agree r rows h)
    | inl listed ↦
        let distinct = here listed in
        let same : Postgres.newer before r q ≡ Runs.newer before' r q = ground arith in
        rw listed (same, newer_agree r rows h)
  ]

  listed_pairs :
      (rows : List RunRow)
      → DistinctTimes (λ (r : RunRow). r.started_at) (is_listed t status) rows
      → AllPairs
          (λ r q. Postgres.newer before r q ≡ Runs.newer before' r q)
          (keep (is_listed t status) rows)
  listed_pairs [] h = tt
  listed_pairs (r ∷ rows) (here, h) = elim (Bool-cases (is_listed t status r)) [
    | inr other ↦ rw other (listed_pairs rows h)
    | inl listed ↦ rw listed (
      newer_agree r rows
          (given (λ (r : RunRow). r.started_at) (is_listed t status) r rows listed here),
      listed_pairs rows h,
    )
  ]

rows_to_runs_agrees :
    (t : String) (rows : List RunRow) → Postgres.rows_to_runs t rows ≡ Runs.rows_to_runs t rows
unfolding Postgres.row_to_run Runs.row_to_run
rows_to_runs_agrees t [] = refl
rows_to_runs_agrees t (r ∷ rows) = ground (arith, rows_to_runs_agrees t rows)

option_run_agrees :
    (t : String) (o : Option Postgres.RunRow) → Postgres.if_row o t ≡ Runs.option_run t o
unfolding Postgres.row_to_run Runs.row_to_run
option_run_agrees t none = refl
option_run_agrees t (some r) = ground arith

abbrev pub unnumbered_result : Result (List EventRow) → Result (List EventRow)
unnumbered_result (ok rows) = ok (map unnumbered rows)
unnumbered_result (err e) = err e

keep-unnumbered :
    (t id : String) (rows : List EventRow)
    → map unnumbered (keep (λ (r : EventRow). r.event.run_id == id && r.event.tenant_id == t) rows)
      ≡ keep
          (λ (r : EventRow). r.event.run_id == id && r.event.tenant_id == t)
          (map unnumbered rows)
keep-unnumbered t id [] = refl
keep-unnumbered t id (r ∷ rows) = ground (arith, keep-unnumbered t id rows)

-- On the same rows the reads of the two stores return the same, errors included: a run by its id and by
-- its key, a recorded effect, the events up to their numbers; the latest request of a step, if no two
-- requests of the step were made at one time; and the list of runs, if no two of the runs that are
-- selected started at one time. This holds however each database engine orders rows of one time.
pub reads_agree :
    (a b : Db) (t id key step : String) (limit : ℕ) (status : Option String) (choices own : Choices)
    → Same a b
    → DistinctTimes (λ (r : ApprovalRow). r.requested_at) (is_request t id step) a.approvals
    → DistinctTimes (λ (r : RunRow). r.started_at) (is_listed t status) a.runs
    → (Postgres.load_run t id a ≡ Runs.load_run t id b)
      × (Postgres.load_by_key t key a ≡ Runs.load_run_by_key t key b)
      × (Postgres.get_effect t key a ≡ Ledger.get_effect t key b)
      × (unnumbered_result (Postgres.list_events t id a)
          ≡ unnumbered_result (Trace.list_events t id b))
      × (Postgres.latest_approval choices.approval_before t id step a
          ≡ Approvals.latest_approval t id step b)
      × (Postgres.list_runs choices.run_before t limit status a
          ≡ Runs.list_runs own.run_before t limit status b)
unfolding Postgres.load_run Runs.load_run Postgres.load_by_key Runs.load_run_by_key
    Postgres.get_effect Ledger.get_effect Postgres.list_events Trace.list_events
    Postgres.assert_owns assert_owns Postgres.latest_approval Approvals.latest_approval
    Postgres.list_runs Runs.list_runs
reads_agree a b t id key step limit status choices own h times starts =
    let latest = latest_agrees choices.approval_before (is_request t id step) a.approvals times in
    let sorted =
      sort_by-same (Postgres.newer choices.run_before) (Runs.newer own.run_before)
        (keep (is_listed t status) a.runs)
        (listed_pairs choices.run_before own.run_before t status a.runs starts) in
    (
      rw h.runs (option_run_agrees t _),
      rw h.runs (option_run_agrees t _),
      rw h.effects (ground arith),
      ground
          (arith, h.runs, h.events, keep-unnumbered t id a.events, keep-unnumbered t id b.events),
      ground (arith, h.approvals, latest),
      rw h.runs (rw (rw h.runs at sorted) (rows_to_runs_agrees t _)),
    )
