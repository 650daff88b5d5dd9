-- ===== src/Engine/Frame/Saved.antt =====
-- What a finished drive of reference/bass/workflow.py leaves in the store: the run as it is in memory.
use bass_platform.Base.{
  concat, ℕ, zero, suc, ◌+◌, String, ◌≡◌, refl, sym, ap, ◌∙◌, true, Option, none, some, [], ◌∷◌,
  lookup, inl, inr, ◌⊎◌, Option-cases, Bool-cases,
}
use bass_platform.Errors.{Kind, Raised, Result, ok, err, raised}
use bass_platform.Exec.{continue, handled, ◌>>◌, pure, modify}
use bass_platform.Models.{Run, RunStatus, Step, Workflow, is_terminal}
use bass_platform.Redaction.{Patterns}
use bass_platform.Budget.{Budget}
use bass_platform.Budget
use bass_platform.Store.Saving.{load_run-checkpoint}
use bass_platform.Store.Rows.{IsStored, apply_all-IsStored}
use bass_platform.Store.Runs.{load_run}
use bass_platform.Store.Trace.{checkpoint, saved}
use bass_platform.Engine.{Config, Sys, M, emit, flush, in_store, set_run, set_status, count}
use bass_platform.Engine.Drive.{
  advance, conclude, take_step, round, drive, resume, budget_of, first_step, is_paused, on_pause,
}
use bass_platform.Engine.Frame.{Calls}
use bass_platform.Engine.Frame.Attempts.{entered, attempted, attempted-Keeps}
use bass_platform.Engine.Frame.Rounds.{over_budget}
use bass_platform.Engine.Frame.History.{round-Calls}

abbrev pub HasEnded : RunStatus → Type 0
HasEnded status =
    (status ≡ RunStatus.succeeded) ⊎ ((status ≡ RunStatus.failed) ⊎ (status ≡ RunStatus.canceled))

terminal-HasEnded : (status : RunStatus) → is_terminal status ≡ true → HasEnded status
terminal-HasEnded RunStatus.succeeded h = inl refl
terminal-HasEnded RunStatus.failed h = inr (inl refl)
terminal-HasEnded RunStatus.canceled h = inr (inr refl)
terminal-HasEnded RunStatus.pending h = cc
terminal-HasEnded RunStatus.running h = cc
terminal-HasEnded RunStatus.waiting_approval h = cc

pub terminal_of_ended : (status : RunStatus) → HasEnded status → is_terminal status ≡ true
terminal_of_ended status (inl e) = rw e refl
terminal_of_ended status (inr (inl e)) = rw e refl
terminal_of_ended status (inr (inr e)) = rw e refl

module _ {W : Type 0} where
  -- The run is in the store as it is in memory, with nothing left to write.
  pub record IsSaved (s : Sys W) : Type 0 where
    pub buffer : s.buffer ≡ []
    pub run : load_run s.run.tenant_id s.run.id s.db ≡ ok (some s.run)

  calls-IsStored :
      (p : Patterns) (s t : Sys W) → Calls W p s t → IsStored s.run s.db → IsStored t.run t.db
  calls-IsStored p s t k stored =
      let (r, found, same) = apply_all-IsStored p k.calls s.run s.db stored in
      (r, rw (ap (λ (i : Run). i.id) k.identity) (rw k.db found), same ∙ sym k.identity)

  -- What follows the checkpoint in `flush`.
  flushed :
      (r : Result (Unit {0})) (t : Sys W)
      → (r ≡ ok tt → load_run t.run.tenant_id t.run.id t.db ≡ ok (some t.run))
      → let out = continue r (λ _ (t : Sys W). (ok tt, record t { buffer = [] })) t in
        out.0 ≡ ok tt → IsSaved out.1 × (out.1.run ≡ t.run)
  flushed (ok u) t h e = (record { buffer = refl; run = h refl }, refl)
  flushed (err x) t h e = absurd (cc e)

  ok_after :
      {A B : Type 0} (r : Result A) (f : A → M W B) (t : Sys W) (b : B)
      → (continue r f t).0 ≡ ok b
      → (a : A) × (r ≡ ok a) × ((f a t).0 ≡ ok b) × ((continue r f t).1 ≡ (f a t).1)
  ok_after (ok a) f t b h = (a, refl, h, refl)
  ok_after (err e) f t b h = absurd (cc h)

module _ {W : Type 0} (c : Config W) where
  flush_saves :
      (s : Sys W)
      → IsStored s.run s.db
      → (flush c s).0 ≡ ok tt
      → IsSaved (flush c s).1 × ((flush c s).1.run ≡ s.run)
  unfolding flush in_store
  flush_saves s stored h =
      let p = checkpoint c.patterns (c.host.clock s.world) s.run s.buffer s.db in
      flushed p.0 (record s { db = p.1; world = c.host.tick s.world })
        (load_run-checkpoint c.patterns (c.host.clock s.world) s.run s.buffer s.db stored) h

  -- A run that has succeeded, as the store has it.
  pub record IsFinished (s : Sys W) : Type 0 where
    pub status : s.run.status ≡ RunStatus.succeeded
    pub saved : IsSaved s

  advance_finishes :
      (s : Sys W)
      → IsStored s.run s.db
      → (advance c none s).0 ≡ ok tt
      → IsFinished (advance c none s).1
  unfolding advance emit
  advance_finishes s stored h =
      let ended = (conclude c none (set_run (λ r. record r { cursor_step = none }) s)).1 in
      let (saved, kept) = flush_saves ended stored h in
      record { status = ap (λ (i : Run). i.status) kept; saved = saved }

  advanced_finishes :
      (next : Option String) (t : Sys W)
      → IsStored t.run t.db
      → ((advance c next >> pure next) t).0 ≡ ok none
      → IsFinished ((advance c next >> pure next) t).1
  advanced_finishes none t stored h =
      let (u, advanced, returned, same) =
        ok_after (advance c none t).0 (λ _. pure none) (advance c none t).1 none h in
      rw same (advance_finishes t stored advanced)
  advanced_finishes (some id) t stored h =
      let (u, advanced, returned, same) =
        ok_after (advance c (some id) t).0 (λ _. pure (some id)) (advance c (some id) t).1 none h in
      absurd (cc returned)

  take_step_finishes :
      (wf : Workflow) (step : Step) (s : Sys W)
      → IsStored s.run s.db
      → (take_step c wf step s).0 ≡ ok none
      → IsFinished (take_step c wf step s).1
  unfolding take_step emit
  take_step_finishes wf step s stored h =
      let entering = emit "state_transition" (entered c step) (some step.id) 0 "system" in
      let begun = (entering (set_run (λ r. record r { steps_used = r.steps_used + 1 }) s)).1 in
      let after = (attempted c wf step begun).1 in
      let (next, ran, returned, same) =
        ok_after (attempted c wf step begun).0 (λ next. advance c next >> pure next) after none h in
      rw same (
        advanced_finishes next after
          (calls-IsStored c.patterns begun after ((attempted-Keeps c wf step).at begun).history
            stored)
          returned)

  -- A round from which no step follows.
  round_finishes :
      (wf : Workflow) (b : Budget) (id : String) (s : Sys W)
      → IsStored s.run s.db
      → (round c wf b id s).0 ≡ ok none
      → IsFinished (round c wf b id s).1
  unfolding round
  round_finishes wf b id s stored h = elim (Option-cases (lookup id wf.steps)) [
    | inl missing ↦
        let failed : (round c wf b id s).0
            ≡ raised Kind.workflow_error (concat ("unknown step '" ∷ id ∷ "'" ∷ [])) =
          rw (missing, round) refl in
        absurd (cc (h, failed))
    | inr (step, found) ↦ elim (Option-cases (Budget.check b s.run)) [
      | inr (v, over) ↦
          let (e, failed, _) = over_budget c v (λ _. take_step c wf step) s in
          let ended : (round c wf b id s).0 ≡ err e = rw (found, over, round) failed in
          absurd (cc (h, ended))
      | inl inside ↦
          let returned : (take_step c wf step s).0 ≡ ok none = rw (found, inside, round) at h in
          rw (found, inside, round) (take_step_finishes wf step s stored returned)
    ]
  ]

  drive_next :
      (fuel : ℕ) (wf : Workflow) (b : Budget) (next : Option String) (t : Sys W)
      → (next ≡ none → IsFinished t)
      → ((id : String)
          → (drive c fuel wf b (some id) t).0 ≡ ok tt
          → IsFinished (drive c fuel wf b (some id) t).1)
      → (drive c fuel wf b next t).0 ≡ ok tt
      → IsFinished (drive c fuel wf b next t).1
  unfolding drive
  drive_next zero wf b none t last further h = last refl
  drive_next (suc fuel) wf b none t last further h = last refl
  drive_next fuel wf b (some id) t last further h = further id h

  drive_finishes :
      (fuel : ℕ) (wf : Workflow) (b : Budget) (id : String) (s : Sys W)
      → IsStored s.run s.db
      → (drive c fuel wf b (some id) s).0 ≡ ok tt
      → IsFinished (drive c fuel wf b (some id) s).1
  unfolding drive
  drive_finishes zero wf b id s stored h = absurd (cc h)
  drive_finishes (suc fuel) wf b id s stored h =
      let after = (round c wf b id s).1 in
      let (next, ran, returned, same) =
        ok_after (round c wf b id s).0 (drive c fuel wf b) after tt h in
      let kept = calls-IsStored c.patterns s after ((round-Calls c wf b id).at s) stored in
      rw same (
        drive_next fuel wf b next after
          (λ last. round_finishes wf b id s stored (ran ∙ ap (λ o. ok o) last))
          (λ id. drive_finishes fuel wf b id after kept) returned)

  -- What follows the drive in `resume`.
  after_drive : Result (Unit {0}) → Sys W → Result (Unit {0}) × Sys W
  after_drive r t =
      let p = continue r (λ _. modify (count "runs.succeeded" none)) t in
      handled p.0 (on_pause c) p.1

  after_drive_settles :
      (r : Result (Unit {0})) (t : Sys W)
      → (r ≡ ok tt → IsFinished t)
      → (after_drive r t).0 ≡ ok tt
      → IsFinished (after_drive r t).1 ⊎ ((e : Raised) × (r ≡ err e) × (is_paused e.kind ≡ true))
  unfolding after_drive
  after_drive_settles (ok u) t last h =
      let done = last refl in
      inl (record {
        status = done.status;
        saved = record { buffer = done.saved.buffer; run = done.saved.run };
      })
  after_drive_settles (err e) t last h = elim (Bool-cases (is_paused e.kind)) [
    | inl paused ↦ inr (e, refl, paused)
    | inr other ↦
        let raised_again : (after_drive (err e) t).0 ≡ err e = rw other refl in
        absurd (cc (h, raised_again))
  ]

  -- The drive of `resume` raised `Paused`.
  abbrev pub Paused : Workflow → Sys W → Type 0
  Paused wf s =
      (e : Raised) × ((drive c (wf.max_steps + 2) wf (budget_of wf)
          (some (first_step wf s.run.cursor_step)) (set_status RunStatus.running s)).0
        ≡ err e)
      × (is_paused e.kind ≡ true)

  -- How `resume` ends where it returns.
  abbrev pub Settled : Workflow → Sys W → Type 0
  Settled wf s =
      (HasEnded s.run.status × ((resume c wf s).1 ≡ s))
      ⊎ (IsFinished (resume c wf s).1 ⊎ Paused wf s)

  -- Where `resume` returns for a run whose row is in the store, the run had ended before (it had succeeded,
  -- failed or been canceled) and nothing has changed; or it has succeeded, no event is left to write, and `load_run` gives the run as it is
  -- in memory; or the drive was paused.
  pub resume_settles :
      (wf : Workflow) (s : Sys W) → IsStored s.run s.db → (resume c wf s).0 ≡ ok tt → Settled wf s
  unfolding resume after_drive
  resume_settles wf s stored h = elim (Bool-cases (is_terminal s.run.status)) [
    | inl ended ↦ inl (terminal-HasEnded s.run.status ended, rw (ended, resume) refl)
    | inr live ↦
        let begun = set_status RunStatus.running s in
        let id = first_step wf s.run.cursor_step in
        let d = drive c (wf.max_steps + 2) wf (budget_of wf) (some id) begun in
        let returned : (after_drive d.0 d.1).0 ≡ ok tt = rw (live, resume) at h in
        inr (
          rw (live, resume)
            (after_drive_settles d.0 d.1
              (drive_finishes (wf.max_steps + 2) wf (budget_of wf) id begun stored) returned))
  ]
