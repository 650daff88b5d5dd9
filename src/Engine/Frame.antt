-- ===== src/Engine/Frame.antt =====
-- What the engine's methods do to the run that they drive and to the store: the run keeps its
-- identity and the number of steps used, which only the loop of `_drive` counts, and the database
-- changes by calls of the store's methods (reference/bass/workflow.py, reference/bass/agent.py).
pub mod Actions
pub mod Agents
pub mod Approvals
pub mod Nodes
pub mod Attempts
pub mod Rounds
pub mod History
pub mod Saved
use mathlib.Core.Path.{subst}
use bass_platform.Base.{
  ℕ, String, ◌≡◌, refl, sym, ap, ◌∙◌, ◌++◌, All, Bool, Option, List, [], ◌∷◌, if◌then◌else◌,
}
use bass_platform.Errors.{Kind, Raised, Result}
use bass_platform.Exec.{◌>>=◌, ◌>>◌, lift, gets, modify, pure, raise, reraise, catch}
use bass_platform.Exec.Relates.{
  IsPreorder, Relates, Relates-pure, Relates-raise, Relates-reraise, Relates-lift, Relates-gets,
  Relates-if, Relates-bind, Relates-catch,
}
use bass_platform.Value.{Value, Fields}
use bass_platform.Models.{RunStatus}
use bass_platform.Host.{Host}
use bass_platform.Store.{Db}
use bass_platform.Store.Rows.{identity_of}
use bass_platform.Store.History.{Op, op_tenant, apply, apply_all}
use bass_platform.Redaction.{Patterns}
use bass_platform.Metrics.{Label}
use bass_platform.Engine.{Sys, M, emit, in_store, outside, count, add_cost, set_status}
use bass_platform.Engine.AgentLoop
use bass_platform.Engine.Steps.{set_context}

-- The database changed by calls of the store alone, each for the tenant of the run, of which the
-- columns that identify it are kept.
pub record Calls (W : Type 0) (p : Patterns) (s t : Sys W) : Type 0 where
  pub tenant_id : t.run.tenant_id ≡ s.run.tenant_id
  pub identity : identity_of t.run ≡ identity_of s.run
  pub calls : List Op
  pub by_tenant : All (λ op. op_tenant op ≡ s.run.tenant_id) calls
  pub db : t.db ≡ apply_all p calls s.db

pub record Frame (W : Type 0) (p : Patterns) (s t : Sys W) : Type 0 where
  pub steps_used : t.run.steps_used ≡ s.run.steps_used
  pub id : t.run.id ≡ s.run.id
  pub history : Calls W p s t

apply_all-append :
    (p : Patterns) (xs ys : List Op) (db : Db)
    → apply_all p (xs ++ ys) db ≡ apply_all p ys (apply_all p xs db)
apply_all-append p [] ys db = refl
apply_all-append p (op ∷ xs) ys db = apply_all-append p xs ys (apply p op db)

All-append : (P : Op → Type 0) (xs ys : List Op) → All P xs → All P ys → All P (xs ++ ys)
All-append P [] ys hx hy = hy
All-append P (x ∷ xs) ys hx hy = (hx.0, All-append P xs ys hx.1 hy)

module _ {W : Type 0} where
  abbrev pub Keeps : {A : Type 0} → Patterns → M W A → Type 0
  Keeps p m = Relates (Frame W p) m

  module _ {p : Patterns} where
    pub calls_order : IsPreorder (Calls W p)
    calls_order = record {
      same =
          λ s. record { tenant_id = refl; identity = refl; calls = []; by_tenant = tt; db = refl };
      trans = λ s t u h k. record {
        tenant_id = k.tenant_id ∙ h.tenant_id;
        identity = k.identity ∙ h.identity;
        calls = h.calls ++ k.calls;
        by_tenant =
            All-append (λ op. op_tenant op ≡ s.run.tenant_id) h.calls k.calls h.by_tenant
              (subst (λ t. All (λ op. op_tenant op ≡ t) k.calls) h.tenant_id k.by_tenant);
        db = k.db ∙ ap (apply_all p k.calls) h.db ∙ sym (apply_all-append p h.calls k.calls s.db);
      };
    }

    abbrev pub same_frame : (s : Sys W) → Frame W p s s
    same_frame s = record { steps_used = refl; id = refl; history = calls_order.same s }

    pub frame_order : IsPreorder (Frame W p)
    frame_order = record {
      same = same_frame;
      trans = λ s t u h k. record {
        steps_used = k.steps_used ∙ h.steps_used;
        id = k.id ∙ h.id;
        history = calls_order.trans s t u h.history k.history;
      };
    }

    pub pure-Keeps : {A : Type 0} (a : A) → Keeps p (pure a)
    pure-Keeps = Relates-pure frame_order

    pub raise-Keeps : {A : Type 0} (k : Kind) (m : String) → Keeps p (raise {A = A} k m)
    raise-Keeps = Relates-raise frame_order

    pub reraise-Keeps : {A : Type 0} (e : Raised) → Keeps p (reraise {A = A} e)
    reraise-Keeps = Relates-reraise frame_order

    pub lift-Keeps : {A : Type 0} (r : Result A) → Keeps p (lift r)
    lift-Keeps = Relates-lift frame_order

    pub gets-Keeps : {A : Type 0} (f : Sys W → A) → Keeps p (gets f)
    gets-Keeps = Relates-gets frame_order

    pub bind-Keeps :
        {A B : Type 0} (m : M W A) (f : A → M W B)
        → Keeps p m
        → ((a : A) → Keeps p (f a))
        → Keeps p (m >>= f)
    bind-Keeps = Relates-bind frame_order

    pub then-Keeps :
        {A B : Type 0} (m : M W A) (n : M W B) → Keeps p m → Keeps p n → Keeps p (m >> n)
    then-Keeps m n hm hn = bind-Keeps m (λ _. n) hm (λ _. hn)

    pub if-Keeps :
        {A : Type 0} (b : Bool) (m n : M W A) → Keeps p m → Keeps p n → Keeps p (if b then m else n)
    if-Keeps = Relates-if frame_order

    pub catch-Keeps :
        {A : Type 0} (m : M W A) (h : Raised → M W A)
        → Keeps p m
        → ((e : Raised) → Keeps p (h e))
        → Keeps p (catch m h)
    catch-Keeps = Relates-catch frame_order

    pub count-Keeps : (name : String) (label : Label) → Keeps p (modify (count name label))
    count-Keeps name label = record {
      at = λ s. record {
        steps_used = refl;
        id = refl;
        history = record {
          tenant_id = refl;
          identity = refl;
          calls = [];
          by_tenant = tt;
          db = refl;
        };
      };
    }

    pub cost-Keeps : (cost : ℕ) → Keeps p (modify (add_cost cost))
    cost-Keeps cost = record {
      at = λ s. record {
        steps_used = refl;
        id = refl;
        history = record {
          tenant_id = refl;
          identity = refl;
          calls = [];
          by_tenant = tt;
          db = refl;
        };
      };
    }

    pub status-Keeps : (status : RunStatus) → Keeps p (modify (set_status status))
    status-Keeps status = record {
      at = λ s. record {
        steps_used = refl;
        id = refl;
        history = record {
          tenant_id = refl;
          identity = refl;
          calls = [];
          by_tenant = tt;
          db = refl;
        };
      };
    }

    pub context-Keeps : (id : String) (v : Value) → Keeps p (modify (set_context id v))
    context-Keeps id v = record {
      at = λ s. record {
        steps_used = refl;
        id = refl;
        history = record {
          tenant_id = refl;
          identity = refl;
          calls = [];
          by_tenant = tt;
          db = refl;
        };
      };
    }

    pub emit-Keeps :
        (type : String) (payload : Fields) (id : Option String) (cost : ℕ) (actor : String)
        → Keeps p (emit type payload id cost actor)
    unfolding emit
    emit-Keeps type payload id cost actor = record {
      at = λ s. record {
        steps_used = refl;
        id = refl;
        history = record {
          tenant_id = refl;
          identity = refl;
          calls = [];
          by_tenant = tt;
          db = refl;
        };
      };
    }

    -- A call of the store for the run's tenant.
    pub in_store_at :
        {A : Type 0} (h : Host W) (m : (ℕ → ℕ) → Db → Result A × Db) (op : Op) (s : Sys W)
        → op_tenant op ≡ s.run.tenant_id
        → (m (h.clock s.world) s.db).1 ≡ apply p op s.db
        → Frame W p s (in_store h m s).1
    unfolding in_store
    in_store_at h m op s own same = record {
      steps_used = refl;
      id = refl;
      history = record {
        tenant_id = refl;
        identity = refl;
        calls = op ∷ [];
        by_tenant = (own, tt);
        db = same;
      };
    }

    pub outside-Keeps : {A : Type 0} (f : W → A × W) → Keeps p (outside f)
    unfolding outside
    outside-Keeps f = record {
      at = λ s. record {
        steps_used = refl;
        id = refl;
        history = record {
          tenant_id = refl;
          identity = refl;
          calls = [];
          by_tenant = tt;
          db = refl;
        };
      };
    }

pub ruleset keeps_rules = (
  pure-Keeps, raise-Keeps, reraise-Keeps, lift-Keeps, gets-Keeps, bind-Keeps, if-Keeps, catch-Keeps,
  count-Keeps, cost-Keeps, status-Keeps, context-Keeps, emit-Keeps, outside-Keeps,
)
