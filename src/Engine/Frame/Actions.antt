-- ===== src/Engine/Frame/Actions.antt =====
-- What a checkpoint and a tool call keep of the run.
use bass_platform.Base.{String, refl, Option, none, some, [], lookup}
use bass_platform.Errors.{ok}
use bass_platform.Exec.Relates.{continue_at}
use bass_platform.Value.{Fields}
use bass_platform.Models.{Tool}
use bass_platform.Store.Trace.{checkpoint}
use bass_platform.Store.History.{Op}
use bass_platform.Connector.{Connector}
use bass_platform.Engine.{Config, flush, in_store}
use bass_platform.Engine.Tools.{call_connector, execute, get_tool}
use bass_platform.Engine.Frame.{Keeps, bind-Keeps, frame_order, in_store_at, lift-Keeps}

module _ {W : Type 0} (c : Config W) where
  pub flush-Keeps : Keeps c.patterns (flush c)
  unfolding flush in_store
  flush-Keeps = record {
    at = λ s.
        let saved = checkpoint c.patterns (c.host.clock s.world) s.run s.buffer s.db in
        continue_at frame_order saved.0 (λ _ t. (ok tt, record t { buffer = [] })) s
          (record s { db = saved.1; world = c.host.tick s.world })
          (in_store_at c.host (λ clock. checkpoint c.patterns clock s.run s.buffer)
            (Op.save (c.host.clock s.world) s.run s.buffer) s refl refl)
          (λ _. record {
            at = λ t. record {
              steps_used = refl;
              id = refl;
              history = record {
                tenant_id = refl;
                identity = refl;
                calls = [];
                by_tenant = tt;
                db = refl;
              };
            };
          });
  }

  call_connector-Keeps :
      (tool : Tool W) (args : Fields) (con : Option Connector)
      → Keeps c.patterns (call_connector c tool args con)
  unfolding call_connector
  call_connector-Keeps tool args none = record {
    at = λ s. record {
      steps_used = refl;
      id = refl;
      history = record { tenant_id = refl; identity = refl; calls = []; by_tenant = tt; db = refl };
    };
  }
  call_connector-Keeps tool args (some con) = record {
    at = λ s. record {
      steps_used = refl;
      id = refl;
      history = record { tenant_id = refl; identity = refl; calls = []; by_tenant = tt; db = refl };
    };
  }

  pub execute-Keeps : (name : String) (args : Fields) → Keeps c.patterns (execute c name args)
  unfolding execute
  execute-Keeps name args = bind-Keeps _ _ (lift-Keeps (get_tool c name)) (λ tool. record {
    at = λ s. (call_connector-Keeps tool args (lookup tool.connector s.connectors)).at s;
  })
