-- ===== src/Tests/Outside.antt =====
-- The theorems on the accounting system, the webhook and the settings, at concrete inputs.
use bass_platform.Base.{
  ℕ, ◌≡◌, refl, true, ◌&&◌, none, some, List, [], ◌∷◌, All, ◌==◌, if◌then◌else◌,
}
use bass_platform.Errors.{ok}
use bass_platform.Value.{Items, Value, Fields, pos, get, put}
use bass_platform.Host.{Host, Float}
use bass_platform.Accounting.{create_ap_entry}
use bass_platform.Accounting.Ledger.{create_all, repeated_call_posts_nothing}
use bass_platform.Engine.Steps.{effect_key}
use bass_platform.Webhook.{Http, Reply, WebhookConnector, post}
use bass_platform.Webhook.Keyed.{post_sends_keyed}
use bass_platform.Settings.{Environ, Python, from_env}
use bass_platform.Settings.Parsed.{refusal, unless, fits, from_env_lem}
use bass_platform.Provider.{Client, Block, message}
use bass_platform.Tests.{accounting}

abbrev invoice : Fields
invoice = Fields.field "invoice_number" (Value.str "INV-1") Fields.end

abbrev other_invoice : Fields
other_invoice = Fields.field "invoice_number" (Value.str "INV-2") Fields.end

repeated_call_posts_nothing_example :
    let key = Value.str (effect_key "run_a" "post" "create_ap_entry") in
    let first = create_ap_entry (put "_idempotency_key" key invoice) [] in
    create_ap_entry
      (put "_idempotency_key" key other_invoice)
      (create_all (other_invoice ∷ []) first.1)
    ≡ (first.0, create_all (other_invoice ∷ []) first.1)
repeated_call_posts_nothing_example =
    repeated_call_posts_nothing "run_a" "post" "create_ap_entry" invoice other_invoice
      (other_invoice ∷ []) []

-- The outside logs the headers of the requests; every request is answered by a server error.
abbrev logging : Host (List Fields)
logging = record {
  clock = λ w i. i;
  tick = λ w. w;
  monotonic = λ w. (0, w);
  new_id = λ prefix w. (prefix, w);
  sleep = λ t w. w;
  fmt4 = λ n. "n";
  decimal = λ n. "n";
  seconds = λ n. "n";
  to_float = λ v. ok (Float.finite (pos 0));
  text_of = λ v. elim v [ Value.str s ↦ s | _ ↦ "v" ];
  digest = λ d. "d";
}

abbrev failing : Http (List Fields)
failing = record {
  upper = λ s. s;
  dumps = λ v. "{}";
  urlopen = λ url body method headers w. (Reply.http_error 503 "", headers ∷ w);
}

abbrev hook : WebhookConnector
hook = record {
  url = "https://example.com";
  name = "webhook";
  headers = Fields.end;
  connector = accounting;
}

abbrev keyed_args : Fields
keyed_args = Fields.field "_idempotency_key" (Value.str "run_a:post:notify") Fields.end

abbrev IsKeyed : Fields → Type 0
IsKeyed headers = get "Idempotency-Key" headers ≡ some (Value.str "run_a:post:notify")

post_sends_keyed_example : All IsKeyed (post logging failing keyed_args hook []).2
post_sends_keyed_example =
    post_sends_keyed logging failing hook keyed_args (Value.str "run_a:post:notify") (All IsKeyed)
      [] refl refl refl (λ n w p. p) (λ w p. p) (λ headers w keyed p. (keyed, p)) tt

-- One number is set to what is no number.
abbrev environ : Environ
environ name = if name == "BASS_DEFAULT_MAX_STEPS" then some "many" else none

abbrev python : Python
python = record { int = λ s. none; float = λ s. none; repr = λ s. s; upper = λ s. s }

from_env_lem_example :
    refusal (from_env python environ)
    ≡ unless (
        fits python.float (environ "BASS_DEFAULT_BUDGET_USD")
        && (fits python.int (environ "BASS_DEFAULT_MAX_STEPS")
            && (fits python.float (environ "BASS_CONNECTOR_TIMEOUT_S")
                && (fits python.int (environ "BASS_CONNECTOR_MAX_RETRIES")
                    && (fits python.int (environ "BASS_CONNECTOR_BREAKER_THRESHOLD")
                        && (fits python.float (environ "BASS_CONNECTOR_BREAKER_RESET_S")
                            && true))))))
from_env_lem_example = from_env_lem python environ

-- The model asks for a tool at each turn.
abbrev asking : Client ℕ
asking = record {
  create = λ model most system tools messages w. (
    ok (record {
      content = Value.str "call";
      blocks = Block.tool_use "c1" "create_ap_entry" invoice ∷ [];
      stop_reason = "tool_use";
      input_tokens = 10;
      output_tokens = 5;
    }),
    w,
  );
  dumps = λ v. "{}";
  dumps_indented = λ v. "{}";
  loads = λ t. ok Value.null;
  text_of = λ v. "v";
}

-- The second turn, with a result for the first turn's call.
abbrev second_turn : Fields
second_turn =
    Fields.field "messages"
      (Value.arr (
        Items.item (message "user" (Value.str "task"))
          (Items.item (message "assistant" (Value.str "call")) Items.nil)))
      (Fields.field "tool_results"
        (Value.arr (
          Items.item
            (Value.obj (
              Fields.field "id" (Value.str "c1")
                (Fields.field "result" (Value.str "posted") Fields.end)))
            Items.nil))
        Fields.end)
