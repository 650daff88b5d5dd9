-- ===== src/Webhook/Keyed.antt =====
-- What `WebhookConnector.post` of reference/bass/webhook.py sends, over all its attempts.
use bass_platform.Base.{
  ℕ, zero, suc, String, ◌≡◌, true, none, some, Bool-cases, ==_refl, inl, inr, eq_iff, arith,
}
use bass_platform.Errors.{Kind, Raised, Result}
use bass_platform.Value.{truthy, Value, Fields, get, get-put}
use bass_platform.Host.{Host}
use bass_platform.Models.{Outcome}
use bass_platform.Connector.{
  Connector, Handling, CircuitBreaker, ReliabilityConfig, run, attempts, handle, handling, pause,
  count_failure, allow,
}
use bass_platform.Webhook.{
  Http, WebhookConnector, http_call, post, request_of, payload_of, headers_of, set_default,
}

-- What holds of the outside and is kept by an operation, by sleeping and by reading the clock, is kept
-- by `Connector.run`.
module _ {W : Type 0} (h : Host W) (fn : Fields → W → Outcome × W) (args : Fields) (P : W → Type 0)
    (slept : (n : ℕ) (w : W) → P w → P (h.sleep n w)) (read : (w : W) → P w → P (h.monotonic w).1)
    (one : (w : W) → P w → P (fn args w).1) where
  count_failure-keeps : (c : Connector) (w : W) → P w → P (count_failure h c w).1
  count_failure-keeps c w p = ground (arith, read w p)

  pause-keeps :
      (cfg : ReliabilityConfig) (left attempt : ℕ) (w : W) → P w → P (pause h cfg left attempt w)
  pause-keeps cfg zero attempt w p = p
  pause-keeps cfg (suc left) attempt w p = slept _ w p

  handle-keeps :
      (left attempt : ℕ) (again : Raised → Connector → W → Result Value × Connector × W)
      (c : Connector) (w : W) (x : Handling)
      → ((e : Raised) (c' : Connector) (w' : W) → P w' → P (again e c' w').2)
      → P w
      → P (handle h fn args left attempt again c w x).2
  handle-keeps left attempt again c w (Handling.succeed v) ih p = p
  handle-keeps left attempt again c w (Handling.retry e) ih p =
      ih e _ _
        (pause-keeps c.config left attempt (count_failure h c w).1 (count_failure-keeps c w p))
  handle-keeps left attempt again c w (Handling.fail_at_once e) ih p = p
  handle-keeps left attempt again c w (Handling.fail_unknown e) ih p = count_failure-keeps c w p

  attempts-keeps :
      (left attempt : ℕ) (last : Raised) (c : Connector) (w : W)
      → P w
      → P (attempts h fn args left attempt last c w).2
  unfolding attempts
  attempts-keeps zero attempt last c w p = p
  attempts-keeps (suc left) attempt last c w p =
      handle-keeps left attempt (attempts h fn args left (suc attempt)) c (fn args w).1
        (handling h c (fn args w).0) (attempts-keeps left (suc attempt)) (one w p)

  allow-keeps : (b : CircuitBreaker) (w : W) → P w → P (allow h b w).1
  unfolding allow
  allow-keeps b w p = ground (arith, read w p)

  run-keeps : (c : Connector) (w : W) → P w → P (run h fn args c w).2
  unfolding run
  run-keeps c w p = elim (Bool-cases (allow h c.breaker w).0) [
    | inl allowed ↦
        rw (allowed, run)
          (attempts-keeps (suc c.config.max_retries) 0
            (record { kind = Kind.assertion_error; message = "" }) c (allow h c.breaker w).1
            (allow-keeps c.breaker w p))
    | inr refused ↦ rw (refused, run) (allow-keeps c.breaker w p)
  ]

get-set_default_other :
    (k j : String) (v w : Value) (d : Fields)
    → get k d ≡ some w
    → get k (set_default j v d) ≡ some w
get-set_default_other k j v w d found = ground (arith, get-put j k v d, eq_iff j k)

get-set_default :
    (k : String) (v : Value) (d : Fields) → get k d ≡ none → get k (set_default k v d) ≡ some v
get-set_default k v d free = rw free (ground (arith, get-put k k v d, ==_refl k))

headers_of-key :
    {W : Type 0} (h : Host W) (hook : WebhookConnector) (args : Fields) (key : Value)
    → get "_idempotency_key" args ≡ some key
    → truthy key ≡ true
    → get "Idempotency-Key" hook.headers ≡ none
    → get "Idempotency-Key" (headers_of h hook args) ≡ some (Value.str (h.text_of key))
headers_of-key h hook args key given nonempty own =
    rw given
      (rw nonempty (get-set_default "Idempotency-Key" (Value.str (h.text_of key)) hook.headers own))

module _ {W : Type 0} (h : Host W) (http : Http W) (hook : WebhookConnector) (args : Fields)
    (key : Value) (P : W → Type 0) where
  -- What holds of the outside before `post`, and is kept by sleeping, by reading the clock and by every
  -- request to the hook's URL that carries the body of these arguments and their idempotency key in
  -- its header, holds after it: however often `post` tries, it sends no other request. The arguments
  -- have a key that is not empty, and the hook's own headers do not set that header.
  pub post_sends_keyed :
      (w : W)
      → get "_idempotency_key" args ≡ some key
      → truthy key ≡ true
      → get "Idempotency-Key" hook.headers ≡ none
      → ((n : ℕ) (w : W) → P w → P (h.sleep n w))
      → ((w : W) → P w → P (h.monotonic w).1)
      → ((headers : Fields) (w : W)
          → get "Idempotency-Key" headers ≡ some (Value.str (h.text_of key))
          → P w
          → P
              (http.urlopen hook.url
                (some (http.dumps (Value.obj (payload_of args))))
                (http.upper "POST")
                headers
                w).1)
      → P w
      → P (post h http args hook w).2
  unfolding post
  post_sends_keyed w given nonempty own slept read sent p =
      run-keeps h (http_call h http) (request_of h hook args) P slept read
        (λ w' q.
          sent (set_default "Content-Type" (Value.str "application/json") (headers_of h hook args))
            w'
            (get-set_default_other "Idempotency-Key" "Content-Type" (Value.str "application/json")
              (Value.str (h.text_of key)) (headers_of h hook args)
              (headers_of-key h hook args key given nonempty own))
            q)
        hook.connector w p
