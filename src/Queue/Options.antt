-- ===== src/Queue/Options.antt =====
-- Which options a queue and its messages have.
use odysee_api.Base.{ℕ, String, ◌≡◌, refl, Option, none, some, List, [], ◌∷◌, arith}
use odysee_api.Errors.{Error, ok}
use odysee_api.Queue.{
  with_requests_conn_opts, with_concurrency, MessageOption, MessageOptions, with_request_retry,
  with_request_timeout, with_request_retention, Message, Queue, new, set_options,
  set_message_options, send_message, send_by, send_request, default_message,
}

-- The last value that options give, beginning with a default.
abbrev pub last_or : (MessageOption → Option ℕ) → ℕ → List MessageOption → ℕ
last_or pick d [] = d
last_or pick d (x ∷ xs) = elim (pick x) [ none ↦ last_or pick d xs | some n ↦ last_or pick n xs ]

abbrev pub retry_in : MessageOption → Option ℕ
retry_in (with_request_retry n) = some n
retry_in (with_request_timeout n) = none
retry_in (with_request_retention n) = none

abbrev pub timeout_in : MessageOption → Option ℕ
timeout_in (with_request_retry n) = none
timeout_in (with_request_timeout n) = some n
timeout_in (with_request_retention n) = none

abbrev pub retention_in : MessageOption → Option ℕ
retention_in (with_request_retry n) = none
retention_in (with_request_timeout n) = none
retention_in (with_request_retention n) = some n

set_message_options-last :
    (opts : List MessageOption) (o : MessageOptions)
    → set_message_options opts o ≡ record {
      retry = last_or retry_in o.retry opts;
      timeout = last_or timeout_in o.timeout opts;
      retention = last_or retention_in o.retention opts;
    }
unfolding set_message_options
set_message_options-last [] o = refl
set_message_options-last (with_request_retry n ∷ opts) o = set_message_options-last opts _
set_message_options-last (with_request_timeout n ∷ opts) o = set_message_options-last opts _
set_message_options-last (with_request_retention n ∷ opts) o = set_message_options-last opts _

-- A queue that has a client for requests gives it each message whose payload marshals, with the
-- last retry, timeout and retention that its options give, and three retries, one hour and three
-- days where they give none.
pub send_request-options :
    {C H W : Type 0} (enqueue : Message C → W → Option Error × W) (q : Queue C H) (c : C)
    (kind body : String) (opts : List MessageOption) (w : W)
    → q.requests_client ≡ some c
    → (enqueue
        (record {
          client = c;
          kind = kind;
          body = body;
          options = record {
            retry = last_or retry_in default_message.retry opts;
            timeout = last_or timeout_in default_message.timeout opts;
            retention = last_or retention_in default_message.retention opts;
          };
        })
        w).1
      ≡ (send_request enqueue q kind (ok body) opts w).1
unfolding send_by send_message
send_request-options enqueue q c kind body opts w h =
    rw (h, set_message_options-last opts default_message) (ground arith)

-- The queue of the manager of async queries is made without a function for delays, so it waits ten
-- seconds before each retry, whatever the manager's own RetryDelay says.
pub manager_delay :
    {C H : Type 0} (ping : C → Option Error) (c : C) (q : Queue C H) (n : ℕ) (e : Error)
    → new ping (with_requests_conn_opts c ∷ with_concurrency 10 ∷ []) ≡ ok q
    → q.options.delay n e ≡ 10
unfolding new set_options
manager_delay ping c q n e h = ground arith
