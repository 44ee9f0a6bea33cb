-- ===== src/Queue.antt =====
-- pkg/queue/queue.go: a queue's options, its construction, its handlers and what it sends. asynq
-- and redis are arguments: a connection is a type `C`, `ping` tries one, and a function for
-- the delay of a retry is a value of the source's type.
pub mod Options
use Prim.Native.String
use odysee_api.Base.{
  ℕ, ◌*◌, ◌^◌, String, Bool, true, false, Option, none, some, List, [], ◌∷◌, ◌++◌, ◌==◌,
  if◌then◌else◌, Dict, insert, ◌||◌,
}
use odysee_api.Errors.{Error, plain, wrapped, Result, ok, err}

-- asynq.RetryDelayFunc, on the number of the retry and the error, in seconds
abbrev pub DelayFunc : Type 0
DelayFunc = ℕ → Error → ℕ

-- Options; the logger is left out.
pub record QueueOptions (C : Type 0) : Type 0 where
  pub concurrency : ℕ
  pub delay : DelayFunc
  pub requests : Option C
  pub responses : Option C

-- The functions that set an option.
pub data QueueOption (C : Type 0) : Type 0 where
  with_requests_conn_opts with_responses_conn_opts : C → QueueOption C
  with_concurrency : ℕ → QueueOption C
  with_delay_func : DelayFunc → QueueOption C

abbrev pub set_option : {C : Type 0} → QueueOption C → QueueOptions C → QueueOptions C
set_option (with_requests_conn_opts c) o = record o { requests = some c }
set_option (with_responses_conn_opts c) o = record o { responses = some c }
set_option (with_concurrency n) o = record o { concurrency = n }
set_option (with_delay_func f) o = record o { delay = f }

unfoldable pub set_options : {C : Type 0} → List (QueueOption C) → QueueOptions C → QueueOptions C
set_options [] o = o
set_options (x ∷ xs) o = set_options xs (set_option x o)

abbrev pub default_options : {C : Type 0} → QueueOptions C
default_options = record { concurrency = 3; delay = λ n e. 10; requests = none; responses = none }

-- Queue: which clients it has, and the handlers by the types of their requests.
pub record Queue (C H : Type 0) : Type 0 where
  pub options : QueueOptions C
  pub requests_client : Option C
  pub responses_client : Option C
  pub handlers : Dict H

-- A connection that is asked for, tried out.
abbrev pub connect : {C : Type 0} → (C → Option Error) → String → Option C → Result (Option C)
connect ping m none = ok none
connect ping m (some c) = elim (ping c) [ none ↦ ok (some c) | some e ↦ err (wrapped m e) ]

abbrev pub made : {C H : Type 0} → QueueOptions C → Option C → Option C → Result (Queue C H)
made o none none = err (plain "either requests or responses connection options must be provided")
made o (some r) s =
    ok (record { options = o; requests_client = some r; responses_client = s; handlers = [] })
made o none (some s) =
    ok (record { options = o; requests_client = none; responses_client = some s; handlers = [] })

abbrev pub with_requests :
    {C H : Type 0} → QueueOptions C → Option C → Result (Option C) → Result (Queue C H)
with_requests o s (err e) = err e
with_requests o s (ok r) = made o r s

abbrev pub with_responses :
    {C H : Type 0} → (C → Option Error) → QueueOptions C → Result (Option C) → Result (Queue C H)
with_responses ping o (err e) = err e
with_responses ping o (ok s) =
    with_requests o s (connect ping "redis requests connection failed: " o.requests)

-- New
unfoldable pub new : {C H : Type 0} → (C → Option Error) → List (QueueOption C) → Result (Queue C H)
unfolding set_options
new ping opts =
    let o = set_options opts default_options in
    with_responses ping o (connect ping "redis responses connection failed: " o.responses)

-- NewWithResponses; `parse` is asynq.ParseRedisURI, whose error panics. A result of `none` is
-- that panic.
abbrev pub new_parsed :
    {C H : Type 0}
    → (C → Option Error)
    → List (QueueOption C)
    → Result C
    → Result C
    → Option (Result (Queue C H))
new_parsed ping opts (ok r) (ok s) =
    some (new ping (opts ++ (with_requests_conn_opts r ∷ with_responses_conn_opts s ∷ [])))
new_parsed ping opts _ _ = none

unfoldable pub new_with_responses :
    {C H : Type 0}
    → (String → Result C)
    → (C → Option Error)
    → String
    → String
    → List (QueueOption C)
    → Option (Result (Queue C H))
unfolding new
new_with_responses parse ping requests responses opts =
    if requests == "" || responses == ""
    then some (err (plain "both requests and responses connection URL must be provided"))
    else new_parsed ping opts (parse requests) (parse responses)

-- AddHandler
unfoldable pub add_handler : {C H : Type 0} → String → H → Queue C H → Queue C H
add_handler kind h q = record q { handlers = insert kind h q.handlers }

-- MessageOptions, times in nanoseconds
pub record MessageOptions : Type 0 where
  pub retry : ℕ
  pub timeout : ℕ
  pub retention : ℕ

pub data MessageOption : Type 0 where
  with_request_retry with_request_timeout with_request_retention : ℕ → MessageOption

abbrev pub set_message_option : MessageOption → MessageOptions → MessageOptions
set_message_option (with_request_retry n) o = record o { retry = n }
set_message_option (with_request_timeout n) o = record o { timeout = n }
set_message_option (with_request_retention n) o = record o { retention = n }

unfoldable pub set_message_options : List MessageOption → MessageOptions → MessageOptions
set_message_options [] o = o
set_message_options (x ∷ xs) o = set_message_options xs (set_message_option x o)

abbrev pub hour : ℕ
hour = 3600 * 10 ^ 9

abbrev pub default_message : MessageOptions
default_message = record { retry = 3; timeout = hour; retention = 72 * hour }

-- What is given to a client.
pub record Message (C : Type 0) : Type 0 where
  pub client : C
  pub kind : String
  pub body : String
  pub options : MessageOptions

abbrev enqueue_text : String → String
enqueue_text kind = String.◌++◌ "failed to enqueue " (String.◌++◌ kind " request: ")

abbrev pub enqueued :
    {C W : Type 0} → (Message C → W → Option Error × W) → Message C → W → Option Error × W
enqueued enqueue m w =
    let (e, w') = enqueue m w in
    elim e [ none ↦ (none, w') | some x ↦ (some (wrapped (enqueue_text m.kind) x), w') ]

-- sendMessage, on the JSON of the payload
unfoldable pub send_message :
    {C W : Type 0}
    → (Message C → W → Option Error × W)
    → C
    → String
    → Result String
    → List MessageOption
    → W
    → Option Error × W
unfolding set_message_options
send_message enqueue c kind (err e) opts w = (some e, w)
send_message enqueue c kind (ok body) opts w =
    enqueued enqueue
      (record {
        client = c;
        kind = kind;
        body = body;
        options = set_message_options opts default_message;
      })
      w

-- SendRequest and SendResponse, by the client that they use.
unfoldable pub send_by :
    {C W : Type 0}
    → (Message C → W → Option Error × W)
    → String
    → Option C
    → String
    → Result String
    → List MessageOption
    → W
    → Option Error × W
unfolding send_message
send_by enqueue missing none kind body opts w = (some (plain missing), w)
send_by enqueue missing (some c) kind body opts w = send_message enqueue c kind body opts w

abbrev pub send_request :
    {C H W : Type 0}
    → (Message C → W → Option Error × W)
    → Queue C H
    → String
    → Result String
    → List MessageOption
    → W
    → Option Error × W
send_request enqueue q = send_by enqueue "requests client is missing" q.requests_client

abbrev pub send_response :
    {C H W : Type 0}
    → (Message C → W → Option Error × W)
    → Queue C H
    → String
    → Result String
    → List MessageOption
    → W
    → Option Error × W
send_response enqueue q = send_by enqueue "response client is missing" q.responses_client
