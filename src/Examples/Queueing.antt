-- ===== src/Examples/Queueing.antt =====
-- A message of forklift to a queue (pkg/queue), whose world is the messages it got.
use odysee_api.Base.{ℕ, String, Option, none, some, List, [], ◌∷◌}
use odysee_api.Errors.{Error}
use odysee_api.Queue.{
  Message, Queue, MessageOption, with_request_retry, with_request_timeout, default_options, hour,
}

abbrev enqueue : Message String → List (Message String) → Option Error × List (Message String)
enqueue m sent = (none, m ∷ sent)

abbrev queue : Queue String ℕ
queue = record {
  options = default_options;
  requests_client = some "redis";
  responses_client = none;
  handlers = [];
}

abbrev options : List MessageOption
options = with_request_retry 5 ∷ with_request_timeout hour ∷ with_request_retry 15 ∷ []
