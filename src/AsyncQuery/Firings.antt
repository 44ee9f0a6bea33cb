-- ===== src/AsyncQuery/Firings.antt =====
-- What a run of a query does to the SDK and to the rows.
use odysee_api.Base.{String, ◌≡◌, refl, Option, none, some, Dict, inl, inr, ◌⊎◌, arith}
use odysee_api.Errors.{Result, ok, err, message}
use odysee_api.Rpc.{Request, Response, RpcError, Value, Params, absent, named, other}
use odysee_api.AsyncQuery.{
  Asynquery, Codec, Faults, Services, World, robust_call, call_at_server, send_request, send_params,
  after_response, after_call, sent_params,
}
use odysee_api.AsyncQuery.Table.{HasDistinctIds}
use odysee_api.AsyncQuery.Changes.{Change, unchanged, finalize_query_record-Change}

-- The SDK has answered one call: of the request that the row's body decodes to, with the patched
-- parameters, from the row's user and at that user's server.
pub record IsFired {W : Type 0} (codec : Codec) (services : Services W) (aq : Asynquery)
    (before after : W) : Type 0 where
  pub request : Request
  pub params : Dict Value
  pub patch : Dict Value
  pub address : String
  pub decoded : codec.unmarshal_request aq.body ≡ some request
  pub has_params : request.params ≡ named params
  pub has_server : services.server_of aq.user_id ≡ some (some address)
  pub called :
      after
      ≡ (services.call address aq.user_id
          (record request { params = named (sent_params request.method patch params) })
          before).1

module _ {W : Type 0} (codec : Codec) (faults : Faults) (services : Services W) where
  after_response-Change :
      (i : String) (w : World W) (r : Response) (e : Option RpcError)
      → HasDistinctIds w.rows
      → Change w.rows (after_response codec faults services i w r e).1.rows
  unfolding after_response
  after_response-Change i w r (some x) d =
      finalize_query_record-Change codec faults i (some r) x.message w.rows d
  after_response-Change i w r none d =
      finalize_query_record-Change codec faults i (some r) "" w.rows d

  after_call-Change :
      (i : String) (w : World W) (r : Result Response × W)
      → HasDistinctIds w.rows
      → Change w.rows (after_call codec faults services i w r).1.rows
  unfolding after_call
  after_call-Change i w (err e, sdk) d =
      finalize_query_record-Change codec faults i none (message e) w.rows d
  after_call-Change i w (ok r, sdk) d = after_response-Change i (record w { sdk = sdk }) r r.error d

  send_params-Change :
      (address : String) (aq : Asynquery) (patch : Dict Value) (req : Request) (w : World W)
      (params : Params)
      → HasDistinctIds w.rows
      → Change w.rows (send_params codec faults services address aq patch req w params).1.rows
  unfolding send_params
  send_params-Change address aq patch req w absent d = unchanged
  send_params-Change address aq patch req w (other v) d = unchanged
  send_params-Change address aq patch req w (named params) d = after_call-Change aq.id w _ d

  send_request-Change :
      (address : String) (aq : Asynquery) (patch : Dict Value) (w : World W) (o : Option Request)
      → HasDistinctIds w.rows
      → Change w.rows (send_request codec faults services address aq patch w o).1.rows
  unfolding send_request
  send_request-Change address aq patch w none d = unchanged
  send_request-Change address aq patch w (some req) d =
      send_params-Change address aq patch req w req.params d

  call_at_server-Change :
      (aq : Asynquery) (patch : Dict Value) (w : World W) (s : Option (Option String))
      → HasDistinctIds w.rows
      → Change w.rows (call_at_server codec faults services aq patch w s).1.rows
  unfolding call_at_server
  call_at_server-Change aq patch w none d = unchanged
  call_at_server-Change aq patch w (some none) d = unchanged
  call_at_server-Change aq patch w (some (some address)) d =
      send_request-Change address aq patch w (codec.unmarshal_request aq.body) d

  pub robust_call-Change :
      (aq : Asynquery) (patch : Dict Value) (w : World W)
      → HasDistinctIds w.rows
      → Change w.rows (robust_call codec faults services aq patch w).1.rows
  unfolding robust_call
  robust_call-Change aq patch w d = call_at_server-Change aq patch w _ d

  pub robust_call-queued :
      (aq : Asynquery) (patch : Dict Value) (w : World W)
      → (robust_call codec faults services aq patch w).1.queued ≡ w.queued
  unfolding robust_call call_at_server send_request send_params after_call after_response
  robust_call-queued aq patch w = ground arith

  after_call-sdk :
      (i : String) (w : World W) (r : Result Response × W)
      → (after_call codec faults services i w r).1.sdk ≡ r.1
  unfolding after_call after_response
  after_call-sdk i w r = ground arith

  send_params-IsFired :
      (address : String) (aq : Asynquery) (patch : Dict Value) (req : Request) (w : World W)
      (params : Params)
      → codec.unmarshal_request aq.body ≡ some req
      → req.params ≡ params
      → services.server_of aq.user_id ≡ some (some address)
      → let after = (send_params codec faults services address aq patch req w params).1.sdk in
        (after ≡ w.sdk) ⊎ IsFired codec services aq w.sdk after
  unfolding send_params
  send_params-IsFired address aq patch req w absent b m s = inl refl
  send_params-IsFired address aq patch req w (other v) b m s = inl refl
  send_params-IsFired address aq patch req w (named params) b m s = inr (record {
    request = req;
    params = params;
    patch = patch;
    address = address;
    decoded = b;
    has_params = m;
    has_server = s;
    called = after_call-sdk aq.id w _;
  })

  send_request-IsFired :
      (address : String) (aq : Asynquery) (patch : Dict Value) (w : World W) (o : Option Request)
      → codec.unmarshal_request aq.body ≡ o
      → services.server_of aq.user_id ≡ some (some address)
      → let after = (send_request codec faults services address aq patch w o).1.sdk in
        (after ≡ w.sdk) ⊎ IsFired codec services aq w.sdk after
  unfolding send_request
  send_request-IsFired address aq patch w none b s = inl refl
  send_request-IsFired address aq patch w (some req) b s =
      send_params-IsFired address aq patch req w req.params b refl s

  call_at_server-IsFired :
      (aq : Asynquery) (patch : Dict Value) (w : World W) (s : Option (Option String))
      → services.server_of aq.user_id ≡ s
      → let after = (call_at_server codec faults services aq patch w s).1.sdk in
        (after ≡ w.sdk) ⊎ IsFired codec services aq w.sdk after
  unfolding call_at_server
  call_at_server-IsFired aq patch w none e = inl refl
  call_at_server-IsFired aq patch w (some none) e = inl refl
  call_at_server-IsFired aq patch w (some (some address)) e =
      send_request-IsFired address aq patch w (codec.unmarshal_request aq.body) refl e

  -- A run leaves the SDK as it was or makes one call of it.
  pub robust_call-IsFired :
      (aq : Asynquery) (patch : Dict Value) (w : World W)
      → let after = (robust_call codec faults services aq patch w).1.sdk in
        (after ≡ w.sdk) ⊎ IsFired codec services aq w.sdk after
  unfolding robust_call
  robust_call-IsFired aq patch w = call_at_server-IsFired aq patch w _ refl
