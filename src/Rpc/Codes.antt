-- ===== src/Rpc/Codes.antt =====
-- Which code and message an error reaches the client with.
use odysee_api.Base.{String, ◌≡◌, Option, none, some, ℤ, arith}
use odysee_api.Errors.{Error, Sentinel, wrapped, err_of, message, prefix}
use odysee_api.Errors.Chain.{err_of_transparent}
use odysee_api.Rpc.{Response, code_internal, new_rpc_err, as_rpc_error, to_json}

abbrev pub error_code : Response → Option ℤ
error_code r = elim r.error [ none ↦ none | some e ↦ some e.code ]

abbrev pub error_text : Response → Option String
error_text r = elim r.error [ none ↦ none | some e ↦ some e.message ]

-- The code under which an error is shown: that of the first RPC error in its chain, and the
-- internal code for an error with none.
abbrev pub shown_code : Option (ℤ × Error) → ℤ
shown_code none = code_internal
shown_code (some (c, e)) = c

to_json-code : (e : Error) → error_code (to_json e) ≡ some (shown_code (as_rpc_error e))
unfolding to_json
to_json-code e = ground arith

wrap-as_rpc_error :
    (e : Error) (p : String) (c : ℤ)
    → (as_rpc_error (err_of e) ≡ as_rpc_error e)
      × (as_rpc_error (prefix p e) ≡ as_rpc_error e)
      × (as_rpc_error (wrapped p e) ≡ as_rpc_error e)
      × (as_rpc_error (new_rpc_err e c) ≡ some (c, err_of e))
unfolding as_rpc_error err_of prefix new_rpc_err
wrap-as_rpc_error e p c = ground arith

-- An error made by newRPCErr with a code reaches the client under that code and with the message of
-- the error inside; tracing it, prefixing it or wrapping it does not change the code, which another
-- newRPCErr around it does replace.
pub to_json_keeps_code :
    (e : Error) (p : String) (c d : ℤ)
    → (error_code (to_json (new_rpc_err e c)) ≡ some c)
      × (error_text (to_json (new_rpc_err e c)) ≡ some (message e))
      × (error_code (to_json (err_of (new_rpc_err e c))) ≡ some c)
      × (error_code (to_json (prefix p (new_rpc_err e c))) ≡ some c)
      × (error_code (to_json (wrapped p (new_rpc_err e c))) ≡ some c)
      × (error_code (to_json (new_rpc_err (new_rpc_err e c) d)) ≡ some d)
unfolding to_json as_rpc_error err_of prefix new_rpc_err
to_json_keeps_code e p c d = ground (arith, err_of_transparent e Sentinel.auth_required)
