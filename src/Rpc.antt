-- ===== src/Rpc.antt =====
-- The JSON-RPC messages (jsonrpc.RPCRequest, RPCResponse and RPCError as the program reads and
-- writes their fields), and pkg/rpcerrors/rpcerrors.go.
pub mod Codes
use odysee_api.Base.{String, Bool, true, false, Option, none, some, List, ℤ, negsuc, pos, Dict}
use odysee_api.Errors.{
  Error, sentinel, plain, wrapped, enclosed, traced, rpc, wallet_error, sdk, pg, auth_required,
  err_of, message,
}

-- A Go value of type `any` as the JSON decoder makes it, and the `[]string` that hooks store.
mutual
  pub data Value : Type 0 where
    null : Value
    flag : Bool → Value
    number : String → Value
    text : String → Value
    texts : List String → Value
    list : Elements → Value
    object : Members → Value

  -- the elements of an array
  pub data Elements : Type 0 where
    no_elements : Elements
    element : Value → Elements → Elements

  -- the members of an object
  pub data Members : Type 0 where
    no_members : Members
    member : String → Value → Members → Members

-- The `Params any` of a request: a `map[string]any`, or anything else.
pub data Params : Type 0 where
  absent : Params
  named : Dict Value → Params
  other : Value → Params

pub record Request : Type 0 where
  pub method : String
  pub params : Params
  pub id : ℤ
  pub jsonrpc : String

pub record RpcError : Type 0 where
  pub code : ℤ
  pub message : String
  pub error_data : Value

pub record Response : Type 0 where
  pub jsonrpc : String
  pub result : Value
  pub error : Option RpcError
  pub id : ℤ

abbrev pub code_internal : ℤ
code_internal = negsuc 32079

abbrev pub code_sdk : ℤ
code_sdk = negsuc 32602

abbrev pub code_auth_required : ℤ
code_auth_required = negsuc 32083

abbrev pub code_forbidden : ℤ
code_forbidden = negsuc 32084

abbrev pub code_json_parse : ℤ
code_json_parse = negsuc 32699

abbrev pub code_invalid_params : ℤ
code_invalid_params = negsuc 32601

abbrev pub code_method_not_allowed : ℤ
code_method_not_allowed = negsuc 32600

-- newRPCErr
unfoldable pub new_rpc_err : Error → ℤ → Error
unfolding err_of
new_rpc_err e code = rpc code (err_of e)

abbrev pub new_internal_error : Error → Error
new_internal_error e = new_rpc_err e code_internal

abbrev pub new_json_parse_error : Error → Error
new_json_parse_error e = new_rpc_err e code_json_parse

abbrev pub new_method_not_allowed_error : Error → Error
new_method_not_allowed_error e = new_rpc_err e code_method_not_allowed

abbrev pub new_invalid_params_error : Error → Error
new_invalid_params_error e = new_rpc_err e code_invalid_params

abbrev pub new_sdk_error : Error → Error
new_sdk_error e = new_rpc_err e code_sdk

abbrev pub new_forbidden_error : Error → Error
new_forbidden_error e = new_rpc_err e code_forbidden

abbrev pub new_auth_required_error : Error
new_auth_required_error = new_rpc_err (sentinel auth_required) code_auth_required

-- errors.As into an RPCError: the first one of the chain, as its code and the error in it.
unfoldable pub as_rpc_error : Error → Option (ℤ × Error)
as_rpc_error (sentinel s) = none
as_rpc_error (plain m) = none
as_rpc_error (wrapped m e) = as_rpc_error e
as_rpc_error (enclosed m e n) = as_rpc_error e
as_rpc_error (traced p e) = as_rpc_error e
as_rpc_error (rpc c e) = some (c, e)
as_rpc_error (wallet_error e) = as_rpc_error e
as_rpc_error (sdk n m) = none
as_rpc_error (pg c m) = none

-- RPCError.JSON, as the response that is marshaled: "2.0", and an error with code and message.
abbrev json_of : ℤ → String → Response
json_of code m = record {
  jsonrpc = "2.0";
  result = null;
  error = some (record { code = code; message = m; error_data = null });
  id = pos 0;
}

-- ToJSON, ErrorToJSON and Write: three copies of one routine.
unfoldable pub to_json : Error → Response
unfolding as_rpc_error message new_rpc_err
to_json e = elim (as_rpc_error e) [
  | none ↦ json_of code_internal (message (new_internal_error e))
  | some (code, inner) ↦ json_of code (message inner)
]
