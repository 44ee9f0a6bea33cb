-- ===== src/Geopublish/Files.antt =====
-- app/geopublish/geopublish.go: what Notify has of a file: its information, the stores that keep it,
-- the answers of the handler, and the request that it makes of the client's.

use odysee_api.Base.{
  ℕ, String, Bool, true, false, Option, none, some, List, [], ◌∷◌, if◌then◌else◌, pos, Dict, lookup,
  insert, delete,
}
use odysee_api.Base.Decimal.{itoa}
use odysee_api.Errors.{Error, Result}
use odysee_api.Rpc.{Request, Value, null, flag, named, code_internal}
use odysee_api.Query.{method_stream_update}
use odysee_api.Wallet.{User}
use odysee_api.Geopublish.Table.{World}
use odysee_api.Geopublish.Status.{Reply, rpc_error, rpc_response}

-- tusd.FileInfo
pub record FileInfo : Type 0 where
  pub id : String
  pub size : ℕ
  pub offset : ℕ
  pub metadata : Dict String
  pub storage : Dict String

-- The locker, the upload store and the packages os and filepath.
pub record Files (W : Type 0) : Type 0 where
  pub new_lock : String → W → Option Error × W
  pub lock : String → W → Option Error × W
  pub unlock : String → W → W
  pub get_upload : String → W → Option Error × W
  pub get_info : String → W → Result FileInfo × W
  pub mkdir_all : String → W → Option Error × W
  pub rename : String → String → W → Option Error × W
  pub remove : String → W → Option Error × W
  pub dir : String → String
  pub join : List String → String

pub data Answer : Type 0 where
  replied : Reply → Answer
  panicked : Answer

abbrev pub refused : Error → Answer
refused e = replied (rpc_error e)

-- What rpcerrors.Write makes of a nil error.
abbrev pub nil_error : Answer
nil_error = replied (record {
  status = 200;
  body = rpc_response (record {
    jsonrpc = "2.0";
    result = null;
    error = some (record { code = code_internal; message = "no wrapped error"; error_data = null });
    id = pos 0;
  });
})

abbrev is_nil : Option Value → Bool
is_nil none = true
is_nil (some null) = true
is_nil _ = false

-- A request that names a claim updates it.
unfoldable pub rewritten : Request → Dict Value → Request
rewritten req params = if is_nil (lookup "claim_id" params) then req else record req {
  method = method_stream_update;
  params = named (insert "replace" (flag true) (delete "name" params));
}

-- The place that a file is moved to.
abbrev pub target_dir : {W : Type 0} → Files W → User → FileInfo → String → String
target_dir files user info path = files.join (files.dir path ∷ itoa user.id ∷ info.id ∷ [])

abbrev pub on_files : {W : Type 0} → World W → Option Error × W → Option Error × World W
on_files w (e, f) = (e, record w { files = f })
