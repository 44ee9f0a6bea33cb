-- ===== src/AsyncQuery/Patches.antt =====
-- The parameters of a query that is sent to the SDK.
use odysee_api.Base.{
  String, ◌≡◌, refl, ◌∙◌, Bool-cases, inl, inr, Bool, true, false, none, some, [], ◌∷◌, ◌++◌, arith,
  ◌==◌, any, lookup, insert, Dict, lookup-insert, lookup-delete, if◌then◌else◌,
}
use odysee_api.Base.Decimal.{decimal}
use odysee_api.Rpc.{Value, text, number, flag}
use odysee_api.Query.{method_stream_update}
use odysee_api.AsyncQuery.{
  UploadMeta, build_patch_from_meta, apply_patch, sent_params, patch_size, patch_duration, positive,
}

has_key : String → Dict Value → Bool
has_key k d = any (λ e. e.0 == k) d

lookup-apply_patch_ne :
    (k : String) (patch params : Dict Value)
    → has_key k patch ≡ false
    → lookup k (apply_patch patch params) ≡ lookup k params
unfolding apply_patch has_key
lookup-apply_patch_ne k [] params h = refl
lookup-apply_patch_ne k ((j, v) ∷ patch) params h =
    ground (arith, lookup-apply_patch_ne k patch (insert j v params), lookup-insert j k v params)

abbrev extras : UploadMeta → Dict Value
extras meta =
    patch_size (positive meta.width) (positive meta.height)
    ++ patch_duration (positive meta.duration)

extras-no_key :
    (k : String) (meta : UploadMeta)
    → ("width" == k) ≡ false
    → ("height" == k) ≡ false
    → ("duration" == k) ≡ false
    → has_key k (extras meta) ≡ false
unfolding has_key
extras-no_key k meta w h d = ground arith

patched-key :
    (k : String) (meta : UploadMeta) (params : Dict Value)
    → has_key k (extras meta) ≡ false
    → lookup k (apply_patch (build_patch_from_meta meta) params) ≡ (
        if "sd_hash" == k
        then some (text meta.sd_hash)
        else if "file_hash" == k
        then some (text meta.hash)
        else if "file_name" == k
        then some (text meta.file_name)
        else if "file_size" == k
        then some (number (decimal meta.size))
        else lookup k params)
unfolding build_patch_from_meta apply_patch
patched-key k meta params h =
    lookup-apply_patch_ne k (extras meta) _ h
    ∙ rw (lookup-insert, lookup-insert, lookup-insert, lookup-insert) refl

sent-key :
    (k method : String) (patch params : Dict Value)
    → lookup k (sent_params method patch params) ≡ (
        if "file_path" == k
        then none
        else if method == method_stream_update
        then (if "replace" == k
            then some (flag true)
            else if "name" == k
            then none
            else lookup k (apply_patch patch params))
        else lookup k (apply_patch patch params))
unfolding sent_params
sent-key k method patch params = elim (Bool-cases (method == method_stream_update)) [
  | inl update ↦ rw (update, lookup-delete, lookup-insert, lookup-delete) refl
  | inr another ↦ rw (another, lookup-delete) refl
]

-- A key that the patch has is sent with the patch's value.
sent-patched :
    (k method : String) (meta : UploadMeta) (params : Dict Value)
    → ("file_path" == k) ≡ false
    → ("replace" == k) ≡ false
    → ("name" == k) ≡ false
    → lookup k (sent_params method (build_patch_from_meta meta) params)
      ≡ lookup k (apply_patch (build_patch_from_meta meta) params)
sent-patched k method meta params f r n =
    sent-key k method (build_patch_from_meta meta) params ∙ ground (arith, f, r, n)

-- What is sent to the SDK has no file path, and has the hash of the stream, the hash, the name and
-- the size of the file as the upload's metadata tell them, whatever the client gave. An update of
-- a stream is sent without a name; another method keeps the client's name.
pub sent_params_lem :
    (method : String) (meta : UploadMeta) (params : Dict Value)
    → let sent = sent_params method (build_patch_from_meta meta) params in
      (lookup "file_path" sent ≡ none)
      × (lookup "sd_hash" sent ≡ some (text meta.sd_hash))
      × (lookup "file_hash" sent ≡ some (text meta.hash))
      × (lookup "file_name" sent ≡ some (text meta.file_name))
      × (lookup "file_size" sent ≡ some (number (decimal meta.size)))
      × (lookup "name" sent
          ≡ (if method == method_stream_update then none else lookup "name" params))
sent_params_lem method meta params = (
  sent-key "file_path" method (build_patch_from_meta meta) params,
  sent-patched "sd_hash" method meta params refl refl refl
      ∙ patched-key "sd_hash" meta params (extras-no_key "sd_hash" meta refl refl refl),
  sent-patched "file_hash" method meta params refl refl refl
      ∙ patched-key "file_hash" meta params (extras-no_key "file_hash" meta refl refl refl),
  sent-patched "file_name" method meta params refl refl refl
      ∙ patched-key "file_name" meta params (extras-no_key "file_name" meta refl refl refl),
  sent-patched "file_size" method meta params refl refl refl
      ∙ patched-key "file_size" meta params (extras-no_key "file_size" meta refl refl refl),
  sent-key "name" method (build_patch_from_meta meta) params
      ∙ rw (patched-key "name" meta params (extras-no_key "name" meta refl refl refl)) refl,
)
