-- ===== src/Query/Const.antt =====
-- The constants of app/query/const.go: the methods and parameters by name, and the lists that
-- say which methods a client may call and which of them take a wallet.
use odysee_api.Base.{String, List, [], ◌∷◌}

abbrev pub method_account_list : String
method_account_list = "account_list"

abbrev pub method_claim_search : String
method_claim_search = "claim_search"

abbrev pub method_comment_react_list : String
method_comment_react_list = "comment_react_list"

abbrev pub method_get : String
method_get = "get"

abbrev pub method_publish : String
method_publish = "publish"

abbrev pub method_purchase_create : String
method_purchase_create = "purchase_create"

abbrev pub method_resolve : String
method_resolve = "resolve"

abbrev pub method_status : String
method_status = "status"

abbrev pub method_stream_update : String
method_stream_update = "stream_update"

abbrev pub method_stream_create : String
method_stream_create = "stream_create"

abbrev pub method_sync_apply : String
method_sync_apply = "sync_apply"

abbrev pub method_wallet_balance : String
method_wallet_balance = "wallet_balance"

abbrev pub method_wallet_send : String
method_wallet_send = "wallet_send"

abbrev pub method_blob_announce : String
method_blob_announce = "blob_announce"

abbrev pub method_transaction_show : String
method_transaction_show = "transaction_show"

abbrev pub method_stream_cost_estimate : String
method_stream_cost_estimate = "stream_cost_estimate"

abbrev pub method_comment_list : String
method_comment_list = "comment_list"

abbrev pub method_collection_resolve : String
method_collection_resolve = "collection_resolve"

abbrev pub method_version : String
method_version = "version"

abbrev pub method_routing_table_get : String
method_routing_table_get = "routing_table_get"

abbrev pub method_address_unused : String
method_address_unused = "address_unused"

abbrev pub method_address_list : String
method_address_list = "address_list"

abbrev pub method_address_is_mine : String
method_address_is_mine = "address_is_mine"

abbrev pub method_account_balance : String
method_account_balance = "account_balance"

abbrev pub method_account_send : String
method_account_send = "account_send"

abbrev pub method_account_max_address_gap : String
method_account_max_address_gap = "account_max_address_gap"

abbrev pub method_channel_abandon : String
method_channel_abandon = "channel_abandon"

abbrev pub method_channel_create : String
method_channel_create = "channel_create"

abbrev pub method_channel_list : String
method_channel_list = "channel_list"

abbrev pub method_channel_update : String
method_channel_update = "channel_update"

abbrev pub method_channel_export : String
method_channel_export = "channel_export"

abbrev pub method_channel_import : String
method_channel_import = "channel_import"

abbrev pub method_channel_sign : String
method_channel_sign = "channel_sign"

abbrev pub method_collection_list : String
method_collection_list = "collection_list"

abbrev pub method_collection_create : String
method_collection_create = "collection_create"

abbrev pub method_collection_update : String
method_collection_update = "collection_update"

abbrev pub method_collection_abandon : String
method_collection_abandon = "collection_abandon"

abbrev pub method_comment_abandon : String
method_comment_abandon = "comment_abandon"

abbrev pub method_comment_create : String
method_comment_create = "comment_create"

abbrev pub method_comment_hide : String
method_comment_hide = "comment_hide"

abbrev pub method_comment_update : String
method_comment_update = "comment_update"

abbrev pub method_comment_react : String
method_comment_react = "comment_react"

abbrev pub method_comment_pin : String
method_comment_pin = "comment_pin"

abbrev pub method_claim_list : String
method_claim_list = "claim_list"

abbrev pub method_stream_abandon : String
method_stream_abandon = "stream_abandon"

abbrev pub method_stream_repost : String
method_stream_repost = "stream_repost"

abbrev pub method_stream_list : String
method_stream_list = "stream_list"

abbrev pub method_support_abandon : String
method_support_abandon = "support_abandon"

abbrev pub method_support_create : String
method_support_create = "support_create"

abbrev pub method_support_list : String
method_support_list = "support_list"

abbrev pub method_sync_hash : String
method_sync_hash = "sync_hash"

abbrev pub method_preference_get : String
method_preference_get = "preference_get"

abbrev pub method_preference_set : String
method_preference_set = "preference_set"

abbrev pub method_purchase_list : String
method_purchase_list = "purchase_list"

abbrev pub method_transaction_list : String
method_transaction_list = "transaction_list"

abbrev pub method_txo_list : String
method_txo_list = "txo_list"

abbrev pub method_txo_spend : String
method_txo_spend = "txo_spend"

abbrev pub method_txo_sum : String
method_txo_sum = "txo_sum"

abbrev pub method_txo_plot : String
method_txo_plot = "txo_plot"

abbrev pub method_utxo_list : String
method_utxo_list = "utxo_list"

abbrev pub method_utxo_release : String
method_utxo_release = "utxo_release"

abbrev pub method_wallet_list : String
method_wallet_list = "wallet_list"

abbrev pub method_wallet_encrypt : String
method_wallet_encrypt = "wallet_encrypt"

abbrev pub method_wallet_decrypt : String
method_wallet_decrypt = "wallet_decrypt"

abbrev pub method_wallet_lock : String
method_wallet_lock = "wallet_lock"

abbrev pub method_wallet_unlock : String
method_wallet_unlock = "wallet_unlock"

abbrev pub method_wallet_status : String
method_wallet_status = "wallet_status"

abbrev pub param_method : String
param_method = "method"

abbrev pub param_account_id : String
param_account_id = "account_id"

abbrev pub param_new_sdk_server : String
param_new_sdk_server = "new_sdk_server"

abbrev pub param_purchase_receipt : String
param_purchase_receipt = "purchase_receipt"

abbrev pub param_streaming_url : String
param_streaming_url = "streaming_url"

abbrev pub param_wallet_id : String
param_wallet_id = "wallet_id"

unfoldable pub forbidden_params : List String
forbidden_params = param_account_id ∷ param_new_sdk_server ∷ []

unfoldable pub relaxed_methods : List String
relaxed_methods =
    method_blob_announce ∷ method_status ∷ method_resolve ∷ method_get ∷ method_transaction_show
    ∷ method_stream_cost_estimate ∷ method_claim_search ∷ method_comment_list
    ∷ method_collection_resolve ∷ method_comment_react_list ∷ method_version
    ∷ method_routing_table_get ∷ []

unfoldable pub wallet_specific_methods : List String
wallet_specific_methods =
    method_get ∷ method_purchase_create ∷ method_resolve ∷ method_claim_search ∷ method_publish
    ∷ method_address_unused ∷ method_address_list ∷ method_address_is_mine ∷ method_account_list
    ∷ method_account_balance ∷ method_account_send ∷ method_account_max_address_gap
    ∷ method_channel_abandon ∷ method_channel_create ∷ method_channel_list ∷ method_channel_update
    ∷ method_channel_export ∷ method_channel_import ∷ method_channel_sign ∷ method_collection_list
    ∷ method_collection_create ∷ method_collection_update ∷ method_collection_abandon
    ∷ method_comment_abandon ∷ method_comment_create ∷ method_comment_hide ∷ method_comment_update
    ∷ method_comment_react ∷ method_comment_pin ∷ method_comment_react_list ∷ method_claim_list
    ∷ method_stream_abandon ∷ method_stream_create ∷ method_stream_list ∷ method_stream_update
    ∷ method_stream_repost ∷ method_support_abandon ∷ method_support_create ∷ method_support_list
    ∷ method_sync_apply ∷ method_sync_hash ∷ method_preference_get ∷ method_preference_set
    ∷ method_purchase_list ∷ method_transaction_list ∷ method_txo_list ∷ method_txo_spend
    ∷ method_txo_sum ∷ method_txo_plot ∷ method_utxo_list ∷ method_utxo_release ∷ method_wallet_list
    ∷ method_wallet_send ∷ method_wallet_balance ∷ method_wallet_encrypt ∷ method_wallet_decrypt
    ∷ method_wallet_lock ∷ method_wallet_unlock ∷ method_wallet_status ∷ []
