-- ===== src/SdkRouter/WalletIds.antt =====
-- Wallet names do not collide.
use text.Mathlib.TextLemmas.{append_cancel_left, append_cancel_right}
use odysee_api.Base.{zero, suc, ◌≡◌, ◌≢◌, refl, ap, ℤ, pos, negsuc}
use odysee_api.Base.Decimal.{decimal_inj}
use odysee_api.SdkRouter.{wallet_id}

-- Two users with the same wallet name are one user, unless the name is the empty one.
pub wallet_id_inj : (u v : ℤ) → wallet_id u ≡ wallet_id v → wallet_id u ≢ "" → u ≡ v
unfolding wallet_id
wallet_id_inj (pos (suc n)) (pos (suc m)) e h = ap pos (
    decimal_inj (suc n) (suc m)
      (append_cancel_right _ _ ".wallet" (append_cancel_left "lbrytv-id." _ _ e)))
wallet_id_inj (pos (suc n)) (pos zero) e h = absurd (h e)
wallet_id_inj (pos (suc n)) (negsuc m) e h = absurd (h e)
wallet_id_inj (pos zero) v e h = absurd (h refl)
wallet_id_inj (negsuc n) v e h = absurd (h refl)
