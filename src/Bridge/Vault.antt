-- ===== src/Bridge/Vault.antt =====
-- The `core` object of sdk/ts/src/bridge.ts: the vault and the parameters of circles.
use gossveil.Base.{Bool, Text, Bytes, ◌==◌}
use gossveil.Fault.{Result, ok}
use gossveil.Bridge.Call.{Platform, to, ◌▹◌, bytes, text, out, finish, first, two, invoke}

pub record PoolKeys : Type 0 where
  pub recovery_key : Bytes
  pub backup_key : Bytes

pub record AccountKeys : Type 0 where
  pub backup_id : Bytes
  pub signing_key : Bytes

pub record MediaKeys : Type 0 where
  pub media_id : Bytes
  pub media_key : Bytes
  pub thumbnail_key : Bytes

pub record CircleParams : Type 0 where
  pub master : Bytes
  pub identifier : Bytes
  pub public_params : Bytes

module _ (p : Platform) where
  unfoldable pub pool_random : Result Text
  unfolding to finish
  pool_random = finish p (to "gv_pool_random" ▹ out) (λ r. ok (p.decode (r.outs 0)))

  -- The number that the export returns is an answer here and no status.
  unfoldable pub pool_valid : Text → Result Bool
  unfolding to invoke
  pool_valid pool = invoke p (to "gv_pool_valid" ▹ text pool) (λ r. ok (r.status == 1))

  unfoldable pub pool_derive : Text → Result PoolKeys
  unfolding to finish
  pool_derive pool =
      finish p (to "gv_pool_derive" ▹ text pool ▹ out ▹ out)
        (λ r. ok (record { recovery_key = r.outs 0; backup_key = r.outs 1 }))

  unfoldable pub backup_key_random : Result Bytes
  unfolding to first
  backup_key_random = first p (to "gv_backup_key_random" ▹ out)

  unfoldable pub backup_key_for_account : Bytes → Text → Result AccountKeys
  unfolding to finish
  backup_key_for_account key account_id =
      finish p (to "gv_backup_key_for_account" ▹ bytes key ▹ text account_id ▹ out ▹ out)
        (λ r. ok (record { backup_id = r.outs 0; signing_key = r.outs 1 }))

  unfoldable pub backup_key_local_metadata : Bytes → Result Bytes
  unfolding to first
  backup_key_local_metadata key = first p (to "gv_backup_key_local_metadata" ▹ bytes key ▹ out)

  unfoldable pub backup_key_media : Bytes → Text → Result MediaKeys
  unfolding to finish
  backup_key_media key media_name =
      finish p (to "gv_backup_key_media" ▹ bytes key ▹ text media_name ▹ out ▹ out ▹ out)
        (λ r. ok (record { media_id = r.outs 0; media_key = r.outs 1; thumbnail_key = r.outs 2 }))

  -- The media key and the thumbnail key.
  unfoldable pub backup_key_media_keys : Bytes → Bytes → Result (Bytes × Bytes)
  unfolding to two
  backup_key_media_keys key media_id =
      two p (to "gv_backup_key_media_keys" ▹ bytes key ▹ bytes media_id ▹ out ▹ out)

  unfoldable pub circle_master_random : Result Bytes
  unfolding to first
  circle_master_random = first p (to "gv_circle_master_random" ▹ out)

  unfoldable pub circle_secret_params : Bytes → Result Bytes
  unfolding to first
  circle_secret_params master = first p (to "gv_circle_secret_params" ▹ bytes master ▹ out)

  unfoldable pub circle_params_info : Bytes → Result CircleParams
  unfolding to finish
  circle_params_info params =
      finish p (to "gv_circle_params_info" ▹ bytes params ▹ out ▹ out ▹ out)
        (λ r. ok (record { master = r.outs 0; identifier = r.outs 1; public_params = r.outs 2 }))
