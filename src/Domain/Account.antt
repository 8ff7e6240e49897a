-- ===== src/Domain/Account.antt =====
-- src/domain/account.rs, and the context of src/auth/mod.rs that a launch is given.
use ichr.Base.{Bool, Text, ℤ}

pub data StorageBackend : Type 0 where
  keyring encrypted_file : StorageBackend

pub record Account : Type 0 where
  pub id : Text
  pub mc_username : Text
  pub mc_uuid : Text
  pub mc_token_expires_at : ℤ
  pub msa_token_expires_at : ℤ
  pub added_at : ℤ
  pub last_refreshed_at : ℤ
  pub is_active : Bool
  pub storage : StorageBackend

pub data AuthContext : Type 0 where
  offline : (username : Text) → AuthContext
  msa : (account_id : Text) → AuthContext
