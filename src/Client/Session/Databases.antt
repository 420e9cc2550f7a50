-- ===== src/Client/Session/Databases.antt =====
-- rsfbclient-rust/src/client.rs, `create_database` and `attach_database`. The proof of SRP, which takes the
-- key of the connection, and the hash of passwords are arguments.
use rsfbclient.Base.{ℕ, Bool, Option, Bytes}
use rsfbclient.Error.{Result}
use rsfbclient.Consts.{AuthPluginType}
use rsfbclient.Reader.{◌>>=◌, lift}
use rsfbclient.Wire.Accept.{SrpAuthData}
use rsfbclient.Wire.Attach.{Dialect, attach, create}
use rsfbclient.Client.Session.{Call, the, request_handle}

module _ (gds_to_msg : ℕ → Bytes) (hash_with : Bytes → Bytes)
    (proof : Bytes → AuthPluginType → Bytes → Bytes → SrpAuthData → Result Bytes) where
  unfoldable pub create_database :
      (db_name user pass : Bytes) (page_size : Option ℕ) (role_name : Option Bytes)
      (dialect : Dialect)
      → Call ℕ
  create_database db_name user pass page_size role_name dialect = do
    self ← the (λ s. s)
    bytes ← lift (
        create hash_with (proof self.srp_key) db_name user pass self.version self.charset page_size
          role_name dialect self.auth_plugin)
    request_handle gds_to_msg bytes

  unfoldable pub attach_database :
      (db_name user pass : Bytes) (role_name : Option Bytes) (dialect : Dialect)
      (no_db_triggers : Bool)
      → Call ℕ
  attach_database db_name user pass role_name dialect no_db_triggers = do
    self ← the (λ s. s)
    bytes ← lift (
        attach hash_with (proof self.srp_key) db_name user pass self.version self.charset role_name
          dialect no_db_triggers self.auth_plugin)
    request_handle gds_to_msg bytes
