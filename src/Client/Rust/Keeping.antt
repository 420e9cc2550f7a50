-- ===== src/Client/Rust/Keeping.antt =====
-- rsfbclient-rust/src/client.rs, `RustFbClient`: the connection that it holds.
use rsfbclient.Base.{ℕ, Bool, Option, some, List, ◌≡◌, refl, Bytes}
use rsfbclient.Reader.{Outcome, done, failed, Parser}
use rsfbclient.SqlTypes.{SqlType}
use rsfbclient.Wire.Attach.{Dialect}
use rsfbclient.Wire.Requests.{TrOp, FreeStmtOp}
use rsfbclient.Api.Client.{FirebirdClient}
use rsfbclient.Client.Session.Waiting.{Listening}
use rsfbclient.Client.Session.Statements.{TransactionConfiguration, Held, StmtHandleData}
use rsfbclient.Client.Connecting.{Crypto}
use rsfbclient.Client.Rust.{
  RustFbClientAttachmentConfig, Dial, RustFbClient, put_back, on_conn, beside, with_handles,
  beside₂, with_tr, with_held, on_stmt_handle, take_or_connect, rust_client, wait_for_event,
}

-- What a call leaves, whatever it answers.
abbrev pub Leaves : {S A : Type 0} → (S → Type 0) → Outcome S A → Type 0
Leaves P (done a s) = P s
Leaves P (failed e s) = P s

abbrev pub left : {S A : Type 0} → Outcome S A → S
left (done a s) = s
left (failed e s) = s

Leaves-left : {S A : Type 0} (P : S → Type 0) (o : Outcome S A) → Leaves P o → P (left o)
Leaves-left P (done a s) p = p
Leaves-left P (failed e s) p = p

-- A call of a method, from the client before it to the client behind it, whatever it answers.
module _ (client : FirebirdClient) where
  pub data Step : client.Client → client.Client → Type 0 where
    attached :
        (config : client.AttachmentConfig) (dialect : Dialect) (no_db_triggers : Bool)
        (c : client.Client)
        → Step c (left (client.attach_database config dialect no_db_triggers c))
    detached :
        (c : client.Client) (db : client.DbHandle)
        → Step c (left (client.detach_database (c, db))).0
    dropped :
        (c : client.Client) (db : client.DbHandle) → Step c (left (client.drop_database (c, db))).0
    created :
        (config : client.AttachmentConfig) (page_size : Option ℕ) (dialect : Dialect)
        (c : client.Client)
        → Step c (left (client.create_database config page_size dialect c))
    begun :
        (confs : TransactionConfiguration) (c : client.Client) (db : client.DbHandle)
        → Step c (left (client.begin_transaction confs (c, db))).0
    operated :
        (tr_op : TrOp) (c : client.Client) (handle : client.TrHandle)
        → Step c (left (client.transaction_operation tr_op (c, handle))).0
    executed_at_once :
        (dialect : Dialect) (sql : Bytes) (c : client.Client) (db : client.DbHandle)
        (handle : client.TrHandle)
        → Step c (left (client.exec_immediate dialect sql (c, db, handle))).0
    prepared :
        (dialect : Dialect) (sql : Bytes) (c : client.Client) (db : client.DbHandle)
        (handle : client.TrHandle)
        → Step c (left (client.prepare_statement dialect sql (c, db, handle))).0
    freed :
        (stmt_op : FreeStmtOp) (c : client.Client) (stmt : client.StmtHandle)
        → Step c (left (client.free_statement stmt_op (c, stmt))).0
    executed :
        (params : List SqlType) (c : client.Client) (db : client.DbHandle)
        (handle : client.TrHandle) (stmt : client.StmtHandle)
        → Step c (left (client.execute params (c, db, handle, stmt))).0
    executed2 :
        (params : List SqlType) (c : client.Client) (db : client.DbHandle)
        (handle : client.TrHandle) (stmt : client.StmtHandle)
        → Step c (left (client.execute2 params (c, db, handle, stmt))).0
    fetched :
        (c : client.Client) (db : client.DbHandle) (handle : client.TrHandle)
        (stmt : client.StmtHandle)
        → Step c (left (client.fetch (c, db, handle, stmt))).0

-- The client holds a connection, and has these answers to further connections left.
pub record IsConnected (dials : List Dial) (self : RustFbClient) : Type 0 where
  pub conn : Listening
  pub held : self.conn ≡ some conn
  pub undialled : self.dials ≡ dials

module _ (dials : List Dial) where
  put_back-IsConnected :
      {A : Type 0} (self : RustFbClient) (o : Outcome Listening A)
      → self.dials ≡ dials
      → Leaves (IsConnected dials) (put_back self o)
  put_back-IsConnected self (done a conn) h = record { conn = conn; held = refl; undialled = h }
  put_back-IsConnected self (failed e conn) h = record { conn = conn; held = refl; undialled = h }

  on_conn-IsConnected :
      {A : Type 0} (f : Parser Listening A) (self : RustFbClient)
      → IsConnected dials self
      → Leaves (IsConnected dials) (on_conn f self)
  unfolding on_conn
  on_conn-IsConnected f self h = rw h.held (put_back-IsConnected self (f h.conn) h.undialled)

  take_or_connect-IsConnected :
      {A : Type 0} (config : RustFbClientAttachmentConfig) (gds_to_msg : ℕ → Bytes)
      (crypto : Crypto) (f : Parser Listening A) (self : RustFbClient)
      → IsConnected dials self
      → Leaves (IsConnected dials) (take_or_connect gds_to_msg crypto config f self)
  unfolding take_or_connect
  take_or_connect-IsConnected config gds_to_msg crypto f self h =
      rw h.held (put_back-IsConnected self (f h.conn) h.undialled)

  beside-Leaves :
      {H A : Type 0} (h : H) (o : Outcome RustFbClient A)
      → Leaves (IsConnected dials) o
      → Leaves (λ s. IsConnected dials s.0) (beside h o)
  beside-Leaves h (done a self) p = p
  beside-Leaves h (failed e self) p = p

  beside₂-Leaves :
      {H K A : Type 0} (h : H) (k : K) (o : Outcome RustFbClient A)
      → Leaves (IsConnected dials) o
      → Leaves (λ s. IsConnected dials s.0) (beside₂ h k o)
  beside₂-Leaves h k (done a self) p = p
  beside₂-Leaves h k (failed e self) p = p

  with_handles-Leaves :
      {H A : Type 0} (f : H → Parser Listening A) (self : RustFbClient) (h : H)
      → IsConnected dials self
      → Leaves (λ s. IsConnected dials s.0) (with_handles f (self, h))
  unfolding with_handles
  with_handles-Leaves f self h p =
      beside-Leaves h (on_conn (f h) self) (on_conn-IsConnected (f h) self p)

  with_tr-Leaves :
      {A : Type 0} (f : ℕ → ℕ → Parser Listening A) (self : RustFbClient) (db handle : ℕ)
      → IsConnected dials self
      → Leaves (λ s. IsConnected dials s.0) (with_tr f (self, db, handle))
  unfolding with_tr
  with_tr-Leaves f self db handle p =
      beside₂-Leaves db handle (on_conn (f db handle) self)
        (on_conn-IsConnected (f db handle) self p)

  with_held-Leaves :
      {A : Type 0} (self : RustFbClient) (conn : Listening) (db handle : ℕ) (o : Outcome Held A)
      → self.dials ≡ dials
      → Leaves (λ s. IsConnected dials s.0) (with_held self conn db handle o)
  with_held-Leaves self conn db handle (done a h) p = record {
    conn = record conn { session = h.session };
    held = refl;
    undialled = p;
  }
  with_held-Leaves self conn db handle (failed e h) p = record {
    conn = record conn { session = h.session };
    held = refl;
    undialled = p;
  }

  on_stmt_handle-Leaves :
      {A : Type 0} (f : ℕ → Parser Held A) (self : RustFbClient) (db handle : ℕ)
      (stmt : StmtHandleData)
      → IsConnected dials self
      → Leaves (λ s. IsConnected dials s.0) (on_stmt_handle f (self, db, handle, stmt))
  unfolding on_stmt_handle
  on_stmt_handle-Leaves f self db handle stmt p = rw p.held (
      with_held-Leaves self p.conn db handle
        (f handle (record { session = p.conn.session; stmt = stmt })) p.undialled)

  module _ (gds_to_msg : ℕ → Bytes) (crypto : Crypto) (hash_with : Bytes → Bytes)
      (fetch_batch_size : ℕ) where
    abbrev pub the_client : FirebirdClient
    the_client = rust_client gds_to_msg crypto hash_with fetch_batch_size

    Step-IsConnected :
        {c c' : RustFbClient} → Step the_client c c' → IsConnected dials c → IsConnected dials c'
    Step-IsConnected (attached config dialect no_db_triggers c) p =
        Leaves-left (IsConnected dials) (the_client.attach_database config dialect no_db_triggers c)
          (take_or_connect-IsConnected config gds_to_msg crypto _ c p)
    Step-IsConnected (detached c db) p =
        Leaves-left (λ s. IsConnected dials s.0) (the_client.detach_database (c, db))
          (with_handles-Leaves _ c db p)
    Step-IsConnected (dropped c db) p =
        Leaves-left (λ s. IsConnected dials s.0) (the_client.drop_database (c, db))
          (with_handles-Leaves _ c db p)
    Step-IsConnected (created config page_size dialect c) p =
        Leaves-left (IsConnected dials) (the_client.create_database config page_size dialect c)
          (take_or_connect-IsConnected config gds_to_msg crypto _ c p)
    Step-IsConnected (begun confs c db) p =
        Leaves-left (λ s. IsConnected dials s.0) (the_client.begin_transaction confs (c, db))
          (with_handles-Leaves _ c db p)
    Step-IsConnected (operated tr_op c handle) p =
        Leaves-left (λ s. IsConnected dials s.0)
          (the_client.transaction_operation tr_op (c, handle)) (with_handles-Leaves _ c handle p)
    Step-IsConnected (executed_at_once dialect sql c db handle) p =
        Leaves-left (λ s. IsConnected dials s.0)
          (the_client.exec_immediate dialect sql (c, db, handle)) (with_tr-Leaves _ c db handle p)
    Step-IsConnected (prepared dialect sql c db handle) p =
        Leaves-left (λ s. IsConnected dials s.0)
          (the_client.prepare_statement dialect sql (c, db, handle))
          (with_tr-Leaves _ c db handle p)
    Step-IsConnected (freed stmt_op c stmt) p =
        Leaves-left (λ s. IsConnected dials s.0) (the_client.free_statement stmt_op (c, stmt))
          (with_handles-Leaves _ c stmt p)
    Step-IsConnected (executed params c db handle stmt) p =
        Leaves-left (λ s. IsConnected dials s.0) (the_client.execute params (c, db, handle, stmt))
          (on_stmt_handle-Leaves _ c db handle stmt p)
    Step-IsConnected (executed2 params c db handle stmt) p =
        Leaves-left (λ s. IsConnected dials s.0) (the_client.execute2 params (c, db, handle, stmt))
          (on_stmt_handle-Leaves _ c db handle stmt p)
    Step-IsConnected (fetched c db handle stmt) p =
        Leaves-left (λ s. IsConnected dials s.0) (the_client.fetch (c, db, handle, stmt))
          (on_stmt_handle-Leaves _ c db handle stmt p)

    -- Any calls of the methods of `RustFbClient`, one after the other: those of the client, and
    -- `wait_for_event`.
    pub data Calls : RustFbClient → RustFbClient → Type 0 where
      none_yet : (c : RustFbClient) → Calls c c
      and_called : {c c' c'' : RustFbClient} → Calls c c' → Step the_client c' c'' → Calls c c''
      and_waited :
          {c c' : RustFbClient} (name : Bytes) (db : ℕ)
          → Calls c c'
          → Calls c (left (wait_for_event gds_to_msg crypto name (c', db))).0

    -- A client that holds a connection still holds one after any calls of its methods, also after those
    -- that fail, and it has not opened another one to attach to a database. The event channel of
    -- the connection is a socket of its own.
    pub rust_client-IsConnected :
        {c c' : RustFbClient} → IsConnected dials c → Calls c c' → IsConnected dials c'
    unfolding wait_for_event
    rust_client-IsConnected p (none_yet c) = p
    rust_client-IsConnected p (and_called calls step) =
        Step-IsConnected step (rust_client-IsConnected p calls)
    rust_client-IsConnected p (and_waited {c} {c'} name db calls) =
        Leaves-left (λ s. IsConnected dials s.0) (wait_for_event gds_to_msg crypto name (c', db))
          (with_handles-Leaves _ c' db (rust_client-IsConnected p calls))
