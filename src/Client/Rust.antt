-- ===== src/Client/Rust.antt =====
-- rsfbclient-rust/src/client.rs, `RustFbClient`: the traits of a client over the operations of a
-- connection. The answers of the operating system to the connections that it opens are a list.
pub mod Keeping
use rsfbclient.Base.{ℕ, Option, none, some, List, [], ◌∷◌, Bytes}
use rsfbclient.Error.{blocked, not_connected, other, Result, ok, err}
use rsfbclient.Charset.{Charset}
use rsfbclient.Consts.{AuthPluginType}
use rsfbclient.Reader.{Outcome, done, failed, Parser, ◌>>◌, ◌>>=◌, pure}
use rsfbclient.Wire.Accept.{SrpAuthData}
use rsfbclient.Api.Client.{FirebirdClient}
use rsfbclient.Client.Session.{Session}
use rsfbclient.Client.Session.Databases
use rsfbclient.Client.Session.Statements.{Held, StmtHandleData}
use rsfbclient.Client.Session.Statements
use rsfbclient.Client.Session.Cursors
use rsfbclient.Client.Session.Waiting.{Listening, on_main, close_event_channel}
use rsfbclient.Client.Session.Waiting
use rsfbclient.Client.Read.{Read}
use rsfbclient.Client.Connecting.{Crypto, TcpStream, attach_proof, connect}

pub record RustFbClientAttachmentConfig : Type 0 where
  pub host : Bytes
  pub port : ℕ
  pub db_name : Bytes
  pub user : Bytes
  pub pass : Bytes
  pub role_name : Option Bytes

-- What the operating system answers to a connection: the socket, the random key, the name of the user
-- and the auxiliary sockets of the connection.
pub record Dial : Type 0 where
  pub socket : Result TcpStream
  pub srp_key : Bytes
  pub username : Bytes
  pub aux_sockets : List (Result (List Read))

-- `dials` are the answers to the connections that are still to be opened.
pub record RustFbClient : Type 0 where
  pub conn : Option Listening
  pub charset : Charset
  pub dials : List Dial

unfoldable pub new_rust_client : Charset → List Dial → RustFbClient
new_rust_client charset dials = record { conn = none; charset = charset; dials = dials }

abbrev pub put_back : {A : Type 0} → RustFbClient → Outcome Listening A → Outcome RustFbClient A
put_back self (done a conn) = done a (record self { conn = some conn })
put_back self (failed e conn) = failed e (record self { conn = some conn })

-- `self.conn.as_mut().map(…).unwrap_or_else(err_client_not_connected)`
abbrev pub borrowed : {A : Type 0} → Option Listening → Parser Listening A → Parser RustFbClient A
borrowed none f self = failed (other not_connected) self
borrowed (some conn) f self = put_back self (f conn)

unfoldable pub on_conn : {A : Type 0} → Parser Listening A → Parser RustFbClient A
on_conn f self = borrowed self.conn f self

-- A method that reads its handles.
abbrev pub beside : {H A : Type 0} → H → Outcome RustFbClient A → Outcome (RustFbClient × H) A
beside h (done a self) = done a (self, h)
beside h (failed e self) = failed e (self, h)

unfoldable pub with_handles :
    {H A : Type 0} → (H → Parser Listening A) → Parser (RustFbClient × H) A
with_handles f (self, h) = beside h (on_conn (f h) self)

abbrev pub beside₂ :
    {H K A : Type 0} → H → K → Outcome RustFbClient A → Outcome (RustFbClient × H × K) A
beside₂ h k (done a self) = done a (self, h, k)
beside₂ h k (failed e self) = failed e (self, h, k)

unfoldable pub with_tr :
    {A : Type 0} → (ℕ → ℕ → Parser Listening A) → Parser (RustFbClient × ℕ × ℕ) A
with_tr f (self, db, handle) = beside₂ db handle (on_conn (f db handle) self)

-- A method that changes its statement too.
abbrev pub Handles : Type 0
Handles = RustFbClient × ℕ × ℕ × StmtHandleData

abbrev pub with_held :
    {A : Type 0} → RustFbClient → Listening → ℕ → ℕ → Outcome Held A → Outcome Handles A
with_held self conn db handle (done a h) =
    done a (record self { conn = some (record conn { session = h.session }) }, db, handle, h.stmt)
with_held self conn db handle (failed e h) =
    failed e (record self { conn = some (record conn { session = h.session }) }, db, handle, h.stmt)

abbrev pub borrowed_stmt : {A : Type 0} → Option Listening → (ℕ → Parser Held A) → Parser Handles A
borrowed_stmt none f handles = failed (other not_connected) handles
borrowed_stmt (some conn) f (self, db, handle, stmt) =
    with_held self conn db handle (f handle (record { session = conn.session; stmt = stmt }))

unfoldable pub on_stmt_handle : {A : Type 0} → (ℕ → Parser Held A) → Parser Handles A
on_stmt_handle f (self, db, handle, stmt) = borrowed_stmt self.conn f (self, db, handle, stmt)

module _ (gds_to_msg : ℕ → Bytes) (crypto : Crypto) where
  abbrev pub on_connected :
      {A : Type 0} → Result Listening → Parser Listening A → Parser RustFbClient A
  on_connected (err e) f self = failed e self
  on_connected (ok conn) f self = put_back self (f conn)

  -- A new connection has no event channel.
  abbrev pub listening : List (Result (List Read)) → Result Session → Result Listening
  listening aux_sockets (err e) = err e
  listening aux_sockets (ok session) =
      ok (record { session = session; event_channel = none; aux_sockets = aux_sockets })

  -- `FirebirdWireConnection::connect` with the answers of the operating system.
  abbrev pub dialled : RustFbClientAttachmentConfig → Charset → Dial → Result Listening
  dialled config charset d = elim d.socket [
    | err e ↦ err e
    | ok socket ↦ listening d.aux_sockets (
        connect gds_to_msg crypto socket d.srp_key d.username config.db_name config.user config.pass
          charset)
  ]

  abbrev pub connecting_from :
      {A : Type 0}
      → List Dial
      → RustFbClientAttachmentConfig
      → Parser Listening A
      → Parser RustFbClient A
  connecting_from [] config f self = failed (other blocked) self
  connecting_from (d ∷ dials) config f self =
      on_connected (dialled config self.charset d) f (record self { dials = dials })

  -- The existing connection is taken, or one is opened; it is put back behind the call.
  abbrev pub taken :
      {A : Type 0}
      → Option Listening
      → RustFbClientAttachmentConfig
      → Parser Listening A
      → Parser RustFbClient A
  taken (some conn) config f self = put_back self (f conn)
  taken none config f self = connecting_from self.dials config f self

  unfoldable pub take_or_connect :
      {A : Type 0} → RustFbClientAttachmentConfig → Parser Listening A → Parser RustFbClient A
  take_or_connect config f self = taken self.conn config f self

  -- `fetch_batch_size` reads the environment.
  abbrev pub rust_client : (Bytes → Bytes) → ℕ → FirebirdClient
  rust_client hash_with fetch_batch_size = record {
    Client = RustFbClient;
    DbHandle = ℕ;
    AttachmentConfig = RustFbClientAttachmentConfig;
    TrHandle = ℕ;
    StmtHandle = StmtHandleData;
    attach_database = λ config dialect no_db_triggers. take_or_connect config (
        on_main (
          Databases.attach_database gds_to_msg hash_with (attach_proof crypto) config.db_name
            config.user config.pass config.role_name dialect no_db_triggers));
    detach_database =
        with_handles
          (λ db. close_event_channel >> on_main (Statements.detach_database gds_to_msg db));
    drop_database =
        with_handles
          (λ db. close_event_channel >> on_main (Statements.drop_database gds_to_msg db));
    create_database = λ config page_size dialect. take_or_connect config (
        on_main (
          Databases.create_database gds_to_msg hash_with (attach_proof crypto) config.db_name
            config.user config.pass page_size config.role_name dialect));
    begin_transaction =
        λ confs. with_handles (λ db. on_main (Statements.begin_transaction gds_to_msg db confs));
    transaction_operation = λ tr_op.
        with_handles (λ tr. on_main (Statements.transaction_operation gds_to_msg tr tr_op));
    exec_immediate = λ dialect sql.
        with_tr (λ db tr. on_main (Statements.exec_immediate gds_to_msg tr dialect sql));
    prepare_statement = λ dialect sql.
        with_tr (λ db tr. on_main (Statements.prepare_statement gds_to_msg db tr dialect sql));
    free_statement =
        λ stmt_op. with_handles (λ stmt. on_main (Statements.free_statement stmt stmt_op));
    execute = λ params. on_stmt_handle (λ tr. Statements.execute gds_to_msg tr params);
    execute2 = λ params. on_stmt_handle (λ tr. Statements.execute2 gds_to_msg tr params);
    fetch = on_stmt_handle (λ tr. Cursors.fetch gds_to_msg tr fetch_batch_size);
  }

  -- The trait `FirebirdClientDbEvents`.
  unfoldable pub wait_for_event : Bytes → Parser (RustFbClient × ℕ) (Unit {0})
  wait_for_event name = with_handles (λ db. Waiting.wait_for_event gds_to_msg db name)
