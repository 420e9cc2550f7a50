-- ===== src/Lib.antt =====
-- rsfbclient, a client for the Firebird database written in Rust: its pure-Rust wire protocol, and the
-- connections, transactions and statements that it offers over any client.
--
-- The client (rsfbclient-rust/src/client.rs) writes requests to a socket and reads responses from it. A
-- response has no frame: it is parsed from whatever has arrived, and a parser that runs out of bytes
-- fails with one message, on which the client reads more and parses again from the first byte. The
-- parsers (rsfbclient-rust/src/wire.rs) use the checked reads of rsfbclient-rust/src/util.rs, and texts
-- go through the charset of the connection (rsfbclient-core/src/charset.rs). The socket may be wrapped in
-- a stream cipher (rsfbclient-rust/src/arc4.rs). Event notifications come on a socket of their own
-- (rsfbclient-rust/src/events.rs). A connection keeps its prepared statements in a cache
-- (src/connection/stmt_cache.rs). A connection (src/connection/mod.rs), its transactions
-- (src/transaction/mod.rs) and its statements (src/statement.rs) call a client only by the traits of
-- rsfbclient-core/src/connection.rs; a connection keeps a default transaction between its calls.
--
-- Which file is about which code:
--   Base, Base/*        lists, tests and integers that the other files share; Base/Chunks is the
--                       `chunks` of slices
--   Error, Error/Chain  rsfbclient-core/src/error.rs; a message is a constructor
--   Reader, Reader/*    a parser as a function of the bytes that are left. Reader/Stable: what
--                       more bytes do to a parse. Reader/Loop: the `loop` of a parser. Reader/Moves:
--                       what a parser leaves of its bytes
--   Util, Util/*        util.rs: put_wire_bytes, get_wire_bytes and the reads of numbers
--   Consts, Consts/*    rsfbclient-rust/src/consts.rs, and the numbers of rsfbclient-core/src/ibase.rs
--   Charset             Charset, encode and decode of charset.rs
--   Wire/Text           what std does on texts: replace, decimal numbers, utf-8
--   Wire/Status         parse_status_vector; Wire/Response: parse_response
--   Wire/Requests       every request that wire.rs writes but two; Wire/Attach: attach and create with
--                       the database parameter block
--   Wire/Accept         parse_accept, parse_cont_auth, parse_srp_auth_data, parse_event_notification,
--                       parse_aux_port and parse_info_sql_affected_rows
--   Wire/Rows           ParsedColumn, parse_sql_response and parse_fetch_response
--   Xsqlda, Xsqlda/*    XSqlVar with coerce and xsqlda_to_blr; Xsqlda/Parse: parse_xsqlda and
--                       parse_select_items, which fill the vector that they are given
--   DateTime            rsfbclient-core/src/date_time.rs; SqlTypes: the values of columns and parameters
--   Client/Read         read_with; Client/Lazy: next_op_code, skip_lazy_responses and read_response
--   Client/Session      the methods of FirebirdWireConnection: Session/Blobs, Session/Params (blr.rs),
--                       Session/Databases, Session/Waiting (events), Session/Statements and
--                       Session/Cursors (fetch). Session/Turns: the loops that ask the server in each
--                       round. Session/Exchange: a request and its response
--   Client/Connecting   connect and srp_auth. Client/Rust: RustFbClient, as an instance of the traits
--                       of Api/Client
--   Arc4, Arc4/*        Arc4 and Arc4Stream
--   Srp, Srp/*          rsfbclient-rust/src/srp.rs and srp_verifier; Srp/Powers: powm
--   Events, Events/*    event names and parameter blocks; Events/Channel: the channel
--   StmtCache           StmtCache; StmtCache/Crate: what it relies on of the lru_cache crate
--   Api/Client          the traits of a client, a record of operations that the rest of Api takes
--   Api/Params          rsfbclient-core/src/params.rs: NamedParams
--   Api/State           Connection, Transaction, StatementData, and the parts of them that a call of the
--                       client borrows; Api/Keeps: what a call leaves as it is
--   Api/Statement       src/statement.rs; Api/Cache: get_or_prepare, insert_and_close and close_all of
--                       stmt_cache.rs; Api/Transaction: src/transaction/mod.rs
--   Api/Connection      src/connection/mod.rs, opening, closing and the default transaction;
--                       Api/Queries: execute, query_iter and the iterator, and query_first of
--                       src/query.rs; Api/Reuse: calls with a default transaction
--   Api/Ledger          any client with a record of the transactions that it starts and ends;
--                       Ledger/Calls: the methods that add nothing to it; Ledger/Default,
--                       Ledger/Commits and Ledger/Balance: those that do
--   Tests/*             the theorems at concrete inputs
--
-- How the code is modelled. Bytes are natural numbers, and an integer of w bits wraps where the source
-- does (`% 2 ^ w`). Mutable buffers are passed on: a parser answers the value or the error together with
-- what it left. A socket is the list of the answers of its reads (some bytes, none for a closed
-- connection, or an error); at the end of the list the next read has not returned, and the call is
-- `waiting` or `blocked`. A panic is an answer of its own (`panicked`, `none`). Capacities of buffers are
-- left out, and so are the debug assertions.
--
-- A method that borrows several values with `&mut` is a function on their record (Api/State). A result
-- that is looked at later is an `attempt`, and one that is dropped with `.ok()` is `ignored`. `drop` is a
-- call where a value goes out of scope, also where `?` leaves the block (`owning` of Api/Connection).
--
-- Loops. The loop of a parser runs on fuel, the number of the bytes that are left and one more; a
-- round takes a byte at least (Reader/Loop/Laws is about this fuel). The blocks of events and the
-- chunks of a slice run on their length, which each round shortens. The loops of the event channel run
-- on the number of the bytes that have arrived or will, of which each round takes four or more
-- (Events/Channel/Unroll and Events/Channel/Skipping are about this fuel). The loops that ask the
-- server in each round (connect, prepare_statement, into_column) run on the writes that are left and
-- one more, since such a round writes (Client/Session/Turns, Client/Connecting/Rounds). fetch stops by
-- itself after 1000 batches, and fetch_batch after the rows that it asked for. powm runs on its
-- exponent and one more, which each round halves (Srp/Powers is about this fuel). The other loops are
-- structural.
--
-- Parameters stand for code of other crates: the codecs of the encoding crate, hex::decode, the password
-- hash of pwhash, and the lru_cache crate, a record of operations with the laws that its documentation
-- states, and the regular expression of the named parameters, which is the list of its matches. The
-- client of a connection is a record of operations without laws, which RustFbClient fills
-- (Client/Rust). The table gds_to_msg of message texts (rsfbclient-rust/src/consts.rs) is a parameter
-- too, and so are the digests of SRP and the bytes of a BigUint: what is stated holds for any. What the
-- operating system answers to a connection that is opened is an argument.
--
-- Not modelled: what opens the sockets; days before the year 0, and dates behind the year 262142 or on
-- which the code panics; connection strings, the
-- builders and the connections of any client type; the native client, the diesel backend, the pool and
-- the derive macro, which bind to other libraries.
pub mod Base
pub mod Error
pub mod Reader
pub mod Util
pub mod Consts
pub mod Charset
pub mod Wire
pub mod Xsqlda
pub mod DateTime
pub mod SqlTypes
pub mod Client
pub mod StmtCache
pub mod Arc4
pub mod Events
pub mod Srp
pub mod Api
mod Tests
