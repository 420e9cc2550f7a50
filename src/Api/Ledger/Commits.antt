-- ===== src/Api/Ledger/Commits.antt =====
-- src/connection/mod.rs, `with_transaction_config`: what was committed where it answers, and where it
-- fails.
use mathlib.Core.Path.{subst}
use rsfbclient.Base.{
  ◌≡◌, refl, ap, ◌∙◌, Bool, true, false, Option, none, some, [], ◌∷◌, ◌++◌, Bytes,
}
use rsfbclient.Error.{Result, ok, err}
use rsfbclient.Reader.{Outcome, done, failed, Parser, chain, ◌>>=◌, ◌>>◌, pure, lift}
use rsfbclient.StmtCache.Crate.{Lru}
use rsfbclient.Wire.Requests.{TrOp}
use rsfbclient.Client.Session.Statements.{TransactionConfiguration}
use rsfbclient.Api.Client.{FirebirdClient}
use rsfbclient.Api.State.{
  attempt, kept, modify, StatementData, TransactionData, Connection, Transaction,
}
use rsfbclient.Api.Transaction.{operation}
use rsfbclient.Api.Connection.{owned, owning, take_or_start, keep, settled, with_transaction_config}
use rsfbclient.Api.Keeps.{Keeps, After, state_of}
use rsfbclient.Api.Ledger.{Event, began, operated, Log, logged}
use rsfbclient.Api.Ledger.Default.{
  State, of_conn, of_tr, Operated, operation-Operated, with_start, take_or_start-State,
  rolled_back-State, keep-State,
}

abbrev commits : Event → Bool
commits (operated TrOp.commit b) = b
commits (operated TrOp.commit_retaining b) = b
commits _ = false

never : (tr_op : TrOp) → commits (operated tr_op false) ≡ false
never TrOp.commit = refl
never TrOp.commit_retaining = refl
never TrOp.rollback = refl
never TrOp.rollback_retaining = refl

-- No call of these committed anything.
abbrev pub Uncommitted : Log → Type 0
Uncommitted [] = Unit {0}
Uncommitted (event ∷ log) = (commits event ≡ false) × Uncommitted log

module _ (client : FirebirdClient) {deq : Discrete Bytes}
    (lru : Lru deq (StatementData (logged client))) where
  -- A success is a commit that succeeded, behind at most the start of the transaction, which stays the
  -- default one. Where there is an error, nothing was committed.
  abbrev pub Reports : {T : Type 0} → Connection lru → Outcome (Connection lru) T → Type 0
  Reports c (done a c') =
      (tr : TransactionData (logged client)) × (of_conn client lru c' ≡ (
        operated TrOp.commit_retaining true ∷ with_start client lru c.def_tr c.cli.1,
        some tr,
        false,
      ))
  Reports c (failed e c') =
      (added : Log) × (c'.cli.1 ≡ added ++ c.cli.1)
      × Uncommitted added
      × (c'.in_transaction ≡ false)

  abbrev Unsettled : Log → State client lru → Type 0
  Unsettled log s = (tr_op : TrOp) × (s ≡ (operated tr_op false ∷ log, none, false))

  kept-State :
      (c : Connection lru) (tr : TransactionData (logged client)) (log : Log)
      → of_conn client lru c ≡ (log, none, false)
      → of_conn client lru (keep lru tr c) ≡ (log, some tr, false)
  kept-State c tr log h =
      keep-State client lru tr c (ap (λ (s : State client lru). s.1) h)
      ∙ ap (λ (s : State client lru). (s.0, some tr, s.2)) h

  started_only :
      (def_tr : Option (TransactionData (logged client))) (log : Log) (event : Event)
      → commits event ≡ false
      → (added : Log) × (event ∷ with_start client lru def_tr log ≡ added ++ log)
        × Uncommitted added
  started_only none log event h = (event ∷ began ∷ [], refl, (h, (refl, tt)))
  started_only (some tr) log event h = (event ∷ [], refl, (h, tt))

  module _ {T : Type 0} where
    abbrev Settled : Log → Result T → State client lru → Type 0
    Settled log (ok a) s = s ≡ (operated TrOp.commit_retaining true ∷ log, none, false)
    Settled log (err e) s = s ≡ (operated TrOp.rollback_retaining true ∷ log, none, false)

    abbrev Closed : Log → Outcome (Transaction lru) (Result T) → Type 0
    Closed log =
        After (λ r t. Settled log r (of_tr client lru t))
          (λ _ t. Unsettled log (of_tr client lru t))

    operated-Closed :
        (tr_op : TrOp) (r : Result T) (log : Log) (o : Outcome (Transaction lru) (Unit {0}))
        → Operated client lru tr_op (log, none, false) o
        → ((s : State client lru) → s ≡ (operated tr_op true ∷ log, none, false) → Settled log r s)
        → Closed log (chain o (λ _. pure r))
    operated-Closed tr_op r log (done _ t) h k = record { holds = k (of_tr client lru t) h.holds }
    operated-Closed tr_op r log (failed e t) h k = record { holds = (tr_op, h.holds) }

    settled-Closed :
        (r : Result T) (t : Transaction lru) (log : Log)
        → of_tr client lru t ≡ (log, none, false)
        → Closed log (chain (settled lru false r t) (λ _. pure r))
    unfolding settled
    settled-Closed (ok a) t log h =
        operated-Closed TrOp.commit_retaining (ok a) log _
          (subst
            (λ s.
              Operated client lru TrOp.commit_retaining s (operation lru TrOp.commit_retaining t))
            h (operation-Operated client lru TrOp.commit_retaining t))
          (λ s e. e)
    settled-Closed (err e) t log h =
        operated-Closed TrOp.rollback_retaining (err e) log _
          (subst
            (λ s.
              Operated client lru TrOp.rollback_retaining s
                (operation lru TrOp.rollback_retaining t))
            h (operation-Operated client lru TrOp.rollback_retaining t))
          (λ s e. e)

    ran-Closed :
        (log : Log) (o : Outcome (Transaction lru) T)
        → of_tr client lru (state_of o) ≡ (log, none, false)
        → Closed log (chain (kept o) (λ res. settled lru false res >> pure res))
    ran-Closed log (done a t) h = settled-Closed (ok a) t log h
    ran-Closed log (failed e t) h = settled-Closed (err e) t log h

    -- The default transaction was taken, and is taken apart from the block or rolled back.
    abbrev Given :
        Log → Outcome (Connection lru) (Result T × TransactionData (logged client)) → Type 0
    Given log =
        After (λ p c. Settled log p.0 (of_conn client lru c))
          (λ _ c.
            (tr_op : TrOp) × (b : Bool) × (of_conn client lru c
              ≡ (operated TrOp.rollback b ∷ operated tr_op false ∷ log, none, false)))

    owned-Given :
        (log : Log) (o : Outcome (Transaction lru) (Result T))
        → Closed log o
        → Given log (owned lru o)
    owned-Given log (done r t) h = record { holds = h.holds }
    owned-Given log (failed e t) h =
        let (tr_op, same) = h.holds in
        let (b, rolled) = rolled_back-State client lru t.tr t.conn in
        record {
          holds = (
            tr_op,
            b,
            rolled ∙ ap (λ (s : State client lru). (operated TrOp.rollback b ∷ s.0, s.1, s.2)) same,
          );
        }

    lifted-Reports :
        (c c' : Connection lru) (tr : TransactionData (logged client)) (r : Result T)
        → Settled (with_start client lru c.def_tr c.cli.1) r (of_conn client lru c')
        → Reports c (lift r (keep lru tr c'))
    lifted-Reports c c' tr (ok a) h = (tr, kept-State c' tr _ h)
    lifted-Reports c c' tr (err e) h =
        let kept_state = kept-State c' tr _ h in
        let (added, same, none_of_them) =
          started_only c.def_tr c.cli.1 (operated TrOp.rollback_retaining true) refl in
        (
          added,
          ap (λ (s : State client lru). s.0) kept_state ∙ same,
          none_of_them,
          ap (λ (s : State client lru). s.2) kept_state,
        )

    Given-Reports :
        (c : Connection lru)
        (o : Outcome (Connection lru) (Result T × TransactionData (logged client)))
        → Given (with_start client lru c.def_tr c.cli.1) o
        → Reports c (chain o (λ p. modify (keep lru p.1) >> lift p.0))
    Given-Reports c (done (r, tr) c') h = lifted-Reports c c' tr r h.holds
    Given-Reports c (failed e c') h =
        let (tr_op, b, same) = h.holds in
        let (added, more, none_of_them) =
          started_only c.def_tr c.cli.1 (operated tr_op false) (never tr_op) in
        (
          operated TrOp.rollback b ∷ added,
          ap (λ (s : State client lru). s.0) same ∙ ap (◌∷◌ (operated TrOp.rollback b)) more,
          (refl, none_of_them),
          ap (λ (s : State client lru). s.2) same,
        )

    taken-Reports :
        (c : Connection lru) (closure : Parser (Transaction lru) T)
        → Keeps (of_tr client lru) closure
        → (o : Outcome (Connection lru) (TransactionData (logged client)))
        → After
            (λ _ c'. of_conn client lru c' ≡ (with_start client lru c.def_tr c.cli.1, none, false))
            (λ _ c'. of_conn client lru c' ≡ (c.cli.1, none, false))
            o
        → Reports c (
            chain o λ tr.
              owning lru tr (attempt closure >>= λ res. settled lru false res >> pure res) >>= λ p.
              modify (keep lru p.1) >> lift p.0)
    unfolding owning
    taken-Reports c closure k (done tr c') h = Given-Reports c _ (
        owned-Given _ _ (
          ran-Closed _ (closure (record { tr = tr; conn = c' }))
            (k.at (record { tr = tr; conn = c' }) ∙ h.holds)))
    taken-Reports c closure k (failed e c') h = (
      [],
      ap (λ (s : State client lru). s.0) h.holds,
      tt,
      ap (λ (s : State client lru). s.2) h.holds,
    )

  marked-Reports :
      {T : Type 0} (c : Connection lru) (closure : Parser (Transaction lru) T) (mark : Bool)
      → Keeps (of_tr client lru) closure
      → mark ≡ false
      → (o : Outcome (Connection lru) (TransactionData (logged client)))
      → After
          (λ _ c'. of_conn client lru c' ≡ (with_start client lru c.def_tr c.cli.1, none, mark))
          (λ _ c'. of_conn client lru c' ≡ (c.cli.1, none, mark))
          o
      → Reports c (
          chain o λ tr.
            owning lru tr (attempt closure >>= λ res. settled lru mark res >> pure res) >>= λ p.
            modify (keep lru p.1) >> lift p.0)
  marked-Reports c closure true k h o started = cc
  marked-Reports c closure false k h o started = taken-Reports c closure k o started

  -- Outside a transaction of `begin_transaction`, `with_transaction_config` answers only if the last of
  -- its calls committed the transaction with success; before it there is at most the start of the
  -- transaction, which was due where there was no default one, and the transaction stays the default
  -- one. If it fails, none of its calls committed anything. So it is for every client and every closure
  -- that neither starts nor ends a transaction nor touches the default one and its mark.
  pub with_transaction_config-Reports :
      {T : Type 0} (confs : TransactionConfiguration) (closure : Parser (Transaction lru) T)
      (c : Connection lru)
      → Keeps (of_tr client lru) closure
      → c.in_transaction ≡ false
      → Reports c (with_transaction_config lru confs closure c)
  unfolding with_transaction_config
  with_transaction_config-Reports confs closure c k h =
      marked-Reports c closure c.in_transaction k h (take_or_start lru confs c)
        (take_or_start-State client lru confs c)
