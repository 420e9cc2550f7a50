-- ===== src/Api/Ledger/Balance.antt =====
-- src/connection/mod.rs: every transaction that a connection starts is ended or is its default one.
pub mod Uses
pub mod Runs
use rsfbclient.Base.{
  ℕ, ◌+◌, ◌≡◌, refl, sym, ap, ◌∙◌, Bool, true, false, Option, none, some, List, [], ◌∷◌, Bytes,
  arith,
}
use rsfbclient.Error.{FbError, Result, ok, err}
use rsfbclient.Reader.{Outcome, done, failed, Parser, chain, ◌>>=◌, ◌>>◌, pure, lift}
use rsfbclient.StmtCache.Crate.{Lru}
use rsfbclient.Wire.Requests.{TrOp}
use rsfbclient.Client.Session.Statements.{TransactionConfiguration}
use rsfbclient.Api.Client.{FirebirdClient}
use rsfbclient.Api.State.{
  attempt, modify, StatementData, TransactionData, Connection, Transaction, put_back, on_tr,
}
use rsfbclient.Api.Transaction.{operation}
use rsfbclient.Api.Connection.{owned, owning, rolled_back, taken_or_started, take_or_start, keep}
use rsfbclient.Api.Keeps.{
  Keeps, Keeps-bind, Keeps-lift, Keeps-modify, After, After-chain, Ends, state_of,
}
use rsfbclient.Api.Ledger.{Event, began, operated, Log, noting, regrouped, logged, begun, ended}
use rsfbclient.Api.Ledger.Calls.{in_conn, in_tr}
use rsfbclient.Api.Ledger.Default.{
  State, of_conn, of_tr, start-State, rolled_back-State, keep-State,
}

abbrev pub counts : Log → ℕ × ℕ
counts log = (begun log, ended log)

abbrev pub held : {A : Type 0} → Option A → ℕ
held none = 0
held (some _) = 1

module _ (client : FirebirdClient) {deq : Discrete Bytes}
    (lru : Lru deq (StatementData (logged client))) where
  -- The transactions that were started are those that were ended and the default one.
  pub record IsBalanced (c : Connection lru) : Type 0 where
    pub balance : begun c.cli.1 ≡ ended c.cli.1 + held c.def_tr

  -- `n` transactions are open, and none of them is the default one.
  pub record Owes (n : ℕ) (c : Connection lru) : Type 0 where
    pub open_trs : begun c.cli.1 ≡ ended c.cli.1 + n
    pub no_default : c.def_tr ≡ none

  Owes-State :
      (n : ℕ) (c : Connection lru) (log : Log) (mark : Bool)
      → of_conn client lru c ≡ (log, none, mark)
      → begun log ≡ ended log + n
      → Owes n c
  Owes-State n c log mark h e = record {
    open_trs =
        ap (λ (s : State client lru). begun s.0) h
        ∙ e
        ∙ sym (ap (λ (s : State client lru). ended s.0 + n) h);
    no_default = ap (λ (s : State client lru). s.1) h;
  }

  Kept-Owes :
      (n : ℕ) (c c' : Connection lru)
      → in_conn client lru counts c' ≡ in_conn client lru counts c
      → Owes n c
      → Owes n c'
  Kept-Owes n c c' h o = record {
    open_trs =
        ap (λ (s : (ℕ × ℕ) × Option (TransactionData (logged client)) × Bool). s.0.0) h
        ∙ o.open_trs
        ∙ sym (ap (λ (s : (ℕ × ℕ) × Option (TransactionData (logged client)) × Bool). s.0.1 + n) h);
    no_default =
        ap (λ (s : (ℕ × ℕ) × Option (TransactionData (logged client)) × Bool). s.1) h
        ∙ o.no_default;
  }

  begun_by :
      (c : Connection lru) (o : Outcome (Connection lru) (TransactionData (logged client)))
      → Owes 0 c
      → After
          (λ _ c'. of_conn client lru c' ≡ (began ∷ c.cli.1, c.def_tr, c.in_transaction))
          (λ _ c'. of_conn client lru c' ≡ of_conn client lru c)
          o
      → After (λ _ c'. Owes 1 c') (λ _ c'. Owes 0 c') o
  begun_by c (done tr c') o h = record {
    holds =
        Owes-State 1 c' (began ∷ c.cli.1) c.in_transaction
          (h.holds ∙ ap (λ d. (began ∷ c.cli.1, d, c.in_transaction)) o.no_default)
          (omega (arith, o.open_trs));
  }
  begun_by c (failed e c') o h = record {
    holds =
        Owes-State 0 c' c.cli.1 c.in_transaction
          (h.holds ∙ ap (λ d. (c.cli.1, d, c.in_transaction)) o.no_default) o.open_trs;
  }

  taken-Owes :
      (confs : TransactionConfiguration) (def_tr : Option (TransactionData (logged client)))
      (c : Connection lru)
      → Owes (held def_tr) c
      → After (λ _ c'. Owes 1 c') (λ _ c'. Owes 0 c') (taken_or_started lru confs def_tr c)
  unfolding taken_or_started
  taken-Owes confs (some tr) c o = record { holds = o }
  taken-Owes confs none c o = begun_by c _ o (start-State client lru confs c)

  take_or_start-Owes :
      (confs : TransactionConfiguration) (c : Connection lru)
      → IsBalanced c
      → After (λ _ c'. Owes 1 c') (λ _ c'. Owes 0 c') (take_or_start lru confs c)
  unfolding take_or_start
  take_or_start-Owes confs c b =
      taken-Owes confs c.def_tr (record c { def_tr = none })
        (record { open_trs = b.balance; no_default = refl })

  pub rolled_back-Owes :
      (tr : TransactionData (logged client)) (c : Connection lru)
      → Owes 1 c
      → Owes 0 (rolled_back lru tr c)
  rolled_back-Owes tr c o =
      let (b, h) = rolled_back-State client lru tr c in
      Owes-State 0 _ (operated TrOp.rollback b ∷ c.cli.1) c.in_transaction
        (h ∙ ap (λ d. (operated TrOp.rollback b ∷ c.cli.1, d, c.in_transaction)) o.no_default)
        (omega (arith, o.open_trs))

  module _ {A : Type 0} where
    owned-Owes :
        (o : Outcome (Transaction lru) A)
        → Owes 1 (state_of o).conn
        → After (λ _ c'. Owes 1 c') (λ _ c'. Owes 0 c') (owned lru o)
    owned-Owes (done a t) h = record { holds = h }
    owned-Owes (failed e t) h = record { holds = rolled_back-Owes t.tr t.conn h }

    owning-Owes :
        (tr : TransactionData (logged client)) (body : Parser (Transaction lru) A)
        (c : Connection lru)
        → Keeps (in_tr client lru counts) body
        → Owes 1 c
        → After (λ _ c'. Owes 1 c') (λ _ c'. Owes 0 c') (owning lru tr body c)
    unfolding owning
    owning-Owes tr body c k o =
        owned-Owes (body (record { tr = tr; conn = c }))
          (Kept-Owes 1 c _ (k.at (record { tr = tr; conn = c })) o)

  Owes-IsBalanced : (c : Connection lru) → Owes 0 c → IsBalanced c
  Owes-IsBalanced c o = record {
    balance = o.open_trs ∙ ap (λ d. ended c.cli.1 + held d) (sym o.no_default);
  }

  keep-IsBalanced :
      (tr : TransactionData (logged client)) (c : Connection lru)
      → Owes 1 c
      → IsBalanced (keep lru tr c)
  keep-IsBalanced tr c o =
      let h = keep-State client lru tr c o.no_default in
      record {
        balance =
            ap (λ (s : State client lru). begun s.0) h
            ∙ o.open_trs
            ∙ sym (ap (λ (s : State client lru). ended s.0 + held s.1) h);
      }

  module _ {T : Type 0} where
    abbrev Balances : Outcome (Connection lru) T → Type 0
    Balances o = IsBalanced (state_of o)

    lifted : (r : Result T) (c : Connection lru) → IsBalanced c → Balances (lift r c)
    lifted (ok a) c b = b
    lifted (err e) c b = b

    given :
        (o : Outcome (Connection lru) (Result T × TransactionData (logged client)))
        → After (λ _ c'. Owes 1 c') (λ _ c'. Owes 0 c') o
        → Balances (chain o (λ p. modify (keep lru p.1) >> lift p.0))
    given (done (r, tr) c) h = lifted r (keep lru tr c) (keep-IsBalanced tr c h.holds)
    given (failed e c) h = Owes-IsBalanced c h.holds

    taken :
        (body : Parser (Transaction lru) (Result T))
        (o : Outcome (Connection lru) (TransactionData (logged client)))
        → Keeps (in_tr client lru counts) body
        → After (λ _ c'. Owes 1 c') (λ _ c'. Owes 0 c') o
        → Balances (chain o λ tr. owning lru tr body >>= λ p. modify (keep lru p.1) >> lift p.0)
    taken body (done tr c) k h = given _ (owning-Owes tr body c k h.holds)
    taken body (failed e c) k h = Owes-IsBalanced c h.holds

    -- A block that neither starts nor ends a transaction, run with the default one.
    pub taking-IsBalanced :
        (confs : TransactionConfiguration) (body : Parser (Transaction lru) (Result T))
        (c : Connection lru)
        → Keeps (in_tr client lru counts) body
        → IsBalanced c
        → IsBalanced (
            state_of (
              chain
                (take_or_start lru confs c)
                λ tr. owning lru tr body >>= λ p. modify (keep lru p.1) >> lift p.0))
    taking-IsBalanced confs body c k b = taken body _ k (take_or_start-Owes confs c b)
