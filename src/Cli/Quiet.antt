-- ===== src/Cli/Quiet.antt =====
-- The parts of the commands that send nothing and leave the books as they are.
use juno_exchange_kit.Base.{◌≡◌, refl, ap, ◌∙◌, arith}
use juno_exchange_kit.Base.Text.{Text, codes, is_empty, trim_space}
use juno_exchange_kit.Store.Schema.{Db}
use juno_exchange_kit.Store.Exec.{Exec}
use juno_exchange_kit.Store.Accounts.{account_balance, select_balance}
use juno_exchange_kit.Store.Wallets.{meta, wallet}
use juno_exchange_kit.Store.Ledger.Untouched.{SameBooks}
use juno_exchange_kit.Cli.Command.{
  World, Failure, from_store, After, After-exit_if, After-or_exit, After-or_exit_last, After-settle,
  After-bind, After-from_store,
}
use juno_exchange_kit.Cli.Config.{
  Host, RpcFlags, ServicesFlags, resolved, resolved_scan_url, resolved_broadcast_url,
}
use juno_exchange_kit.Cli.Setup.{
  parse_coin_type, client_of, connect, stored_hrp, stored_coin_type, stored_wallet,
}

-- Nothing more was sent, and the books are the same.
pub record Quiet (w w' : World) : Type 0 where
  pub books : SameBooks w.db w'.db
  pub sent : w'.submitted ≡ w.submitted

pub Quiet-refl : (w : World) → Quiet w w
Quiet-refl w = record {
  books = record { balances = refl; deposits = refl; withdrawals = refl };
  sent = refl;
}

pub SameBooks-trans : {a b c : Db} → SameBooks a b → SameBooks b c → SameBooks a c
SameBooks-trans h k = record {
  balances = k.balances ∙ h.balances;
  deposits = k.deposits ∙ h.deposits;
  withdrawals = k.withdrawals ∙ h.withdrawals;
}

meta_reads : (k : Text) (db : Db) → (meta k db).1 ≡ db
unfolding meta
meta_reads k db = ground arith

wallet_reads : (k : Text) (db : Db) → (wallet k db).1 ≡ db
unfolding wallet
wallet_reads k db = ground arith

pub account_balance_reads : (a : Text) (db : Db) → (account_balance a db).1 ≡ db
unfolding account_balance select_balance
account_balance_reads a db = ground arith

module _ (w : World) where
  -- A call of the store that keeps the books.
  pub from_store-Quiet :
      {A : Type 0} (m : Exec A) (v : World)
      → Quiet w v
      → SameBooks v.db (m v.db).1
      → After (Quiet w) (from_store m) v
  from_store-Quiet m v q k =
      After-from_store (Quiet w) m v (record { books = SameBooks-trans q.books k; sent = q.sent })

  pub from_read-Quiet :
      {A : Type 0} (m : Exec A) (v : World)
      → Quiet w v
      → (m v.db).1 ≡ v.db
      → After (Quiet w) (from_store m) v
  from_read-Quiet m v q e = from_store-Quiet m v q (record {
    balances = ap (λ (d : Db). d.balances) e;
    deposits = ap (λ (d : Db). d.deposits) e;
    withdrawals = ap (λ (d : Db). d.withdrawals) e;
  })

  pub account_balance-Quiet :
      (a : Text) (v : World) → Quiet w v → After (Quiet w) (from_store (account_balance a)) v
  account_balance-Quiet a v q =
      from_read-Quiet (account_balance a) v q (account_balance_reads a v.db)

  pub stored_hrp-Quiet : (v : World) → Quiet w v → After (Quiet w) stored_hrp v
  unfolding stored_hrp
  stored_hrp-Quiet v q =
      After-bind (Quiet w) (from_store (meta (codes "ua_hrp"))) _ v
        (from_read-Quiet (meta (codes "ua_hrp")) v q (meta_reads _ v.db))
        λ found mid _ k.
          After-or_exit (Quiet w) found _ _ mid k
            λ hrp _. After-exit_if (Quiet w) (is_empty (trim_space hrp)) _ _ mid k λ _. k

  pub stored_coin_type-Quiet : (v : World) → Quiet w v → After (Quiet w) stored_coin_type v
  unfolding stored_coin_type
  stored_coin_type-Quiet v q =
      After-bind (Quiet w) (from_store (meta (codes "coin_type"))) _ v
        (from_read-Quiet (meta (codes "coin_type")) v q (meta_reads _ v.db))
        λ found mid _ k.
          After-or_exit (Quiet w) found _ _ mid k
            λ text _. After-or_exit_last (Quiet w) (parse_coin_type text) _ mid k

  pub stored_wallet-Quiet :
      (id : Text) (e : Failure) (v : World) → Quiet w v → After (Quiet w) (stored_wallet id e) v
  unfolding stored_wallet
  stored_wallet-Quiet id e v q =
      After-bind (Quiet w) (from_store (wallet id)) _ v
        (from_read-Quiet (wallet id) v q (wallet_reads id v.db))
        λ found mid _ k. After-or_exit_last (Quiet w) found e mid k

  pub connect-Quiet :
      (host : Host) (rpc : RpcFlags) (services : ServicesFlags) (v : World)
      → Quiet w v
      → After (Quiet w) (connect host rpc services) v
  unfolding connect
  connect-Quiet host rpc services v q = After-settle (Quiet w) (resolved host rpc) _ v q λ login _.
      After-exit_if (Quiet w) (is_empty (resolved_scan_url host services)) _ _ v q λ _.
        After-exit_if (Quiet w) (is_empty (resolved_broadcast_url host services)) _ _ v q λ _.
          After-settle (Quiet w) (client_of (host.scan_client (resolved_scan_url host services))) _
            v q
            λ scan _.
              After-settle (Quiet w)
                (client_of (host.broadcast_client (resolved_broadcast_url host services))) _ v q
                λ b _. q
