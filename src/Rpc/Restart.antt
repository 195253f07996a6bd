-- ===== src/Rpc/Restart.antt =====
-- crates/subhost-rpc/src/lib.rs and crates/subhost-storage/src/lib.rs: a node that restarts from its ledger file.
use mathlib.Core.Path.{subst}
use sub_host_demo.Base.{ℕ, ◌≡◌, ◌∙◌, sym, ap, true, [], ◌∷◌, ◌++◌, arith, nat_eq, ok}
use sub_host_demo.Base.Sort.{sort_by}
use sub_host_demo.Core.{Address, Hash, Receipt}
use sub_host_demo.State.{account, snapshot}
use sub_host_demo.Mempool.{default_config}
use sub_host_demo.Storage.{
  LedgerSnapshot, RestoredLedger, FileFormat, WriteIo, ReadIo, last, height_of, height, restore,
  load,
}
use sub_host_demo.Storage.Spec.{IsLedger}
use sub_host_demo.Storage.Append.{height-length}
use sub_host_demo.Storage.Replay.{IsRestored, restore_ledger}
use sub_host_demo.Storage.Reorder.{sort_by-IsLedger}
use sub_host_demo.Storage.Durable.{ReadsBack, persist_loads}
use sub_host_demo.Map
use sub_host_demo.Mempool
use sub_host_demo.Rpc.{
  RpcState, values, collect_receipts, receipt, older, snapshot_of, with_store, commit,
  seal_next_block,
}
use sub_host_demo.Rpc.Commit.{
  new_block, new_receipt, Sealed, refused, unwritten, sealed, seal_cases,
}
use sub_host_demo.Rpc.Ledger.{IsSound}
use sub_host_demo.Rpc.Seal.{HasNoCollision, seal_next_block-IsSound}
use sub_host_demo.Rpc.Receipts.{get-collect_values}

-- Two nodes that answer every query about the chain alike.
pub record SameChain (m n : RpcState) : Type 0 where
  pub chain : m.chain_id ≡ n.chain_id
  pub height : m.block_height ≡ n.block_height
  pub blocks : m.blocks ≡ n.blocks
  pub accounts : (a : Address) → account a m.state ≡ account a n.state
  pub receipts : (h : Hash) → receipt h m ≡ receipt h n

-- The ledger that a node writes.
abbrev pub own_snapshot : RpcState → LedgerSnapshot
own_snapshot n = snapshot_of n.chain_id n.state n.blocks n.receipts

module _ (f : FileFormat) (reads : ReadIo) (n : RpcState) where
  own_restore :
      IsSound f n
      → (r : RestoredLedger) × (restore f n.store (own_snapshot n) ≡ ok r)
        × IsRestored n.state n.blocks (sort_by older (values n.receipts)) r
  unfolding snapshot_of
  own_restore s =
      let (r, e, k) =
        restore_ledger f n.store n.state n.blocks (sort_by older (values n.receipts)) s.accounts
          (λ z. s.positive (sym s.store_chain ∙ z)) (s.state_chain ∙ sym s.store_chain)
          (subst (λ c. IsLedger f.codec c n.state n.blocks (sort_by older (values n.receipts)))
            (sym s.store_chain)
            (sort_by-IsLedger older f.codec n.chain_id n.state n.blocks (values n.receipts)
              s.ledger)) in
      (
        r,
        subst
            (λ c.
              restore f n.store (record {
                chain_id = c;
                state = snapshot n.state;
                blocks = n.blocks;
                receipts = sort_by older (values n.receipts);
              })
              ≡ ok r)
            s.store_chain e,
        k,
      )

  -- A sound node whose file reads as its ledger comes back from that file with the same chain.
  pub restarts :
      IsSound f n
      → load f n.store reads n.disk ≡ restore f n.store (own_snapshot n)
      → (m : RpcState) × (with_store f reads n.store n.disk ≡ ok m) × SameChain m n
  unfolding with_store height receipt
  restarts s e =
      let (r, x, k) = own_restore s in
      (
        record {
          chain_id = n.store.chain_id;
          block_height = height r;
          mempool = Mempool.new default_config;
          state = r.state;
          blocks = r.blocks;
          receipts = collect_receipts r.receipts [];
          store = n.store;
          disk = n.disk;
        },
        ground (arith, e, x),
        record {
          chain = s.store_chain;
          height =
              ap (λ bs. height_of (last bs)) k.blocks_kept
              ∙ (height-length f.codec n.chain_id n.blocks s.ledger.linked ∙ sym s.top);
          blocks = k.blocks_kept;
          accounts = k.accounts;
          receipts = λ h.
              ap (λ rs. Map.get h (collect_receipts rs [])) k.receipts_kept
              ∙ get-collect_values older h n.receipts s.once s.keyed;
        },
      )

module _ (f : FileFormat) (sys : WriteIo) (reads : ReadIo) (now : ℕ) (h : Hash) (n : RpcState) where
  -- After a sealing on a durable store that reported success, the file reads as the new ledger.
  pub file_of_sealed :
      (r : Receipt)
      → ReadsBack f (own_snapshot (seal_next_block f sys now h n).1)
      → reads.metadata ≡ true
      → reads.read ≡ true
      → n.store.has_path ≡ true
      → (seal_next_block f sys now h n).0 ≡ ok r
      → let n' = (seal_next_block f sys now h n).1 in
        load f n'.store reads n'.disk ≡ restore f n'.store (own_snapshot n')
  unfolding commit
  file_of_sealed r back m k p e = by_cases (seal_cases f sys now h n)
    where
      by_cases :
          Sealed f sys now h n
          → let n' = (seal_next_block f sys now h n).1 in
            load f n'.store reads n'.disk ≡ restore f n'.store (own_snapshot n')
      by_cases (refused _ x) = absurd (cc (x, e))
      by_cases (unwritten _ _ _ _ _ _ x) = absurd (cc (x, e))
      by_cases (sealed tx s top _ w x) =
          let written =
            snapshot_of n.chain_id s (n.blocks ++ new_block f sys now h n tx s top ∷ [])
              (Map.insert h (new_receipt f sys now h n tx s top) n.receipts) in
          subst (λ q. load f q.1.store reads q.1.disk ≡ restore f q.1.store (own_snapshot q.1))
            (sym x)
            ((persist_loads f n.store sys reads written n.disk
                (subst (ReadsBack f) (ap (λ q. own_snapshot q.1) x) back) m k).1
              w p)

  -- When a sound node on a durable store has sealed a block, then a node that starts from the file has
  -- its chain ID, its height, its blocks, its accounts and its receipts.
  pub sealed_restarts :
      (r : Receipt)
      → IsSound f n
      → HasNoCollision f sys now h n
      → ReadsBack f (own_snapshot (seal_next_block f sys now h n).1)
      → reads.metadata ≡ true
      → reads.read ≡ true
      → n.store.has_path ≡ true
      → (seal_next_block f sys now h n).0 ≡ ok r
      → let n' = (seal_next_block f sys now h n).1 in
        (m : RpcState) × (with_store f reads n'.store n'.disk ≡ ok m) × SameChain m n'
  sealed_restarts r sound free back m k p e =
      restarts f reads (seal_next_block f sys now h n).1
        (seal_next_block-IsSound f sys now h n sound free) (file_of_sealed r back m k p e)
