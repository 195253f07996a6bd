-- ===== src/Rpc/Server/Lookup.antt =====
-- crates/subhost-rpc/src/lib.rs: what the queries about blocks and receipts find.
use mathlib.Core.Path.{subst}
use sub_host_demo.Base.{
  ℕ, ◌+◌, ◌-◌, ◌<◌, ◌≡◌, inl, inr, true, some, List, [], ◌∷◌, arith, ◌==◌, nat_eq, All, Bool-cases,
}
use sub_host_demo.Core.{Hash, Block, Receipt, zero_hash}
use sub_host_demo.Map
use sub_host_demo.Map.{Map}
use sub_host_demo.Storage.{FileFormat}
use sub_host_demo.Storage.Chain.{Codec, hash_of, find_block, holds}
use sub_host_demo.Storage.Spec.{AreLinked, IsReceipt}
use sub_host_demo.Rpc.{RpcState, values, nth, block_at_height, receipt}
use sub_host_demo.Rpc.Ledger.{IsSound}

module _ (c : Codec) where
  -- A block of the chain stands at its height, counted from the first one's.
  nth-find :
      (chain_id index : ℕ) (parent h : Hash) (bs : List Block) (b : Block)
      → AreLinked c chain_id index parent bs
      → find_block c h bs ≡ some b
      → (hash_of c b ≡ h)
        × (index < b.header.height)
        × (nth bs (b.header.height - index - 1) ≡ some b)
  unfolding find_block nth
  nth-find chain_id index parent h [] b l e = cc e
  nth-find chain_id index parent h (x ∷ bs) b (fits, (tx, k), l) e =
      elim (Bool-cases (hash_of c x == h)) [
        | inl same ↦ ground (arith, k.height)
        | inr apart ↦
            let (a, i, m) = nth-find chain_id (index + 1) (hash_of c x) h bs b l (ground arith) in
            ground (arith, a, i, m)
      ]

values-All :
    (P : Receipt → Type 0) (h : Hash) (r : Receipt) (m : Map Hash Receipt)
    → All P (values m)
    → All (λ e. e.1.tx_hash ≡ e.0) m
    → Map.get h m ≡ some r
    → P r × (r.tx_hash ≡ h)
unfolding Map.get
values-All P h r [] a k e = cc e
values-All P h r ((j, x) ∷ m) a k e = elim (Bool-cases (j == h)) [
  | inl same ↦ let here : x ≡ r = ground arith in (subst P here a.0, ground (arith, k.0))
  | inr apart ↦ values-All P h r m a.1 k.1 (ground arith)
]

-- In a sound node a recorded receipt is of its transaction, and the block at its height is the one
-- that it names and holds that transaction.
pub receipt-IsHeld :
    (f : FileFormat) (n : RpcState) (h : Hash) (r : Receipt)
    → IsSound f n
    → receipt h n ≡ some r
    → (r.tx_hash ≡ h)
      × ((b : Block) × (block_at_height r.block_height n ≡ some b)
          × (hash_of f.codec b ≡ r.block_hash)
          × (holds f.codec h b.transactions ≡ true))
unfolding receipt block_at_height
receipt-IsHeld f n h r s e =
    let (k, same) =
      values-All (IsReceipt f.codec n.blocks) h r n.receipts s.ledger.described s.keyed e in
    let (a, i, m) =
      nth-find f.codec n.chain_id 0 zero_hash r.block_hash n.blocks k.block s.ledger.linked
        k.found in
    (
      same,
      (
        k.block,
        ground (arith, k.height, i, m),
        a,
        subst (λ x. holds f.codec x k.block.transactions ≡ true) same k.tx,
      ),
    )
