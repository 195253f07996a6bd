-- ===== src/Storage/Spec.antt =====
-- crates/subhost-storage/src/lib.rs: what a valid ledger is, without the order of the checks.
use sub_host_demo.Base.{
  ℕ, ◌+◌, ◌≤◌, ◌≡◌, true, false, some, List, [], ◌∷◌, nat_eq, length, elem, All, ⊤,
}
use sub_host_demo.Base.Words.{u64_max}
use sub_host_demo.Core.{Hash, Block, Transaction, Receipt, success, zero_hash, tx_hash, tx_root_of}
use sub_host_demo.State.{State}
use sub_host_demo.Storage.Chain.{Codec, hash_of, receipt_root, state_root_of, find_block, holds}

-- No two receipts are of one block.
abbrev pub AreApart : List Hash → List Receipt → Type 0
AreApart seen [] = ⊤
AreApart seen (r ∷ rs) = (elem r.block_hash seen ≡ false) × AreApart (r.block_hash ∷ seen) rs

module _ (c : Codec) where
  -- A block in its place: one transaction, all that its header says of its place, and all that its
  -- header commits to.
  pub record IsBlock (chain_id expected : ℕ) (parent : Hash) (b : Block) (tx : Transaction)
      : Type 0 where
    pub single : b.transactions ≡ tx ∷ []
    pub height : b.header.height ≡ expected
    pub parent_hash : b.header.parent_hash ≡ parent
    pub chain : b.header.chain_id ≡ chain_id
    pub gas : b.header.gas_used ≤ b.header.gas_limit
    pub commits_tx : b.header.tx_root ≡ tx_root_of c.digest (tx_hash c.digest tx ∷ [])
    pub tx_chain : tx.chain_id ≡ chain_id
    pub gas_used : b.header.gas_used ≡ tx.gas_limit
    pub commits_receipt :
        b.header.receipt_root
        ≡ receipt_root c (tx_hash c.digest tx) b.header.height b.header.gas_used

  -- Blocks of consecutive heights, each naming the one before it as its parent.
  abbrev pub AreLinked : ℕ → ℕ → Hash → List Block → Type 0
  AreLinked chain_id index parent [] = ⊤
  AreLinked chain_id index parent (b ∷ bs) =
      (index + 1 ≤ u64_max)
      × ((tx : Transaction) × IsBlock chain_id (index + 1) parent b tx)
      × AreLinked chain_id (index + 1) (hash_of c b) bs

  -- A receipt that describes a block of the chain.
  pub record IsReceipt (blocks : List Block) (r : Receipt) : Type 0 where
    pub block : Block
    pub found : find_block c r.block_hash blocks ≡ some block
    pub height : r.block_height ≡ block.header.height
    pub tx : holds c r.tx_hash block.transactions ≡ true
    pub status : r.status ≡ success
    pub gas : r.gas_used ≡ block.header.gas_used
    pub commits : receipt_root c r.tx_hash r.block_height r.gas_used ≡ block.header.receipt_root

  abbrev pub IsRooted : State → List Block → Type 0
  IsRooted s [] = ⊤
  IsRooted s (b ∷ []) = state_root_of c s ≡ b.header.state_root
  IsRooted s (b ∷ b' ∷ bs) = IsRooted s (b' ∷ bs)

  pub record IsLedger (chain_id : ℕ) (s : State) (blocks : List Block) (receipts : List Receipt)
      : Type 0 where
    pub linked : AreLinked chain_id 0 zero_hash blocks
    pub counted : length blocks ≡ length receipts
    pub apart : AreApart [] receipts
    pub described : All (IsReceipt blocks) receipts
    pub rooted : IsRooted s blocks
