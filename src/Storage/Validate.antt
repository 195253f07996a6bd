-- ===== src/Storage/Validate.antt =====
-- crates/subhost-storage/src/lib.rs: `validate_chain` accepts exactly the valid ledgers.
use sub_host_demo.Base.{
  ℕ, ◌+◌, ◌≤◌, ◌≡◌, ◌↔◌, inl, inr, refl, true, some, List, [], ◌∷◌, arith, nat_eq, leb, elem, All,
  ok, Bool-cases, Option-cases, Result-cases,
}
use sub_host_demo.Base.Words.{u64_max}
use sub_host_demo.Core.{
  Hash, Block, Transaction, Receipt, ReceiptStatus, success, failure, zero_hash,
}
use sub_host_demo.State.{State}
use sub_host_demo.Storage.Chain.{
  Codec, hash_of, check_sequence, check_commitment, check_blocks, find_block, check_receipt,
  check_receipts, check_root, validate_chain, is_success,
}
use sub_host_demo.Storage.Spec.{IsBlock, AreLinked, IsReceipt, AreApart, IsRooted, IsLedger}

module _ (c : Codec) where
  -- The place of a block, from its list of transactions.
  sequence_sound :
      (chain_id expected : ℕ) (parent : Hash) (b : Block) (tx : Transaction)
      (txs : List Transaction)
      → b.transactions ≡ txs
      → check_sequence c chain_id expected parent b ≡ ok tx
      → (txs ≡ tx ∷ [])
        × (b.header.height ≡ expected)
        × (b.header.parent_hash ≡ parent)
        × (b.header.chain_id ≡ chain_id)
        × (b.header.gas_used ≤ b.header.gas_limit)
  unfolding check_sequence
  sequence_sound chain_id expected parent b tx [] e h = ground arith
  sequence_sound chain_id expected parent b tx (t ∷ []) e h = ground arith
  sequence_sound chain_id expected parent b tx (t ∷ u ∷ ts) e h = ground arith

  block_sound :
      (chain_id expected : ℕ) (parent : Hash) (b : Block) (tx : Transaction)
      → check_sequence c chain_id expected parent b ≡ ok tx
      → check_commitment c chain_id b tx ≡ ok tt
      → IsBlock c chain_id expected parent b tx
  unfolding check_commitment
  block_sound chain_id expected parent b tx h k =
      let (single, height, parent_hash, chain, gas) =
        sequence_sound chain_id expected parent b tx b.transactions refl h in
      record {
        single = single;
        height = height;
        parent_hash = parent_hash;
        chain = chain;
        gas = gas;
        commits_tx = ground arith;
        tx_chain = ground arith;
        gas_used = ground arith;
        commits_receipt = ground arith;
      }

  block_complete :
      (chain_id expected : ℕ) (parent : Hash) (b : Block) (tx : Transaction)
      → IsBlock c chain_id expected parent b tx
      → (check_sequence c chain_id expected parent b ≡ ok tx)
        × (check_commitment c chain_id b tx ≡ ok tt)
  unfolding check_sequence check_commitment
  block_complete chain_id expected parent b tx h = (
    rw h.single (ground (arith, h.height, h.parent_hash, h.chain, h.gas)),
    ground (arith, h.commits_tx, h.tx_chain, h.gas_used, h.commits_receipt),
  )

  blocks_sound :
      (chain_id index : ℕ) (parent : Hash) (bs : List Block)
      → check_blocks c chain_id index parent bs ≡ ok tt
      → AreLinked c chain_id index parent bs
  unfolding check_blocks
  blocks_sound chain_id index parent [] h = tt
  blocks_sound chain_id index parent (b ∷ bs) h = elim (Bool-cases (leb (index + 1) u64_max)) [
    | inr over ↦ absurd (ground arith)
    | inl fits ↦ elim (Result-cases (check_sequence c chain_id (index + 1) parent b)) [
      | inr (e, x) ↦ absurd (ground arith)
      | inl (tx, x) ↦ elim (Result-cases (check_commitment c chain_id b tx)) [
        | inr (e, y) ↦ absurd (ground arith)
        | inl (tt, y) ↦ (
          ground arith,
          (tx, block_sound chain_id (index + 1) parent b tx x y),
          blocks_sound chain_id (index + 1) (hash_of c b) bs (ground arith),
        )
      ]
    ]
  ]

  blocks_complete :
      (chain_id index : ℕ) (parent : Hash) (bs : List Block)
      → AreLinked c chain_id index parent bs
      → check_blocks c chain_id index parent bs ≡ ok tt
  unfolding check_blocks
  blocks_complete chain_id index parent [] h = refl
  blocks_complete chain_id index parent (b ∷ bs) (fits, (tx, k), l) =
      let (x, y) = block_complete chain_id (index + 1) parent b tx k in
      ground (arith, x, y, blocks_complete chain_id (index + 1) (hash_of c b) bs l)

  receipt_sound :
      (bs : List Block) (r : Receipt) (b : Block)
      → find_block c r.block_hash bs ≡ some b
      → check_receipt c r b ≡ ok tt
      → IsReceipt c bs r
  unfolding check_receipt
  receipt_sound bs r b x y = record {
    block = b;
    found = x;
    height = ground arith;
    tx = ground arith;
    status = success_of r.status (ground arith);
    gas = ground arith;
    commits = ground arith;
  }
    where
      success_of : (st : ReceiptStatus) → is_success st ≡ true → st ≡ success
      success_of success h = refl
      success_of failure h = cc

  receipt_complete :
      (bs : List Block) (r : Receipt) (k : IsReceipt c bs r) → check_receipt c r k.block ≡ ok tt
  unfolding check_receipt
  receipt_complete bs r k = ground (arith, k.height, k.tx, k.status, k.gas, k.commits)

  receipts_sound :
      (bs : List Block) (seen : List Hash) (rs : List Receipt)
      → check_receipts c bs seen rs ≡ ok tt
      → AreApart seen rs × All (IsReceipt c bs) rs
  unfolding check_receipts
  receipts_sound bs seen [] h = (tt, tt)
  receipts_sound bs seen (r ∷ rs) h = elim (Bool-cases (elem r.block_hash seen)) [
    | inl twice ↦ absurd (ground arith)
    | inr once ↦ elim (Option-cases (find_block c r.block_hash bs)) [
      | inl x ↦ absurd (ground arith)
      | inr (b, x) ↦ elim (Result-cases (check_receipt c r b)) [
        | inr (e, y) ↦ absurd (ground arith)
        | inl (tt, y) ↦
            let (apart, all) = receipts_sound bs (r.block_hash ∷ seen) rs (ground arith) in
            ((once, apart), (receipt_sound bs r b x y, all))
      ]
    ]
  ]

  pub receipts_complete :
      (bs : List Block) (seen : List Hash) (rs : List Receipt)
      → AreApart seen rs
      → All (IsReceipt c bs) rs
      → check_receipts c bs seen rs ≡ ok tt
  unfolding check_receipts
  receipts_complete bs seen [] a h = refl
  receipts_complete bs seen (r ∷ rs) (once, a) (k, h) =
      ground
        (arith, k.found, receipt_complete bs r k, receipts_complete bs (r.block_hash ∷ seen) rs a h)

  root_exact :
      (s : State) (bs : List Block)
      → (check_root c s bs ≡ ok tt → IsRooted c s bs)
        × (IsRooted c s bs → check_root c s bs ≡ ok tt)
  unfolding check_root
  root_exact s [] = ((λ h. tt), (λ h. refl))
  root_exact s (b ∷ []) = ((λ h. ground arith), (λ h. ground arith))
  root_exact s (b ∷ b' ∷ bs) = root_exact s (b' ∷ bs)

  -- A ledger passes the gate exactly when it is a valid one: heights run from 1, each block names the
  -- one before it, holds one transaction of the chain and commits to it and to its receipt,
  -- receipts and blocks correspond one to one, and the newest block commits to the state.
  pub validate_chain_exact :
      (blocks : List Block) (receipts : List Receipt) (chain_id : ℕ) (s : State)
      → (validate_chain c blocks receipts chain_id s ≡ ok tt)
        ↔ IsLedger c chain_id s blocks receipts
  unfolding validate_chain
  validate_chain_exact blocks receipts chain_id s = (
    (λ h. elim (Result-cases (check_blocks c chain_id 0 zero_hash blocks)) [
      | inr (e, x) ↦ absurd (ground arith)
      | inl (tt, x) ↦ elim (Result-cases (check_receipts c blocks [] receipts)) [
        | inr (e, y) ↦ absurd (ground arith)
        | inl (tt, y) ↦
            let (apart, all) = receipts_sound blocks [] receipts y in
            record {
              linked = blocks_sound chain_id 0 zero_hash blocks x;
              counted = ground arith;
              apart = apart;
              described = all;
              rooted = (root_exact s blocks).0 (ground arith);
            }
      ]
    ]),
    (λ k. ground (
      arith,
      blocks_complete chain_id 0 zero_hash blocks k.linked,
      k.counted,
      receipts_complete blocks [] receipts k.apart k.described,
      (root_exact s blocks).1 k.rooted,
    )),
  )
