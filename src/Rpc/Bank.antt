-- ===== src/Rpc/Bank.antt =====
-- crates/subhost-rpc/src/lib.rs: the node as a bank. What its clients see is a log of transactions, and for every
-- address an amount and the next nonce; pools, blocks, hashes and files are forgotten.
use mathlib.Core.Path.{subst}
use sub_host_demo.Base.{
  ℕ, ◌+◌, ◌*◌, ◌≤◌, ◌<◌, ◌≡◌, ◌⊎◌, ◌∙◌, sym, ap, inl, inr, refl, some, List, [], ◌∷◌, ◌++◌, ◌==◌,
  nat_eq, if◌then◌else◌, ok, err, Result-cases,
}
use sub_host_demo.Core.{Address, Digest, Block, Receipt, Transaction, tx_hash}
use sub_host_demo.State.{entry, balance, nonce}
use sub_host_demo.State.Effect.{executed_transaction}
use sub_host_demo.Mempool.{admit, get_tx}
use sub_host_demo.Storage.{FileFormat, WriteIo}
use sub_host_demo.Rpc.{RpcState, RpcError, submit_transaction}
use sub_host_demo.Rpc.Ledger.{IsSound}
use sub_host_demo.Rpc.Restart.{SameChain}
use sub_host_demo.Rpc.Effect.{IsIncluded, submit_transaction_failed, submit_transaction_included}

pub record Bank : Type 0 where
  pub log : List Transaction
  pub funds : Address → ℕ
  pub next : Address → ℕ

-- A payment that is in order and covered goes into the log, moves its value and takes its fee.
pub record Pays (tx : Transaction) (a b : Bank) : Type 0 where
  pub to : Address
  pub destination : tx.to ≡ some to
  pub in_order : tx.nonce ≡ a.next tx.from
  pub covered : tx.value + tx.gas_price * tx.gas_limit ≤ a.funds tx.from
  pub logged : b.log ≡ a.log ++ tx ∷ []
  pub moved :
      (x : Address)
      → b.funds x + (if tx.from == x then tx.value + tx.gas_price * tx.gas_limit else 0)
        ≡ a.funds x + (if to == x then tx.value else 0)
  pub turned : (x : Address) → b.next x ≡ (if tx.from == x then tx.nonce + 1 else a.next x)

pub record Stays (a b : Bank) : Type 0 where
  pub log : b.log ≡ a.log
  pub funds : (x : Address) → b.funds x ≡ a.funds x
  pub next : (x : Address) → b.next x ≡ a.next x

abbrev pub transactions_of : List Block → List Transaction
transactions_of [] = []
transactions_of (b ∷ bs) = b.transactions ++ transactions_of bs

-- What the clients of a node see.
abbrev pub bank_of : RpcState → Bank
bank_of n = record {
  log = transactions_of n.blocks;
  funds = λ a. balance a n.state;
  next = λ a. nonce a n.state;
}

append_assoc : (xs ys zs : List Transaction) → (xs ++ ys) ++ zs ≡ xs ++ (ys ++ zs)
append_assoc [] ys zs = refl
append_assoc (x ∷ xs) ys zs = rw (append_assoc xs ys zs) refl

append_nil : (xs : List Transaction) → xs ++ [] ≡ xs
append_nil [] = refl
append_nil (x ∷ xs) = rw (append_nil xs) refl

transactions_of-append :
    (b : Block) (bs : List Block)
    → transactions_of (bs ++ b ∷ []) ≡ transactions_of bs ++ b.transactions
transactions_of-append b [] = append_nil b.transactions
transactions_of-append b (x ∷ bs) =
    ap (λ ts. x.transactions ++ ts) (transactions_of-append b bs)
    ∙ sym (append_assoc x.transactions (transactions_of bs) b.transactions)

same-Stays : (m n : RpcState) → SameChain m n → Stays (bank_of n) (bank_of m)
unfolding balance nonce entry
same-Stays m n s = record {
  log = ap transactions_of s.blocks;
  funds = λ x. rw (s.accounts x) refl;
  next = λ x. rw (s.accounts x) refl;
}

included-Pays :
    (d : Digest) (tx : Transaction) (r : Receipt) (n m : RpcState)
    → IsIncluded d tx r n m
    → Pays tx (bank_of n) (bank_of m)
included-Pays d tx r n m k =
    let (_, moves, turns, _) = executed_transaction tx k.to n.state k.admissible in
    record {
      to = k.to;
      destination = k.admissible.destination;
      in_order = k.admissible.in_order;
      covered = k.admissible.funds;
      logged =
          ap transactions_of k.appended
          ∙ (transactions_of-append k.block n.blocks
              ∙ ap (λ ts. transactions_of n.blocks ++ ts) k.content);
      moved = λ x.
          subst
            (λ t.
              balance x t + (if tx.from == x then tx.value + tx.gas_price * tx.gas_limit else 0)
              ≡ balance x n.state + (if k.to == x then tx.value else 0))
            (sym k.executed) (moves x);
      turned = λ x.
          subst (λ t. nonce x t ≡ (if tx.from == x then tx.nonce + 1 else nonce x n.state))
            (sym k.executed) (turns x);
    }

-- A submission to a sound node is one step of the bank: it changes nothing that clients see if it
-- fails, and it pays the transaction if it succeeds, if no other pending transaction has its hash.
pub submit_transaction_refines :
    (f : FileFormat) (sys : WriteIo) (now : ℕ) (tx : Transaction) (n : RpcState)
    → IsSound f n
    → 0 < n.mempool.config.max_pending
    → ((u : Transaction)
        → get_tx (tx_hash f.codec.digest tx) (admit f.codec.digest tx n.mempool).1 ≡ some u
        → u ≡ tx)
    → let (r, n') = submit_transaction f sys now tx n in
      ((r ≡ ok (tx_hash f.codec.digest tx)) × Pays tx (bank_of n) (bank_of n'))
      ⊎ (((e : RpcError) × (r ≡ err e)) × Stays (bank_of n) (bank_of n'))
submit_transaction_refines f sys now tx n s roomy alone =
    elim (Result-cases (submit_transaction f sys now tx n).0) [
      | inl (h, x) ↦
          let (e, (r, k)) = submit_transaction_included f sys now tx n h s roomy alone x in
          inl (x ∙ ap ok e, included-Pays f.codec.digest tx r n _ k)
      | inr (e, x) ↦
          inr ((e, x), same-Stays _ n (submit_transaction_failed f sys now tx n e s.pool roomy x))
    ]
