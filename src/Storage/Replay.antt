-- ===== src/Storage/Replay.antt =====
-- crates/subhost-storage/src/lib.rs: a valid ledger is restored from its snapshot.
use sub_host_demo.Base.{◌≡◌, ◌≢◌, ◌∙◌, sym, ap, refl, List, [], ◌∷◌, arith, nat_eq, ok}
use sub_host_demo.Core.{Address, Block, Receipt}
use sub_host_demo.State.{State, account, snapshot, root}
use sub_host_demo.State.Snapshot.{IsState, snapshot_roundtrip}
use sub_host_demo.Storage.Chain.{Codec, state_root_of}
use sub_host_demo.Storage.Spec.{IsRooted, IsLedger}
use sub_host_demo.Storage.Validate.{validate_chain_exact}
use sub_host_demo.Storage.{LedgerStore, RestoredLedger, FileFormat, restore}

IsRooted-ext :
    (c : Codec) (s t : State) (bs : List Block)
    → state_root_of c t ≡ state_root_of c s
    → IsRooted c s bs
    → IsRooted c t bs
IsRooted-ext c s t [] e h = tt
IsRooted-ext c s t (b ∷ []) e h = e ∙ h
IsRooted-ext c s t (b ∷ b' ∷ bs) e h = IsRooted-ext c s t (b' ∷ bs) e h

-- A ledger is restored from its snapshot with its chain, its blocks and receipts as they were, and
-- the account that every address had.
pub record IsRestored (s : State) (blocks : List Block) (receipts : List Receipt)
    (r : RestoredLedger) : Type 0 where
  pub chain : r.state.chain_id ≡ s.chain_id
  pub accounts : (a : Address) → account a r.state ≡ account a s
  pub snapshots : snapshot r.state ≡ snapshot s
  pub blocks_kept : r.blocks ≡ blocks
  pub receipts_kept : r.receipts ≡ receipts

pub restore_ledger :
    (f : FileFormat) (store : LedgerStore) (s : State) (blocks : List Block)
    (receipts : List Receipt)
    → IsState s
    → store.chain_id ≢ 0
    → s.chain_id ≡ store.chain_id
    → IsLedger f.codec store.chain_id s blocks receipts
    → (r : RestoredLedger) × (restore f store (record {
      chain_id = store.chain_id;
      state = snapshot s;
      blocks = blocks;
      receipts = receipts;
    })
        ≡ ok r)
      × IsRestored s blocks receipts r
unfolding restore
restore_ledger f store s blocks receipts keys positive chain h =
    let (t, e, tc, ta, ts) = snapshot_roundtrip s keys (λ z. positive (sym chain ∙ z)) in
    let same : state_root_of f.codec t ≡ state_root_of f.codec s = same_root t s ts in
    let valid = (validate_chain_exact f.codec blocks receipts store.chain_id t).1 (record {
      linked = h.linked;
      counted = h.counted;
      apart = h.apart;
      described = h.described;
      rooted = IsRooted-ext f.codec s t blocks same h.rooted;
    }) in
    (
      record { state = t; blocks = blocks; receipts = receipts },
      ground (arith, chain_of s, chain, e, valid),
      record {
        chain = tc;
        accounts = ta;
        snapshots = ts;
        blocks_kept = refl;
        receipts_kept = refl;
      },
    )
  where
    same_root :
        (t s : State) → snapshot t ≡ snapshot s → state_root_of f.codec t ≡ state_root_of f.codec s
    same_root t s e =
        unfold state_root_of root in ap (λ x. f.codec.digest.blake3 (f.codec.encode_state x)) e

    chain_of : (s : State) → (snapshot s).chain_id ≡ s.chain_id
    chain_of s = unfold snapshot in refl
