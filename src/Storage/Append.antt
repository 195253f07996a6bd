-- ===== src/Storage/Append.antt =====
-- crates/subhost-storage/src/lib.rs: a valid ledger and one more block. The block must not share its hash
-- with an older block of another header, which BLAKE3 is relied on for.
use mathlib.Core.Path.{subst}
use sub_host_demo.Base.{
  ℕ, ◌+◌, ◌≤◌, ◌<◌, ◌≡◌, ◌≢◌, ◌∙◌, sym, ap, refl, false, Option, none, some, List, [], ◌∷◌, ◌++◌,
  arith, nat_eq, length, elem, All, length-append, All-append,
}
use sub_host_demo.Base.Words.{u64_max}
use sub_host_demo.Core.{Hash, Block, Transaction, Receipt, zero_hash}
use sub_host_demo.State.{State}
use sub_host_demo.Storage.{last, height_of}
use sub_host_demo.Storage.Chain.{Codec, hash_of, find_block, state_root_of}
use sub_host_demo.Storage.Spec.{IsBlock, AreLinked, IsReceipt, AreApart, IsRooted, IsLedger}

module _ (c : Codec) where
  -- The hash that the next block names as its parent.
  abbrev pub tip : Hash → List Block → Hash
  tip parent [] = parent
  tip parent (b ∷ bs) = tip (hash_of c b) bs

  -- Blocks of one hash have one header.
  abbrev pub HasNoTwin : Block → List Block → Type 0
  HasNoTwin n = All (λ b. hash_of c b ≡ hash_of c n → b.header ≡ n.header)

  abbrev IsNew : Hash → List Block → Type 0
  IsNew h = All (λ b. hash_of c b ≢ h)

  find-append :
      (h : Hash) (b n : Block) (bs : List Block)
      → find_block c h bs ≡ some b
      → find_block c h (bs ++ n ∷ []) ≡ some b
  unfolding find_block
  find-append h b n [] e = cc
  find-append h b n (x ∷ bs) e = ground (arith, find-append h b n bs)

  find-append_new :
      (n : Block) (bs : List Block)
      → IsNew (hash_of c n) bs
      → (find_block c (hash_of c n) bs ≡ none)
        × (find_block c (hash_of c n) (bs ++ n ∷ []) ≡ some n)
  unfolding find_block
  find-append_new n [] h = (refl, ground arith)
  find-append_new n (x ∷ bs) h = ground (arith, find-append_new n bs h.1)

  AreLinked-append :
      (chain_id index expected : ℕ) (parent : Hash) (bs : List Block) (n : Block) (tx : Transaction)
      → AreLinked c chain_id index parent bs
      → expected ≡ index + length bs + 1
      → IsBlock c chain_id expected (tip parent bs) n tx
      → expected ≤ u64_max
      → AreLinked c chain_id index parent (bs ++ n ∷ [])
  AreLinked-append chain_id index expected parent [] n tx l e k h =
      let here : expected ≡ index + 1 = omega arith in
      (omega arith, (tx, subst (λ x. IsBlock c chain_id x parent n tx) here k), tt)
  AreLinked-append chain_id index expected parent (b ∷ bs) n tx (fits, here, l) e k h = (
    fits,
    here,
    AreLinked-append chain_id (index + 1) expected (hash_of c b) bs n tx l (omega arith) k h,
  )

  heights :
      (chain_id index limit : ℕ) (parent : Hash) (bs : List Block)
      → AreLinked c chain_id index parent bs
      → index + length bs ≤ limit
      → All (λ b. b.header.height ≤ limit) bs
  heights chain_id index limit parent [] l h = tt
  heights chain_id index limit parent (b ∷ bs) (fits, (tx, k), l) h =
      (omega (arith, k.height), heights chain_id (index + 1) limit (hash_of c b) bs l (omega arith))

  IsNew-of_height :
      (n : Block) (limit : ℕ) (bs : List Block)
      → All (λ b. b.header.height ≤ limit) bs
      → HasNoTwin n bs
      → limit < n.header.height
      → IsNew (hash_of c n) bs
  IsNew-of_height n limit [] a t h = tt
  IsNew-of_height n limit (b ∷ bs) a t h =
      ((λ e. omega (arith, a.0, ap (λ x. x.height) (t.0 e))), IsNew-of_height n limit bs a.1 t.1 h)

  receipts_append :
      (bs : List Block) (n : Block) (rs : List Receipt)
      → All (IsReceipt c bs) rs
      → All (IsReceipt c (bs ++ n ∷ [])) rs
  receipts_append bs n [] h = tt
  receipts_append bs n (r ∷ rs) (k, h) = (
    record {
      block = k.block;
      found = find-append r.block_hash k.block n bs k.found;
      height = k.height;
      tx = k.tx;
      status = k.status;
      gas = k.gas;
      commits = k.commits;
    },
    receipts_append bs n rs h,
  )

  hashes_new :
      (bs : List Block) (h : Hash) (rs : List Receipt)
      → find_block c h bs ≡ none
      → All (IsReceipt c bs) rs
      → All (λ r. r.block_hash ≢ h) rs
  hashes_new bs h [] e a = tt
  hashes_new bs h (r ∷ rs) e (k, a) =
      ((λ same. clash (ap (λ x. find_block c x bs) same ∙ e) k.found), hashes_new bs h rs e a)
    where
      clash : {o : Option Block} {b : Block} → o ≡ none → o ≢ some b
      clash x y = cc

AreApart-append :
    (n : Receipt) (seen : List Hash) (rs : List Receipt)
    → AreApart seen rs
    → elem n.block_hash seen ≡ false
    → All (λ r. r.block_hash ≢ n.block_hash) rs
    → AreApart seen (rs ++ n ∷ [])
AreApart-append n seen [] a e h = (e, tt)
AreApart-append n seen (r ∷ rs) a e h =
    (a.0, AreApart-append n (r.block_hash ∷ seen) rs a.1 (ground (arith, h.0)) h.1)

IsRooted-append :
    (c : Codec) (s : State) (bs : List Block) (n : Block)
    → state_root_of c s ≡ n.header.state_root
    → IsRooted c s (bs ++ n ∷ [])
IsRooted-append c s [] n h = h
IsRooted-append c s (b ∷ []) n h = h
IsRooted-append c s (b ∷ b' ∷ bs) n h = IsRooted-append c s (b' ∷ bs) n h

height-last :
    (c : Codec) (chain_id index : ℕ) (parent : Hash) (bs : List Block)
    → AreLinked c chain_id index parent bs
    → 0 < length bs
    → height_of (last bs) ≡ index + length bs
height-last c chain_id index parent [] l h = absurd (omega arith)
height-last c chain_id index parent (b ∷ []) (fits, (tx, k), l) h = omega (arith, k.height)
height-last c chain_id index parent (b ∷ b' ∷ bs) (fits, here, l) h =
    omega (arith, height-last c chain_id (index + 1) (hash_of c b) (b' ∷ bs) l (omega arith))

-- In a valid ledger the newest block's height is the number of blocks.
pub height-length :
    (c : Codec) (chain_id : ℕ) (bs : List Block)
    → AreLinked c chain_id 0 zero_hash bs
    → height_of (last bs) ≡ length bs
height-length c chain_id [] l = omega arith
height-length c chain_id (b ∷ bs) l =
    omega (arith, height-last c chain_id 0 zero_hash (b ∷ bs) l (omega arith))

module _ (c : Codec) (chain_id : ℕ) (s s' : State) (blocks : List Block) (receipts : List Receipt)
    (n : Block) (r : Receipt) (tx : Transaction) where
  -- A valid ledger, with a block of the next height that names the newest one, commits to the new
  -- state and has no twin, and with that block's receipt, is a valid ledger.
  pub IsLedger-append :
      IsLedger c chain_id s blocks receipts
      → IsBlock c chain_id (length blocks + 1) (tip c zero_hash blocks) n tx
      → length blocks + 1 ≤ u64_max
      → HasNoTwin c n blocks
      → r.block_hash ≡ hash_of c n
      → IsReceipt c (n ∷ []) r
      → state_root_of c s' ≡ n.header.state_root
      → IsLedger c chain_id s' (blocks ++ n ∷ []) (receipts ++ r ∷ [])
  IsLedger-append h k fits twin same desc rooted =
      let below = heights c chain_id 0 (length blocks) zero_hash blocks h.linked (omega arith) in
      let new = IsNew-of_height c n (length blocks) blocks below twin (omega (arith, k.height)) in
      let (absent, found) = find-append_new c n blocks new in
      let alone : find_block c (hash_of c n) (n ∷ []) ≡ some n = (find-append_new c n [] tt).1 in
      record {
        linked =
            AreLinked-append c chain_id 0 (length blocks + 1) zero_hash blocks n tx h.linked
              (omega arith) k fits;
        counted =
            omega
              (arith, h.counted, length-append blocks (n ∷ []), length-append receipts (r ∷ []));
        apart = AreApart-append r [] receipts h.apart refl (
            hashes_new c blocks r.block_hash receipts
              (ap (λ x. find_block c x blocks) same ∙ absent) h.described);
        described =
            All-append (IsReceipt c (blocks ++ n ∷ [])) r receipts
              (receipts_append c blocks n receipts h.described)
              (record {
                block = desc.block;
                found =
                    ap (λ x. find_block c x (blocks ++ n ∷ [])) same
                    ∙ (found
                        ∙ (sym alone
                            ∙ (ap (λ x. find_block c x (n ∷ [])) (sym same) ∙ desc.found)));
                height = desc.height;
                tx = desc.tx;
                status = desc.status;
                gas = desc.gas;
                commits = desc.commits;
              });
        rooted = IsRooted-append c s' blocks n rooted;
      }
