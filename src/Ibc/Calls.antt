-- ===== src/Ibc/Calls.antt =====
-- crates/subhost-ibc/src/lib.rs: the calls of the module, in any order, and what the other calls
-- leave alone.
use sub_host_demo.Base.{
  ℕ, ◌≡◌, refl, inl, inr, true, List, [], ◌∷◌, arith, nat_eq, list_eq, pair_eq, elem, Bool-cases,
  beq_self,
}
use sub_host_demo.Ibc.Names.{Text}
use sub_host_demo.Ibc.{
  IbcModule, IbcPacket, IbcTransfer, Json, ChannelOrdering, ChannelState, ensure_enabled,
  open_channel, set_channel_state, send_transfer, receive_packet, acknowledge_packet,
  timeout_packet, set_current_height, put_channel, put_sent, set_next_send, add_receipt,
  set_next_recv, add_ack, drop_sent, set_insert, receipt_insert, has_received,
}
use sub_host_demo.Ibc.Receive.{
  taken_by, jammed_by, Received, rejected, taken, jammed, receive_cases,
}

-- The clock's reading comes with the calls that read it.
pub data Call : Type 0 where
  open_with : Text → Text → Text → ChannelOrdering → Call
  move : Text → ChannelState → Call
  send : ℕ → IbcTransfer → Call
  receive : ℕ → IbcPacket → Call
  acknowledge : ℕ → Call
  time_out : ℕ → ℕ → Call
  at_height : ℕ → Call

module _ (json : Json) where
  unfoldable pub perform : Call → IbcModule → IbcModule
  perform (open_with p q c o) m = (open_channel p q c o m).1
  perform (move id s) m = (set_channel_state id s m).1
  perform (send now t) m = (send_transfer json now t m).1
  perform (receive now p) m = (receive_packet json now p m).1
  perform (acknowledge n) m = (acknowledge_packet n m).1
  perform (time_out now n) m = (timeout_packet now n m).1
  perform (at_height h) m = set_current_height h m

  unfoldable pub run : List Call → IbcModule → IbcModule
  run [] m = m
  run (c ∷ cs) m = run cs (perform c m)

pub elem-receipt_insert :
    (a b : Text × ℕ) (xs : List (Text × ℕ)) → elem a xs ≡ true → elem a (receipt_insert b xs) ≡ true
unfolding receipt_insert
elem-receipt_insert a b xs h = ground arith

pub elem-receipt_insert_self :
    (a : Text × ℕ) (xs : List (Text × ℕ)) → elem a (receipt_insert a xs) ≡ true
unfolding receipt_insert
elem-receipt_insert_self a xs = elim (Bool-cases (elem a xs)) [
  | inl there ↦ rw there there
  | inr new ↦ rw new (rw (beq_self a) refl)
]

pub elem-set_insert : (a b : ℕ) (xs : List ℕ) → elem a xs ≡ true → elem a (set_insert b xs) ≡ true
unfolding set_insert
elem-set_insert a b xs h = ground arith

pub elem-set_insert_self : (a : ℕ) (xs : List ℕ) → elem a (set_insert a xs) ≡ true
unfolding set_insert
elem-set_insert_self a xs = ground arith

module _ (m : IbcModule) where
  -- What each of the other calls leaves alone.
  pub record Keeps (m' : IbcModule) : Type 0 where
    pub receipts : m'.received_packets ≡ m.received_packets
    pub received : m'.next_sequence_recv ≡ m.next_sequence_recv

  pub open_channel-Keeps : (p q c : Text) (o : ChannelOrdering) → Keeps (open_channel p q c o m).1
  unfolding open_channel ensure_enabled put_channel
  open_channel-Keeps p q c o = record { receipts = ground arith; received = ground arith }

  pub set_channel_state-Keeps : (id : Text) (s : ChannelState) → Keeps (set_channel_state id s m).1
  unfolding set_channel_state ensure_enabled put_channel
  set_channel_state-Keeps id s = record { receipts = ground arith; received = ground arith }

  pub send_transfer-Keeps :
      (json : Json) (now : ℕ) (t : IbcTransfer) → Keeps (send_transfer json now t m).1
  unfolding send_transfer ensure_enabled put_sent set_next_send
  send_transfer-Keeps json now t = record { receipts = ground arith; received = ground arith }

  pub acknowledge_packet-Keeps : (n : ℕ) → Keeps (acknowledge_packet n m).1
  unfolding acknowledge_packet ensure_enabled add_ack
  acknowledge_packet-Keeps n = record { receipts = ground arith; received = ground arith }

  pub timeout_packet-Keeps : (now n : ℕ) → Keeps (timeout_packet now n m).1
  unfolding timeout_packet ensure_enabled drop_sent
  timeout_packet-Keeps now n = record { receipts = ground arith; received = ground arith }

module _ (json : Json) (s : Text) (n : ℕ) where
  received_of_Keeps :
      (m m' : IbcModule) → Keeps m m' → has_received s n m ≡ true → has_received s n m' ≡ true
  unfolding has_received
  received_of_Keeps m m' k h = rw k.receipts h

  received-taken_by :
      (p : IbcPacket) (m : IbcModule)
      → has_received s n m ≡ true
      → (has_received s n (taken_by p m) ≡ true) × (has_received s n (jammed_by p m) ≡ true)
  unfolding taken_by jammed_by set_next_recv add_receipt has_received
  received-taken_by p m h =
      let kept = elem-receipt_insert (s, n) (p.source_channel, p.sequence) m.received_packets h in
      (kept, kept)

  received-receive :
      (now : ℕ) (p : IbcPacket) (m : IbcModule)
      → has_received s n m ≡ true
      → has_received s n (receive_packet json now p m).1 ≡ true
  received-receive now p m h = by_cases (receive_cases json now p m)
    where
      by_cases : Received json now p m → has_received s n (receive_packet json now p m).1 ≡ true
      by_cases (rejected _ _ e) = rw e h
      by_cases (taken _ _ _ e) = rw e ((received-taken_by p m h).0)
      by_cases (jammed _ _ _ _ e) = rw e ((received-taken_by p m h).1)

  received-perform :
      (c : Call) (m : IbcModule)
      → has_received s n m ≡ true
      → has_received s n (perform json c m) ≡ true
  unfolding perform
  received-perform (open_with p q c o) m h =
      received_of_Keeps m (open_channel p q c o m).1 (open_channel-Keeps m p q c o) h
  received-perform (move id st) m h =
      received_of_Keeps m (set_channel_state id st m).1 (set_channel_state-Keeps m id st) h
  received-perform (send now t) m h =
      received_of_Keeps m (send_transfer json now t m).1 (send_transfer-Keeps m json now t) h
  received-perform (receive now p) m h = received-receive now p m h
  received-perform (acknowledge k) m h =
      received_of_Keeps m (acknowledge_packet k m).1 (acknowledge_packet-Keeps m k) h
  received-perform (time_out now k) m h =
      received_of_Keeps m (timeout_packet now k m).1 (timeout_packet-Keeps m now k) h
  received-perform (at_height k) m h =
      unfold has_received set_current_height in (unfold has_received in h)

  -- A receipt is never lost.
  pub received-run :
      (cs : List Call) (m : IbcModule)
      → has_received s n m ≡ true
      → has_received s n (run json cs m) ≡ true
  unfolding run
  received-run [] m h = h
  received-run (c ∷ cs) m h = received-run cs (perform json c m) (received-perform c m h)
