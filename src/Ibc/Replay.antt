-- ===== src/Ibc/Replay.antt =====
-- crates/subhost-ibc/src/lib.rs: no packet is taken twice, ordered channels take packets in order,
-- and what the last sequence number does.
use sub_host_demo.Base.{
  ℕ, ◌+◌, max, ◌≡◌, ◌≢◌, ◌∙◌, sym, ap, refl, true, false, some, List, arith, nat_eq, list_eq,
  pair_eq, ok, err, ⊤, beq_self,
}
use sub_host_demo.Map
use sub_host_demo.Map.{Map, get-insert}
use sub_host_demo.Ibc.{
  IbcModule, IbcPacket, IbcChannel, IbcTransfer, Json, sequence_overflow, replay, receive_packet,
  check_order, ensure_enabled, has_received, expected_recv_sequence, ordered, add_receipt,
  set_next_recv,
}
use sub_host_demo.Ibc.Receive.{
  taken_by, jammed_by, Received, rejected, taken, jammed, receive_cases, Passes,
}
use sub_host_demo.Ibc.Calls.{Call, run, received-run, elem-receipt_insert_self}

check_order_fresh :
    (p : IbcPacket) (c : IbcChannel) (m : IbcModule) {u : ⊤}
    → check_order p c m ≡ ok u
    → (has_received p.source_channel p.sequence m ≡ false)
      × ((c.ordering ≡ ordered) → p.sequence ≡ expected_recv_sequence p.destination_channel m)
unfolding check_order
check_order_fresh p c m h = (ground arith, λ o. ground arith)

received-after :
    (p : IbcPacket) (m : IbcModule)
    → (has_received p.source_channel p.sequence (taken_by p m) ≡ true)
      × (has_received p.source_channel p.sequence (jammed_by p m) ≡ true)
unfolding taken_by jammed_by set_next_recv add_receipt has_received
received-after p m =
    let there = elem-receipt_insert_self (p.source_channel, p.sequence) m.received_packets in
    (there, there)

module _ (json : Json) where
  fresh_of_ok :
      (now : ℕ) (p : IbcPacket) (m : IbcModule) {t : IbcTransfer}
      → (receive_packet json now p m).0 ≡ ok t
      → (has_received p.source_channel p.sequence m ≡ false)
        × (has_received p.source_channel p.sequence (receive_packet json now p m).1 ≡ true)
  fresh_of_ok now p m {t} h = by_cases (receive_cases json now p m)
    where
      by_cases :
          Received json now p m
          → (has_received p.source_channel p.sequence m ≡ false)
            × (has_received p.source_channel p.sequence (receive_packet json now p m).1 ≡ true)
      by_cases (rejected _ _ e) = absurd (cc (ap (λ r. r.0) e))
      by_cases (jammed _ _ _ _ e) = absurd (cc (ap (λ r. r.0) e))
      by_cases (taken c _ w e) =
          ((check_order_fresh p c m w.in_order).0, rw e ((received-after p m).0))

  -- Once a packet has been accepted, no packet of its source channel and sequence is accepted again,
  -- whatever calls come between and at whatever time.
  pub no_replay :
      (now later : ℕ) (p q : IbcPacket) (cs : List Call) (m : IbcModule) (t : IbcTransfer)
      → (receive_packet json now p m).0 ≡ ok t
      → q.source_channel ≡ p.source_channel
      → q.sequence ≡ p.sequence
      → (u : IbcTransfer)
      → (receive_packet json later q (run json cs (receive_packet json now p m).1)).0 ≢ ok u
  no_replay now later p q cs m t h same_channel same_sequence u again =
      let kept =
        received-run json p.source_channel p.sequence cs (receive_packet json now p m).1
          (fresh_of_ok now p m h).1 in
      let (fresh, _) = fresh_of_ok later q (run json cs (receive_packet json now p m).1) again in
      let there = rw (sym same_channel, sym same_sequence) at kept in cc (there, fresh)

  expected-taken_by :
      (p : IbcPacket) (m : IbcModule)
      → expected_recv_sequence p.destination_channel (taken_by p m)
        ≡ max (expected_recv_sequence p.destination_channel m) p.sequence + 1
  unfolding taken_by expected_recv_sequence set_next_recv add_receipt
  expected-taken_by p m = let id = p.destination_channel in rw get-insert (rw (beq_self id) refl)

  -- An ordered channel accepts the packets of consecutive sequence numbers: the one accepted is the one
  -- expected, and the next one is expected afterwards.
  pub ordered_in_sequence :
      (now : ℕ) (p : IbcPacket) (m : IbcModule) (c : IbcChannel) (t : IbcTransfer)
      → Map.get p.destination_channel m.channels ≡ some c
      → c.ordering ≡ ordered
      → (receive_packet json now p m).0 ≡ ok t
      → (p.sequence ≡ expected_recv_sequence p.destination_channel m)
        × (expected_recv_sequence p.destination_channel (receive_packet json now p m).1
            ≡ p.sequence + 1)
  ordered_in_sequence now p m c t found o h = by_cases (receive_cases json now p m)
    where
      by_cases :
          Received json now p m
          → (p.sequence ≡ expected_recv_sequence p.destination_channel m)
            × (expected_recv_sequence p.destination_channel (receive_packet json now p m).1
                ≡ p.sequence + 1)
      by_cases (rejected _ _ e) = absurd (cc (ap (λ r. r.0) e))
      by_cases (jammed _ _ _ _ e) = absurd (cc (ap (λ r. r.0) e))
      by_cases (taken d u w e) =
          let turn = (check_order_fresh p d m w.in_order).1 (ground (arith, w.found)) in
          (turn, rw e (expected-taken_by p m ∙ omega arith))

  refused_when_jammed :
      (now : ℕ) (p : IbcPacket) (c : IbcChannel) (t : IbcTransfer) (m : IbcModule)
      → Passes json now p c t m
      → has_received p.source_channel p.sequence m ≡ false
      → (receive_packet json now p (jammed_by p m)).0 ≡ err replay
  unfolding receive_packet ensure_enabled check_order
  refused_when_jammed now p c t m w fresh =
      ground
        (arith, w.enabled, w.shape, w.found, w.bound, w.timely, (received-after p m).1, same p m)
    where
      same :
          (p : IbcPacket) (m : IbcModule)
          → (jammed_by p m).config ≡ m.config
            × ((jammed_by p m).channels ≡ m.channels)
            × ((jammed_by p m).current_height ≡ m.current_height)
      same p m = unfold jammed_by set_next_recv add_receipt in (refl, refl, refl)

  -- Whenever a packet is refused because the next sequence number would overflow, it has left its
  -- receipt behind: sent again at once, it is refused as a replay.
  pub overflow_blocks_retry :
      (now : ℕ) (p : IbcPacket) (m : IbcModule)
      → (receive_packet json now p m).0 ≡ err sequence_overflow
      → (receive_packet json now p (receive_packet json now p m).1).0 ≡ err replay
  overflow_blocks_retry now p m h = by_cases (receive_cases json now p m)
    where
      by_cases :
          Received json now p m
          → (receive_packet json now p (receive_packet json now p m).1).0 ≡ err replay
      by_cases (rejected e other x) = absurd (other (ground (arith, x, h)))
      by_cases (taken _ _ _ e) = absurd (cc (ap (λ r. r.0) e))
      by_cases (jammed c t w _ e) =
          rw e (refused_when_jammed now p c t m w ((check_order_fresh p c m w.in_order).0))
