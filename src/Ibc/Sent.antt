-- ===== src/Ibc/Sent.antt =====
-- crates/subhost-ibc/src/lib.rs: packets sent, acknowledged and timed out.
use sub_host_demo.Base.{
  ℕ, ◌≡◌, ◌∙◌, ap, refl, true, false, some, List, [], ◌∷◌, arith, nat_eq, list_eq, pair_eq, ok, err,
  elem, beq_self,
}
use sub_host_demo.Map
use sub_host_demo.Map.{Map, get-insert, contains, is_some, get-remove}
use sub_host_demo.Ibc.{
  IbcModule, IbcPacket, IbcTransfer, Json, unknown_packet, invalid_packet, replay,
  acknowledge_packet, timeout_packet, send_transfer, receive_packet, open_channel,
  set_channel_state, set_current_height, ensure_enabled, put_channel, put_sent, set_next_send,
  add_ack, drop_sent, set_next_recv, add_receipt, is_acknowledged, is_expired,
}
use sub_host_demo.Ibc.Receive.{
  taken_by, jammed_by, Received, rejected, taken, jammed, receive_cases,
}
use sub_host_demo.Ibc.Calls.{
  Call, open_with, move, send, receive, acknowledge, time_out, at_height, perform, run,
  elem-set_insert, elem-set_insert_self,
}

-- On an enabled module, an acknowledgement is accepted exactly when the packet is among those sent and
-- has not been acknowledged.
pub acknowledge_packet_exact :
    (n : ℕ) (m : IbcModule)
    → m.config.enabled ≡ true
    → ((acknowledge_packet n m).0 ≡ ok tt
        → (contains n m.sent_packets ≡ true) × (is_acknowledged n m ≡ false))
      × ((contains n m.sent_packets ≡ true)
          → is_acknowledged n m ≡ false
          → (acknowledge_packet n m).0 ≡ ok tt)
unfolding acknowledge_packet ensure_enabled
acknowledge_packet_exact n m on = (λ h. ground arith, λ a b. ground arith)

-- An enabled module that still holds a packet which it has acknowledged.
record IsFinal (n : ℕ) (m : IbcModule) : Type 0 where
  enabled : m.config.enabled ≡ true
  known : contains n m.sent_packets ≡ true
  acknowledged : is_acknowledged n m ≡ true

IsFinal-same :
    (n : ℕ) (m m' : IbcModule)
    → m'.config ≡ m.config
    → m'.sent_packets ≡ m.sent_packets
    → m'.acknowledged_packets ≡ m.acknowledged_packets
    → IsFinal n m
    → IsFinal n m'
unfolding is_acknowledged
IsFinal-same n m m' a b c h = record {
  enabled = ap (λ x. x.enabled) a ∙ h.enabled;
  known = ap (λ x. contains n x) b ∙ h.known;
  acknowledged = ap (λ x. elem n x) c ∙ h.acknowledged;
}

acknowledge_packet-IsFinal :
    (n k : ℕ) (m : IbcModule) → IsFinal n m → IsFinal n (acknowledge_packet k m).1
unfolding acknowledge_packet ensure_enabled add_ack is_acknowledged
acknowledge_packet-IsFinal n k m h =
    let there = elem-set_insert n k m.acknowledged_packets in
    record {
      enabled = ground (arith, h.enabled);
      known = ground (arith, h.known);
      acknowledged = ground (arith, there, h.acknowledged);
    }

timeout_packet-IsFinal :
    (now n k : ℕ) (m : IbcModule) → IsFinal n m → IsFinal n (timeout_packet now k m).1
unfolding timeout_packet ensure_enabled drop_sent is_acknowledged
timeout_packet-IsFinal now n k m h =
    let kept = get-remove k n m.sent_packets in
    record {
      enabled = ground (arith, h.enabled);
      known = ground (arith, kept, h.known, h.acknowledged);
      acknowledged = ground (arith, h.acknowledged);
    }

contains-insert :
    (k n : ℕ) (p : IbcPacket) (sent : Map ℕ IbcPacket)
    → contains n sent ≡ true
    → contains n (Map.insert k p sent) ≡ true
contains-insert k n p sent h = ground (arith, get-insert k n p sent)

send_transfer-IsFinal :
    (json : Json) (now n : ℕ) (t : IbcTransfer) (m : IbcModule)
    → IsFinal n m
    → IsFinal n (send_transfer json now t m).1
unfolding send_transfer ensure_enabled put_sent set_next_send is_acknowledged
send_transfer-IsFinal json now n t m h = record {
  enabled = ground (arith, h.enabled);
  known = grind (arith, contains-insert, h.known);
  acknowledged = ground (arith, h.acknowledged);
}

receive_packet-IsFinal :
    (json : Json) (now n : ℕ) (p : IbcPacket) (m : IbcModule)
    → IsFinal n m
    → IsFinal n (receive_packet json now p m).1
receive_packet-IsFinal json now n p m h = by_cases (receive_cases json now p m)
  where
    by_cases : Received json now p m → IsFinal n (receive_packet json now p m).1
    by_cases (rejected _ _ e) = rw e h
    by_cases (taken _ _ _ e) =
        rw e (unfold taken_by set_next_recv add_receipt in (IsFinal-same n m _ refl refl refl h))
    by_cases (jammed _ _ _ _ e) =
        rw e (unfold jammed_by set_next_recv add_receipt in (IsFinal-same n m _ refl refl refl h))

module _ (json : Json) (n : ℕ) where
  perform-IsFinal : (c : Call) (m : IbcModule) → IsFinal n m → IsFinal n (perform json c m)
  unfolding perform open_channel set_channel_state ensure_enabled put_channel set_current_height
  perform-IsFinal (open_with p q c o) m h =
      IsFinal-same n m _ (ground arith) (ground arith) (ground arith) h
  perform-IsFinal (move id s) m h =
      IsFinal-same n m _ (ground arith) (ground arith) (ground arith) h
  perform-IsFinal (send now t) m h = send_transfer-IsFinal json now n t m h
  perform-IsFinal (receive now p) m h = receive_packet-IsFinal json now n p m h
  perform-IsFinal (acknowledge k) m h = acknowledge_packet-IsFinal n k m h
  perform-IsFinal (time_out now k) m h = timeout_packet-IsFinal now n k m h
  perform-IsFinal (at_height k) m h = IsFinal-same n m _ refl refl refl h

  run-IsFinal : (cs : List Call) (m : IbcModule) → IsFinal n m → IsFinal n (run json cs m)
  unfolding run
  run-IsFinal [] m h = h
  run-IsFinal (c ∷ cs) m h = run-IsFinal cs (perform json c m) (perform-IsFinal c m h)

  accepted-IsFinal :
      (m : IbcModule) → (acknowledge_packet n m).0 ≡ ok tt → IsFinal n (acknowledge_packet n m).1
  unfolding acknowledge_packet ensure_enabled add_ack is_acknowledged
  accepted-IsFinal m a =
      let there = elem-set_insert_self n m.acknowledged_packets in
      record { enabled = ground arith; known = ground arith; acknowledged = ground arith }

  settled :
      (now : ℕ) (m : IbcModule)
      → IsFinal n m
      → ((acknowledge_packet n m).0 ≡ err replay)
        × ((timeout_packet now n m).0
            ≡ err (invalid_packet "an acknowledged packet cannot time out"))
  unfolding acknowledge_packet timeout_packet ensure_enabled
  settled now m h = (
    ground (arith, h.enabled, h.known, h.acknowledged),
    ground (arith, h.enabled, h.known, h.acknowledged),
  )

  -- Once the acknowledgement of a packet has been accepted, and whatever calls follow, it is not
  -- acknowledged again and does not time out: the one is refused as a replay, the other as
  -- invalid.
  pub acknowledged_is_final :
      (now : ℕ) (cs : List Call) (m : IbcModule)
      → (acknowledge_packet n m).0 ≡ ok tt
      → ((acknowledge_packet n (run json cs (acknowledge_packet n m).1)).0 ≡ err replay)
        × ((timeout_packet now n (run json cs (acknowledge_packet n m).1)).0
            ≡ err (invalid_packet "an acknowledged packet cannot time out"))
  acknowledged_is_final now cs m a =
      settled now (run json cs (acknowledge_packet n m).1)
        (run-IsFinal cs (acknowledge_packet n m).1 (accepted-IsFinal m a))

-- On an enabled module, a timeout is granted for a packet that was sent, has not been acknowledged and
-- has passed one of its timeouts. The packet is then forgotten: neither an acknowledgement nor
-- a second timeout is accepted for it.
pub timeout_packet_once :
    (now later n : ℕ) (m : IbcModule) (p : IbcPacket)
    → (timeout_packet now n m).0 ≡ ok p
    → (Map.get n m.sent_packets ≡ some p)
      × (is_acknowledged n m ≡ false)
      × (is_expired m.current_height now p ≡ true)
      × ((acknowledge_packet n (timeout_packet now n m).1).0 ≡ err (unknown_packet n))
      × ((timeout_packet later n (timeout_packet now n m).1).0 ≡ err (unknown_packet n))
unfolding acknowledge_packet timeout_packet ensure_enabled drop_sent
timeout_packet_once now later n m p h =
    let gone = get-remove n n m.sent_packets in
    let self = beq_self n in (ground arith, ground arith, ground arith, ground arith, ground arith)
