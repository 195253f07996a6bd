-- ===== src/Network/Relay.antt =====
-- crates/subhost-network/src/lib.rs: what the loop publishes and delivers.
use sub_host_demo.Base.{
  nat_eq, ℕ, ◌≤◌, ◌<◌, ◌≡◌, inl, inr, none, some, List, [], ◌∷◌, ◌++◌, Bool, All, All-append, arith,
  length, length-append, elem, ok, Bool-cases, Option-cases, Result-cases,
}
use sub_host_demo.Core.{Byte}
use sub_host_demo.Network.{
  parsed_addresses, NetworkManager, NetworkMessage, NetworkConfig, Transport, SwarmEvent, Turn,
  validate, publish, handle_gossip, handle_event, pump, run, new_manager, with_inbound, take_next,
  channel_capacity, connection_established, connection_closed, gossip_message, other_event, event,
  received, taken,
}

abbrev pub IsValid : NetworkMessage → Type 0
IsValid m = validate m ≡ ok tt

take-All :
    (P : NetworkMessage → Type 0) (ms : List NetworkMessage) → All P ms → All P (take_next ms)
take-All P [] h = tt
take-All P (m ∷ ms) h = h.1

length-take-le : (ms : List NetworkMessage) → length (take_next ms) ≤ length ms
length-take-le [] = omega arith
length-take-le (m ∷ ms) = omega arith

module _ {Multiaddr : Type 0} (t : Transport Multiaddr) where
  -- A channel takes a message behind the others, only below its capacity.
  abbrev pub IsBoundedQueue : Type 0
  IsBoundedQueue =
      (capacity : ℕ) (waiting after : List NetworkMessage) (m : NetworkMessage)
      → t.try_send capacity waiting m ≡ some after
      → (length waiting < capacity) × (after ≡ waiting ++ m ∷ [])

  -- The bytes are those of a valid message.
  abbrev pub IsEncoded : List Byte → Type 0
  IsEncoded bytes = (m : NetworkMessage) × (IsValid m × (t.to_vec m ≡ some bytes))

  pub record IsSound (n : NetworkManager) : Type 0 where
    pub encoded : All IsEncoded n.published
    pub valid : All IsValid n.inbound
    pub bounded : length n.inbound ≤ channel_capacity

  publish-IsSound : (m : NetworkMessage) (n : NetworkManager) → IsSound n → IsSound (publish t m n)
  unfolding publish
  publish-IsSound m n s = elim (Result-cases (validate m)) [
    | inr (e, x) ↦ rw x s
    | inl (u, x) ↦ rw x (elim (Option-cases (t.to_vec m)) [
      | inl y ↦ rw y s
      | inr (bytes, y) ↦ rw y (elim (Bool-cases (t.publishes bytes)) [
        | inr off ↦ rw off s
        | inl on ↦
            rw on
              (record { encoded = ((m, (x, y)), s.encoded); valid = s.valid; bounded = s.bounded })
      ])
    ])
  ]

  -- What comes behind a queue within its bounds.
  queued-IsSound :
      (m : NetworkMessage) (after : List NetworkMessage) (n : NetworkManager)
      → IsBoundedQueue
      → IsValid m
      → t.try_send channel_capacity n.inbound m ≡ some after
      → IsSound n
      → IsSound (with_inbound after n)
  queued-IsSound m after n q x y s = record {
    encoded = s.encoded;
    valid =
        rw (q channel_capacity n.inbound after m y).1 (All-append IsValid m n.inbound s.valid x);
    bounded = rw (q channel_capacity n.inbound after m y).1 (
        omega
          (arith, (q channel_capacity n.inbound after m y).0, length-append n.inbound (m ∷ [])));
  }

  handle_gossip-IsSound :
      (bytes : List Byte) (n : NetworkManager)
      → IsBoundedQueue
      → IsSound n
      → IsSound (handle_gossip t bytes n)
  unfolding handle_gossip
  handle_gossip-IsSound bytes n q s = elim (Option-cases (t.from_slice bytes)) [
    | inl x ↦ rw x s
    | inr (m, x) ↦ rw x (elim (Result-cases (validate m)) [
      | inr (e, y) ↦ rw y s
      | inl (u, y) ↦ rw y (elim (Option-cases (t.try_send channel_capacity n.inbound m)) [
        | inl z ↦ rw z s
        | inr (after, z) ↦ rw z (queued-IsSound m after n q y z s)
      ])
    ])
  ]

  handle_event-IsSound :
      (e : SwarmEvent) (n : NetworkManager)
      → IsBoundedQueue
      → IsSound n
      → IsSound (handle_event t e n)
  unfolding handle_event
  handle_event-IsSound (connection_established peer) n q s =
      elim (Bool-cases (elem ⦃e = nat_eq⦄ peer n.connected_peers)) [
        | inl known ↦ rw known s
        | inr new ↦ rw new (record { encoded = s.encoded; valid = s.valid; bounded = s.bounded })
      ]
  handle_event-IsSound (connection_closed peer) n q s = record {
    encoded = s.encoded;
    valid = s.valid;
    bounded = s.bounded;
  }
  handle_event-IsSound (gossip_message bytes) n q s = handle_gossip-IsSound bytes n q s
  handle_event-IsSound other_event n q s = s

  pump-IsSound :
      (turns : List Turn) (n : NetworkManager)
      → IsBoundedQueue
      → IsSound n
      → IsSound (pump t turns n)
  unfolding pump
  pump-IsSound [] n q s = s
  pump-IsSound (event e ∷ turns) n q s =
      pump-IsSound turns (handle_event t e n) q (handle_event-IsSound e n q s)
  pump-IsSound (received (some m) ∷ turns) n q s =
      pump-IsSound turns (publish t m n) q (publish-IsSound m n s)
  pump-IsSound (received none ∷ turns) n q s = s
  pump-IsSound (taken ∷ turns) n q s =
      pump-IsSound turns (with_inbound (take_next n.inbound) n) q (record {
        encoded = s.encoded;
        valid = take-All IsValid n.inbound s.valid;
        bounded = omega (arith, s.bounded, length-take-le n.inbound);
      })

  -- Whatever the swarm, the peers and the application do, on a channel that takes messages behind
  -- the others and only below its capacity, a manager that starts new has published nothing but the
  -- encodings of valid messages, and what waits for the application are at most as many messages as
  -- the capacity, all valid.
  pub run-IsSound :
      (listens : Multiaddr → Bool) (c : NetworkConfig) (turns : List Turn)
      → IsBoundedQueue
      → IsSound (run t listens c turns new_manager).1
  unfolding run
  run-IsSound listens c turns q = elim (Result-cases (parsed_addresses t c)) [
    | inr (e, x) ↦ rw x fresh
    | inl ((address, bootstrap), x) ↦ rw x (elim (Bool-cases (listens address)) [
      | inr off ↦ rw off fresh
      | inl on ↦ rw on (pump-IsSound turns new_manager q fresh)
    ])
  ]
    where
      fresh : IsSound new_manager
      fresh = record { encoded = tt; valid = tt; bounded = omega arith }
