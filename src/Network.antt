-- ===== src/Network.antt =====
-- crates/subhost-network/src/lib.rs: the messages of the gossip topic and the loop that relays them.
-- JSON, the addresses of libp2p, its publication and the bounded channel of tokio are parameters.
-- What the swarm and the channels report to the loop is an argument, one turn after the other.
pub mod Relay
use sub_host_demo.Base.{
  ℕ, zero, suc, ◌*◌, Bool, true, false, Option, none, some, List, [], ◌∷◌, ◌++◌, filter, ◌==◌,
  nat_eq, ltb, not, length, elem, if◌then◌else◌, Result, ok, err, ⊤,
}
use sub_host_demo.Core.{Byte, Hash}
use sub_host_demo.Rpc.Wire.{Text}

abbrev pub max_transmit_bytes : ℕ
max_transmit_bytes = 256 * 1024

abbrev pub channel_capacity : ℕ
channel_capacity = 1000

abbrev pub PeerId : Type 0
PeerId = ℕ

pub record NetworkConfig : Type 0 where
  pub listen_addr : Text
  pub bootstrap_peers : List Text
  pub max_peers : ℕ
  pub enable_mdns : Bool

-- The texts of `NetworkError::Config` and `NetworkError::InvalidMessage`, by cases.
pub data ConfigFault : Type 0 where
  zero_peers bad_listen_address : ConfigFault
  bad_bootstrap_peer : Text → ConfigFault

pub data MessageFault : Type 0 where
  stem_exhausted empty_payload : MessageFault
  oversized : ℕ → MessageFault

pub data NetworkError : Type 0 where
  misconfigured : ConfigFault → NetworkError
  libp2p : NetworkError
  invalid_message : MessageFault → NetworkError

pub data NetworkMessage : Type 0 where
  transaction_stem : List Byte → ℕ → NetworkMessage
  transaction_fluff : Hash → List Byte → NetworkMessage
  dag_vertex block_proposal : List Byte → NetworkMessage
  vote : Hash → List Byte → NetworkMessage

-- `serde_json`, `str::parse::<Multiaddr>`, whether `gossipsub.publish` takes the bytes, and
-- `try_send` on a channel of a capacity, by the messages that wait in it.
pub record Transport (Multiaddr : Type 0) : Type 0 where
  pub to_vec : NetworkMessage → Option (List Byte)
  pub from_slice : List Byte → Option NetworkMessage
  pub parse_multiaddr : Text → Option Multiaddr
  pub publishes : List Byte → Bool
  pub try_send : ℕ → List NetworkMessage → NetworkMessage → Option (List NetworkMessage)

unfoldable pub payload_length : NetworkMessage → Result NetworkError ℕ
payload_length (transaction_stem bytes ttl) =
    if ttl == 0 then err (invalid_message stem_exhausted) else ok (length bytes)
payload_length (transaction_fluff tx_hash bytes) = ok (length bytes)
payload_length (dag_vertex bytes) = ok (length bytes)
payload_length (block_proposal bytes) = ok (length bytes)
payload_length (vote block_hash signature) = ok (length signature)

abbrev pub check_length : ℕ → Result NetworkError ⊤
check_length n =
    if n == 0
    then err (invalid_message empty_payload)
    else (if ltb max_transmit_bytes n then err (invalid_message (oversized n)) else ok tt)

unfoldable pub validate : NetworkMessage → Result NetworkError ⊤
validate m = elim (payload_length m) [ ok n ↦ check_length n | err e ↦ err e ]

-- The manager beside its application: `published` holds what gossipsub has taken, the newest first,
-- and `inbound` what waits for the application.
pub record NetworkManager : Type 0 where
  pub connected_peers : List PeerId
  pub published : List (List Byte)
  pub inbound : List NetworkMessage

abbrev pub new_manager : NetworkManager
new_manager = record { connected_peers = []; published = []; inbound = [] }

abbrev pub with_peers : List PeerId → NetworkManager → NetworkManager
with_peers peers n = record {
  connected_peers = peers;
  published = n.published;
  inbound = n.inbound;
}

abbrev pub with_published : List (List Byte) → NetworkManager → NetworkManager
with_published sent n = record {
  connected_peers = n.connected_peers;
  published = sent;
  inbound = n.inbound;
}

abbrev pub with_inbound : List NetworkMessage → NetworkManager → NetworkManager
with_inbound waiting n = record {
  connected_peers = n.connected_peers;
  published = n.published;
  inbound = waiting;
}

abbrev pub connected_peer_count : NetworkManager → ℕ
connected_peer_count n = length n.connected_peers

-- `HashSet::insert` and `HashSet::remove`.
abbrev pub connect : PeerId → NetworkManager → NetworkManager
connect peer n = if elem peer n.connected_peers then n else with_peers (peer ∷ n.connected_peers) n

abbrev pub disconnect : PeerId → NetworkManager → NetworkManager
disconnect peer n = with_peers (filter (λ p. not (p == peer)) n.connected_peers) n

-- The events of the swarm that `handle_event` tells apart. An address that mDNS finds goes to
-- Kademlia alone.
pub data SwarmEvent : Type 0 where
  connection_established connection_closed : PeerId → SwarmEvent
  gossip_message : List Byte → SwarmEvent
  other_event : SwarmEvent

-- A turn of the loop, an event or what `recv` gave, or the application taking a message.
pub data Turn : Type 0 where
  event : SwarmEvent → Turn
  received : Option NetworkMessage → Turn
  taken : Turn

-- The early return on a message that is not valid.
abbrev pub if_valid : Result NetworkError ⊤ → NetworkManager → NetworkManager → NetworkManager
if_valid (ok u) next n = next
if_valid (err e) next n = n

abbrev pub take_next : List NetworkMessage → List NetworkMessage
take_next [] = []
take_next (m ∷ waiting) = waiting

module _ {Multiaddr : Type 0} (t : Transport Multiaddr) where
  unfoldable pub parse_peers : List Text → Result NetworkError (List Multiaddr)
  parse_peers [] = ok []
  parse_peers (peer ∷ peers) = elim (t.parse_multiaddr peer) [
    | none ↦ err (misconfigured (bad_bootstrap_peer peer))
    | some address ↦ elim (parse_peers peers) [ ok rest ↦ ok (address ∷ rest) | err e ↦ err e ]
  ]

  unfoldable pub parsed_addresses : NetworkConfig → Result NetworkError (Multiaddr × List Multiaddr)
  parsed_addresses c =
      if c.max_peers == 0
      then err (misconfigured zero_peers)
      else elim (t.parse_multiaddr c.listen_addr) [
        | none ↦ err (misconfigured bad_listen_address)
        | some listen ↦ elim (parse_peers c.bootstrap_peers) [
          | ok bootstrap ↦ ok (listen, bootstrap)
          | err e ↦ err e
        ]
      ]

  abbrev pub put_on_topic : Option (List Byte) → NetworkManager → NetworkManager
  put_on_topic none n = n
  put_on_topic (some bytes) n =
      if t.publishes bytes then with_published (bytes ∷ n.published) n else n

  unfoldable pub publish : NetworkMessage → NetworkManager → NetworkManager
  publish m n = if_valid (validate m) (put_on_topic (t.to_vec m) n) n

  abbrev pub deliver : Option (List NetworkMessage) → NetworkManager → NetworkManager
  deliver none n = n
  deliver (some waiting) n = with_inbound waiting n

  abbrev pub hand_over : Option NetworkMessage → NetworkManager → NetworkManager
  hand_over none n = n
  hand_over (some m) n =
      if_valid (validate m) (deliver (t.try_send channel_capacity n.inbound m) n) n

  unfoldable pub handle_gossip : List Byte → NetworkManager → NetworkManager
  handle_gossip bytes n = hand_over (t.from_slice bytes) n

  unfoldable pub handle_event : SwarmEvent → NetworkManager → NetworkManager
  handle_event (connection_established peer) n = connect peer n
  handle_event (connection_closed peer) n = disconnect peer n
  handle_event (gossip_message bytes) n = handle_gossip bytes n
  handle_event other_event n = n

  -- The loop of `run`, until the application drops its handle.
  unfoldable pub pump : List Turn → NetworkManager → NetworkManager
  pump [] n = n
  pump (event e ∷ turns) n = pump turns (handle_event e n)
  pump (received (some m) ∷ turns) n = pump turns (publish m n)
  pump (received none ∷ turns) n = n
  pump (taken ∷ turns) n = pump turns (with_inbound (take_next n.inbound) n)

  -- `run` on the addresses; a bootstrap peer that cannot be dialled is only logged.
  abbrev pub run_on :
      (Multiaddr → Bool)
      → Result NetworkError (Multiaddr × List Multiaddr)
      → List Turn
      → NetworkManager
      → Result NetworkError ⊤ × NetworkManager
  run_on listens (err e) turns n = (err e, n)
  run_on listens (ok (address, bootstrap)) turns n =
      if listens address then (ok tt, pump turns n) else (err libp2p, n)

  unfoldable pub run :
      (Multiaddr → Bool)
      → NetworkConfig
      → List Turn
      → NetworkManager
      → Result NetworkError ⊤ × NetworkManager
  run listens c turns n = run_on listens (parsed_addresses c) turns n
