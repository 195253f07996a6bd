-- ===== src/Tests/Messages.antt =====
-- A run of the gossip loop at concrete messages.
use sub_host_demo.Base.{
  ℕ, ◌≡◌, refl, true, Bool-cases, inl, inr, none, some, Option, List, [], ◌∷◌, ok, ◌++◌, arith, ltb,
  length, if◌then◌else◌,
}
use sub_host_demo.Core.{Byte}
use sub_host_demo.Rpc.Wire.{Text}
use sub_host_demo.Network as NetworkCode
use sub_host_demo.Network.{
  NetworkMessage, NetworkConfig, Transport, Turn, dag_vertex, transaction_stem, event, received,
  gossip_message, connection_established, run, new_manager,
}
use sub_host_demo.Network.Relay.{IsBoundedQueue, IsSound, run-IsSound}

-- JSON holds the payload of a vertex, and the channel is a list.
abbrev encode : NetworkMessage → Option (List Byte)
encode (dag_vertex bytes) = some bytes
encode other = none

abbrev push : ℕ → List NetworkMessage → NetworkMessage → Option (List NetworkMessage)
push capacity waiting m = if ltb (length waiting) capacity then some (waiting ++ m ∷ []) else none

abbrev transport : Transport Text
transport = record {
  to_vec = encode;
  from_slice = λ bytes. some (dag_vertex bytes);
  parse_multiaddr = λ text. some text;
  publishes = λ bytes. true;
  try_send = push;
}

abbrev config : NetworkConfig
config = record { listen_addr = []; bootstrap_peers = [] ∷ []; max_peers = 50; enable_mdns = true }

-- A peer connects and sends a vertex and an empty one; then the application sends a vertex and a
-- stem that is exhausted.
abbrev turns : List Turn
turns =
    event (connection_established 7)
    ∷ event (gossip_message (1 ∷ []))
    ∷ event (gossip_message [])
    ∷ received (some (dag_vertex (2 ∷ [])))
    ∷ received (some (transaction_stem (3 ∷ []) 0))
    ∷ []

pushes : IsBoundedQueue transport
pushes capacity waiting after m h = elim (Bool-cases (ltb (length waiting) capacity)) [
  | inl room ↦ (ground arith, ground (arith, h, room))
  | inr full ↦ absurd (ground (arith, h, full))
]

relays : run transport (λ address. true) config turns new_manager ≡ (
  ok tt,
  record {
    connected_peers = 7 ∷ [];
    published = (2 ∷ []) ∷ [];
    inbound = dag_vertex (1 ∷ []) ∷ [];
  },
)
unfolding run NetworkCode.parsed_addresses NetworkCode.parse_peers NetworkCode.pump
    NetworkCode.handle_event NetworkCode.handle_gossip NetworkCode.publish NetworkCode.validate
    NetworkCode.payload_length
relays = refl

run-IsSound_example : IsSound transport (run transport (λ address. true) config turns new_manager).1
run-IsSound_example = run-IsSound transport (λ address. true) config turns pushes
