-- ===== src/Ibc.antt =====
-- crates/subhost-ibc/src/lib.rs: the local packet state machine. Sequences and times are u64.
-- The clock is an argument, and the JSON form of a transfer is an interface.
pub mod Names
pub mod Channels
pub mod Receive
pub mod Calls
pub mod Replay
pub mod Sent
use Prim.Native.String.{String}
use sub_host_demo.Base.{
  ℕ, ◌+◌, ◌*◌, max, Bool, true, false, not, ◌||◌, ◌&&◌, Option, none, some, List, [], ◌∷◌, ◌==◌,
  nat_eq, list_eq, pair_eq, ltb, leb, if◌then◌else◌, Exec, Result, ok, err, fail_if, fail, ok_or,
  gets, modify, pure, lift, ◌>>=◌, ◌>>◌, ⊤, length, is_empty, elem,
}
use sub_host_demo.Base.Words.{u64_max, checked_add, saturating_add}
use sub_host_demo.Core.{Address, Byte}
use sub_host_demo.Map
use sub_host_demo.Map.{Map, contains}
use Names.{Text, is_blank, channel_name}

abbrev pub max_packet_bytes : ℕ
max_packet_bytes = 128 * 1024

abbrev pub default_timeout_blocks : ℕ
default_timeout_blocks = 1000

abbrev pub default_timeout_seconds : ℕ
default_timeout_seconds = 600

pub record IbcConfig : Type 0 where
  pub enabled : Bool
  pub chain_id : Text
  pub connection_id : Text
  pub client_id : Text
  pub counterparty_chain_id : Text

pub data ChannelState : Type 0 where
  init try_open opened closed : ChannelState

pub data ChannelOrdering : Type 0 where
  unordered ordered : ChannelOrdering

pub record IbcChannel : Type 0 where
  pub channel_id : Text
  pub port_id : Text
  pub state : ChannelState
  pub ordering : ChannelOrdering
  pub counterparty_channel_id : Text
  pub counterparty_port_id : Text

abbrev pub is_opened : ChannelState → Bool
is_opened opened = true
is_opened _ = false

-- `IbcChannel::is_open`
unfoldable pub is_open : IbcChannel → Bool
is_open c = is_opened c.state

pub record IbcPacket : Type 0 where
  pub sequence : ℕ
  pub source_port : Text
  pub source_channel : Text
  pub destination_port : Text
  pub destination_channel : Text
  pub payload : List Byte
  pub timeout_height : ℕ
  pub timeout_timestamp : ℕ

pub record IbcTransfer : Type 0 where
  pub sender : Address
  pub receiver : Text
  pub token : Text
  pub amount : ℕ
  pub source_channel : Text

pub data IbcError : Type 0 where
  disabled : IbcError
  channel_not_found : Text → IbcError
  channel_not_open : Text → ChannelState → IbcError
  invalid_channel_transition : ChannelState → ChannelState → IbcError
  invalid_channel : String → IbcError
  invalid_packet : String → IbcError
  invalid_transfer : String → IbcError
  packet_too_large : ℕ → ℕ → IbcError
  packet_timed_out packet_not_expired replay : IbcError
  unknown_packet : ℕ → IbcError
  invalid_sequence : ℕ → ℕ → IbcError
  sequence_overflow serialization : IbcError

-- `serde_json` on a transfer: `none` is a serialization error.
pub record Json : Type 0 where
  pub to_vec : IbcTransfer → Option (List Byte)
  pub from_slice : List Byte → Option IbcTransfer

-- `IbcTransfer::validate`
unfoldable pub validate : IbcTransfer → Result IbcError ⊤
validate t =
    if t.amount == 0
    then err (invalid_transfer "amount must be > 0")
    else if is_blank t.receiver
    then err (invalid_transfer "receiver is required")
    else if is_blank t.token
    then err (invalid_transfer "token denomination is required")
    else ok tt

pub record IbcModule : Type 0 where
  pub config : IbcConfig
  pub channels : Map Text IbcChannel
  pub sent_packets : Map ℕ IbcPacket
  pub next_sequence_send : ℕ
  pub next_sequence_recv : Map Text ℕ
  pub current_height : ℕ
  pub received_packets : List (Text × ℕ)
  pub acknowledged_packets : List ℕ

abbrev pub Action : Type 0 → Type 0
Action A = Exec IbcModule IbcError A

unfoldable pub new : IbcConfig → IbcModule
new config = record {
  config = config;
  channels = [];
  sent_packets = [];
  next_sequence_send = 1;
  next_sequence_recv = [];
  current_height = 0;
  received_packets = [];
  acknowledged_packets = [];
}

unfoldable pub set_current_height : ℕ → IbcModule → IbcModule
set_current_height h m = record m { current_height = h }

unfoldable pub ensure_enabled : Action ⊤
ensure_enabled = do on ← gets (λ m. m.config.enabled); fail_if (not on) disabled

unfoldable pub put_channel : Text → IbcChannel → IbcModule → IbcModule
put_channel id c m = record m { channels = Map.insert id c m.channels }

unfoldable pub open_channel : Text → Text → Text → ChannelOrdering → Action Text
open_channel port counterparty_port counterparty_channel ordering = do
  ensure_enabled
  fail_if (is_blank port || is_blank counterparty_port) (invalid_channel "port IDs are required")
  fail_if (is_blank counterparty_channel) (invalid_channel "counterparty channel ID is required")
  id ← gets (λ m. channel_name (length m.channels))
  modify (
      put_channel id (record {
        channel_id = id;
        port_id = port;
        state = init;
        ordering = ordering;
        counterparty_channel_id = counterparty_channel;
        counterparty_port_id = counterparty_port;
      }))
  pure id

-- The `matches!` of `set_channel_state`.
unfoldable pub allowed : ChannelState → ChannelState → Bool
allowed init try_open = true
allowed init opened = true
allowed try_open opened = true
allowed init closed = true
allowed try_open closed = true
allowed opened closed = true
allowed _ _ = false

unfoldable pub set_channel_state : Text → ChannelState → Action ⊤
set_channel_state id state = do
  ensure_enabled
  found ← gets (λ m. Map.get id m.channels)
  c ← ok_or found (channel_not_found id)
  fail_if (not (allowed c.state state)) (invalid_channel_transition c.state state)
  modify (put_channel id (record c { state = state }))

-- A set holds a value once.
unfoldable pub set_insert : ℕ → List ℕ → List ℕ
set_insert a xs = if elem a xs then xs else a ∷ xs

unfoldable pub receipt_insert : Text × ℕ → List (Text × ℕ) → List (Text × ℕ)
receipt_insert a xs = if elem a xs then xs else a ∷ xs

unfoldable pub put_sent : ℕ → IbcPacket → IbcModule → IbcModule
put_sent sequence packet m = record m { sent_packets = Map.insert sequence packet m.sent_packets }

unfoldable pub set_next_send : ℕ → IbcModule → IbcModule
set_next_send n m = record m { next_sequence_send = n }

-- The packet that `send_transfer` builds.
unfoldable pub packet_for : IbcTransfer → IbcChannel → List Byte → ℕ → ℕ → ℕ → IbcPacket
packet_for t c payload sequence height now = record {
  sequence = sequence;
  source_port = c.port_id;
  source_channel = t.source_channel;
  destination_port = c.counterparty_port_id;
  destination_channel = c.counterparty_channel_id;
  payload = payload;
  timeout_height = saturating_add u64_max height default_timeout_blocks;
  timeout_timestamp = saturating_add u64_max now default_timeout_seconds;
}

module _ (json : Json) (now : ℕ) where
  unfoldable pub send_transfer : IbcTransfer → Action ℕ
  send_transfer t = do
    ensure_enabled
    lift (validate t)
    found ← gets (λ m. Map.get t.source_channel m.channels)
    c ← ok_or found (channel_not_found t.source_channel)
    fail_if (not (is_open c)) (channel_not_open t.source_channel c.state)
    payload ← ok_or (json.to_vec t) serialization
    fail_if (ltb max_packet_bytes (length payload))
        (packet_too_large (length payload) max_packet_bytes)
    sequence ← gets (λ m. m.next_sequence_send)
    height ← gets (λ m. m.current_height)
    next ← ok_or (checked_add u64_max sequence 1) sequence_overflow
    modify (set_next_send next)
    modify (put_sent sequence (packet_for t c payload sequence height now))
    pure sequence

-- The first three checks of `receive_packet`.
unfoldable pub check_shape : IbcPacket → Result IbcError ⊤
check_shape p =
    if p.sequence == 0
    then err (invalid_packet "sequence must be >= 1")
    else if is_empty p.payload
    then err (invalid_packet "payload is empty")
    else if ltb max_packet_bytes (length p.payload)
    then err (packet_too_large (length p.payload) max_packet_bytes)
    else ok tt

abbrev pub accepts : ChannelState → Bool
accepts opened = true
accepts try_open = true
accepts _ = false

-- The channel must accept packets, and the packet must come from its counterparty.
unfoldable pub check_channel : IbcPacket → IbcChannel → Result IbcError ⊤
check_channel p c =
    if not (accepts c.state)
    then err (channel_not_open p.destination_channel c.state)
    else if not (c.counterparty_channel_id == p.source_channel)
        || not (c.counterparty_port_id == p.source_port)
        || not (c.port_id == p.destination_port)
    then err (invalid_packet "packet does not match the channel's counterparty binding")
    else ok tt

unfoldable pub check_timeouts : ℕ → ℕ → IbcPacket → Result IbcError ⊤
check_timeouts height now p =
    if (p.timeout_height == 0) && (p.timeout_timestamp == 0)
    then err (invalid_packet "at least one timeout must be set")
    else if not (p.timeout_height == 0) && leb p.timeout_height height
    then err packet_timed_out
    else if not (p.timeout_timestamp == 0) && leb p.timeout_timestamp now
    then err packet_timed_out
    else ok tt

abbrev pub or_one : Option ℕ → ℕ
or_one none = 1
or_one (some n) = n

unfoldable pub expected_recv_sequence : Text → IbcModule → ℕ
expected_recv_sequence id m = or_one (Map.get id m.next_sequence_recv)

unfoldable pub has_received : Text → ℕ → IbcModule → Bool
has_received source sequence m = elem (source, sequence) m.received_packets

abbrev pub is_ordered : ChannelOrdering → Bool
is_ordered ordered = true
is_ordered unordered = false

-- Replay, and the order of an ordered channel.
unfoldable pub check_order : IbcPacket → IbcChannel → IbcModule → Result IbcError ⊤
check_order p c m =
    if has_received p.source_channel p.sequence m
    then err replay
    else if is_ordered c.ordering
        && not (p.sequence == expected_recv_sequence p.destination_channel m)
    then err (invalid_sequence (expected_recv_sequence p.destination_channel m) p.sequence)
    else ok tt

unfoldable pub add_receipt : Text → ℕ → IbcModule → IbcModule
add_receipt source sequence m = record m {
  received_packets = receipt_insert (source, sequence) m.received_packets;
}

unfoldable pub set_next_recv : Text → ℕ → IbcModule → IbcModule
set_next_recv id n m = record m { next_sequence_recv = Map.insert id n m.next_sequence_recv }

-- The writes of `receive_packet`: the receipt stays if the next sequence overflows.
unfoldable pub settle : IbcPacket → Action ⊤
settle p = do
  modify (add_receipt p.source_channel p.sequence)
  expected ← gets (expected_recv_sequence p.destination_channel)
  modify (set_next_recv p.destination_channel expected)
  next ← ok_or (checked_add u64_max (max expected p.sequence) 1) sequence_overflow
  modify (set_next_recv p.destination_channel next)

module _ (json : Json) where
  -- The payload is read and must agree with its envelope.
  unfoldable pub read_transfer : IbcPacket → Result IbcError IbcTransfer
  read_transfer p = elim (json.from_slice p.payload) [
    | none ↦ err serialization
    | some t ↦ elim (validate t) [
      | err e ↦ err e
      | ok _ ↦
          if t.source_channel == p.source_channel
          then ok t
          else err (invalid_packet "transfer source channel does not match the packet")
    ]
  ]

  unfoldable pub receive_packet : ℕ → IbcPacket → Action IbcTransfer
  receive_packet now p = do
    ensure_enabled
    lift (check_shape p)
    found ← gets (λ m. Map.get p.destination_channel m.channels)
    c ← ok_or found (channel_not_found p.destination_channel)
    lift (check_channel p c)
    height ← gets (λ m. m.current_height)
    lift (check_timeouts height now p)
    in_order ← gets (check_order p c)
    lift in_order
    t ← lift (read_transfer p)
    settle p
    pure t

unfoldable pub is_acknowledged : ℕ → IbcModule → Bool
is_acknowledged sequence m = elem sequence m.acknowledged_packets

unfoldable pub add_ack : ℕ → IbcModule → IbcModule
add_ack sequence m = record m { acknowledged_packets = set_insert sequence m.acknowledged_packets }

unfoldable pub acknowledge_packet : ℕ → Action ⊤
acknowledge_packet sequence = do
  ensure_enabled
  known ← gets (λ m. contains sequence m.sent_packets)
  fail_if (not known) (unknown_packet sequence)
  before ← gets (is_acknowledged sequence)
  modify (add_ack sequence)
  fail_if before replay

unfoldable pub drop_sent : ℕ → IbcModule → IbcModule
drop_sent sequence m = record m { sent_packets = Map.remove sequence m.sent_packets }

-- Either timeout has passed.
unfoldable pub is_expired : ℕ → ℕ → IbcPacket → Bool
is_expired height now p =
    (not (p.timeout_height == 0) && leb p.timeout_height height)
    || (not (p.timeout_timestamp == 0) && leb p.timeout_timestamp now)

unfoldable pub timeout_packet : ℕ → ℕ → Action IbcPacket
timeout_packet now sequence = do
  ensure_enabled
  found ← gets (λ m. Map.get sequence m.sent_packets)
  p ← ok_or found (unknown_packet sequence)
  acknowledged ← gets (is_acknowledged sequence)
  fail_if acknowledged (invalid_packet "an acknowledged packet cannot time out")
  height ← gets (λ m. m.current_height)
  fail_if (not (is_expired height now p)) packet_not_expired
  modify (drop_sent sequence)
  pure p
