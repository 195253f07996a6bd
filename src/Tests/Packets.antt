-- ===== src/Tests/Packets.antt =====
-- The packet state machine at concrete inputs: one channel, ordered, whose counterparty is "c".
use sub_host_demo.Base.{
  ℕ, ◌≡◌, ◌≢◌, refl, true, some, List, [], ◌∷◌, ok, err, nat_eq, list_eq, pair_eq, length,
}
use sub_host_demo.Map
use sub_host_demo.Map.{contains}
use sub_host_demo.Ibc
use sub_host_demo.Ibc.Names.{Text, channel_name, channel_name-injective}
use sub_host_demo.Ibc.{
  IbcModule, IbcConfig, IbcChannel, IbcPacket, IbcTransfer, IbcError, ordered, opened, closed,
  try_open, init, replay, sequence_overflow, unknown_packet, new, receive_packet,
  acknowledge_packet, timeout_packet, expected_recv_sequence, is_acknowledged, is_expired, allowed,
}
use sub_host_demo.Ibc.Names
use sub_host_demo.Ibc.Calls
use sub_host_demo.Ibc.Calls.{
  Call, open_with, move, send, receive, acknowledge, time_out, at_height, run,
}
use sub_host_demo.Ibc.Replay.{no_replay, ordered_in_sequence, overflow_blocks_retry}
use sub_host_demo.Ibc.Sent.{acknowledged_is_final}
use sub_host_demo.Ibc.Channels.{Continues, channels_go_forward}
use sub_host_demo.Tests.Fixtures.{json}

abbrev text : ℕ → Text
text c = c ∷ []

abbrev config : IbcConfig
config = record {
  enabled = true;
  chain_id = text b'a';
  connection_id = text b'n';
  client_id = text b'l';
  counterparty_chain_id = text b'z';
}

abbrev channel : IbcChannel
channel = record {
  channel_id = text b'd';
  port_id = text b'p';
  state = opened;
  ordering = ordered;
  counterparty_channel_id = text b'c';
  counterparty_port_id = text b'q';
}

-- The channel "d" is open; the packet 3 has been sent.
abbrev packet : ℕ → IbcPacket
packet n = record {
  sequence = n;
  source_port = text b'q';
  source_channel = text b'c';
  destination_port = text b'p';
  destination_channel = text b'd';
  payload = 9 ∷ [];
  timeout_height = 50;
  timeout_timestamp = 0;
}

abbrev at : ℕ → IbcModule
at next = record {
  config = config;
  channels = (text b'd', channel) ∷ [];
  sent_packets = (3, packet 3) ∷ [];
  next_sequence_send = 4;
  next_sequence_recv = (text b'd', next) ∷ [];
  current_height = 10;
  received_packets = [];
  acknowledged_packets = [];
}

abbrev transfer : IbcTransfer
transfer = record {
  sender = 1;
  receiver = text b'x';
  token = text b'y';
  amount = 9;
  source_channel = text b'c';
}

accepts_packet : (receive_packet json 0 (packet 2) (at 2)).0 ≡ ok transfer
unfolding receive_packet Ibc.ensure_enabled Ibc.check_shape Ibc.check_channel Ibc.check_timeouts
    Ibc.check_order Ibc.read_transfer Ibc.settle Ibc.validate Ibc.Names.is_blank
    Ibc.Names.is_whitespace expected_recv_sequence Ibc.has_received Ibc.add_receipt
    Ibc.receipt_insert Ibc.set_next_recv Map.get Map.insert
accepts_packet = refl

no_replay_example :
    (receive_packet json 5 (packet 2) (
      run json
        (move (text b'd') closed ∷ at_height 12 ∷ [])
        (receive_packet json 0 (packet 2) (at 2)).1)).0
    ≢ ok transfer
no_replay_example =
    no_replay json 0 5 (packet 2) (packet 2) (move (text b'd') closed ∷ at_height 12 ∷ []) (at 2)
      transfer accepts_packet refl refl transfer

ordered_in_sequence_example :
    (2 ≡ expected_recv_sequence (text b'd') (at 2))
    × (expected_recv_sequence (text b'd') (receive_packet json 0 (packet 2) (at 2)).1 ≡ 3)
unfolding Map.get
ordered_in_sequence_example =
    ordered_in_sequence json 0 (packet 2) (at 2) channel transfer refl refl accepts_packet

-- The last sequence number.
abbrev last : ℕ
last = 18446744073709551615

jams : (receive_packet json 0 (packet last) (at last)).0 ≡ err sequence_overflow
unfolding receive_packet Ibc.ensure_enabled Ibc.check_shape Ibc.check_channel Ibc.check_timeouts
    Ibc.check_order Ibc.read_transfer Ibc.settle Ibc.validate Ibc.Names.is_blank
    Ibc.Names.is_whitespace expected_recv_sequence Ibc.has_received Ibc.add_receipt
    Ibc.receipt_insert Ibc.set_next_recv Map.get Map.insert
jams = refl

keeps_receipt : length (receive_packet json 0 (packet last) (at last)).1.received_packets ≡ 1
unfolding receive_packet Ibc.ensure_enabled Ibc.check_shape Ibc.check_channel Ibc.check_timeouts
    Ibc.check_order Ibc.read_transfer Ibc.settle Ibc.validate Ibc.Names.is_blank
    Ibc.Names.is_whitespace expected_recv_sequence Ibc.has_received Ibc.add_receipt
    Ibc.receipt_insert Ibc.set_next_recv Map.get Map.insert
keeps_receipt = refl

overflow_blocks_retry_example :
    (receive_packet json 0 (packet last) (receive_packet json 0 (packet last) (at last)).1).0
    ≡ err replay
overflow_blocks_retry_example = overflow_blocks_retry json 0 (packet last) (at last) jams

acknowledges : (acknowledge_packet 3 (at 2)).0 ≡ ok tt
unfolding acknowledge_packet Ibc.ensure_enabled is_acknowledged Ibc.add_ack Ibc.set_insert Map.get
acknowledges = refl

-- Another packet is acknowledged, and the block height passes the timeout.
abbrev afterwards : List Call
afterwards = acknowledge 4 ∷ at_height 60 ∷ time_out 70 3 ∷ []

acknowledged_is_final_example :
    let m = run json afterwards (acknowledge_packet 3 (at 2)).1 in
    ((acknowledge_packet 3 m).0 ≡ err replay)
    × ((timeout_packet 80 3 m).0
        ≡ err (Ibc.invalid_packet "an acknowledged packet cannot time out"))
acknowledged_is_final_example = acknowledged_is_final json 3 80 afterwards (at 2) acknowledges

abbrev late : IbcModule
late = record (at 2) { current_height = 50 }

expires : (timeout_packet 0 3 late).0 ≡ ok (packet 3)
unfolding timeout_packet Ibc.ensure_enabled is_acknowledged is_expired Ibc.drop_sent Map.get
expires = refl

abbrev opening : List Call
opening = open_with (text b'p') (text b'q') (text b'c') ordered ∷ []

abbrev fresh : IbcChannel
fresh = record {
  channel_id = channel_name 0;
  port_id = text b'p';
  state = init;
  ordering = ordered;
  counterparty_channel_id = text b'c';
  counterparty_port_id = text b'q';
}

opens : Map.get (channel_name 0) (run json opening (new config)).channels ≡ some fresh
unfolding run Ibc.Calls.perform Ibc.open_channel Ibc.ensure_enabled Ibc.put_channel
    Ibc.Names.is_blank Ibc.Names.is_whitespace new Map.get Map.insert channel_name Ibc.Names.decimal
    Ibc.Names.digits
opens = refl

channels_go_forward_example :
    Continues
      (channel_name 0)
      fresh
      (run json (move (channel_name 0) closed ∷ opening) (run json opening (new config)))
channels_go_forward_example =
    channels_go_forward json config opening (move (channel_name 0) closed ∷ opening)
      (channel_name 0) fresh opens
