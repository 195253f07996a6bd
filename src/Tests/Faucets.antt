-- ===== src/Tests/Faucets.antt =====
-- The faucet and the start of a node at concrete inputs.
use sub_host_demo.Base.{
  ◌-◌, ◌≡◌, ◌≢◌, refl, true, false, none, some, List, [], ◌∷◌, arith, nat_eq, list_eq, ok, err,
}
use sub_host_demo.Base.Sort
use sub_host_demo.Map.Sorted
use sub_host_demo.Core.{Address}
use sub_host_demo.Core.Genesis
use sub_host_demo.Core.Genesis.{GenesisConfig}
use sub_host_demo.Map
use sub_host_demo.Map.Keys
use sub_host_demo.State
use sub_host_demo.State.{balance}
use sub_host_demo.Mempool
use sub_host_demo.Storage
use sub_host_demo.Storage.{LedgerSnapshot, Disk}
use sub_host_demo.Rpc
use sub_host_demo.Rpc.{RpcState}
use sub_host_demo.Rpc.Wire
use sub_host_demo.Rpc.Server
use sub_host_demo.Mempool.{admit}
use sub_host_demo.Rpc.Wire.{Text, string, hex_quantity, hex_amount, format_quantity}
use sub_host_demo.Rpc.Wire.Quantity.{hex_word-format_quantity}
use sub_host_demo.Rpc.Server.{Crypto}
use sub_host_demo.Rpc.Restart.{SameChain, own_snapshot}
use sub_host_demo.Node as NodeStart
use sub_host_demo.Node.{BootIo, Node, NodeConfig, node_of, bootstrap}
use sub_host_demo.Node.Boot.{Opens}
use sub_host_demo.Node.Fresh.{amount, first, bootstrap_once}
use sub_host_demo.Core.Signature.{replicate}
use sub_host_demo.Faucet as FaucetCode
use sub_host_demo.Faucet.Request
use sub_host_demo.Faucet.{CooldownLedger, FaucetConfig, try_claim, to_ascii_lowercase}
use sub_host_demo.Faucet.Cooldown.{Event, claim, drop_claim, clean, handle_all, try_claim-spaced}
use sub_host_demo.Faucet.Request.{FaucetSigner, Service, Upstream, drip}
use sub_host_demo.Faucet.Drip.{Dripped, drip-Dripped}
use sub_host_demo.Tests.Fixtures.{digest}
use sub_host_demo.Storage.{load, restore, exists}
use sub_host_demo.State.Effect.{settled}
use sub_host_demo.Rpc.{seal_next_block}
use sub_host_demo.Rpc.Commit.{new_receipt}
use sub_host_demo.Rpc.Ledger.{IsSound}
use sub_host_demo.Rpc.Seal.{seal_next_block-IsSound}
use sub_host_demo.Rpc.Restart.{file_of_sealed}
use sub_host_demo.Tests.Transactions.{ledger}
use sub_host_demo.Tests.Ledgers.{
  g, done, waiting, same_ledger, waiting-IsSound, alike, sealed, placed,
}
use sub_host_demo.Tests.Nodes.{format-ReadsBack, healthy, readable, tx, hash}

-- "0xAb" and "0xaB", and another address.
abbrev upper : Text
upper = b'0' ∷ b'x' ∷ b'A' ∷ b'b' ∷ []

abbrev lower : Text
lower = b'0' ∷ b'x' ∷ b'a' ∷ b'B' ∷ []

abbrev stranger : Text
stranger = b'0' ∷ b'x' ∷ b'c' ∷ []

abbrev between : List Event
between = claim 3 3 stranger ∷ clean 50 ∷ drop_claim stranger ∷ claim 60 61 lower ∷ []

abbrev fresh_ledger : CooldownLedger
fresh_ledger = record { entries = []; cooldown = 100 }

apart : to_ascii_lowercase stranger ≢ to_ascii_lowercase upper
unfolding to_ascii_lowercase
apart e = cc e

first_claim : (try_claim 2 2 upper fresh_ledger).0 ≡ ok tt
unfolding try_claim Map.get
first_claim = refl

spelled_alike : to_ascii_lowercase lower ≡ to_ascii_lowercase upper
unfolding to_ascii_lowercase
spelled_alike = refl

try_claim-spaced_example :
    (try_claim 70 71 lower (handle_all between (try_claim 2 2 upper fresh_ledger).1)).0
    ≡ err (100 - (71 - 2))
try_claim-spaced_example =
    try_claim-spaced 2 2 upper lower between fresh_ledger 70 71 (omega arith) first_claim
      (omega arith, (omega arith, (apart, (omega arith, tt)))) spelled_alike (omega arith)

abbrev crypto : Crypto
crypto = record {
  hex_decode = λ text. some (replicate 20 1);
  is_key = λ k. true;
  verify = λ k m s. true;
}

abbrev signer : FaucetSigner
signer = record { address = 9; sign_payload = λ m. m }

abbrev upstream : Upstream
upstream = record {
  before_lock = claim 3 3 stranger ∷ [];
  chain_id = record { meanwhile = clean 50 ∷ []; answer = ok (string (b'0' ∷ b'x' ∷ b'7' ∷ [])) };
  nonce = record { meanwhile = []; answer = ok (string (b'0' ∷ b'x' ∷ b'2' ∷ [])) };
  send = λ t. record {
    meanwhile = drop_claim stranger ∷ [];
    answer = ok (string (b'0' ∷ b'x' ∷ b'f' ∷ []));
  };
}

abbrev idle : Service
idle = record { ledger = fresh_ledger; sent = [] }

abbrev settings : FaucetConfig
settings = record { rpc_url = []; drip_amount = 10; cooldown_secs = 100 }

-- "0x" and forty digits.
abbrev someone : Text
someone = b'0' ∷ b'x' ∷ replicate 40 b'a'

pays :
    (drip digest crypto settings signer upstream 2 2 someone idle).0 ≡ ok (b'0' ∷ b'x' ∷ b'f' ∷ [])
unfolding drip FaucetCode.trim FaucetCode.trim_start FaucetCode.trim_end FaucetCode.is_whitespace
    FaucetCode.utf8_length FaucetCode.parse_quantity try_claim Request.parse_address
    Request.claim_slot Request.transfer_or_release Request.submit_transfer Request.ask Request.query
    Request.hand_in Request.read_hash handle_all Map.get Map.insert Wire.strip_prefix
    Wire.from_str_radix Wire.read_digits Wire.digit_value Server.from_hex Server.of_bytes
    Server.as_str
pays = refl

drip-Dripped_example :
    Dripped digest crypto settings signer upstream 2 2 someone idle
      (drip digest crypto settings signer upstream 2 2 someone idle).0
      (drip digest crypto settings signer upstream 2 2 someone idle).1
drip-Dripped_example = drip-Dripped digest crypto settings signer upstream 2 2 someone idle

hex_word-format_quantity_example :
    (hex_quantity (some (string (format_quantity 255))) 0 ≡ ok 255)
    × (hex_amount (some (string (format_quantity 4096))) 0 ≡ ok 4096)
hex_word-format_quantity_example = hex_word-format_quantity 255 4096 0 (omega arith) (omega arith)

abbrev genesis : GenesisConfig
genesis = record {
  chain_id = 7;
  initial_validators = [];
  allocations = (1, 100) ∷ (2, 5) ∷ [];
  block_time_ms = 1000;
  gas_limit = 30000000;
  genesis_time = 0;
}

abbrev io : BootIo
io = record {
  create_dir_all = true;
  genesis_is_file = true;
  read_genesis = some [];
  parse_genesis = λ x. some genesis;
  open_dir = true;
  new_metrics = true;
  reads = readable;
  writes = healthy;
}

abbrev alone : NodeConfig
alone = record { validator = false; fallback_chain_id = 1 }

opens : Opens io alone (some genesis)
unfolding NodeStart.load_genesis NodeStart.load_config Genesis.validate Genesis.validate_validators
    NodeStart.check_role
opens = record {
  create = refl;
  genesis = refl;
  role = refl;
  chain = omega arith;
  opened = refl;
  metrics = refl;
}

keys : Map.Keys.IsMap genesis.allocations
unfolding Map.get
keys = (refl, (refl, tt))

abbrev file : Disk
file = some (1 ∷ 0 ∷ Storage.ledger_magic)

abbrev booted : Node
booted = node_of g io alone (first g io alone genesis file) (some genesis)

boots : bootstrap g io alone none ≡ (ok booted, file)
unfolding bootstrap NodeStart.load_genesis NodeStart.load_config Genesis.validate
    Genesis.validate_validators NodeStart.check_role Storage.open_store NodeStart.start
    Rpc.with_store Storage.load NodeStart.seed_if_fresh Storage.exists NodeStart.seed
    Rpc.seed_accounts Rpc.persist Storage.persist Rpc.snapshot_of State.snapshot Sort.sort_by
    Sorted.place Sorted.sort Map.get Map.insert Mempool.len Mempool.new Mempool.try_new
    Mempool.validate Rpc.collect_receipts Rpc.pending_count Rpc.seed Rpc.set_state State.account
    State.entry State.set_balance State.store State.with_chain_id Storage.empty Storage.envelope_for
    Storage.height Storage.replace_file Storage.write_ledger
boots = refl

-- A node of the chain that has sealed a payment, and its file.
abbrev later : RpcState
later = (seal_next_block g healthy 5 hash waiting).1

later-IsSound : IsSound g later
later-IsSound = seal_next_block-IsSound g healthy 5 hash waiting waiting-IsSound alike

left_file : load g later.store readable later.disk ≡ restore g later.store (own_snapshot later)
left_file =
    file_of_sealed g healthy readable 5 hash waiting
      (new_receipt g healthy 5 hash waiting tx (settled tx 2 ledger) 1)
      (format-ReadsBack done (own_snapshot later) same_ledger) refl refl
      (unfold Rpc.set_mempool in refl) sealed

bootstrap_once_example :
    ((a : Address) → balance a booted.state.state ≡ amount (Map.get a genesis.allocations) 0)
    × ((m : RpcState) × (bootstrap g io alone later.disk
          ≡ (ok (node_of g io alone m (some genesis)), later.disk))
        × SameChain m later)
bootstrap_once_example =
    bootstrap_once g io alone genesis booted file later opens keys refl boots later-IsSound placed.0
      placed.1 left_file
