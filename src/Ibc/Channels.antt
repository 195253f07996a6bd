-- ===== src/Ibc/Channels.antt =====
-- crates/subhost-ibc/src/lib.rs: the states of a channel, along every sequence of calls.
use sub_host_demo.Base.{
  ℕ, ◌+◌, ◌≤◌, ◌<◌, ◌≡◌, ◌≢◌, ◌∙◌, sym, ap, refl, inl, inr, true, false, Option, none, some, List,
  [], ◌∷◌, arith, nat_eq, list_eq, pair_eq, ◌||◌, Bool-cases, Option-cases, length,
}
use sub_host_demo.Map
use sub_host_demo.Map.{Map, get-insert, contains}
use sub_host_demo.Map.Keys.{length-insert}
use sub_host_demo.Map.Updates.{get-insert_cases}
use sub_host_demo.Ibc.Names.{Text, is_blank, channel_name, channel_name-injective}
use sub_host_demo.Ibc.{
  IbcModule, IbcChannel, IbcPacket, IbcTransfer, Json, ChannelState, init, try_open, opened, closed,
  allowed, set_channel_state, open_channel, put_channel, ensure_enabled, set_current_height,
  ChannelOrdering, IbcConfig, new, send_transfer, receive_packet, acknowledge_packet,
  timeout_packet, put_sent, set_next_send, add_ack, drop_sent, set_next_recv, add_receipt,
}
use sub_host_demo.Ibc.Receive.{
  taken_by, jammed_by, Received, rejected, taken, jammed, receive_cases,
}
use sub_host_demo.Ibc.Calls.{
  Call, open_with, move, send, receive, acknowledge, time_out, at_height, perform, run,
}

-- How far a channel is in its life.
unfoldable pub stage : ChannelState → ℕ
stage init = 0
stage try_open = 1
stage opened = 2
stage closed = 3

-- A change of state is allowed exactly if it moves a channel forward.
pub allowed-stage :
    (a b : ChannelState)
    → (allowed a b ≡ true → stage a < stage b) × (stage a < stage b → allowed a b ≡ true)
unfolding allowed stage
allowed-stage init init = (λ h. absurd cc, λ h. absurd (omega arith))
allowed-stage init try_open = (λ h. omega arith, λ h. refl)
allowed-stage init opened = (λ h. omega arith, λ h. refl)
allowed-stage init closed = (λ h. omega arith, λ h. refl)
allowed-stage try_open init = (λ h. absurd cc, λ h. absurd (omega arith))
allowed-stage try_open try_open = (λ h. absurd cc, λ h. absurd (omega arith))
allowed-stage try_open opened = (λ h. omega arith, λ h. refl)
allowed-stage try_open closed = (λ h. omega arith, λ h. refl)
allowed-stage opened init = (λ h. absurd cc, λ h. absurd (omega arith))
allowed-stage opened try_open = (λ h. absurd cc, λ h. absurd (omega arith))
allowed-stage opened opened = (λ h. absurd cc, λ h. absurd (omega arith))
allowed-stage opened closed = (λ h. omega arith, λ h. refl)
allowed-stage closed b = (λ h. absurd (closed_stays b h), λ h. absurd (past b h))
  where
    closed_stays : (b : ChannelState) → allowed closed b ≢ true
    closed_stays b h = cc

    past : (b : ChannelState) → stage closed < stage b → ⊥
    past init h = omega arith
    past try_open h = omega arith
    past opened h = omega arith
    past closed h = omega arith

-- A channel is still there, with its ends and its ordering, and has not gone back.
pub record Continues (id : Text) (c : IbcChannel) (m : IbcModule) : Type 0 where
  pub now : IbcChannel
  pub found : Map.get id m.channels ≡ some now
  pub ordering : now.ordering ≡ c.ordering
  pub port : now.port_id ≡ c.port_id
  pub counterparty : now.counterparty_channel_id ≡ c.counterparty_channel_id
  pub counterparty_port : now.counterparty_port_id ≡ c.counterparty_port_id
  pub forward : stage c.state ≤ stage now.state

-- No channel has a name that is still to be given.
abbrev pub IsNamed : IbcModule → Type 0
IsNamed m = (i : ℕ) → length m.channels ≤ i → Map.get (channel_name i) m.channels ≡ none

-- What a call does to the channels.
pub data Channelled (m m' : IbcModule) : Type 0 where
  untouched : m'.channels ≡ m.channels → Channelled m m'
  opened_one :
      (c : IbcChannel)
      → m'.channels ≡ Map.insert (channel_name (length m.channels)) c m.channels
      → Channelled m m'
  moved_one :
      (id : Text) (c : IbcChannel) (s : ChannelState)
      → Map.get id m.channels ≡ some c
      → allowed c.state s ≡ true
      → m'.channels ≡ Map.insert id (record c { state = s }) m.channels
      → Channelled m m'

set_channel_state-Channelled :
    (id : Text) (s : ChannelState) (m : IbcModule) → Channelled m (set_channel_state id s m).1
unfolding set_channel_state ensure_enabled put_channel
set_channel_state-Channelled id s m = elim (Bool-cases m.config.enabled) [
  | inr off ↦ untouched (ground arith)
  | inl on ↦ elim (Option-cases (Map.get id m.channels)) [
    | inl x ↦ untouched (ground arith)
    | inr (c, found) ↦ elim (Bool-cases (allowed c.state s)) [
      | inr stuck ↦ untouched (ground arith)
      | inl can ↦ moved_one id c s found can (rw on (rw found (rw can)))
    ]
  ]
]

open_channel-Channelled :
    (p q c : Text) (o : ChannelOrdering) (m : IbcModule) → Channelled m (open_channel p q c o m).1
unfolding open_channel ensure_enabled put_channel
open_channel-Channelled p q c o m = elim (Bool-cases m.config.enabled) [
  | inr off ↦ untouched (ground arith)
  | inl on ↦ elim (Bool-cases (is_blank p || is_blank q)) [
    | inl blank ↦ untouched (ground arith)
    | inr a ↦ elim (Bool-cases (is_blank c)) [
      | inl blank ↦ untouched (ground arith)
      | inr b ↦
          opened_one
            (record {
              channel_id = channel_name (length m.channels);
              port_id = p;
              state = init;
              ordering = o;
              counterparty_channel_id = c;
              counterparty_port_id = q;
            })
            (rw on (rw a (rw b)))
    ]
  ]
]

module _ (m m' : IbcModule) (named : IsNamed m) where
  fresh_name : (i : ℕ) → length m.channels ≤ i → contains (channel_name i) m.channels ≡ false
  fresh_name i h = rw (named i h)

  Channelled-IsNamed : Channelled m m' → IsNamed m'
  Channelled-IsNamed (untouched e) i h = rw e (named i (ground (arith, e)))
  Channelled-IsNamed (opened_one c e) i h =
      let n = length m.channels in
      let l : n + 1 ≤ i =
        ground
          (arith, e, length-insert (channel_name n) c m.channels, fresh_name n (omega arith)) in
      elim (get-insert_cases (channel_name n) (channel_name i) c m.channels) [
        | inl (same, _) ↦ absurd (omega (arith, channel_name-injective n i same))
        | inr (_, x) ↦ rw (e, x) (named i (omega arith))
      ]
  Channelled-IsNamed (moved_one id c s found can e) i h =
      let d : IbcChannel = record c { state = s } in
      let l : length m.channels ≤ i = ground (arith, e, length-insert id d m.channels) in
      elim (get-insert_cases id (channel_name i) d m.channels) [
        | inl (same, _) ↦ absurd (clash found (ap (λ k. Map.get k m.channels) same ∙ named i l))
        | inr (_, x) ↦ rw (e, x) (named i l)
      ]
    where
      clash : {o : Option IbcChannel} {c : IbcChannel} → o ≡ some c → o ≢ none
      clash h g = cc

  stands : (id : Text) (d : IbcChannel) → Map.get id m'.channels ≡ some d → Continues id d m'
  stands id d h = record {
    now = d;
    found = h;
    ordering = refl;
    port = refl;
    counterparty = refl;
    counterparty_port = refl;
    forward = omega arith;
  }

  some-none : {o : Option IbcChannel} {c : IbcChannel} → o ≡ some c → o ≢ none
  some-none h g = cc

  Channelled-Continues :
      (id : Text) (d : IbcChannel)
      → Channelled m m'
      → Map.get id m.channels ≡ some d
      → Continues id d m'
  Channelled-Continues id d (untouched e) h = stands id d (rw e h)
  Channelled-Continues id d (opened_one c e) h =
      let n = length m.channels in
      elim (get-insert_cases (channel_name n) id c m.channels) [
        | inl (same, _) ↦
            absurd (some-none h (ap (λ k. Map.get k m.channels) (sym same) ∙ named n (omega arith)))
        | inr (_, x) ↦ stands id d (rw (e, x) h)
      ]
  Channelled-Continues id d (moved_one j c s found can e) h =
      let c' : IbcChannel = record c { state = s } in
      elim (get-insert_cases j id c' m.channels) [
        | inl (same, x) ↦
            let here : c ≡ d = ground (arith, found, ap (λ k. Map.get k m.channels) same, h) in
            record {
              now = c';
              found = rw (e, x) refl;
              ordering = ap (λ y. y.ordering) here;
              port = ap (λ y. y.port_id) here;
              counterparty = ap (λ y. y.counterparty_channel_id) here;
              counterparty_port = ap (λ y. y.counterparty_port_id) here;
              forward =
                  omega (arith, (allowed-stage c.state s).0 can, ap (λ y. stage y.state) here);
            }
        | inr (_, x) ↦ stands id d (rw (e, x) h)
      ]

-- What the other calls do to the channels: nothing.
send_transfer-channels :
    (json : Json) (now : ℕ) (t : IbcTransfer) (m : IbcModule)
    → (send_transfer json now t m).1.channels ≡ m.channels
unfolding send_transfer ensure_enabled put_sent set_next_send
send_transfer-channels json now t m = ground arith

receive_packet-channels :
    (json : Json) (now : ℕ) (p : IbcPacket) (m : IbcModule)
    → (receive_packet json now p m).1.channels ≡ m.channels
receive_packet-channels json now p m = by_cases (receive_cases json now p m)
  where
    by_cases : Received json now p m → (receive_packet json now p m).1.channels ≡ m.channels
    by_cases (rejected _ _ e) = rw e
    by_cases (taken _ _ _ e) = rw e (unfold taken_by set_next_recv add_receipt in refl)
    by_cases (jammed _ _ _ _ e) = rw e (unfold jammed_by set_next_recv add_receipt in refl)

acknowledge_packet-channels :
    (n : ℕ) (m : IbcModule) → (acknowledge_packet n m).1.channels ≡ m.channels
unfolding acknowledge_packet ensure_enabled add_ack
acknowledge_packet-channels n m = ground arith

timeout_packet-channels :
    (now n : ℕ) (m : IbcModule) → (timeout_packet now n m).1.channels ≡ m.channels
unfolding timeout_packet ensure_enabled drop_sent
timeout_packet-channels now n m = ground arith

module _ (json : Json) where
  perform-Channelled : (c : Call) (m : IbcModule) → Channelled m (perform json c m)
  unfolding perform
  perform-Channelled (open_with p q c o) m = open_channel-Channelled p q c o m
  perform-Channelled (move id s) m = set_channel_state-Channelled id s m
  perform-Channelled (send now t) m = untouched (send_transfer-channels json now t m)
  perform-Channelled (receive now p) m = untouched (receive_packet-channels json now p m)
  perform-Channelled (acknowledge n) m = untouched (acknowledge_packet-channels n m)
  perform-Channelled (time_out now n) m = untouched (timeout_packet-channels now n m)
  perform-Channelled (at_height h) m = untouched (unfold set_current_height in refl)

  Continues-trans :
      (id : Text) (c : IbcChannel) (m : IbcModule) (k : Continues id c m) (m' : IbcModule)
      → Continues id k.now m'
      → Continues id c m'
  Continues-trans id c m k m' l = record {
    now = l.now;
    found = l.found;
    ordering = l.ordering ∙ k.ordering;
    port = l.port ∙ k.port;
    counterparty = l.counterparty ∙ k.counterparty;
    counterparty_port = l.counterparty_port ∙ k.counterparty_port;
    forward = omega (arith, k.forward, l.forward);
  }

  run-Continues_from :
      (cs : List Call) (m : IbcModule)
      → IsNamed m
      → (id : Text) (c : IbcChannel) → Map.get id m.channels ≡ some c
      → Continues id c (run json cs m)
  unfolding run
  run-Continues_from [] m h id c found = stands m m h id c found
  run-Continues_from (call ∷ cs) m h id c found =
      let m' = perform json call m in
      let w = perform-Channelled call m in
      let k = Channelled-Continues m m' h id c w found in
      Continues-trans id c m' k (run json cs m')
        (run-Continues_from cs m' (Channelled-IsNamed m m' h w) id k.now k.found)

  run-IsNamed : (cs : List Call) (m : IbcModule) → IsNamed m → IsNamed (run json cs m)
  unfolding run
  run-IsNamed [] m h = h
  run-IsNamed (c ∷ cs) m h =
      run-IsNamed cs (perform json c m)
        (Channelled-IsNamed m (perform json c m) h (perform-Channelled c m))

  -- A channel that exists after any calls on a new module still exists after any further calls, with
  -- its ordering, its ports and the channel at its other end, and its state has not gone back: no channel is reopened once it is
  -- closed, and opening a channel replaces none.
  pub channels_go_forward :
      (config : IbcConfig) (before after : List Call) (id : Text) (c : IbcChannel)
      → Map.get id (run json before (new config)).channels ≡ some c
      → Continues id c (run json after (run json before (new config)))
  unfolding new
  channels_go_forward config before after id c found =
      run-Continues_from after (run json before (new config))
        (run-IsNamed before (new config) (λ i h. Map.get-empty (channel_name i))) id c found
