-- ===== src/Ibc/Receive.antt =====
-- crates/subhost-ibc/src/lib.rs: every outcome of `receive_packet`.
use sub_host_demo.Base.{
  ap, ◌≢◌, ℕ, ◌+◌, max, ◌≤◌, ◌<◌, ◌≡◌, ◌⊎◌, ◌∙◌, refl, inl, inr, true, some, arith, nat_eq, list_eq,
  pair_eq, leb, Exec, ok, err, pure, ◌>>◌, ⊤, Option-cases, Bool-cases, leb→le, Result-cases,
}
use sub_host_demo.Base.Words.{u64_max}
use sub_host_demo.Map
use sub_host_demo.Map.{Map, get-insert}
use sub_host_demo.Map.Updates.{insert-insert}
use sub_host_demo.Ibc.Names.{Text}
use sub_host_demo.Ibc.{
  IbcModule, IbcPacket, IbcChannel, IbcTransfer, IbcError, Json, validate, disabled,
  channel_not_found, sequence_overflow, ensure_enabled, check_shape, check_channel, check_timeouts,
  check_order, read_transfer, settle, receive_packet, add_receipt, set_next_recv,
  expected_recv_sequence,
}

-- A packet that has passed every check, and what it carries.
pub record Passes (json : Json) (now : ℕ) (p : IbcPacket) (c : IbcChannel) (t : IbcTransfer)
    (m : IbcModule) : Type 0 where
  pub enabled : m.config.enabled ≡ true
  pub shape : check_shape p ≡ ok tt
  pub found : Map.get p.destination_channel m.channels ≡ some c
  pub bound : check_channel p c ≡ ok tt
  pub timely : check_timeouts m.current_height now p ≡ ok tt
  pub in_order : check_order p c m ≡ ok tt
  pub read : read_transfer json p ≡ ok t

-- Only the last step of `receive_packet` overflows.
shape_sound : (p : IbcPacket) → check_shape p ≢ err sequence_overflow
unfolding check_shape
shape_sound p h = ground arith

bound_sound : (p : IbcPacket) (c : IbcChannel) → check_channel p c ≢ err sequence_overflow
unfolding check_channel
bound_sound p c h = ground arith

timely_sound :
    (height now : ℕ) (p : IbcPacket) → check_timeouts height now p ≢ err sequence_overflow
unfolding check_timeouts
timely_sound height now p h = ground arith

order_sound :
    (p : IbcPacket) (c : IbcChannel) (m : IbcModule) → check_order p c m ≢ err sequence_overflow
unfolding check_order
order_sound p c m h = ground arith

read_sound : (json : Json) (p : IbcPacket) → read_transfer json p ≢ err sequence_overflow
unfolding read_transfer validate
read_sound json p h = ground arith

-- The module after a packet of the receipt and the next sequence, and after an overflow.
unfoldable pub taken_by : IbcPacket → IbcModule → IbcModule
taken_by p m =
    set_next_recv p.destination_channel
      (max (expected_recv_sequence p.destination_channel m) p.sequence + 1)
      (add_receipt p.source_channel p.sequence m)

unfoldable pub jammed_by : IbcPacket → IbcModule → IbcModule
jammed_by p m =
    set_next_recv p.destination_channel (expected_recv_sequence p.destination_channel m)
      (add_receipt p.source_channel p.sequence m)

expected-add_receipt :
    (id s : Text) (n : ℕ) (m : IbcModule)
    → expected_recv_sequence id (add_receipt s n m) ≡ expected_recv_sequence id m
unfolding expected_recv_sequence add_receipt
expected-add_receipt id s n m = refl

set_next_recv_twice :
    (id : Text) (a b : ℕ) (m : IbcModule)
    → set_next_recv id b (set_next_recv id a m) ≡ set_next_recv id b m
unfolding set_next_recv
set_next_recv_twice id a b m = rw (insert-insert id a b m.next_sequence_recv)

settle_cases :
    (p : IbcPacket) (m : IbcModule)
    → ((max (expected_recv_sequence p.destination_channel m) p.sequence + 1 ≤ u64_max)
        × (settle p m ≡ (ok tt, taken_by p m)))
      ⊎ ((u64_max < max (expected_recv_sequence p.destination_channel m) p.sequence + 1)
          × (settle p m ≡ (err sequence_overflow, jammed_by p m)))
unfolding settle taken_by jammed_by
settle_cases p m =
    let id = p.destination_channel in
    let x = expected_recv_sequence id m in
    let r = add_receipt p.source_channel p.sequence m in
    elim (Bool-cases (leb (max x p.sequence + 1) u64_max)) [
      | inl fits ↦ inl (
        omega (arith, leb→le (max x p.sequence + 1) u64_max fits),
        rw (expected-add_receipt id p.source_channel p.sequence m)
            (rw fits (rw (set_next_recv_twice id x (max x p.sequence + 1) r))),
      )
      | inr over ↦
          inr (ground arith, rw (expected-add_receipt id p.source_channel p.sequence m) (rw over))
    ]

then_ok :
    (f : Exec IbcModule IbcError ⊤) (t : IbcTransfer) (m : IbcModule) {m' : IbcModule}
    → f m ≡ (ok tt, m')
    → (f >> pure t) m ≡ (ok t, m')
then_ok f t m h = ground arith

then_err :
    (f : Exec IbcModule IbcError ⊤) (t : IbcTransfer) (m : IbcModule) {m' : IbcModule}
    {e : IbcError}
    → f m ≡ (err e, m')
    → (f >> pure t) m ≡ (err e, m')
then_err f t m h = ground arith

pub data Received (json : Json) (now : ℕ) (p : IbcPacket) (m : IbcModule) : Type 0 where
  rejected :
      (e : IbcError)
      → e ≢ sequence_overflow
      → receive_packet json now p m ≡ (err e, m)
      → Received json now p m
  taken :
      (c : IbcChannel) (t : IbcTransfer)
      → Passes json now p c t m
      → receive_packet json now p m ≡ (ok t, taken_by p m)
      → Received json now p m
  jammed :
      (c : IbcChannel) (t : IbcTransfer)
      → Passes json now p c t m
      → u64_max < max (expected_recv_sequence p.destination_channel m) p.sequence + 1
      → receive_packet json now p m ≡ (err sequence_overflow, jammed_by p m)
      → Received json now p m

module _ (json : Json) (now : ℕ) (p : IbcPacket) (m : IbcModule) where
  receive_passed :
      (c : IbcChannel) (t : IbcTransfer)
      → Passes json now p c t m
      → receive_packet json now p m ≡ (settle p >> pure t) m
  unfolding receive_packet ensure_enabled
  receive_passed c t h =
      ground (arith, h.enabled, h.shape, h.found, h.bound, h.timely, h.in_order, h.read)

  -- A packet is rejected with nothing changed, or passes every check and is taken, or passes every
  -- check and jams on the last sequence number.
  pub receive_cases : Received json now p m
  unfolding receive_packet ensure_enabled
  receive_cases = elim (Bool-cases m.config.enabled) [
    | inr off ↦ rejected disabled (λ k. cc k) (ground arith)
    | inl on ↦ elim (Result-cases (check_shape p)) [
      | inr (e, x) ↦ rejected e (λ k. shape_sound p (x ∙ ap err k)) (ground arith)
      | inl (_, shape) ↦ elim (Option-cases (Map.get p.destination_channel m.channels)) [
        | inl x ↦ rejected (channel_not_found p.destination_channel) (λ k. cc k) (ground arith)
        | inr (c, found) ↦ elim (Result-cases (check_channel p c)) [
          | inr (e, x) ↦ rejected e (λ k. bound_sound p c (x ∙ ap err k)) (ground arith)
          | inl (_, bound) ↦ elim (Result-cases (check_timeouts m.current_height now p)) [
            | inr (e, x) ↦
                rejected e (λ k. timely_sound m.current_height now p (x ∙ ap err k)) (ground arith)
            | inl (_, timely) ↦ elim (Result-cases (check_order p c m)) [
              | inr (e, x) ↦ rejected e (λ k. order_sound p c m (x ∙ ap err k)) (ground arith)
              | inl (_, in_order) ↦ elim (Result-cases (read_transfer json p)) [
                | inr (e, x) ↦ rejected e (λ k. read_sound json p (x ∙ ap err k)) (ground arith)
                | inl (t, read) ↦
                    let h : Passes json now p c t m = record {
                      enabled = on;
                      shape = shape;
                      found = found;
                      bound = bound;
                      timely = timely;
                      in_order = in_order;
                      read = read;
                    } in
                    elim (settle_cases p m) [
                      | inl (_, x) ↦ taken c t h (receive_passed c t h ∙ then_ok (settle p) t m x)
                      | inr (over, x) ↦
                          jammed c t h over (receive_passed c t h ∙ then_err (settle p) t m x)
                    ]
              ]
            ]
          ]
        ]
      ]
    ]
  ]
