-- ===== src/Consensus/HotStuff/Views.antt =====
-- crates/subhost-consensus/src/lib.rs: views, locks and adopted certificates over time.
use sub_host_demo.Base.{
  ℕ, ◌+◌, ◌≤◌, ◌<◌, ◌≡◌, ◌⊎◌, ◌∙◌, refl, Bool, true, false, none, some, List, [], ◌∷◌, arith,
  Result, ok, err, ⊤, Bool-cases, inl, inr, leb, ◌&&◌,
}
use sub_host_demo.Base.Words.{u64_max}
use sub_host_demo.Map.{is_some}
use sub_host_demo.Consensus.{ConsensusError, ConsensusConfig}
use sub_host_demo.Consensus.Registry.{Bls, ValidatorRegistry}
use sub_host_demo.Consensus.HotStuff.{
  HotStuff, QuorumCertificate, new, validate_qc, view_of, adopt, update_high_qc, enter_next_view,
  is_safe_proposal,
}

module _ (b : Bls) where
  -- The lock is the view of the adopted certificate, which is valid, and no later than the view.
  pub record IsLocked (s : HotStuff b) : Type 0 where
    pub lock : s.locked_view ≡ view_of s.high_qc
    pub current : s.locked_view ≤ s.view
    pub certified : (qc : QuorumCertificate) → s.high_qc ≡ some qc → validate_qc b s qc ≡ ok tt

  pub new-IsLocked : (c : ConsensusConfig) (r : ValidatorRegistry b) → IsLocked (new b c r)
  unfolding new
  new-IsLocked c r = record { lock = refl; current = omega arith; certified = λ qc e. cc }

  validate_qc-adopt :
      (s : HotStuff b) (qc other : QuorumCertificate)
      → validate_qc b (adopt b qc s) other ≡ validate_qc b s other
  unfolding validate_qc adopt
  validate_qc-adopt s qc other = refl

  valid_cases :
      (s : HotStuff b) (qc : QuorumCertificate)
      → (validate_qc b s qc ≡ ok tt) ⊎ ((e : ConsensusError) × (validate_qc b s qc ≡ err e))
  valid_cases s qc = by_result (validate_qc b s qc)
    where
      by_result : (x : Result ConsensusError ⊤) → (x ≡ ok tt) ⊎ ((e : ConsensusError) × (x ≡ err e))
      by_result (ok u) = inl refl
      by_result (err e) = inr (e, refl)

  -- A certificate that is not valid is refused and changes nothing; a valid one is passed over, and
  -- changes nothing, if one of its view or a later one is held; else it is adopted, and locks its view.
  pub update_high_qc_cases :
      (qc : QuorumCertificate) (s : HotStuff b)
      → ((e : ConsensusError) × (validate_qc b s qc ≡ err e) × (update_high_qc b qc s ≡ (err e, s)))
        ⊎ ((validate_qc b s qc ≡ ok tt)
            × (is_some s.high_qc ≡ true)
            × (qc.view ≤ view_of s.high_qc)
            × (update_high_qc b qc s ≡ (ok false, s)))
        ⊎ ((validate_qc b s qc ≡ ok tt)
            × ((s.high_qc ≡ none) ⊎ (view_of s.high_qc < qc.view))
            × (update_high_qc b qc s ≡ (ok true, adopt b qc s)))
  unfolding update_high_qc
  update_high_qc_cases qc s = elim (valid_cases s qc) [
    | inr (e, bad) ↦ inl (e, bad, ground arith)
    | inl good ↦ elim (Bool-cases (is_some s.high_qc && leb qc.view (view_of s.high_qc))) [
      | inl old ↦ inr (inl (good, ground arith, ground arith, ground arith))
      | inr newer ↦ inr (inr (good, ground arith, ground arith))
    ]
  ]

  -- A call of the replica.
  pub data Event : Type 0 where
    next_view : Event
    receive : QuorumCertificate → Event

  unfoldable pub handle : Event → HotStuff b → HotStuff b
  handle next_view s = (enter_next_view b s).1
  handle (receive qc) s = (update_high_qc b qc s).1

  unfoldable pub run : List Event → HotStuff b → HotStuff b
  run [] s = s
  run (e ∷ es) s = run es (handle e s)

  adopt-IsLocked :
      (qc : QuorumCertificate) (s : HotStuff b)
      → validate_qc b s qc ≡ ok tt
      → IsLocked (adopt b qc s)
  unfolding adopt
  adopt-IsLocked qc s v = record {
    lock = refl;
    current = omega arith;
    certified = λ q e. ground (arith, validate_qc-adopt s qc q);
  }

  -- The lock never falls, and an adopted certificate is never given up for none.
  pub record Advances (s t : HotStuff b) : Type 0 where
    pub lock : s.locked_view ≤ t.locked_view
    pub keeps : is_some s.high_qc ≡ true → is_some t.high_qc ≡ true

  adopt-Advances :
      (qc : QuorumCertificate) (s : HotStuff b)
      → IsLocked s
      → ((s.high_qc ≡ none) ⊎ (view_of s.high_qc < qc.view))
      → Advances s (adopt b qc s)
  unfolding adopt
  adopt-Advances qc s h newer = record { lock = ground (arith, h.lock, newer); keeps = λ _. refl }

  next_view_lem :
      (s : HotStuff b)
      → IsLocked s
      → IsLocked (enter_next_view b s).1 × Advances s (enter_next_view b s).1
  unfolding enter_next_view
  next_view_lem s h = elim (Bool-cases (leb (s.view + 1) u64_max)) [
    | inl room ↦ rw room (
      record {
        lock = h.lock;
        current = omega (arith, h.current);
        certified = λ qc e. same s (s.view + 1) qc ∙ h.certified qc e;
      },
      record { lock = omega arith; keeps = λ e. e },
    )
    | inr over ↦ rw over (h, record { lock = omega arith; keeps = λ e. e })
  ]
    where
      same :
          (s : HotStuff b) (v : ℕ) (qc : QuorumCertificate)
          → validate_qc b (record s { view = v }) qc ≡ validate_qc b s qc
      same s v qc = unfold validate_qc in refl

  handle_lem :
      (e : Event) (s : HotStuff b) → IsLocked s → IsLocked (handle e s) × Advances s (handle e s)
  unfolding handle
  handle_lem next_view s h = next_view_lem s h
  handle_lem (receive qc) s h = elim (update_high_qc_cases qc s) [
    | inl (_, _, e) ↦ rw (e, handle) (h, record { lock = omega arith; keeps = λ k. k })
    | inr (inl (_, _, _, e)) ↦ rw (e, handle) (h, record { lock = omega arith; keeps = λ k. k })
    | inr (inr (v, newer, e)) ↦ rw (e, handle) (adopt-IsLocked qc s v, adopt-Advances qc s h newer)
  ]

  run_lem :
      (es : List Event) (s : HotStuff b) → IsLocked s → IsLocked (run es s) × Advances s (run es s)
  unfolding run
  run_lem [] s h = (h, record { lock = omega arith; keeps = λ k. k })
  run_lem (e ∷ es) s h =
      let (h', a) = handle_lem e s h in
      let (h'', a') = run_lem es (handle e s) h' in
      (h'', record { lock = omega (arith, a.lock, a'.lock); keeps = λ k. a'.keeps (a.keeps k) })

  -- Whatever a new replica is sent, in whatever order, its lock is the view of a valid certificate
  -- that it holds, or 0 if it holds none, and no later than its view.
  pub run-IsLocked :
      (c : ConsensusConfig) (r : ValidatorRegistry b) (es : List Event)
      → IsLocked (run es (new b c r))
  run-IsLocked c r es = (run_lem es (new b c r) (new-IsLocked c r)).0

  IsLocked-after :
      (qc : QuorumCertificate) (s : HotStuff b) {done : Bool}
      → IsLocked s
      → (update_high_qc b qc s).0 ≡ ok done
      → IsLocked (update_high_qc b qc s).1
        × (qc.view ≤ (update_high_qc b qc s).1.locked_view)
        × (is_some (update_high_qc b qc s).1.high_qc ≡ true)
  unfolding adopt
  IsLocked-after qc s h r = elim (update_high_qc_cases qc s) [
    | inl (_, _, e) ↦ ground arith
    | inr (inl (_, there, old, e)) ↦ rw e (h, omega (arith, h.lock), there)
    | inr (inr (v, _, e)) ↦ rw e (adopt-IsLocked qc s v, omega arith, refl)
  ]

  -- On a replica whose lock is the view of the certificate that it holds: once a valid
  -- certificate has been received, adopted or passed over, no proposal of its view or an earlier
  -- one is ever safe again, whatever the replica is sent afterwards.
  pub no_regression :
      (qc : QuorumCertificate) (s : HotStuff b) (done : Bool) (es : List Event) (view : ℕ)
      → IsLocked s
      → (update_high_qc b qc s).0 ≡ ok done
      → view ≤ qc.view
      → is_safe_proposal b (run es (update_high_qc b qc s).1) view ≡ false
  unfolding is_safe_proposal
  no_regression qc s done es view h r old =
      let (h', lock, there) = IsLocked-after qc s h r in
      let (_, a) = run_lem es (update_high_qc b qc s).1 h' in
      ground (arith, a.lock, a.keeps there, lock)
