-- ===== src/Faucet/Cooldown.antt =====
-- crates/subhost-faucet/src/lib.rs: the cooldown of an address.
use mathlib.Core.Path.{subst}
use sub_host_demo.Base.{
  not, ◌&&◌, is_empty, ℕ, ◌+◌, ◌-◌, ◌*◌, ◌<◌, ◌≤◌, ◌≡◌, ◌≢◌, ◌∙◌, sym, ap, inl, inr, refl, Bool,
  true, false, Option, none, some, List, [], ◌∷◌, filter, All, arith, ◌==◌, nat_eq, list_eq, ltb,
  if◌then◌else◌, Result, ok, err, ⊤, Bool-cases, Option-cases,
}
use sub_host_demo.Map
use sub_host_demo.Map.{Map, get-insert, get-remove}
use sub_host_demo.Rpc.Wire.{Text}
use sub_host_demo.Faucet
use sub_host_demo.Faucet.{
  CooldownLedger, try_claim, release, sweep, to_ascii_lowercase, with_entries,
}

-- When an address was last claimed, in any spelling.
unfoldable pub claimed_at : Text → CooldownLedger → Option ℕ
claimed_at address l = Map.get (to_ascii_lowercase address) l.entries

-- The rule of a claim, by what the ledger holds for the address.
abbrev pub IsFree : ℕ → ℕ → Option ℕ → Type 0
IsFree later cooldown none = ⊤
IsFree later cooldown (some claimed) = cooldown ≤ later - claimed

-- The end of a claim: it succeeds and is dated, or it is refused with the time that is left.
pub data Claimed (now later : ℕ) (a : Text) (l : CooldownLedger) : Type 0 where
  taken :
      IsFree later l.cooldown (claimed_at a l)
      → try_claim now later a l
        ≡ (ok tt, with_entries (Map.insert (to_ascii_lowercase a) now l.entries) l)
      → Claimed now later a l
  refused :
      (claimed : ℕ)
      → claimed_at a l ≡ some claimed
      → later - claimed < l.cooldown
      → try_claim now later a l ≡ (err (l.cooldown - (later - claimed)), l)
      → Claimed now later a l

pub claim_cases : (now later : ℕ) (a : Text) (l : CooldownLedger) → Claimed now later a l
unfolding try_claim claimed_at
claim_cases now later a l = elim (Option-cases (Map.get (to_ascii_lowercase a) l.entries)) [
  | inl x ↦ taken (rw x tt) (ground arith)
  | inr (claimed, x) ↦ elim (Bool-cases (ltb (later - claimed) l.cooldown)) [
    | inl young ↦ refused claimed x (ground arith) (ground arith)
    | inr old ↦ taken (rw x (ground arith)) (ground arith)
  ]
]

pub claimed_at-insert :
    (a b : Text) (now : ℕ) (l : CooldownLedger)
    → claimed_at b (with_entries (Map.insert (to_ascii_lowercase a) now l.entries) l)
      ≡ (if to_ascii_lowercase a == to_ascii_lowercase b then some now else claimed_at b l)
unfolding claimed_at
claimed_at-insert a b now l = get-insert (to_ascii_lowercase a) (to_ascii_lowercase b) now l.entries

pub claimed_at-release :
    (a b : Text) (l : CooldownLedger)
    → claimed_at b (release a l)
      ≡ (if to_ascii_lowercase a == to_ascii_lowercase b then none else claimed_at b l)
unfolding claimed_at release
claimed_at-release a b l = get-remove (to_ascii_lowercase a) (to_ascii_lowercase b) l.entries

abbrev is_live : ℕ → ℕ → Text × ℕ → Bool
is_live later window e = ltb (later - e.1) window

get-filter :
    (later window claimed : ℕ) (key : Text) (m : Map Text ℕ)
    → Map.get key m ≡ some claimed
    → later - claimed < window
    → Map.get key (filter (is_live later window) m) ≡ some claimed
unfolding Map.get
get-filter later window claimed key [] e h = cc e
get-filter later window claimed key ((j, t) ∷ m) e h =
    ground (arith, get-filter later window claimed key m)

-- What may happen to the ledger between two claims.
pub data Event : Type 0 where
  claim : ℕ → ℕ → Text → Event
  drop_claim : Text → Event
  clean : ℕ → Event

abbrev swept : CooldownLedger → Option (ℕ × CooldownLedger) → CooldownLedger
swept l none = l
swept l (some (n, l')) = l'

unfoldable pub handle : Event → CooldownLedger → CooldownLedger
handle (claim now later a) l = (try_claim now later a l).1
handle (drop_claim a) l = release a l
handle (clean later) l = swept l (sweep later l)

unfoldable pub handle_all : List Event → CooldownLedger → CooldownLedger
handle_all [] l = l
handle_all (e ∷ es) l = handle_all es (handle e l)

-- An event whose clock is read before `limit`, and that does not release the address.
abbrev pub IsBefore : ℕ → Text → Event → Type 0
IsBefore limit a (claim now later b) = later < limit
IsBefore limit a (drop_claim b) = to_ascii_lowercase b ≢ to_ascii_lowercase a
IsBefore limit a (clean later) = later < limit

-- An address that was claimed at `now`, in a ledger of this cooldown.
record IsHeld (cooldown now : ℕ) (a : Text) (l : CooldownLedger) : Type 0 where
  held : claimed_at a l ≡ some now
  window : l.cooldown ≡ cooldown
  positive : 0 < cooldown

sweep-IsHeld :
    (cooldown now later : ℕ) (a : Text) (l : CooldownLedger)
    → IsHeld cooldown now a l
    → later < now + cooldown
    → IsHeld cooldown now a (swept l (sweep later l))
unfolding sweep claimed_at
sweep-IsHeld cooldown now later a l h k =
    elim (Bool-cases (not (is_empty l.entries) && ltb Faucet.max_duration (l.cooldown * 2))) [
      | inl huge ↦ rw huge h
      | inr fits ↦ rw fits (record {
        held =
            get-filter later (l.cooldown * 2) now (to_ascii_lowercase a) l.entries h.held
              (omega (arith, h.window, h.positive));
        window = h.window;
        positive = h.positive;
      })
    ]

claim-IsHeld :
    (cooldown now now' later : ℕ) (a b : Text) (l : CooldownLedger)
    → IsHeld cooldown now a l
    → later < now + cooldown
    → IsHeld cooldown now a (try_claim now' later b l).1
claim-IsHeld cooldown now now' later a b l h k = elim (claim_cases now' later b l) [
  | refused _ _ _ x ↦ rw x h
  | taken free x ↦ elim (Bool-cases (to_ascii_lowercase b == to_ascii_lowercase a)) [
    | inl same ↦ absurd (
        busy (same_time ((list_eq.beq_iff (to_ascii_lowercase b) (to_ascii_lowercase a)).0 same))
          free)
    | inr apart ↦ rw x (record {
      held = claimed_at-insert b a now' l ∙ ground (arith, apart, h.held);
      window = h.window;
      positive = h.positive;
    })
  ]
]
  where
    same_time : to_ascii_lowercase b ≡ to_ascii_lowercase a → claimed_at b l ≡ some now
    same_time e = unfold claimed_at in ap (λ k. Map.get k l.entries) e ∙ unfold claimed_at in h.held

    busy : claimed_at b l ≡ some now → IsFree later l.cooldown (claimed_at b l) → ⊥
    busy e free = omega (arith, h.window, h.positive, subst (IsFree later l.cooldown) e free)

pub same_key : (x : Text) → (x == x) ≡ true
same_key x = (list_eq.beq_iff x x).1 refl

other_key : (x y : Text) → x ≢ y → (x == y) ≡ false
other_key x y h = elim (Bool-cases (x == y)) [
  | inl e ↦ absurd (h ((list_eq.beq_iff x y).0 e))
  | inr e ↦ e
]

release-IsHeld :
    (cooldown now : ℕ) (a b : Text) (l : CooldownLedger)
    → IsHeld cooldown now a l
    → to_ascii_lowercase b ≢ to_ascii_lowercase a
    → IsHeld cooldown now a (release b l)
unfolding release
release-IsHeld cooldown now a b l h k =
    let apart = other_key (to_ascii_lowercase b) (to_ascii_lowercase a) k in
    record {
      held = claimed_at-release b a l ∙ rw apart h.held;
      window = h.window;
      positive = h.positive;
    }

handle-IsHeld :
    (cooldown now : ℕ) (a : Text) (l : CooldownLedger) (e : Event)
    → IsHeld cooldown now a l
    → IsBefore (now + cooldown) a e
    → IsHeld cooldown now a (handle e l)
unfolding handle
handle-IsHeld cooldown now a l (claim now' later b) h k =
    claim-IsHeld cooldown now now' later a b l h k
handle-IsHeld cooldown now a l (drop_claim b) h k = release-IsHeld cooldown now a b l h k
handle-IsHeld cooldown now a l (clean later) h k = sweep-IsHeld cooldown now later a l h k

handle_all-IsHeld :
    (cooldown now : ℕ) (a : Text) (es : List Event) (l : CooldownLedger)
    → IsHeld cooldown now a l
    → All (IsBefore (now + cooldown) a) es
    → IsHeld cooldown now a (handle_all es l)
unfolding handle_all
handle_all-IsHeld cooldown now a [] l h k = h
handle_all-IsHeld cooldown now a (e ∷ es) l h k =
    handle_all-IsHeld cooldown now a es (handle e l) (handle-IsHeld cooldown now a l e h k.0) k.1

claimed-IsHeld :
    (now later : ℕ) (a : Text) (l : CooldownLedger)
    → 0 < l.cooldown
    → (try_claim now later a l).0 ≡ ok tt
    → IsHeld l.cooldown now a (try_claim now later a l).1
claimed-IsHeld now later a l p e = elim (claim_cases now later a l) [
  | refused _ _ _ x ↦ absurd (cc (x, e))
  | taken _ x ↦ rw x (record {
    held = claimed_at-insert a a now l ∙ rw (same_key (to_ascii_lowercase a)) refl;
    window = refl;
    positive = p;
  })
]

-- After a claim of an address has succeeded, and whatever claims, sweeps and releases of other addresses
-- follow before its cooldown is over, another claim of that address in any spelling is refused
-- until then, with at most the time that is left.
pub try_claim-spaced :
    (now later : ℕ) (a b : Text) (es : List Event) (l : CooldownLedger) (now' later' : ℕ)
    → 0 < l.cooldown
    → (try_claim now later a l).0 ≡ ok tt
    → All (IsBefore (now + l.cooldown) a) es
    → to_ascii_lowercase b ≡ to_ascii_lowercase a
    → later' < now + l.cooldown
    → (try_claim now' later' b (handle_all es (try_claim now later a l).1)).0
      ≡ err (l.cooldown - (later' - now))
try_claim-spaced now later a b es l now' later' p e k same t =
    let l' = handle_all es (try_claim now later a l).1 in
    let h =
      handle_all-IsHeld l.cooldown now a es (try_claim now later a l).1
        (claimed-IsHeld now later a l p e) k in
    let at = respelled b l' same ∙ h.held in
    elim (claim_cases now' later' b l') [
      | taken free _ ↦
          absurd (omega (arith, h.window, p, subst (IsFree later' l'.cooldown) at free))
      | refused claimed x _ y ↦ ap (λ q. q.0) y ∙ left l' claimed (sym x ∙ at) h.window
    ]
  where
    respelled :
        (b : Text) (l' : CooldownLedger)
        → to_ascii_lowercase b ≡ to_ascii_lowercase a
        → claimed_at b l' ≡ claimed_at a l'
    respelled b l' e = unfold claimed_at in ap (λ k. Map.get k l'.entries) e

    left :
        (l' : CooldownLedger) (claimed : ℕ)
        → some claimed ≡ some now
        → l'.cooldown ≡ l.cooldown
        → ◌≡◌ {A = Result ℕ ⊤}
            (err (l'.cooldown - (later' - claimed)))
            (err (l.cooldown - (later' - now)))
    left l' claimed e f = ground (arith, e, f)
