-- ===== src/Faucet/Bounded.antt =====
-- crates/subhost-faucet/src/lib.rs: how much of an answer is read.
use mathlib.Core.Path.{subst}
use sub_host_demo.Base.{
  ℕ, ◌+◌, ◌≤◌, ◌≡◌, inl, inr, Option, none, some, List, [], ◌∷◌, ◌++◌, arith, nat_eq, list_eq, ltb,
  length, length-append, Result, ok, Bool-cases,
}
use sub_host_demo.Core.{Byte}
use sub_host_demo.Faucet.{FaucetError, read_chunks, read_bounded}

module _ (limit : ℕ) where
  read_chunks-bounded :
      (body result : List Byte) (chunks : List (Option (List Byte)))
      → length body ≤ limit
      → read_chunks limit body chunks ≡ ok result
      → length result ≤ limit
  unfolding read_chunks
  read_chunks-bounded body result [] h e = subst (λ x. length x ≤ limit) (same e) h
    where
      same : ◌≡◌ {A = Result FaucetError (List Byte)} (ok body) (ok result) → body ≡ result
      same e = cc e
  read_chunks-bounded body result (none ∷ chunks) h e = absurd (cc e)
  read_chunks-bounded body result (some chunk ∷ chunks) h e =
      elim (Bool-cases (ltb limit (length body + length chunk))) [
        | inl over ↦ absurd (ground arith)
        | inr fits ↦
            read_chunks-bounded (body ++ chunk) result chunks
              (ground (arith, length-append body chunk)) (ground arith)
      ]

  -- Whatever chunks a node sends, and whatever length it announces, a body that is read is within
  -- the limit.
  pub read_bounded-le :
      (content_length : Option ℕ) (chunks : List (Option (List Byte))) (body : List Byte)
      → read_bounded limit content_length chunks ≡ ok body
      → length body ≤ limit
  unfolding read_bounded
  read_bounded-le content_length chunks body e =
      read_chunks-bounded [] body chunks (omega arith) (ground arith)
