-- ===== src/Commitment/Split.antt =====
-- `_split`: the largest power of two below the number of leaves.
use native.Mathlib.Nat.{pow-suc}
use mybench.Base.{
  ℕ, zero, suc, ◌+◌, ◌*◌, ◌^◌, ◌≤◌, ◌<◌, ◌≡◌, refl, ◌∙◌, sym, ap, ltb, Bool-cases, ltb→lt,
  ltb_false→le, arith, inl, inr,
}
use mybench.Commitment.{split_loop, split}

-- The loop's invariant: `k` is a power of two below `n`, and the fuel reaches `n`.
split_loop_lem :
    (fuel e k n : ℕ)
    → k ≡ 2 ^ e
    → 0 < k
    → k < n
    → n ≤ k + fuel
    → (x : ℕ) × (split_loop fuel k n ≡ 2 ^ x)
      × (split_loop fuel k n < n)
      × (n ≤ split_loop fuel k n * 2)
unfolding split_loop
split_loop_lem zero e k n power pos below reach = absurd (omega arith)
split_loop_lem (suc fuel) e k n power pos below reach = elim (Bool-cases (ltb (k * 2) n)) [
  | inl more ↦ rw more (
      split_loop_lem fuel (suc e) (k * 2) n (ap (λ t. t * 2) power ∙ sym (pow-suc 2 e))
        (omega arith) (ltb→lt (k * 2) n more) (omega arith))
  | inr done ↦ rw done (e, power, below, ltb_false→le (k * 2) n done)
]

-- For a tree of two leaves or more: a power of two, below the size, and at least half of it.
pub split_lem : (n : ℕ) → 2 ≤ n → (x : ℕ) × (split n ≡ 2 ^ x) × (split n < n) × (n ≤ split n * 2)
unfolding split
split_lem n h = split_loop_lem n 0 1 n refl (omega arith) (omega arith) (omega arith)
