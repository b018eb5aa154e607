-- ===== src/Engine/Actions/Batch.antt =====
-- The batches of a staged deployment.
use pacinet.Prelude.{
  ℕ, zero, suc, ◌+◌, ◌-◌, ◌%◌, ◌<◌, ◌≤◌, ◌≡◌, ◌∙◌, sym, ap, refl, Option, some, List, [], ◌∷◌, ◌++◌,
  leb, ltb, length, take, drop, take-nil, arith, Bool-cases, inl, inr, if◌then◌else◌,
}
use pacinet.Model.{Node}
use pacinet.Counters.Rate.{Floats}
use pacinet.Deploy.Fleet.{u32_size}
use pacinet.Engine.Actions.{batch_size, next_batch}

successor : (m n : ℕ) → suc m + n ≡ suc (m + n)
successor m n = omega arith

take-window :
    {A : Type 0} (m n : ℕ) (xs : List A) → take (m + n) xs ≡ take m xs ++ take n (drop m xs)
take-window zero n xs = ap (λ k. take k xs) (omega arith)
take-window (suc m) n [] = take-nil (suc m + n) ∙ sym (take-nil n)
take-window (suc m) n (x ∷ xs) =
    ap (λ k. take k (x ∷ xs)) (successor m n) ∙ ap (λ t. x ∷ t) (take-window m n xs)

-- A batch has a node.
batch_size-positive :
    (fl : Floats) (total percent : ℕ) → 0 < total → 0 < batch_size fl total percent
unfolding batch_size
batch_size-positive fl total percent h = ground arith

-- Where a batch of `size` nodes from `cursor` on ends.
abbrev stop_of : ℕ → ℕ → ℕ → ℕ
stop_of total cursor size = if ltb total (cursor + size) then total else cursor + size

stop-bounds :
    (total cursor size : ℕ)
    → cursor < total
    → 0 < size
    → (cursor < stop_of total cursor size) × (stop_of total cursor size ≤ total)
stop-bounds total cursor size h k = (ground arith, ground arith)

both_equal :
    {a b : List Node} {m n : ℕ}
    → ◌≡◌ {A = Option (List Node × ℕ)} (some (a, m)) (some (b, n))
    → (a ≡ b) × (m ≡ n)
both_equal h = (cc, cc)

-- Whatever the percentage, each batch of a staged deployment begins where the one before has ended, has at
-- least one node, and goes no further than the last node: with it, the nodes up to the new cursor are those up
-- to the old one, followed by the batch. This is so for fewer than 2^32 nodes.
pub next_batch-window :
    (fl : Floats) (percent cursor next : ℕ) (nodes batch : List Node)
    → length nodes < u32_size
    → next_batch fl (some percent) cursor nodes ≡ some (batch, next)
    → (cursor < next) × (next ≤ length nodes) × (take next nodes ≡ take cursor nodes ++ batch)
unfolding next_batch
next_batch-window fl percent cursor next nodes batch b h =
    elim (Bool-cases (leb (length nodes) cursor)) [
      | inl e ↦ absurd (ground (arith, e, h))
      | inr e ↦
          let total = length nodes in
          let inside : cursor < total = ground (arith, e) in
          let size = batch_size fl total percent in
          let stop = stop_of total cursor size in
          let (l, u) =
            stop-bounds total cursor size inside
              (batch_size-positive fl total percent (omega (arith, inside))) in
          let window : next_batch fl (some percent) cursor nodes
              ≡ some (take (stop - cursor) (drop cursor nodes), stop % u32_size) =
            rw (e, next_batch) refl in
          let (p, q) = both_equal (sym window ∙ h) in
          let n : next ≡ stop = omega (arith, q, u, b) in
          (
            omega (arith, n, l),
            omega (arith, n, u),
            ap (λ k. take k nodes) (omega (arith, n, l))
                ∙ take-window cursor (stop - cursor) nodes
                ∙ ap (λ t. take cursor nodes ++ t) p,
          )
    ]
