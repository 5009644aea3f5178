-- ===== src/Assistant/Bounds.antt =====
-- banc-assistant/src/main.rs: how many monitor tasks there are.
use banc.Common.{
  ℕ, zero, suc, ◌+◌, ◌≤◌, ◌<◌, ◌≡◌, refl, List, [], ◌∷◌, arith, ltb, if◌then◌else◌, length,
}
use banc.Assistant.{Board, num_pins, pool_size, Task, Device}
use banc.Assistant.Running.{Reach}
use banc.Assistant.Tasks.{owners, Reach-count}

module _ (B : Board) where
  -- The owners of the pins below `n`.
  total : ℕ → List (Task B) → ℕ
  total zero ts = 0
  total (suc n) ts = owners B n ts + total n ts

  total-cons :
      (n : ℕ) (t : Task B) (ts : List (Task B))
      → total n (t ∷ ts) ≡ (if ltb t.pin n then 1 else 0) + total n ts
  unfolding total
  total-cons zero t ts = ground arith
  total-cons (suc n) t ts = ground (arith, total-cons n t ts)

  total-nil : (n : ℕ) → total n [] ≡ 0
  unfolding total
  total-nil zero = refl
  total-nil (suc n) = omega (arith, total-nil n)

  -- Where no pin from `n` on has an owner, each task is an owner of a pin below.
  length-total :
      (n : ℕ) (ts : List (Task B)) → ((i : ℕ) → n ≤ i → owners B i ts ≡ 0) → length ts ≡ total n ts
  length-total n [] h = ground (arith, total-nil n)
  length-total n (t ∷ ts) h =
      let ih = length-total n ts (λ i le. ground (arith, h i le)) in
      let k = total-cons n t ts in
      let m : t.pin < n = ground (arith, h t.pin) in ground (arith, ih, k, m)

  total-le : (n : ℕ) (ts : List (Task B)) → ((i : ℕ) → owners B i ts ≤ 1) → total n ts ≤ n
  unfolding total
  total-le zero ts h = omega arith
  total-le (suc n) ts h = omega (arith, total-le n ts h, h n)

  -- In every state that the firmware can come to there is at most one monitor for each pin, so that
  -- two tasks of the pool are left for the requests to the same endpoint that end at once, as those
  -- to stop a monitor do.
  pub monitors_bounded : (d : Device B) → Reach B d → length d.tasks + 2 ≤ pool_size
  monitors_bounded d r =
      let e = length-total num_pins d.tasks (λ i le. ground (arith, Reach-count B r i)) in
      let le = total-le num_pins d.tasks (λ i. ground (arith, Reach-count B r i)) in omega arith
