-- ===== src/Assistant/Pending.antt =====
-- banc-assistant/src/main.rs: a monitor that is to stop and has not.
use banc.Common.{
  ℕ, ◌+◌, ◌<◌, ◌≡◌, ◌≢◌, ◌⊎◌, inl, inr, refl, ap, Bool, true, false, none, some, List, [], ◌∷◌,
  ◌++◌, arith, ◌==◌, ◌&&◌, if◌then◌else◌, Bool-cases,
}
use banc.Assistant.{Board, num_pins, Task, Device, At, replying, watching, publishing, returning}
use banc.Assistant.Running.{Reach}
use banc.Assistant.Tasks.{owners, Reach-count}
use banc.Assistant.Waking.{ComesBack, at-ComesBack, returning-ComesBack, longer}

module _ (B : Board) where
  unfoldable pub is_returning : ℕ → Task B → Bool
  is_returning i t = (t.pin == i) && (elim t.at [
    | replying ↦ false
    | watching seq ↦ false
    | publishing seq ↦ false
    | returning ↦ true
  ])

  unfoldable pub count : (Task B → Bool) → List (Task B) → ℕ
  count p [] = 0
  count p (t ∷ ts) = (if p t then 1 else 0) + count p ts

  pub count-append :
      (p : Task B → Bool) (ts us : List (Task B)) → count p (ts ++ us) ≡ count p ts + count p us
  unfolding count
  count-append p [] us = omega arith
  count-append p (t ∷ ts) us = omega (arith, count-append p ts us)

  pub count-owners : (i : ℕ) (ts : List (Task B)) → count (λ t. t.pin == i) ts ≡ owners B i ts
  unfolding count
  count-owners i [] = refl
  count-owners i (t ∷ ts) = omega (arith, count-owners i ts)

  -- A task of the kind that is counted.
  find :
      (p : Task B → Bool) (ts : List (Task B))
      → count p ts ≢ 0
      → (before : List (Task B)) × (after : List (Task B)) × (t : Task B) × (ts
          ≡ before ++ (t ∷ after))
        × (p t ≡ true)
  unfolding count
  find p [] h = ground (arith, h)
  find p (t ∷ ts) h = elim (Bool-cases (p t)) [
    | inl e ↦ ([], ts, t, refl, e)
    | inr e ↦
        let (before, after, u, q, f) = find p ts (ground (arith, h)) in
        (t ∷ before, after, u, ap (λ us. t ∷ us) q, f)
  ]

  -- The monitor of the pin has it still, and is to stop: the signal is there, or it has taken it.
  unfoldable pub Pending : Device B → ℕ → Type 0
  unfolding count is_returning
  Pending d i =
      (d.slots i ≡ none)
      × (((left : B.Signal) × (B.wait (d.stop i) ≡ some left))
          ⊎ (0 < count (is_returning i) d.tasks))

  returning-at : (i : ℕ) (t : Task B) → is_returning i t ≡ true → (t.pin ≡ i) × (t.at ≡ returning)
  unfolding is_returning
  returning-at i t h = at_cases t.at refl
    where
      at_cases : (at : At) → t.at ≡ at → (t.pin ≡ i) × (t.at ≡ returning)
      at_cases at e = ground (arith, h, e)

  pub Pending-ComesBack :
      (d : Device B) (i : ℕ) → Reach B d → i < num_pins → Pending d i → ComesBack B d i 3
  unfolding Pending
  Pending-ComesBack d i r lt (n, inl (left, s)) =
      let c = Reach-count B r i in
      let o = count-owners i d.tasks in
      let (before, after, t, e, p) = find (λ t. t.pin == i) d.tasks (ground (arith, c, o)) in
      at-ComesBack B d i before after t t.at left refl (ground arith) s e
  Pending-ComesBack d i r lt (n, inr h) =
      let (before, after, t, e, p) = find (is_returning i) d.tasks (omega arith) in
      let (q, a) = returning-at i t p in
      longer B d i 1 3 (omega arith) (returning-ComesBack B d i before after t q a e)
