-- ===== src/Assistant/Waking.antt =====
-- banc-assistant/src/main.rs: how a monitor that is to stop gives its pin back.
use banc.Common.{
  ℕ, suc, ◌+◌, ◌%◌, ◌^◌, ◌≤◌, ◌≡◌, ◌≢◌, refl, sym, ap, subst, ◌∙◌, Bool, true, false, Option, none,
  some, List, ◌∷◌, ◌++◌, arith, put,
}
use banc.Assistant.{Board, Task, Device, At, replying, watching, publishing, returning}
use banc.Assistant.Running.{
  Wake, replied, stopped, edge, published, locked, Woken, wake_at, with_task,
}

module _ (B : Board) where
  -- The wakes of a task that the world outside owes it: its reply goes out, its event is published,
  -- the signal and the lock are there. No edge comes, and no reply fails.
  unfoldable pub owed : Wake B → Bool
  owed (replied sent) = sent
  owed (edge is_high now_us) = false
  owed w = true

  -- One owed wake of a task of the pin `i`.
  pub data Woke (i : ℕ) (d : Device B) (d' : Device B) : Type 0 where
    woke :
        (before after : List (Task B)) (t : Task B) (w : Wake B) (r : Woken B)
        → t.pin ≡ i
        → owed w ≡ true
        → d.tasks ≡ before ++ (t ∷ after)
        → wake_at B d t t.at w ≡ some r
        → d' ≡ record { slots = r.slots; stop = r.stop; tasks = with_task B before r.task after }
        → Woke i d d'

  -- So many of them in a row.
  pub data Wakes (i : ℕ) : ℕ → Device B → Device B → Type 0 where
    done : {d : Device B} → Wakes i 0 d d
    woke_on : {n : ℕ} {d d' d'' : Device B} → Woke i d d' → Wakes i n d' d'' → Wakes i (suc n) d d''

  -- The pin comes back within that many owed wakes of the monitor on it.
  unfoldable pub ComesBack : Device B → ℕ → ℕ → Type 0
  ComesBack d i within =
      (d' : Device B) × (n : ℕ) × (n ≤ within) × Wakes i n d d' × (d'.slots i ≢ none)

  put-back : (f : ℕ → Option B.Flex) (i : ℕ) (x : B.Flex) → put f i (some x) i ≢ none
  unfolding put
  put-back f i x = ground arith

  pub returning-ComesBack :
      (d : Device B) (i : ℕ) (before after : List (Task B)) (t : Task B)
      → t.pin ≡ i
      → t.at ≡ returning
      → d.tasks ≡ before ++ (t ∷ after)
      → ComesBack d i 1
  unfolding ComesBack
  returning-ComesBack d i before after t p a e =
      let r : Woken B = record {
        slots = put d.slots t.pin (some t.flex);
        stop = d.stop;
        task = none;
        event = none;
      } in
      let h : wake_at B d t t.at locked ≡ some r =
        unfold wake_at in ap (λ at. wake_at B d t at locked) a in
      (
        record { slots = r.slots; stop = r.stop; tasks = before ++ after },
        1,
        omega arith,
        woke_on (woke before after t locked r p (unfold owed in refl) e h refl) done,
        subst (λ j. put d.slots t.pin (some t.flex) j ≢ none) p (put-back d.slots t.pin t.flex),
      )

  -- One more owed wake before it, after which the task stands elsewhere.
  sooner : {d d' : Device B} (i n : ℕ) → Woke i d d' → ComesBack d' i n → ComesBack d i (suc n)
  unfolding ComesBack
  sooner i within u (e, n, le, ws, back) = (e, suc n, omega arith, woke_on u ws, back)

  watching-ComesBack :
      (d : Device B) (i seq : ℕ) (before after : List (Task B)) (t : Task B) (left : B.Signal)
      → t.pin ≡ i
      → t.at ≡ watching seq
      → B.wait (d.stop i) ≡ some left
      → d.tasks ≡ before ++ (t ∷ after)
      → ComesBack d i 2
  watching-ComesBack d i seq before after t left p a s e =
      let t' : Task B = record t { at = returning } in
      let r : Woken B = record {
        slots = d.slots;
        stop = put d.stop t.pin left;
        task = some t';
        event = none;
      } in
      let q : B.wait (d.stop t.pin) ≡ some left =
        subst (λ j. B.wait (d.stop j) ≡ some left) (sym p) s in
      let h : wake_at B d t t.at stopped ≡ some r =
        ap (λ at. wake_at B d t at stopped) a ∙ (unfold wake_at in ground (arith, q)) in
      let d' : Device B = record {
        slots = r.slots;
        stop = r.stop;
        tasks = before ++ (t' ∷ after);
      } in
      sooner i 1 (woke before after t stopped r p (unfold owed in refl) e h refl)
        (returning-ComesBack d' i before after t' p refl refl)

  -- A task that is watching after its next wake stops within three.
  soon-ComesBack :
      (d : Device B) (i seq : ℕ) (before after : List (Task B)) (t : Task B) (w : Wake B)
      (left : B.Signal)
      → t.pin ≡ i
      → owed w ≡ true
      → wake_at B d t t.at w
        ≡ some (record {
          slots = d.slots;
          stop = d.stop;
          task = some (record t { at = watching seq });
          event = none;
        })
      → B.wait (d.stop i) ≡ some left
      → d.tasks ≡ before ++ (t ∷ after)
      → ComesBack d i 3
  soon-ComesBack d i seq before after t w left p o h s e =
      let t' : Task B = record t { at = watching seq } in
      let d' : Device B = record {
        slots = d.slots;
        stop = d.stop;
        tasks = before ++ (t' ∷ after);
      } in
      sooner i 2 (woke before after t w _ p o e h refl)
        (watching-ComesBack d' i seq before after t' left p refl s refl)

  pub longer : (d : Device B) (i m n : ℕ) → m ≤ n → ComesBack d i m → ComesBack d i n
  unfolding ComesBack
  longer d i m n le (e, k, lt, ws, back) = (e, k, omega arith, ws, back)

  pub at-ComesBack :
      (d : Device B) (i : ℕ) (before after : List (Task B)) (t : Task B) (at : At) (left : B.Signal)
      → t.at ≡ at
      → t.pin ≡ i
      → B.wait (d.stop i) ≡ some left
      → d.tasks ≡ before ++ (t ∷ after)
      → ComesBack d i 3
  at-ComesBack d i before after t replying left a p s e =
      soon-ComesBack d i 0 before after t (replied true) left p (unfold owed in refl)
        (ap (λ at. wake_at B d t at (replied true)) a ∙ (unfold wake_at in refl)) s e
  at-ComesBack d i before after t (publishing seq) left a p s e =
      soon-ComesBack d i ((seq + 1) % 2 ^ 16) before after t published left p (unfold owed in refl)
        (ap (λ at. wake_at B d t at published) a ∙ (unfold wake_at in refl)) s e
  at-ComesBack d i before after t (watching seq) left a p s e =
      longer d i 2 3 (omega arith) (watching-ComesBack d i seq before after t left p a s e)
  at-ComesBack d i before after t returning left a p s e =
      longer d i 1 3 (omega arith) (returning-ComesBack d i before after t p a e)
