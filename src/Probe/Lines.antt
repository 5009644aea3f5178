-- ===== src/Probe/Lines.antt =====
-- banc-probe/src/local.rs: the lines that `poll_rtt` makes of the bytes of a channel.
use banc.Common.{
  ℕ, zero, suc, ◌+◌, ◌≤◌, ◌≡◌, ◌≢◌, ◌⊎◌, inl, inr, refl, none, some, List, [], ◌∷◌, ◌++◌, ◌∙◌,
  arith, ltb, ok, sym, Bool-cases, ◌==◌, All, length, length-append, ap, map, ◌<◌, false,
}
use mathlib.Core.List.{append_assoc, append-nil, map-append}
use banc.Common.Text.{trim_end}
use banc.Probe.{
  Text, Bytes, max_line, drain_line, drain_lines, after_read, poll_rtt, Polled, no_core, no_read,
  no_channel, read, flush, Turn, Worker, Output, line, worker, turn, received, capturing, polling,
  sunk,
}

abbrev pub concat : List Bytes → Bytes
concat [] = []
concat (l ∷ ls) = l ++ concat ls

pub concat-append : (a b : List Bytes) → concat (a ++ b) ≡ concat a ++ concat b
concat-append [] b = refl
concat-append (l ∷ a) b = rw (concat-append a b, append_assoc) refl

-- No newline is among the bytes.
abbrev pub IsPartial : Bytes → Type 0
IsPartial bs = All (λ b. b ≢ 10) bs

-- A line is taken off up to its newline, if there is one.
drain_line_cases :
    (bs : Bytes)
    → ((drain_line bs ≡ none) × IsPartial bs)
      ⊎ ((stem : Bytes) × (left : Bytes) × (drain_line bs ≡ some (stem ++ (10 ∷ []), left))
          × (bs ≡ stem ++ (10 ∷ left))
          × IsPartial stem)
unfolding drain_line
drain_line_cases [] = inl (refl, tt)
drain_line_cases (b ∷ bs) = elim (newline_or b) [
  | inl e ↦ inr ([], bs, ground arith, ground arith, tt)
  | inr d ↦ elim (drain_line_cases bs) [
    | inl (e, p) ↦ inl (ground arith, (d, p))
    | inr (stem, left, e, f, p) ↦ inr (b ∷ stem, left, ground arith, ground arith, (d, p))
  ]
]
  where
    newline_or : (b : ℕ) → (b ≡ 10) ⊎ (b ≢ 10)
    newline_or b = elim (Bool-cases (b == 10)) [
      | inl e ↦ inl (ground arith)
      | inr e ↦ inr (ground arith)
    ]

abbrev pub IsLine : Bytes → Type 0
IsLine bs = (stem : Bytes) × (bs ≡ stem ++ (10 ∷ [])) × IsPartial stem

drain_lines-none :
    (fuel : ℕ) (bs : Bytes) → drain_line bs ≡ none → drain_lines (suc fuel) bs ≡ ([], bs)
unfolding drain_lines
drain_lines-none fuel bs e = ground arith

drain_lines-some :
    (fuel : ℕ) (bs taken left : Bytes)
    → drain_line bs ≡ some (taken, left)
    → drain_lines (suc fuel) bs ≡ (taken ∷ (drain_lines fuel left).0, (drain_lines fuel left).1)
unfolding drain_lines
drain_lines-some fuel bs taken left e = ground arith

shorter :
    (fuel : ℕ) (bs stem left : Bytes)
    → length bs ≤ suc fuel
    → bs ≡ stem ++ (10 ∷ left)
    → length left ≤ fuel
shorter fuel bs stem left h e =
    let n : length bs ≡ length stem + suc (length left) =
      ap length e ∙ length-append stem (10 ∷ left) in
    omega arith

-- What the loop makes of bytes: nothing is lost, nothing doubled.
drain_lines_lem :
    (fuel : ℕ) (bs : Bytes)
    → length bs ≤ fuel
    → (concat (drain_lines fuel bs).0 ++ (drain_lines fuel bs).1 ≡ bs)
      × All IsLine (drain_lines fuel bs).0
      × IsPartial (drain_lines fuel bs).1
unfolding drain_lines
drain_lines_lem zero [] h = (refl, tt, tt)
drain_lines_lem zero (b ∷ bs) h = absurd (omega arith)
drain_lines_lem (suc fuel) bs h = elim (drain_line_cases bs) [
  | inl (e, p) ↦ rw (drain_lines-none fuel bs e) (refl, tt, p)
  | inr (stem, left, e, f, p) ↦
      let (q, r, t) = drain_lines_lem fuel left (shorter fuel bs stem left h f) in
      rw (drain_lines-some fuel bs (stem ++ (10 ∷ [])) left e)
        (rw (append_assoc, append_assoc, q) (sym f), ((stem, refl, p), r), t)
]

-- What the sink is given at a time: a line with its newline, or a part of one that is too long.
abbrev pub IsPiece : Bytes → Type 0
IsPiece bs = IsLine bs ⊎ (IsPartial bs × (max_line < length bs))

-- What polls yield has all the bytes that were pending or read, in their order; what then stays
-- pending has no newline and at most `max_line` bytes.
abbrev pub IsPolled : Bytes → List Bytes × Bytes → Type 0
IsPolled bs (lines, left) =
    (concat lines ++ left ≡ bs) × All IsPiece lines × IsPartial left × (length left ≤ max_line)

All-IsPiece : (ls : List Bytes) → All IsLine ls → All IsPiece ls
All-IsPiece [] a = tt
All-IsPiece (l ∷ ls) (x, a) = (inl x, All-IsPiece ls a)

All-append : (a b : List Bytes) → All IsPiece a → All IsPiece b → All IsPiece (a ++ b)
All-append [] b x y = y
All-append (l ∷ a) b (p, x) y = (p, All-append a b x y)

after_read-IsPolled : (bs : Bytes) → IsPolled bs (after_read bs)
unfolding after_read flush
after_read-IsPolled bs = elim (Bool-cases (ltb max_line (length (drain_lines (length bs) bs).1))) [
  | inl e ↦
      let (p, lines, q) = drain_lines_lem (length bs) bs (omega arith) in
      rw e (
        rw (concat-append, append-nil, append-nil) p,
        All-append _ (_ ∷ []) (All-IsPiece _ lines) (inr (q, ground (arith, e)), tt),
        tt,
        omega arith,
      )
  | inr e ↦
      let (p, lines, q) = drain_lines_lem (length bs) bs (omega arith) in
      rw e (rw append-nil p, All-append _ [] (All-IsPiece _ lines) tt, q, ground arith)
]

abbrev got : Polled → Bytes
got (read bs) = bs
got other = []

abbrev pub bytes_of : List Polled → Bytes
bytes_of [] = []
bytes_of (p ∷ ps) = got p ++ bytes_of ps

-- A poll that does not fail.
abbrev pub IsFine : Polled → Type 0
IsFine (no_core e) = ⊥
IsFine (no_read e) = ⊥
IsFine no_channel = Unit {0}
IsFine (read bs) = Unit {0}

poll_rtt-IsPolled :
    (pending : Bytes) (p : Polled)
    → IsFine p
    → IsPartial pending
    → length pending ≤ max_line
    → (r : List Bytes × Bytes) × (poll_rtt pending p ≡ ok r) × IsPolled (pending ++ got p) r
unfolding poll_rtt
poll_rtt-IsPolled pending (no_core e) f a b = absurd f
poll_rtt-IsPolled pending no_channel f a b =
    (([], pending), refl, (sym (append-nil pending), tt, a, b))
poll_rtt-IsPolled pending (no_read e) f a b = absurd f
poll_rtt-IsPolled pending (read []) f a b =
    (([], pending), refl, (sym (append-nil pending), tt, a, b))
poll_rtt-IsPolled pending (read (c ∷ bs)) f a b =
    (after_read (pending ++ (c ∷ bs)), refl, after_read-IsPolled (pending ++ (c ∷ bs)))

-- A round of the thread without a command, on a capture that is not stopped.
abbrev pub quiet : Polled → Turn
quiet p = record { cmd = none; stopped = false; polled = p }

-- What a poll has yielded, and then the next ones.
join-IsPolled :
    (bs : Bytes) (more : Bytes) (q s : List Bytes × Bytes)
    → IsPolled bs q
    → IsPolled (q.1 ++ more) s
    → IsPolled (bs ++ more) (q.0 ++ s.0, s.1)
join-IsPolled bs more (lines, left) (lines', left') (c, all, part, short) (d, all', part', short') =
    (
      rw (concat-append, append_assoc, d)
          (sym (append_assoc (concat lines) left more) ∙ ap (λ x. x ++ more) c),
      All-append lines lines' all all',
      part',
      short',
    )

module _ (from_utf8_lossy : Bytes → Text) where
  -- A piece, as the sink of the capture `c` gets it.
  abbrev pub given : ℕ → Bytes → Output
  given c bs = line c (trim_end (from_utf8_lossy bs))

  turn-quiet :
      (w : Worker) (c : ℕ) (pending : Bytes) (p : Polled) (lines : List Bytes) (left : Bytes)
      → w.rtt ≡ some (record { capture = c; pending = pending })
      → poll_rtt pending p ≡ ok (lines, left)
      → turn from_utf8_lossy w (quiet p)
        ≡ (record w { rtt = some (record { capture = c; pending = left }) }, map (given c) lines)
  unfolding turn received capturing polling sunk
  turn-quiet w c pending p lines left g e = ground (arith, g, e)

  rounds_lem :
      (c : ℕ) (ps : List Polled) (w : Worker) (pending : Bytes)
      → w.rtt ≡ some (record { capture = c; pending = pending })
      → All IsFine ps
      → IsPartial pending
      → length pending ≤ max_line
      → (r : List Bytes × Bytes) × ((worker from_utf8_lossy w (map quiet ps)).1 ≡ map (given c) r.0)
        × ((worker from_utf8_lossy w (map quiet ps)).0.rtt
            ≡ some (record { capture = c; pending = r.1 }))
        × IsPolled (pending ++ bytes_of ps) r
  unfolding worker
  rounds_lem c [] w pending g f a b = (([], pending), refl, g, (sym (append-nil pending), tt, a, b))
  rounds_lem c (p ∷ ps) w pending g f a b =
      let ((lines, left), e, first) = poll_rtt-IsPolled pending p f.0 a b in
      let t = turn-quiet w c pending p lines left g e in
      let ((lines', left'), out, rtt, rest) =
        rounds_lem c ps (record w { rtt = some (record { capture = c; pending = left }) }) left refl
          f.1 first.2 first.3 in
      (
        (lines ++ lines', left'),
        rw t (rw out (sym (map-append (given c) lines lines'))),
        (rw (worker, t) rtt),
        rw (sym (append_assoc pending (got p) (bytes_of ps))) (
            join-IsPolled (pending ++ got p) (bytes_of ps) (lines, left) (lines', left') first
              rest),
      )

  -- However the bytes of a channel are cut into polls, on a capture that has nothing pending yet, in
  -- rounds without a command, as long as no poll fails and the capture is not stopped: the bytes are
  -- cut again, in their order, none lost and none doubled, into pieces and what stays pending, where each piece
  -- is a line up to its newline or a part of a line of more than `max_line` bytes, and what stays
  -- pending has no newline and at most `max_line` bytes; and the sink gets these pieces one by one,
  -- each decoded by `from_utf8_lossy` and without the white space at its end.
  pub polls_conserve :
      (c : ℕ) (w : Worker) (ps : List Polled)
      → w.rtt ≡ some (record { capture = c; pending = [] })
      → All IsFine ps
      → (r : List Bytes × Bytes) × ((worker from_utf8_lossy w (map quiet ps)).1 ≡ map (given c) r.0)
        × ((worker from_utf8_lossy w (map quiet ps)).0.rtt
            ≡ some (record { capture = c; pending = r.1 }))
        × (concat r.0 ++ r.1 ≡ bytes_of ps)
        × All IsPiece r.0
        × IsPartial r.1
        × (length r.1 ≤ max_line)
  polls_conserve c w ps g f =
      let (r, out, rtt, (all, pieces, part, short)) = rounds_lem c ps w [] g f tt (omega arith) in
      (r, out, rtt, all, pieces, part, short)
