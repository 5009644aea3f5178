-- ===== src/Evidence/Cap.antt =====
-- banc-host/src/evidence.rs: what is retained and what is counted as dropped.
use banc.Common.{
  ℕ, suc, ◌-◌, ◌≤◌, ◌<◌, ◌≡◌, refl, sym, ap, ◌∙◌, List, [], ◌∷◌, ◌++◌, arith, leb, length, drop,
  length-append, length-drop, drop-one, drop-append, if◌then◌else◌, le→leb, lt→leb_false, min,
  drop-drop, ltb, ◌==◌, ◌&&◌,
}
use mathlib.Core.List.{append-nil, append_assoc}
use native.Mathlib.Decide.{dec_le}
use banc.Common.Text.{Text, decimal, codes}
use banc.Evidence.{
  Entry, Inner, new, record_line, max_entries, tail, persist, format_entries, sanitize,
}

-- All calls of `record` in turn.
unfoldable pub record_all : Inner → List Entry → Inner
record_all inner [] = inner
record_all inner (e ∷ es) = record_all (record_line inner e.at_us e.source e.line) es

-- The log keeps the newest `max_entries` of `log` and counts the others.
pub record Retains (test : Text) (log : List Entry) (inner : Inner) : Type 0 where
  pub named : inner.test ≡ test
  pub counted : inner.dropped ≡ length log - max_entries
  pub newest : inner.entries ≡ drop (length log - max_entries) log

-- How far the drop goes after one more entry.
full_shift :
    (log : List Entry) (e : Entry)
    → max_entries ≤ length (drop (length log - max_entries) log)
    → (length (log ++ (e ∷ [])) - max_entries ≡ suc (length log - max_entries))
      × (suc (length log - max_entries) ≤ length log)
full_shift log e full =
    let l = length-append log (e ∷ []) in
    let d = length-drop (length log - max_entries) log in (omega (arith, l, d), omega (arith, l, d))

record_full :
    (test : Text) (log : List Entry) (inner : Inner) (e : Entry)
    → Retains test log inner
    → max_entries ≤ length inner.entries
    → Retains test (log ++ (e ∷ [])) (record_line inner e.at_us e.source e.line)
unfolding record_line
record_full test log inner e r full =
    let n = length log - max_entries in
    let full' : max_entries ≤ length (drop n log) = rw r.newest at full in
    let (shift, within) = full_shift log e full' in
    rw (le→leb _ _ full) (record {
      named = r.named;
      counted = omega (arith, r.counted, shift);
      newest =
          rw (shift, r.newest)
            (ap (λ es. es ++ (e ∷ [])) (drop-one n log)
              ∙ sym (drop-append (suc n) log (e ∷ []) within));
    })

record_short :
    (test : Text) (log : List Entry) (inner : Inner) (e : Entry)
    → Retains test log inner
    → length inner.entries < max_entries
    → Retains test (log ++ (e ∷ [])) (record_line inner e.at_us e.source e.line)
unfolding record_line
record_short test log inner e r short =
    let n = length log - max_entries in
    let short' : length (drop n log) < max_entries = rw r.newest at short in
    let d = length-drop n log in
    let l = length-append log (e ∷ []) in
    let zero_before : n ≡ 0 = omega (arith, d, short') in
    let zero_after : length (log ++ (e ∷ [])) - max_entries ≡ 0 = omega (arith, d, l, short') in
    rw (lt→leb_false _ _ short) (record {
      named = r.named;
      counted = omega (arith, r.counted, zero_before, zero_after);
      newest = rw (zero_after, r.newest, zero_before);
    })

record_line-Retains :
    (test : Text) (log : List Entry) (inner : Inner) (e : Entry)
    → Retains test log inner
    → Retains test (log ++ (e ∷ [])) (record_line inner e.at_us e.source e.line)
record_line-Retains test log inner e r = elim (dec_le max_entries (length inner.entries)) [
  | yes full ↦ record_full test log inner e r full
  | no short ↦ record_short test log inner e r (omega arith)
]

record_all-Retains :
    (test : Text) (log es : List Entry) (inner : Inner)
    → Retains test log inner
    → Retains test (log ++ es) (record_all inner es)
unfolding record_all
record_all-Retains test log [] inner r = rw append-nil r
record_all-Retains test log (e ∷ es) inner r = rw (append_assoc log (e ∷ []) es) at (
    record_all-Retains test (log ++ (e ∷ [])) es (record_line inner e.at_us e.source e.line)
      (record_line-Retains test log inner e r))

-- Refinement. After any lines have been recorded, the log holds exactly the newest `max_entries` of
-- them, in order, and `dropped` is exactly how many are missing.
pub record_all-new : (test : Text) (log : List Entry) → Retains test log (record_all (new test) log)
unfolding new
record_all-new test log =
    record_all-Retains test [] log _ (record { named = refl; counted = omega arith; newest = refl })

abbrev pub notice : Text → ℕ → Text
notice what n = codes "[... " ++ decimal n ++ what ++ (10 ∷ [])

-- When the notice is shown, and from where the lines are.
shown :
    (log : List Entry) (n : ℕ)
    → let gone = length log - max_entries in
      let skip = length (drop gone log) - n in
      ((ltb 0 gone && skip == 0) ≡ (ltb max_entries (length log) && leb max_entries n))
      × (drop skip (drop gone log) ≡ drop (length log - min n max_entries) log)
shown log n =
    let gone = length log - max_entries in
    let l = length-drop gone log in
    (
      ground (arith, l),
      drop-drop (length (drop gone log) - n) gone (length log - min n max_entries) log
          (omega (arith, l)),
    )

tail-Retains :
    (test : Text) (log : List Entry) (inner : Inner) (n : ℕ)
    → Retains test log inner
    → tail inner n
      ≡ (if ltb max_entries (length log) && leb max_entries n
          then notice (codes " earlier entries dropped ...]") (length log - max_entries)
          else [])
        ++ format_entries (drop (length log - min n max_entries) log)
unfolding tail
tail-Retains test log inner n r =
    let (test_eq, lines_eq) = shown log n in rw (r.counted, r.newest, test_eq, lines_eq)

-- The text shown under a failure is the newest `n` lines of all that were recorded, or the newest
-- `max_entries` where `n` is more. It says first how many lines are missing exactly where it shows
-- all that is retained and some are.
pub tail-record_all :
    (test : Text) (log : List Entry) (n : ℕ)
    → tail (record_all (new test) log) n
      ≡ (if ltb max_entries (length log) && leb max_entries n
          then notice (codes " earlier entries dropped ...]") (length log - max_entries)
          else [])
        ++ format_entries (drop (length log - min n max_entries) log)
tail-record_all test log n = tail-Retains test log _ n (record_all-new test log)

persist-Retains :
    (test : Text) (log : List Entry) (inner : Inner)
    → Retains test log inner
    → persist inner ≡ (
      sanitize test ++ codes ".evidence.log",
      (if ltb max_entries (length log)
            then notice
                (codes " earlier entries dropped (evidence cap) ...]")
                (length log - max_entries)
            else [])
          ++ format_entries (drop (length log - max_entries) log),
    )
unfolding persist
persist-Retains test log inner r =
    let over : ltb 0 (length log - max_entries) ≡ ltb max_entries (length log) = ground arith in
    rw (r.counted, r.newest, r.named, over)

-- The file that is written holds the newest `max_entries` lines of all that were recorded, and opens
-- with the number of the others exactly where there are any, so that it never reads as complete when
-- it is not.
pub persist-record_all :
    (test : Text) (log : List Entry)
    → persist (record_all (new test) log) ≡ (
      sanitize test ++ codes ".evidence.log",
      (if ltb max_entries (length log)
            then notice
                (codes " earlier entries dropped (evidence cap) ...]")
                (length log - max_entries)
            else [])
          ++ format_entries (drop (length log - max_entries) log),
    )
persist-record_all test log = persist-Retains test log _ (record_all-new test log)
