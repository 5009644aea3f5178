-- ===== src/Expect/Tests.antt =====
-- banc-host/src/expect.rs: assertions on a source of numbers.
use banc.Common.{ℕ, ◌≡◌, ◌↔◌, Bool, some, [], ◌∷◌, arith, ◌==◌, ok}
use banc.Common.Time.{from_millis}
use banc.Expect.{EventSource, expect_matching, expect_quiet}
use banc.Expect.Duality.{expect_quiet-expect_matching, as_quiet}
use banc.Expect.First.{expect_quiet-ok_iff, Silent, StaysOpen}

abbrev is_seven : ℕ → Bool
is_seven n = n == 7

abbrev source : EventSource ℕ
source = record {
  events = (from_millis 5, 3) ∷ (from_millis 50, 7) ∷ [];
  closes = some (from_millis 90);
}

expect_quiet-expect_matching_example :
    expect_quiet is_seven source (from_millis 60)
    ≡ as_quiet (expect_matching is_seven source (from_millis 60))
expect_quiet-expect_matching_example = expect_quiet-expect_matching is_seven (from_millis 60) source

expect_quiet-ok_iff_example :
    (expect_quiet is_seven source (from_millis 40) ≡ ok tt)
    ↔ (Silent is_seven (from_millis 40) source.events × StaysOpen (from_millis 40) source.closes)
expect_quiet-ok_iff_example = expect_quiet-ok_iff is_seven (from_millis 40) source (ground arith)
