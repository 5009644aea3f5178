-- ===== src/Evidence.antt =====
-- banc-host/src/evidence.rs: the per-test log, with a cap on what it retains.
-- The mutex makes each call one step on `Inner`; a call that reads the clock takes the time elapsed
-- since the log was opened, in microseconds.
pub mod Cap
pub mod Names
mod Tests
use Prim.Native.String.{String}
use banc.Common.{
  ℕ, zero, suc, ◌+◌, ◌-◌, ◌/◌, ◌%◌, ◌<◌, Bool, true, false, List, [], ◌∷◌, ◌++◌, leb, ltb, ◌==◌,
  ◌||◌, ◌&&◌, if◌then◌else◌, length, drop, replicate, is_nil, map,
}
use banc.Common.Text.{Text, codes, is_ascii_alphanumeric, decimal}

abbrev pub max_entries : ℕ
max_entries = 50_000

pub record Entry : Type 0 where
  pub at_us : ℕ
  pub source : Text
  pub line : Text

pub record Inner : Type 0 where
  pub test : Text
  pub entries : List Entry
  pub dropped : ℕ

unfoldable pub new : Text → Inner
new test = record { test = test; entries = []; dropped = 0 }

-- `VecDeque::pop_front`.
abbrev pop_front : List Entry → List Entry
pop_front = drop 1

unfoldable pub record_line : Inner → ℕ → Text → Text → Inner
record_line inner at_us source line =
    let full = leb max_entries (length inner.entries) in
    record inner {
      entries =
          (if full then pop_front inner.entries else inner.entries)
          ++ (record { at_us = at_us; source = source; line = line } ∷ []);
      dropped = if full then inner.dropped + 1 else inner.dropped;
    }

unfoldable pub is_empty : Inner → Bool
is_empty inner = is_nil inner.entries

-- `{:>10.3}` of a time in milliseconds, to the microsecond.
format_ms : ℕ → Text
format_ms at_us =
    let digits =
      decimal (at_us / 1000)
      ++ (b'.' ∷ (b'0' + at_us / 100 % 10) ∷ (b'0' + at_us / 10 % 10) ∷ (b'0' + at_us % 10) ∷ []) in
    replicate (10 - length digits) b' ' ++ digits

-- "[{:>10.3}ms {}] {}", with the line's end.
unfoldable pub format_entry : Entry → Text
unfolding format_ms
format_entry e =
    codes "[" ++ format_ms e.at_us ++ codes "ms " ++ e.source ++ codes "] " ++ e.line ++ (10 ∷ [])

unfoldable pub format_entries : List Entry → Text
format_entries [] = []
format_entries (e ∷ es) = format_entry e ++ format_entries es

-- Last `n` lines, formatted for inline display under a failure.
unfoldable pub tail : Inner → ℕ → Text
unfolding format_entries
tail inner n =
    let skip = length inner.entries - n in
    (if ltb 0 inner.dropped && skip == 0
      then codes "[... "
        ++ decimal inner.dropped
        ++ codes " earlier entries dropped ...]"
        ++ (10 ∷ [])
      else [])
    ++ format_entries (drop skip inner.entries)

-- The test's name as a file name.
unfoldable pub sanitize : Text → Text
sanitize = map (λ c. if is_ascii_alphanumeric c || c == b'-' || c == b'_' then c else b'_')

-- The name and the content of the file that `persist` writes.
unfoldable pub persist : Inner → Text × Text
unfolding sanitize format_entries
persist inner = (
  sanitize inner.test ++ codes ".evidence.log",
  (if ltb 0 inner.dropped
        then codes "[... "
          ++ decimal inner.dropped
          ++ codes " earlier entries dropped (evidence cap) ...]"
          ++ (10 ∷ [])
        else [])
      ++ format_entries inner.entries,
)
