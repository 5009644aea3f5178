-- ===== src/Net/Frames.antt =====
-- banc-host/src/net/mod.rs: frames as they are written and read.
use banc.Common.{
  ℕ, ◌%◌, ◌^◌, ◌≤◌, ◌<◌, ◌≡◌, refl, List, [], ◌++◌, arith, ok, err, length, take, length-append,
  take-append_length, drop-append_length, lt→ltb, zero, suc, length-take,
}
use mathlib.Core.List.{append_assoc}
use banc.Net.{
  Stream, unexpected_eof, frame_too_long, max_frame, to_le_bytes, from_le_bytes, read_exact,
  read_frame, read_frame_sync, write_frame, write_frame_sync,
}

-- A connection whose peer sends `bs` and closes.
abbrev pub receiving : List ℕ → Stream
receiving bs = record { incoming = bs; outgoing = [] }

-- A frame as it stands on the wire.
abbrev pub frame : List ℕ → List ℕ
frame bytes = to_le_bytes (length bytes % 2 ^ 32) ++ bytes

-- `u32::from_le_bytes` undoes `u32::to_le_bytes`.
pub from_le_bytes-to_le_bytes : (n : ℕ) → n < 2 ^ 32 → from_le_bytes (to_le_bytes n) ≡ n
from_le_bytes-to_le_bytes n h = omega arith

pub write_frame_lem :
    (bytes : List ℕ) (s : Stream)
    → (write_frame bytes s ≡ (ok tt, record s { outgoing = s.outgoing ++ frame bytes }))
      × (write_frame_sync bytes s ≡ (ok tt, record s { outgoing = s.outgoing ++ frame bytes }))
unfolding write_frame write_frame_sync
write_frame_lem bytes s =
    let e = append_assoc s.outgoing (to_le_bytes (length bytes % 2 ^ 32)) bytes in (cc e, cc e)

pub read_exact-append :
    (n : ℕ) (xs rest : List ℕ) (s : Stream)
    → s.incoming ≡ xs ++ rest
    → length xs ≡ n
    → read_exact n s ≡ (ok xs, record s { incoming = rest })
unfolding read_exact
read_exact-append n xs rest s e len =
    ground (arith, length-append xs rest, take-append_length xs rest, drop-append_length xs rest)

read_exact_short :
    (n : ℕ) (s : Stream)
    → length s.incoming < n
    → read_exact n s ≡ (err unexpected_eof, record s { incoming = [] })
unfolding read_exact
read_exact_short n s h = rw (lt→ltb _ _ h)

pub read_frame-frame :
    (bytes rest : List ℕ) (s : Stream)
    → length bytes ≤ max_frame
    → s.incoming ≡ frame bytes ++ rest
    → (read_frame s ≡ (ok bytes, record s { incoming = rest }))
      × (read_frame_sync s ≡ (ok bytes, record s { incoming = rest }))
unfolding read_frame read_frame_sync
read_frame-frame bytes rest s fits e =
    let n = length bytes % 2 ^ 32 in
    let head = read_exact-append 4 (to_le_bytes n) (bytes ++ rest) s e refl in
    let size : from_le_bytes (to_le_bytes n) ≡ length bytes = omega arith in
    let body =
      read_exact-append (length bytes) bytes rest (record s { incoming = bytes ++ rest }) refl
        refl in
    (ground (arith, head, size, body), ground (arith, head, size, body))

-- What either side writes as a frame of at most `max_frame` bytes, through the blocking or the
-- asynchronous writer, the other reads back with the other reader, and what follows stays unread.
pub read_frame-write_frame :
    (bytes rest : List ℕ)
    → length bytes ≤ max_frame
    → (read_frame_sync (receiving ((write_frame bytes (receiving [])).1.outgoing ++ rest))
        ≡ (ok bytes, receiving rest))
      × (read_frame (receiving ((write_frame_sync bytes (receiving [])).1.outgoing ++ rest))
          ≡ (ok bytes, receiving rest))
read_frame-write_frame bytes rest fits =
    let (w, w') = write_frame_lem bytes (receiving []) in
    (
      rw w (read_frame-frame bytes rest (receiving (frame bytes ++ rest)) fits refl).1,
      rw w' (read_frame-frame bytes rest (receiving (frame bytes ++ rest)) fits refl).0,
    )

-- A frame over the limit is refused by its length alone, with its body unread.
pub read_frame_too_long :
    (bytes rest : List ℕ)
    → max_frame < length bytes
    → length bytes < 2 ^ 32
    → read_frame (receiving ((write_frame bytes (receiving [])).1.outgoing ++ rest))
      ≡ (err (frame_too_long (length bytes)), receiving (bytes ++ rest))
unfolding read_frame
read_frame_too_long bytes rest long fits =
    let n = length bytes % 2 ^ 32 in
    let s = receiving (frame bytes ++ rest) in
    let head = read_exact-append 4 (to_le_bytes n) (bytes ++ rest) s refl refl in
    let size : from_le_bytes (to_le_bytes n) ≡ length bytes = omega arith in
    rw (write_frame_lem bytes (receiving [])).0 (ground (arith, head, size))

pub read_frame_nothing : (s : Stream) → s.incoming ≡ [] → read_frame s ≡ (err unexpected_eof, s)
unfolding read_frame
read_frame_nothing s e = ground (arith, read_exact_short 4 s)

short_head :
    (front : List ℕ) → length front < 4 → (read_frame (receiving front)).0 ≡ err unexpected_eof
unfolding read_frame
short_head front h = ground (arith, read_exact_short 4 (receiving front) h)

short_body :
    (n : ℕ) (front : List ℕ)
    → n ≤ max_frame
    → length front < n
    → (read_frame (receiving (to_le_bytes n ++ front))).0 ≡ err unexpected_eof
unfolding read_frame
short_body n front fits h =
    let head =
      read_exact-append 4 (to_le_bytes n) front (receiving (to_le_bytes n ++ front)) refl refl in
    let size : from_le_bytes (to_le_bytes n) ≡ n = omega arith in
    let body = read_exact_short n (receiving front) h in ground (arith, head, size, body)

-- A connection that closes inside a frame ends the reading with `unexpected_eof`, wherever it is
-- cut: a part of a frame is never taken for a frame.
pub read_frame_cut :
    (k : ℕ) (bytes : List ℕ)
    → length bytes ≤ max_frame
    → k < length (frame bytes)
    → (read_frame (receiving (take k (frame bytes)))).0 ≡ err unexpected_eof
read_frame_cut zero bytes fits h = short_head [] (omega arith)
read_frame_cut (suc zero) bytes fits h = short_head _ (omega arith)
read_frame_cut (suc (suc zero)) bytes fits h = short_head _ (omega arith)
read_frame_cut (suc (suc (suc zero))) bytes fits h = short_head _ (omega arith)
read_frame_cut (suc (suc (suc (suc j)))) bytes fits h =
    let e : length bytes % 2 ^ 32 ≡ length bytes = omega arith in
    rw e (short_body (length bytes) (take j bytes) fits (omega (arith, length-take j bytes)))
