-- ===== src/Net.antt =====
-- banc-host/src/net/mod.rs: framing, token comparison and the handshake, on both sides.
-- A connection is the bytes that the peer sends before it closes, and the bytes written so far; a
-- function that reads or writes takes it and returns it with its result. Writing does not fail.
-- postcard is a parameter: a `Codec` for each message type.
pub mod Frames
pub mod Token
pub mod Handshake
pub mod Wire
pub mod Tests
use banc.Common.{
  ℕ, ◌+◌, ◌*◌, ◌/◌, ◌%◌, ◌^◌, Bool, true, false, Option, none, some, List, [], ◌∷◌, ◌++◌, ◌==◌, leb,
  ltb, not, ◌||◌, if◌then◌else◌, Result, ok, err, length, take, drop, bit_or, bit_xor, ok_or, ◌≡◌,
  is_nil,
}
use banc.Common.Text.{Text, as_bytes}

abbrev pub net_version : ℕ
net_version = 0

abbrev pub max_frame : ℕ
max_frame = 256 * 1024

pub data Role : Type 0 where
  node lease : Role

pub record Hello : Type 0 where
  pub version : ℕ
  pub role : Role
  pub token : Text

pub data HelloReply : Type 0 where
  accepted : (rig_name : Text) → HelloReply
  denied : HelloReply

pub data NetError : Type 0 where
  unexpected_eof : NetError
  frame_too_long : ℕ → NetError
  not_encoded not_decoded : NetError
  -- The client was refused.
  daemon_denied : NetError
  -- The server refused: the version it was offered, and whether the token was right.
  handshake_denied : ℕ → Bool → NetError

-- What postcard is relied on for: what it encodes, it decodes.
pub record Codec (A : Type 0) : Type 0 where
  pub to_stdvec : A → Option (List ℕ)
  pub from_bytes : List ℕ → Option A
  pub from_bytes-to_stdvec : (a : A) (bs : List ℕ) → to_stdvec a ≡ some bs → from_bytes bs ≡ some a

pub record Stream : Type 0 where
  pub incoming : List ℕ
  pub outgoing : List ℕ

abbrev pub Net : Type 0 → Type 0
Net A = Stream → Result NetError A × Stream

infixl 5 ◌>>=◌ ◌>>◌
abbrev pub ◌>>=◌ : {A B : Type 0} → Net A → (A → Net B) → Net B
◌>>=◌ m f s = let r = m s in elim r.0 [ ok a ↦ f a r.1 | err e ↦ (err e, r.1) ]

abbrev pub ◌>>◌ : {B : Type 0} → Net (Unit {0}) → Net B → Net B
m >> k = m >>= λ _. k

abbrev pub lift : {A : Type 0} → Result NetError A → Net A
lift r s = (r, s)

-- `AsyncReadExt::read_exact` and `Read::read_exact`: the peer's next `n` bytes, or the end of the
-- stream.
unfoldable pub read_exact : ℕ → Net (List ℕ)
read_exact n s =
    if ltb (length s.incoming) n
    then (err unexpected_eof, record s { incoming = [] })
    else (ok (take n s.incoming), record s { incoming = drop n s.incoming })

-- `AsyncWriteExt::write_all` and `Write::write_all`.
unfoldable pub write_all : List ℕ → Net (Unit {0})
write_all bs s = (ok tt, record s { outgoing = s.outgoing ++ bs })

-- `u32::to_le_bytes` and `u32::from_le_bytes`.
abbrev pub to_le_bytes : ℕ → List ℕ
to_le_bytes n = n % 256 ∷ n / 256 % 256 ∷ n / 65536 % 256 ∷ n / 16777216 % 256 ∷ []

abbrev pub from_le_bytes : List ℕ → ℕ
from_le_bytes [] = 0
from_le_bytes (b ∷ bs) = b + 256 * from_le_bytes bs

-- The `debug_assert!` on the length is absent from a release build.
unfoldable pub write_frame : List ℕ → Net (Unit {0})
unfolding write_all
write_frame bytes = do write_all (to_le_bytes (length bytes % 2 ^ 32)); write_all bytes

unfoldable pub read_frame : Net (List ℕ)
read_frame = do
  head ← read_exact 4
  let n = from_le_bytes head
  if leb n max_frame then read_exact n else lift (err (frame_too_long n))

unfoldable pub write_frame_sync : List ℕ → Net (Unit {0})
unfolding write_all
write_frame_sync bytes = do write_all (to_le_bytes (length bytes % 2 ^ 32)); write_all bytes

unfoldable pub read_frame_sync : Net (List ℕ)
read_frame_sync = do
  head ← read_exact 4
  let n = from_le_bytes head
  if leb n max_frame then read_exact n else lift (err (frame_too_long n))

-- `a.iter().zip(b).fold(0u8, |acc, (x, y)| acc | (x ^ y))`.
unfoldable pub xor_fold : ℕ → List ℕ → List ℕ → ℕ
xor_fold acc (x ∷ a) (y ∷ b) = xor_fold (bit_or acc (bit_xor x y)) a b
xor_fold acc _ _ = acc

unfoldable pub token_eq : Text → Text → Bool
unfolding xor_fold
token_eq a b =
    if length (as_bytes a) == length (as_bytes b)
    then xor_fold 0 (as_bytes a) (as_bytes b) == 0
    else false

module _ (hellos : Codec Hello) (replies : Codec HelloReply) where
  unfoldable pub handshake_client : Role → Text → Net Text
  handshake_client role token = do
    hello ← lift (
        ok_or (hellos.to_stdvec (record { version = net_version; role = role; token = token }))
          not_encoded)
    write_frame hello
    frame ← read_frame
    reply ← lift (ok_or (replies.from_bytes frame) not_decoded)
    elim reply [ accepted rig_name ↦ lift (ok rig_name) | denied ↦ lift (err daemon_denied) ]

  unfoldable pub handshake_client_sync : Role → Text → Net (Unit {0})
  handshake_client_sync role token = do
    hello ← lift (
        ok_or (hellos.to_stdvec (record { version = net_version; role = role; token = token }))
          not_encoded)
    write_frame_sync hello
    frame ← read_frame_sync
    reply ← lift (ok_or (replies.from_bytes frame) not_decoded)
    elim reply [ accepted rig_name ↦ lift (ok tt) | denied ↦ lift (err daemon_denied) ]

  reply_with : {A : Type 0} → HelloReply → Result NetError A → Net A
  reply_with reply result = do
    bytes ← lift (ok_or (replies.to_stdvec reply) not_encoded)
    write_frame bytes
    lift result

  -- The answer of the server to a hello that it could read.
  unfoldable pub answer_hello : Text → Text → Hello → Net Role
  unfolding reply_with
  answer_hello token rig_name hello =
      if not (hello.version == net_version) || not (token_eq hello.token token)
      then reply_with denied (err (handshake_denied hello.version (token_eq hello.token token)))
      else reply_with (accepted rig_name) (ok hello.role)

  unfoldable pub handshake_server : Text → Text → Net Role
  unfolding answer_hello
  handshake_server token rig_name = do
    frame ← read_frame
    hello ← lift (ok_or (hellos.from_bytes frame) not_decoded)
    answer_hello token rig_name hello
