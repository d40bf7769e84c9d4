-- ===== src/Frame.antt =====
-- The WebSocket framing of src/modules/ocpp/ocpp.websocket.ts: `extractFrame` and `buildFrame`, with
-- the frames that `sendText`, `sendPong` and `sendCloseFrame` write. A `Buffer` is the list of its
-- bytes. `b & 0x80` is read as the bit `b / 128 % 2`, `b & 0x0f` as `b % 16` and `b & 0x7f` as
-- `b % 128`. A 64-bit length is exact here; in the source it is a double, which agrees below 2^53, and
-- above that both are larger than any buffer.
pub mod Bytes
pub mod Parts
pub mod Stream
pub mod RoundTrip
pub mod Masked
mod Tests
use Prim.Native.Nat.{bit_or, bit_xor}
use voltron_ocpp_protocols.Common.{
  ℕ, zero, suc, ◌+◌, ◌*◌, ◌/◌, ◌%◌, ◌^◌, Bool, true, false, not, Option, none, some, List, [], ◌∷◌,
  ◌++◌, ltb, ◌==◌, nat_eq, if◌then◌else◌, ◌>>=◌, length, take, drop,
}

pub record Frame : Type 0 where
  pub fin : Bool
  pub opcode : ℕ
  pub payload : List ℕ
  pub remaining : List ℕ

-- The first `n` bytes and the rest: the test `buffer.length < offset + n` and two `subarray`s.
unfoldable pub split_at : ℕ → List ℕ → Option (List ℕ × List ℕ)
split_at zero xs = some ([], xs)
split_at (suc n) [] = none
split_at (suc n) (x ∷ xs) = do (front, back) ← split_at n xs; some (x ∷ front, back)

-- `readUIntBE` over all bytes of a list, after the bytes read so far.
unfoldable pub read_be : ℕ → List ℕ → ℕ
read_be acc [] = acc
read_be acc (b ∷ bs) = read_be (acc * 256 + b) bs

-- `high * 2 ** 32 + low`, of the two words of a 64-bit length.
abbrev pub long_length : List ℕ → ℕ
long_length bytes = read_be 0 (take 4 bytes) * 2 ^ 32 + read_be 0 (drop 4 bytes)

-- The payload's length and the bytes behind it.
unfoldable pub payload_length : ℕ → List ℕ → Option (ℕ × List ℕ)
payload_length short rest =
    if short == 126
    then (do (bytes, rest') ← split_at 2 rest; some (read_be 0 bytes, rest'))
    else if short == 127
    then (do (bytes, rest') ← split_at 8 rest; some (long_length bytes, rest'))
    else some (short, rest)

-- The mask, if there is one, and the bytes behind it.
unfoldable pub read_mask : Bool → List ℕ → Option (Option (List ℕ) × List ℕ)
read_mask true rest = do (mask, rest') ← split_at 4 rest; some (some mask, rest')
read_mask false rest = some (none, rest)

-- `mask[i]`; the callers stay in range.
unfoldable pub byte_at : List ℕ → ℕ → ℕ
byte_at [] i = 0
byte_at (b ∷ bs) zero = b
byte_at (b ∷ bs) (suc i) = byte_at bs i

-- The loop `unmasked[i] = payload[i] ^ mask[i % 4]`, from index `i`.
unfoldable pub unmask_from : ℕ → List ℕ → List ℕ → List ℕ
unmask_from i mask [] = []
unmask_from i mask (b ∷ bs) = bit_xor b (byte_at mask (i % 4)) ∷ unmask_from (i + 1) mask bs

unfoldable pub unmask : Option (List ℕ) → List ℕ → List ℕ
unmask none payload = payload
unmask (some mask) payload = unmask_from 0 mask payload

-- `extractFrame`
unfoldable pub extract_frame : List ℕ → Option Frame
extract_frame [] = none
extract_frame (first ∷ []) = none
extract_frame (first ∷ second ∷ rest) = do
  (len, rest₁) ← payload_length (second % 128) rest
  (mask, rest₂) ← read_mask (not (second / 128 % 2 == 0)) rest₁
  (raw, remaining) ← split_at len rest₂
  some (record {
    fin = not (first / 128 % 2 == 0);
    opcode = first % 16;
    payload = unmask mask raw;
    remaining = remaining;
  })

-- The lowest `k` bytes of `n`, highest first: `writeUInt16BE`, `writeBigUInt64BE`.
unfoldable pub write_be : ℕ → ℕ → List ℕ
write_be zero n = []
write_be (suc k) n = write_be k (n / 256) ++ n % 256 ∷ []

unfoldable pub length_bytes : ℕ → List ℕ
length_bytes n =
    if ltb n 126 then n ∷ [] else if ltb n 65536 then 126 ∷ write_be 2 n else 127 ∷ write_be 8 n

-- `buildFrame`
unfoldable pub build_frame : ℕ → List ℕ → List ℕ
build_frame opcode payload = bit_or 0x80 opcode ∷ length_bytes (length payload) ++ payload
