-- ===== src/Control/Wire.antt =====
-- The bytes of `SigawCtlRequest` and `SigawCtlResponse` of src/common/protocol.h, on a little-endian machine.
use sigaw.Prelude.{ℕ, ◌^◌, ◌<◌, ◌≡◌, refl, ◌++◌, Bytes, length, take, drop}
use sigaw.Protocol.{SigawCtlResponse}
use sigaw.Shm.Strings.{zeros}
use sigaw.Socket.Words.{u32_bytes, u32_of, u32_of-u32_bytes}

-- A request with a zero `_pad`.
unfoldable pub request_bytes : ℕ → Bytes
request_bytes command = u32_bytes command ++ zeros 4

-- `request.command`.
unfoldable pub request_command : Bytes → ℕ
request_command bytes = u32_of (take 4 bytes)

unfoldable pub response_bytes : SigawCtlResponse → Bytes
response_bytes r = u32_bytes r.command ++ (u32_bytes r.status ++ r.message)

-- The response that these bytes are.
unfoldable pub response_of : Bytes → SigawCtlResponse
response_of bytes = record {
  command = u32_of (take 4 bytes);
  status = u32_of (take 4 (drop 4 bytes));
  message = drop 8 bytes;
}

pub request_command-request_bytes : (c : ℕ) → c < 2 ^ 32 → request_command (request_bytes c) ≡ c
unfolding request_command request_bytes u32_bytes
request_command-request_bytes c h = u32_of-u32_bytes c h

pub response_of-response_bytes :
    (r : SigawCtlResponse)
    → r.command < 2 ^ 32
    → r.status < 2 ^ 32
    → response_of (response_bytes r) ≡ r
unfolding response_of response_bytes u32_bytes
response_of-response_bytes r h k = λ i. record {
  command = u32_of-u32_bytes r.command h i;
  status = u32_of-u32_bytes r.status k i;
  message = r.message;
}

pub length-request_bytes : (c : ℕ) → length (request_bytes c) ≡ 8
unfolding request_bytes u32_bytes zeros
length-request_bytes c = refl
