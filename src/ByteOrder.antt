-- ===== src/ByteOrder.antt =====
-- prod/libsrc/com_util/net/byteorder.c: host and network byte order.
-- What `memcpy` between a number and its bytes does depends on the host, which is an argument: the bytes
-- of a number in the order of their addresses, and the number of such bytes.
pub mod Hosts
use app_com_util.Base.{ℕ, ◌+◌, ◌*◌, ◌/◌, ◌%◌, ◌^◌, ◌<◌, ◌≡◌}

abbrev pub Bytes2 : Type 0
Bytes2 = ℕ × ℕ

abbrev pub Bytes4 : Type 0
Bytes4 = ℕ × ℕ × ℕ × ℕ

-- All bytes are below 256.
abbrev pub AreBytes2 : Bytes2 → Type 0
AreBytes2 b = (b.0 < 256) × (b.1 < 256)

abbrev pub AreBytes4 : Bytes4 → Type 0
AreBytes4 b = (b.0 < 256) × (b.1 < 256) × (b.2 < 256) × (b.3 < 256)

-- A host: how 16 and 32 bits lie in memory.
pub record Host : Type 0 where
  pub load16 : Bytes2 → ℕ
  pub store16 : ℕ → Bytes2
  pub load32 : Bytes4 → ℕ
  pub store32 : ℕ → Bytes4

-- Bytes copied into a number and back are the same bytes.
pub record IsHost (h : Host) : Type 0 where
  pub load16_lt : (b : Bytes2) → AreBytes2 b → h.load16 b < 2 ^ 16
  pub store16-load16 : (b : Bytes2) → AreBytes2 b → h.store16 (h.load16 b) ≡ b
  pub load32_lt : (b : Bytes4) → AreBytes4 b → h.load32 b < 2 ^ 32
  pub store32-load32 : (b : Bytes4) → AreBytes4 b → h.store32 (h.load32 b) ≡ b

-- The bytes of `com_util_hton16`: shifts and masks are divisions and remainders.
abbrev pub network_bytes16 : ℕ → Bytes2
network_bytes16 value = (value / 2 ^ 8 % 256, value % 256)

-- `com_util_hton16`
unfoldable pub hton16 : Host → ℕ → ℕ
hton16 h value = h.load16 (network_bytes16 value)

-- `com_util_ntoh16`: the parts that `|` joins have no bit in common.
unfoldable pub ntoh16 : Host → ℕ → ℕ
ntoh16 h value = let b = h.store16 value in b.0 * 2 ^ 8 + b.1

abbrev pub network_bytes32 : ℕ → Bytes4
network_bytes32 value =
    (value / 2 ^ 24 % 256, value / 2 ^ 16 % 256, value / 2 ^ 8 % 256, value % 256)

-- `com_util_hton32`
unfoldable pub hton32 : Host → ℕ → ℕ
hton32 h value = h.load32 (network_bytes32 value)

-- `com_util_ntoh32`
unfoldable pub ntoh32 : Host → ℕ → ℕ
ntoh32 h value = let b = h.store32 value in b.0 * 2 ^ 24 + b.1 * 2 ^ 16 + b.2 * 2 ^ 8 + b.3
