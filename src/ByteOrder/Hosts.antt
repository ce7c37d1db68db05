-- ===== src/ByteOrder/Hosts.antt =====
-- The way to the network and back, on every host, and a host that puts the least significant byte first.
use app_com_util.Base.{ℕ, ◌+◌, ◌*◌, ◌/◌, ◌%◌, ◌^◌, ◌<◌, ◌≡◌, refl, arith}
use app_com_util.ByteOrder.{
  Host, IsHost, network_bytes16, network_bytes32, hton16, ntoh16, hton32, ntoh32,
}

-- On every host a 16-bit number lies in memory with its most significant byte first once it is converted
-- for the network, and the way back gives the number again.
pub ntoh16-hton16 :
    (h : Host) (value : ℕ)
    → IsHost h
    → value < 2 ^ 16
    → (h.store16 (hton16 h value) ≡ network_bytes16 value) × (ntoh16 h (hton16 h value) ≡ value)
unfolding hton16 ntoh16
ntoh16-hton16 h value v small =
    let stored = v.store16-load16 (network_bytes16 value) (omega arith, omega arith) in
    (stored, rw stored (omega arith))

-- On every host a 32-bit number lies in memory with its most significant byte first once it is converted
-- for the network, and the way back gives the number again.
pub ntoh32-hton32 :
    (h : Host) (value : ℕ)
    → IsHost h
    → value < 2 ^ 32
    → (h.store32 (hton32 h value) ≡ network_bytes32 value) × (ntoh32 h (hton32 h value) ≡ value)
unfolding hton32 ntoh32
ntoh32-hton32 h value v small =
    let stored =
      v.store32-load32 (network_bytes32 value)
        (omega arith, omega arith, omega arith, omega arith) in
    (stored, rw stored (omega arith))

-- A host with the least significant byte first.
abbrev pub little_endian : Host
little_endian = record {
  load16 = λ b. b.1 * 2 ^ 8 + b.0;
  store16 = λ n. (n % 256, n / 2 ^ 8 % 256);
  load32 = λ b. b.3 * 2 ^ 24 + b.2 * 2 ^ 16 + b.1 * 2 ^ 8 + b.0;
  store32 = λ n. (n % 256, n / 2 ^ 8 % 256, n / 2 ^ 16 % 256, n / 2 ^ 24 % 256);
}

pub little_endian-IsHost : IsHost little_endian
little_endian-IsHost = record {
  load16_lt = λ b h. omega arith;
  store16-load16 = λ b h.
      let n = b.1 * 2 ^ 8 + b.0 in
      let low : n % 256 ≡ b.0 = omega arith in
      let high : n / 2 ^ 8 % 256 ≡ b.1 = omega arith in rw (low, high) refl;
  load32_lt = λ b h. omega arith;
  store32-load32 = λ b h.
      let n = b.3 * 2 ^ 24 + b.2 * 2 ^ 16 + b.1 * 2 ^ 8 + b.0 in
      let first : n % 256 ≡ b.0 = omega arith in
      let second : n / 2 ^ 8 % 256 ≡ b.1 = omega arith in
      let third : n / 2 ^ 16 % 256 ≡ b.2 = omega arith in
      let fourth : n / 2 ^ 24 % 256 ≡ b.3 = omega arith in rw (first, second, third, fourth) refl;
}
