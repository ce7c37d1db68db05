-- ===== src/Tests/ByteOrder.antt =====
-- A port and an address on a host with the least significant byte first.
use app_com_util.Base.{◌≡◌, refl, arith}
use app_com_util.ByteOrder.{hton16, ntoh16, hton32, ntoh32, network_bytes32}
use app_com_util.ByteOrder.Hosts.{little_endian, little_endian-IsHost, ntoh32-hton32}

ntoh16_of_port : ntoh16 little_endian (hton16 little_endian 8080) ≡ 8080
unfolding ntoh16 hton16
ntoh16_of_port = refl

ntoh32-hton32_example :
    (little_endian.store32 (hton32 little_endian 3232235777) ≡ network_bytes32 3232235777)
    × (ntoh32 little_endian (hton32 little_endian 3232235777) ≡ 3232235777)
ntoh32-hton32_example = ntoh32-hton32 little_endian 3232235777 little_endian-IsHost (omega arith)
