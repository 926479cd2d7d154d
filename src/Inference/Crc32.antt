-- ===== src/Inference/Crc32.antt =====
-- crc32.ChecksumIEEE of Go's hash/crc32, which internal/services/inference/eventstream.go calls:
-- the reflected polynomial 0xEDB88320, one bit at a time, on registers of 32 bits (lowest first).
use orbit_api.Common.{
  ℕ, zero, suc, ◌+◌, ◌*◌, ◌/◌, ◌%◌, ◌==◌, Bool, true, false, not, List, [], ◌∷◌, ◌++◌, map,
  if◌then◌else◌,
}
use orbit_api.Inference.Bytes.{Bytes}

abbrev pub xor : Bool → Bool → Bool
xor true b = not b
xor false b = b

-- The lowest bits of a number.
unfoldable pub bits : ℕ → ℕ → List Bool
bits zero n = []
bits (suc w) n = (n % 2 == 1) ∷ bits w (n / 2)

unfoldable pub of_bits : List Bool → ℕ
of_bits [] = 0
of_bits (b ∷ bs) = (if b then 1 else 0) + 2 * of_bits bs

-- Bitwise, on registers of one width.
unfoldable pub xor_bits : List Bool → List Bool → List Bool
xor_bits [] q = []
xor_bits (a ∷ p) [] = a ∷ p
xor_bits (a ∷ p) (b ∷ q) = xor a b ∷ xor_bits p q

abbrev pub polynomial : List Bool
polynomial = bits 32 3988292384

-- One bit shifts the register, and takes the polynomial off where they differ.
unfoldable pub crc_bit : List Bool → Bool → List Bool
crc_bit [] b = []
crc_bit (r ∷ rs) b =
    let shifted = rs ++ false ∷ [] in if xor r b then xor_bits shifted polynomial else shifted

unfoldable pub crc_bits : List Bool → List Bool → List Bool
crc_bits r [] = r
crc_bits r (b ∷ bs) = crc_bits (crc_bit r b) bs

unfoldable pub crc_bytes : List Bool → Bytes → List Bool
crc_bytes r [] = r
crc_bytes r (b ∷ bs) = crc_bytes (crc_bits r (bits 8 b)) bs

unfoldable pub checksum_ieee : Bytes → ℕ
checksum_ieee bs = of_bits (map not (crc_bytes (bits 32 4294967295) bs))
