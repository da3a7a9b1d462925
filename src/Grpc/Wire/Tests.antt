-- ===== src/Grpc/Wire/Tests.antt =====
-- src/grpc/reflection.rs: numbers and fields at concrete values.
use fetch.Common.{◌≡◌, ◌≤◌, ◌<◌, refl, some, [], ◌∷◌, ◌++◌, Bytes, length, ok, err, arith}
use fetch.Grpc.Wire.{append_varint, varint_bytes, read_varint, read_varint_from, varint_overflow}
use fetch.Grpc.Wire.Varint.{read_varint-append_varint}
use fetch.Grpc.Wire.Fields.{Written, read-append_bytes}

append_varint-300 : append_varint [] 300 ≡ some (0xac ∷ 0x02 ∷ [])
unfolding append_varint varint_bytes
append_varint-300 = refl

read_varint_overflow :
    read_varint (0xff ∷ 0xff ∷ 0xff ∷ 0xff ∷ 0xff ∷ 0xff ∷ 0xff ∷ 0xff ∷ 0xff ∷ 0xff ∷ [])
    ≡ err varint_overflow
unfolding read_varint read_varint_from
read_varint_overflow = refl

read_varint-append_varint_example :
    (bytes : Bytes) × ((out : Bytes) → append_varint out 300 ≡ some (out ++ bytes))
    × (0 < length bytes)
    × (length bytes ≤ 10)
    × ((rest : Bytes) → read_varint (bytes ++ rest) ≡ ok (300, rest))
read_varint-append_varint_example = read_varint-append_varint 300 (omega arith)

read-append_bytes_example : (bytes : Bytes) × Written 4 (b'a' ∷ b'b' ∷ []) bytes
read-append_bytes_example = read-append_bytes (b'a' ∷ b'b' ∷ []) 4 (omega arith) (omega arith)
