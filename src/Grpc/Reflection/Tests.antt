-- ===== src/Grpc/Reflection/Tests.antt =====
-- src/grpc/reflection.rs: the messages of a server with two services.
use fetch.Common.{◌≡◌, refl, some, List, [], ◌∷◌, Bytes, ok, arith}
use fetch.Common.Utf8.{is_utf8}
use fetch.Grpc.Wire.{append_bytes, append_key, append_varint, varint_bytes}
use fetch.Grpc.Reflection.{parse_reflection_list_response}
use fetch.Grpc.Reflection.Loop.{IsReal}
use fetch.Grpc.Reflection.Total.{parse_reflection_list_response-IsReal}
use fetch.Grpc.Reflection.Services.{encode_names, encode_list_response, parse-encode_list_response}

abbrev names : List Bytes
names = (b'a' ∷ b'.' ∷ b'B' ∷ []) ∷ (b'c' ∷ []) ∷ []

abbrev response : Bytes
response =
    0x32 ∷ 0x0c ∷ 0x0a ∷ 0x05 ∷ 0x0a ∷ 0x03 ∷ b'a' ∷ b'.' ∷ b'B' ∷ 0x0a ∷ 0x03 ∷ 0x0a ∷ 0x01 ∷ b'c'
    ∷ []

encode-names : encode_list_response names ≡ some response
unfolding encode_list_response encode_names append_bytes append_key append_varint varint_bytes
encode-names = refl

parse-encode_list_response_example : parse_reflection_list_response response ≡ ok names
unfolding is_utf8
parse-encode_list_response_example =
    parse-encode_list_response names (refl, (refl, tt)) encode-names (omega arith)

parse_reflection_list_response-IsReal_example :
    IsReal (parse_reflection_list_response (0x3a ∷ 0x00 ∷ []))
parse_reflection_list_response-IsReal_example =
    parse_reflection_list_response-IsReal (0x3a ∷ 0x00 ∷ [])
