-- ===== src/Grpc/Reflection/Services.antt =====
-- src/grpc/reflection.rs: a list of services, written field by field, is read back.
use fetch.Common.{
  ℕ, zero, suc, ◌+◌, ◌-◌, ◌^◌, ◌≤◌, ◌<◌, ◌≡◌, refl, ap, ◌∙◌, sym, true, Option, none, some, List,
  [], ◌∷◌, ◌++◌, Bytes, append_assoc, append-nil, length-append, length, Result, ok, and_then,
  and_then-eq-some, some_inj, arith,
}
use fetch.Common.Utf8.{is_utf8}
use fetch.Grpc.Wire.{WireError, missing_list, read_bytes, append_bytes, wire_bytes}
use fetch.Grpc.Wire.Fields.{Written, read-append_bytes, length-append_bytes, read_string-read_bytes}
use fetch.Grpc.Reflection.{
  Next, go_on, return, next_field, fields_loop, service_name_field, service_list_field,
  list_response_field, or_missing, without_name, parse_reflection_service_name,
  parse_reflection_service_list, parse_reflection_list_response,
}

-- The loops, one field at a time.
module _ {ℓ κ} {S : Type ℓ} {A : Type κ} (field : S → ℕ → ℕ → Bytes → Result WireError (Next S A))
    (finish : S → Result WireError A) where
  field-Written :
      (s : S) (number : ℕ) (value bytes rest : Bytes)
      → Written number value bytes
      → (middle : Bytes) × (read_bytes middle ≡ ok (value, rest))
        × (next_field field s (bytes ++ rest) ≡ field s number wire_bytes middle)
  unfolding next_field
  field-Written s number value bytes rest w =
      let (middle, key, back) = w.back rest in (middle, back, rw key)

  fields_loop-go_on :
      (fuel : ℕ) (s s' : S) (raw rest : Bytes)
      → 0 < length raw
      → next_field field s raw ≡ ok (go_on s' rest)
      → fields_loop field finish (suc fuel) s raw ≡ fields_loop field finish fuel s' rest
  unfolding fields_loop
  fields_loop-go_on fuel s s' [] rest h e = absurd (omega arith)
  fields_loop-go_on fuel s s' (c ∷ cs) rest h e = rw (e, fields_loop)

  fields_loop-return :
      (fuel : ℕ) (s : S) (a : A) (raw : Bytes)
      → 0 < length raw
      → next_field field s raw ≡ ok (return a)
      → fields_loop field finish (suc fuel) s raw ≡ ok a
  unfolding fields_loop
  fields_loop-return fuel s a [] h e = absurd (omega arith)
  fields_loop-return fuel s a (c ∷ cs) h e = rw (e, fields_loop)

  fields_loop-nil : (fuel : ℕ) (s : S) → fields_loop field finish fuel s [] ≡ finish s
  unfolding fields_loop
  fields_loop-nil fuel s = refl

-- A response as a server writes it: a message for each service, in a list, in a response.
unfoldable pub encode_names : Bytes → List Bytes → Option Bytes
encode_names out [] = some out
encode_names out (name ∷ names) =
    and_then (append_bytes [] 1 name)
      λ message. and_then (append_bytes out 1 message) λ out'. encode_names out' names

unfoldable pub encode_list_response : List Bytes → Option Bytes
encode_list_response names = and_then (encode_names [] names) (append_bytes [] 6)

abbrev pub AllUtf8 : List Bytes → Type 0
AllUtf8 [] = Unit {0}
AllUtf8 (name ∷ names) = (is_utf8 name ≡ true) × AllUtf8 names

parse-name :
    (name bytes : Bytes)
    → is_utf8 name ≡ true
    → Written 1 name bytes
    → parse_reflection_service_name bytes ≡ ok name
unfolding parse_reflection_service_name service_name_field
parse-name name bytes u w =
    let (middle, back, next) = field-Written service_name_field without_name tt 1 name bytes [] w in
    let e : next_field service_name_field tt bytes ≡ ok (return name) =
      rw (← append-nil bytes, next, read_string-read_bytes middle name [] u back) in
    let n : length bytes ≡ suc (length bytes - 1) = omega (arith, w.nonempty) in
    rw n (
      fields_loop-return service_name_field without_name (length bytes - 1) tt name bytes w.nonempty
        e)

-- A list read from its front, with any fuel that covers it.
abbrev Listed : List Bytes → Bytes → Type 0
Listed names bytes =
    (fuel : ℕ) (seen : List Bytes)
    → length bytes ≤ fuel
    → fields_loop service_list_field ok fuel seen bytes ≡ ok (seen ++ names)

Listed-cons :
    (name message bytes rest : Bytes) (names : List Bytes)
    → parse_reflection_service_name message ≡ ok name
    → Written 1 message bytes
    → Listed names rest
    → Listed (name ∷ names) (bytes ++ rest)
unfolding service_list_field
Listed-cons name message bytes rest names p w l zero seen h =
    absurd (omega (arith, length-append bytes rest, w.nonempty))
Listed-cons name message bytes rest names p w l (suc fuel) seen h =
    let (middle, back, next) = field-Written service_list_field ok seen 1 message bytes rest w in
    let e : next_field service_list_field seen (bytes ++ rest)
        ≡ ok (go_on (seen ++ name ∷ []) rest) =
      rw (next, back, p) in
    fields_loop-go_on service_list_field ok fuel seen (seen ++ name ∷ []) (bytes ++ rest) rest
      (omega (arith, length-append bytes rest, w.nonempty)) e
    ∙ l fuel (seen ++ name ∷ []) (omega (arith, length-append bytes rest, w.nonempty))
    ∙ rw append_assoc

parse-names :
    (names : List Bytes) (out : Bytes) {listed : Bytes}
    → AllUtf8 names
    → encode_names out names ≡ some listed
    → length listed < 2 ^ 64
    → (tail : Bytes) × (listed ≡ out ++ tail) × Listed names tail
unfolding encode_names
parse-names [] out {listed} u e h =
    let r : listed ≡ out = cc in
    (
      [],
      rw (r, append-nil),
      λ fuel seen k. rw (fields_loop-nil service_list_field ok fuel seen, append-nil),
    )
parse-names (name ∷ names) out {listed} u e h =
    let (message, e1, f1) = and_then-eq-some (append_bytes [] 1 name) _ e in
    let (out', e2, f2) = and_then-eq-some (append_bytes out 1 message) _ f1 in
    let (tail, r, l) = parse-names names out' u.1 f2 h in
    let n2 = length-append_bytes out 1 message e2 in
    let n1 = length-append_bytes [] 1 name e1 in
    let total : length listed ≡ length out' + length tail = ap length r ∙ length-append out' tail in
    let (bytes1, w1) = read-append_bytes name 1 (omega arith) (omega arith) in
    let (bytes2, w2) = read-append_bytes message 1 (omega arith) (omega arith) in
    let m : message ≡ bytes1 = some_inj (sym e1 ∙ w1.written []) in
    let o : out' ≡ out ++ bytes2 = some_inj (sym e2 ∙ w2.written out) in
    (
      bytes2 ++ tail,
      r ∙ ap (λ (t : Bytes). t ++ tail) o ∙ append_assoc out bytes2 tail,
      Listed-cons name message bytes2 tail names
          (ap parse_reflection_service_name m ∙ parse-name name bytes1 u.0 w1) w2 l,
    )

-- A response that lists services, written field by field and shorter than 2^64 bytes, is parsed to
-- those services in order, where their names are UTF-8.
pub parse-encode_list_response :
    (names : List Bytes) {response : Bytes}
    → AllUtf8 names
    → encode_list_response names ≡ some response
    → length response < 2 ^ 64
    → parse_reflection_list_response response ≡ ok names
unfolding encode_list_response parse_reflection_list_response list_response_field
    parse_reflection_service_list
parse-encode_list_response names {response} u e h =
    let (listed, e1, e2) = and_then-eq-some (encode_names [] names) _ e in
    let n = length-append_bytes [] 6 listed e2 in
    let (tail, r, l) = parse-names names [] u e1 (omega arith) in
    let (bytes, w) = read-append_bytes listed 6 (omega arith) (omega arith) in
    let (middle, back, next) =
      field-Written list_response_field (or_missing missing_list) none 6 listed bytes [] w in
    let inner : fields_loop service_list_field ok (length listed) [] listed ≡ ok names =
      rw r (l (length tail) [] (omega arith)) in
    let b : response ≡ bytes = some_inj (sym e2 ∙ w.written []) in
    let k : length bytes ≡ suc (length bytes - 1) = omega (arith, w.nonempty) in
    let q : next_field list_response_field none bytes ≡ ok (go_on (some names) []) =
      rw (← append-nil bytes, next, back, inner) in
    ap parse_reflection_list_response b
    ∙ rw k (
        fields_loop-go_on list_response_field (or_missing missing_list) (length bytes - 1) none
          (some names) bytes [] w.nonempty q
        ∙ fields_loop-nil list_response_field (or_missing missing_list) (length bytes - 1)
            (some names))
