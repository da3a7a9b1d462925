-- ===== src/Dns/Wire/Query.antt =====
-- src/dns/wire.rs: what `build_query` sends, as a reader of the message takes it.
use fetch.Common.{
  ℕ, suc, ◌+◌, ◌/◌, ◌%◌, ◌^◌, ◌≤◌, ◌<◌, ◌≡◌, refl, ap, ◌∙◌, sym, true, false, [], ◌∷◌, ◌++◌,
  append_assoc, Bytes, length, length-append, get_or, ltb, le→ltb, ok, >>=-eq-ok, arith,
}
use fetch.Common.Words.{u16_to_be_bytes, u16_from-to_be_bytes}
use fetch.Common.Utf8.{is_utf8}
use fetch.Dns.Wire.{
  read_u16, read_name, write_name, build_query, query_header, write_opt_record, opt_record,
  class_in,
}
use fetch.Dns.Wire.Encoding.{absolute, write_name-prefix}
use fetch.Dns.Wire.Names.{read_name-write_name}

get_or-append_second :
    (before : Bytes) (a b d : ℕ) (after : Bytes)
    → (get_or (before ++ a ∷ (b ∷ after)) (length before) d ≡ a)
      × (get_or (before ++ a ∷ (b ∷ after)) (length before + 1) d ≡ b)
get_or-append_second [] a b d after = (refl, refl)
get_or-append_second (c ∷ before) a b d after =
    let (e, f) = get_or-append_second before a b d after in
    let g : suc (length before) + 1 ≡ suc (length before + 1) = omega arith in (e, rw g f)

-- A word that stands behind other bytes.
read_u16-append :
    (before after : Bytes) (n : ℕ)
    → n < 2 ^ 16
    → read_u16 (before ++ (u16_to_be_bytes n ++ after)) (length before) ≡ ok n
unfolding read_u16
read_u16-append before after n h =
    let (a, b) = get_or-append_second before (n / 256 % 256) (n % 256) 0 after in
    rw
      (
        le→ltb (length (before ++ (u16_to_be_bytes n ++ after))) (length before + 2)
            (omega (arith, length-append before (u16_to_be_bytes n ++ after))),
        a,
        b,
      )
      (ap ok (u16_from-to_be_bytes n h))

-- A word at a fixed place of the header.
read_u16-query_header :
    (id : ℕ) (after : Bytes)
    → id < 2 ^ 16
    → (read_u16 (query_header id ++ after) 0 ≡ ok id)
      × (read_u16 (query_header id ++ after) 2 ≡ ok 0x0100)
      × (read_u16 (query_header id ++ after) 4 ≡ ok 1)
      × (read_u16 (query_header id ++ after) 6 ≡ ok 0)
      × (read_u16 (query_header id ++ after) 8 ≡ ok 0)
      × (read_u16 (query_header id ++ after) 10 ≡ ok 1)
unfolding read_u16
read_u16-query_header id after h =
    let long : (n : ℕ) → n ≤ 12 → ltb (length (query_header id ++ after)) n ≡ false =
      λ n k. le→ltb (length (query_header id ++ after)) n (omega arith) in
    (
      rw (long 2 (omega arith)) (ap ok (u16_from-to_be_bytes id h)),
      rw (long 4 (omega arith)) refl,
      rw (long 6 (omega arith)) refl,
      rw (long 8 (omega arith)) refl,
      rw (long 10 (omega arith)) refl,
      rw (long 12 (omega arith)) refl,
    )

-- The question behind a name.
abbrev question_end : ℕ → Bytes
question_end dns_type = u16_to_be_bytes dns_type ++ (u16_to_be_bytes class_in ++ opt_record)

write_opt_record_lem :
    (written : Bytes) (dns_type : ℕ)
    → write_opt_record ((written ++ u16_to_be_bytes dns_type) ++ u16_to_be_bytes class_in)
      ≡ written ++ question_end dns_type
unfolding write_opt_record
write_opt_record_lem written dns_type =
    append_assoc (written ++ u16_to_be_bytes dns_type) (u16_to_be_bytes class_in) opt_record
    ∙ append_assoc written (u16_to_be_bytes dns_type) (u16_to_be_bytes class_in ++ opt_record)

read_type :
    (written : Bytes) (dns_type : ℕ)
    → dns_type < 2 ^ 16
    → read_u16 (written ++ question_end dns_type) (length written) ≡ ok dns_type
read_type written dns_type h =
    read_u16-append written (u16_to_be_bytes class_in ++ opt_record) dns_type h

read_class :
    (written : Bytes) (dns_type : ℕ)
    → read_u16 (written ++ question_end dns_type) (length written + 2) ≡ ok class_in
read_class written dns_type =
    let before : Bytes = written ++ u16_to_be_bytes dns_type in
    let n : length written + 2 ≡ length before =
      omega (arith, length-append written (u16_to_be_bytes dns_type)) in
    rw
      (
        n,
        sym (
            append_assoc written (u16_to_be_bytes dns_type)
              (u16_to_be_bytes class_in ++ opt_record)),
      )
      (read_u16-append before opt_record class_in (omega arith))

-- A message that asks one question: the header, and then a name, a type and the class IN, before the
-- eleven bytes of an OPT record.
pub record Asks (id : ℕ) (host : Bytes) (dns_type : ℕ) (raw : Bytes) : Type 0 where
  pub next : ℕ
  pub id_read : read_u16 raw 0 ≡ ok id
  pub flags_read : read_u16 raw 2 ≡ ok 0x0100
  pub questions_read : read_u16 raw 4 ≡ ok 1
  pub answers_read : read_u16 raw 6 ≡ ok 0
  pub authorities_read : read_u16 raw 8 ≡ ok 0
  pub additional_read : read_u16 raw 10 ≡ ok 1
  pub name_read : read_name raw 12 ≡ ok (absolute host, next)
  pub type_read : read_u16 raw next ≡ ok dns_type
  pub class_read : read_u16 raw (next + 2) ≡ ok class_in
  pub end : length raw ≡ next + 15

-- A query for a name that is a text reads as one question: its ID, its flags and counts, its name from
-- byte 12, its type and its class, with eleven bytes behind.
pub build_query-Asks :
    (id : ℕ) (host : Bytes) (dns_type : ℕ) {raw : Bytes}
    → id < 2 ^ 16
    → dns_type < 2 ^ 16
    → is_utf8 host ≡ true
    → build_query id host dns_type ≡ ok raw
    → Asks id host dns_type raw
unfolding build_query
build_query-Asks id host dns_type {raw} h k u e =
    let (written, w, f) = >>=-eq-ok (write_name (query_header id) host) _ e in
    let (body, p) = write_name-prefix (query_header id) host u w in
    let tail : Bytes = question_end dns_type in
    let r : raw
        ≡ write_opt_record ((written ++ u16_to_be_bytes dns_type) ++ u16_to_be_bytes class_in) =
      cc in
    let whole : raw ≡ written ++ tail = r ∙ write_opt_record_lem written dns_type in
    let front : raw ≡ query_header id ++ (body ++ tail) =
      whole ∙ ap (λ (t : Bytes). t ++ tail) p ∙ append_assoc (query_header id) body tail in
    let header = read_u16-query_header id (body ++ tail) h in
    record {
      next = length written;
      id_read = rw front header.0;
      flags_read = rw front header.1;
      questions_read = rw front header.2;
      answers_read = rw front header.3;
      authorities_read = rw front header.4;
      additional_read = rw front header.5;
      name_read = rw whole (read_name-write_name (query_header id) host tail u w);
      type_read = rw whole (read_type written dns_type k);
      class_read = rw whole (read_class written dns_type);
      end = omega (arith, ap length whole, length-append written tail);
    }
