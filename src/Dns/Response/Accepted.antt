-- ===== src/Dns/Response/Accepted.antt =====
-- src/dns/wire.rs: what a response that is taken says.
use Prim.Native.Nat.{bit_and}
use fetch.Common.{
  ℕ, ◌+◌, ◌≤◌, ◌≡◌, refl, sym, ◌∙◌, ap, ◌≢◌, ◌↔◌, Bool, true, false, not, ◌&&◌, List, Bytes, length,
  some, ◌==◌, ==→eq, ==-false→ne, ltb, ltb→le, if◌then◌else◌, ok, err, ok_inj, >>=-eq-ok,
  else-eq-ok, then-eq-ok, arith,
}
use fetch.Common.Text.{&&-both}
use fetch.Dns.Wire.{unexpected_question_count, read_name, read_u16}
use fetch.Dns.Wire.Bounds.{read_u16-ok}
use fetch.Dns.Response.{
  ResourceRecord, names_equal, flag_response, flag_opcode, flag_truncated, read_records,
  check_header, check_question, parse_response_inner, parse_response, id_differs,
}
use fetch.Dns.Response.Reach.{In, Reaches}
use fetch.Dns.Response.Relevant.{relevant_records-Reaches}

-- The header of a response without an error to the query with the id.
pub record Answering (raw : Bytes) (id : ℕ) : Type 0 where
  pub long : 12 ≤ length raw
  pub id_same : read_u16 raw 0 ≡ ok id
  pub flags : ℕ
  pub flags_read : read_u16 raw 2 ≡ ok flags
  pub response : bit_and flags flag_response ≢ 0
  pub opcode : bit_and flags flag_opcode ≡ 0
  pub complete : bit_and flags flag_truncated ≡ 0
  pub rcode : bit_and flags 0x000f ≡ 0

-- One question, which is the one that was asked, and the place behind it.
pub record Asked (raw name : Bytes) (typ class place : ℕ) : Type 0 where
  pub question : Bytes
  pub next : ℕ
  pub named : read_name raw 12 ≡ ok (question, next)
  pub same : names_equal question name ≡ true
  pub type_same : read_u16 raw next ≡ ok typ
  pub class_same : read_u16 raw (next + 2) ≡ ok class
  pub behind : place ≡ next + 4

-- A response that may be taken, with the answers that it may give.
pub record Accepted (raw : Bytes) (id : ℕ) (name : Bytes) (typ class : ℕ)
    (kept : List ResourceRecord) : Type 0 where
  pub header : Answering raw id
  pub one_question : read_u16 raw 4 ≡ ok 1
  pub place : ℕ
  pub asked : Asked raw name typ class place
  pub answer_count : ℕ
  pub counted : read_u16 raw 6 ≡ ok answer_count
  pub answers : List ResourceRecord
  pub answers_read : read_records answer_count raw place ≡ ok answers
  pub relevant :
      (r : ResourceRecord) → In r kept ↔ (In r answers × Reaches raw class answers name r.name)

not-false : (b : Bool) → not b ≡ false → b ≡ true
not-false true h = refl
not-false false h = cc

id_differs-same :
    (raw : Bytes) (id : ℕ) {n : ℕ}
    → read_u16 raw 0 ≡ ok n
    → id_differs raw (some id) ≡ false
    → read_u16 raw 0 ≡ ok id
id_differs-same raw id {n} read h =
    let k = rw (read, id_differs) at h in read ∙ ap ok (==→eq n id (not-false (n == id) k))

check_header-Answering :
    (raw : Bytes) (id : ℕ) → check_header raw (some id) ≡ ok tt → Answering raw id
unfolding check_header
check_header-Answering raw id h =
    let (long, after_size) = else-eq-ok (ltb (length raw) 12) _ _ h in
    let (same, after_id) = else-eq-ok (id_differs raw (some id)) _ _ after_size in
    let (flags, flags_read, after_flags) = >>=-eq-ok (read_u16 raw 2) _ after_id in
    let (response, after_response) =
      else-eq-ok (bit_and flags flag_response == 0) _ _ after_flags in
    let (opcode, after_opcode) =
      else-eq-ok (not (bit_and flags flag_opcode == 0)) _ _ after_response in
    let (complete, after_complete) =
      else-eq-ok (not (bit_and flags flag_truncated == 0)) _ _ after_opcode in
    let (rcode, done) = else-eq-ok (not (bit_and flags 0x000f == 0)) _ _ after_complete in
    let size = ltb→le (length raw) 12 long in
    let (first, read) = read_u16-ok raw 0 (omega arith) in
    record {
      long = size;
      id_same = id_differs-same raw id read same;
      flags = flags;
      flags_read = flags_read;
      response = ==-false→ne _ _ response;
      opcode = ==→eq _ _ (not-false _ opcode);
      complete = ==→eq _ _ (not-false _ complete);
      rcode = ==→eq _ _ (not-false _ rcode);
    }

check_question-Asked :
    (raw name : Bytes) (typ class : ℕ) {place : ℕ}
    → check_question raw name typ class ≡ ok place
    → Asked raw name typ class place
unfolding check_question
check_question-Asked raw name typ class h =
    let (question, named, after_name) = >>=-eq-ok (read_name raw 12) _ h in
    let (t, type_read, after_type) = >>=-eq-ok (read_u16 raw question.1) _ after_name in
    let (c, class_read, after_class) = >>=-eq-ok (read_u16 raw (question.1 + 2)) _ after_type in
    let (matches, done) =
      then-eq-ok (names_equal question.0 name && (t == typ && c == class)) _ _ after_class in
    let (same, others) = &&-both (names_equal question.0 name) _ matches in
    let (same_type, same_class) = &&-both (t == typ) _ others in
    record {
      question = question.0;
      next = question.1;
      named = named;
      same = same;
      type_same = type_read ∙ ap ok (==→eq _ _ same_type);
      class_same = class_read ∙ ap ok (==→eq _ _ same_class);
      behind = sym (ok_inj done);
    }

-- A response from which answers are taken is one to the query with the id, without an error and not
-- truncated; its only question is the one that was asked, up to the case of letters and dots at the
-- end of the name; and the answers taken are the ones whose owner a chain of aliases of the class
-- reaches from the name.
pub parse_response-Accepted :
    (raw : Bytes) (id : ℕ) (name : Bytes) (typ class : ℕ) {kept : List ResourceRecord}
    → parse_response raw id name typ class ≡ ok kept
    → Accepted raw id name typ class kept
unfolding parse_response parse_response_inner
parse_response-Accepted raw id name typ class h =
    let (checked, header, after_header) = >>=-eq-ok (check_header raw (some id)) _ h in
    let (questions, questions_read, after_questions) = >>=-eq-ok (read_u16 raw 4) _ after_header in
    let (count, counted, after_count) = >>=-eq-ok (read_u16 raw 6) _ after_questions in
    let (place, asked, after_asked) =
      >>=-eq-ok
        (if questions == 1
          then check_question raw name typ class
          else err unexpected_question_count)
        _ after_count in
    let (one, question) = then-eq-ok (questions == 1) _ _ asked in
    let (answers, answers_read, searched) =
      >>=-eq-ok (read_records count raw place) _ after_asked in
    record {
      header = check_header-Answering raw id header;
      one_question = questions_read ∙ ap ok (==→eq _ _ one);
      place = place;
      asked = check_question-Asked raw name typ class question;
      answer_count = count;
      counted = counted;
      answers = answers;
      answers_read = answers_read;
      relevant = relevant_records-Reaches raw name class answers searched;
    }
