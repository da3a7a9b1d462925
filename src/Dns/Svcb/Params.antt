-- ===== src/Dns/Svcb/Params.antt =====
-- src/dns/svcb.rs: which records may be used.
use fetch.Common.{
  ◌↔◌, ℕ, ◌≡◌, refl, inl, inr, Bool-cases, true, some, some_inj, and_then-eq-some, List, [], ◌∷◌,
  Bytes, length, is_empty, drop, ltb,
}
use fetch.Dns.Svcb.{
  SvcbRecord, supported_mandatory_keys, is_usable, is_supported, unsupported_keys, bare_record,
  apply_params, record_from_params, unpack_dns_name, read_params, word_of, parse_rdata,
}

-- Each key is one that a client of these records knows.
abbrev pub AllSupported : List ℕ → Type 0
AllSupported [] = Unit
AllSupported (key ∷ keys) = (is_supported supported_mandatory_keys key ≡ true) × AllSupported keys

unsupported_keys-AllSupported :
    (keys : List ℕ) → is_empty (unsupported_keys keys) ≡ true → AllSupported keys
unfolding unsupported_keys
unsupported_keys-AllSupported [] h = tt
unsupported_keys-AllSupported (key ∷ keys) h =
    elim (Bool-cases (is_supported supported_mandatory_keys key)) [
      | inl known ↦ let k = rw known at h in (known, unsupported_keys-AllSupported keys k)
      | inr other ↦ let k = rw other at h in cc
    ]

AllSupported-unsupported_keys :
    (keys : List ℕ) → AllSupported keys → is_empty (unsupported_keys keys) ≡ true
unfolding unsupported_keys
AllSupported-unsupported_keys [] h = refl
AllSupported-unsupported_keys (key ∷ keys) (h, hs) = rw h (AllSupported-unsupported_keys keys hs)

-- A record that is read may be used exactly if each key that it calls mandatory is supported.
pub parse_rdata-AllSupported :
    (raw : Bytes) {r : SvcbRecord}
    → parse_rdata raw ≡ some r
    → (is_usable r ≡ true) ↔ AllSupported r.mandatory
unfolding parse_rdata record_from_params is_usable
parse_rdata-AllSupported raw {r} h = elim (Bool-cases (ltb (length raw) 3)) [
  | inl short ↦ let k = rw short at h in cc
  | inr long ↦
      let k = rw long at h in
      let (named, a, h1) = and_then-eq-some (unpack_dns_name (drop 2 raw)) _ k in
      let (params, b, h2) = and_then-eq-some (read_params (length named.1) named.1) _ h1 in
      let (applied, c, h3) =
        and_then-eq-some (apply_params (bare_record (word_of raw) named.0) params) _ h2 in
      rw (← some_inj h3) (
        unsupported_keys-AllSupported applied.mandatory,
        AllSupported-unsupported_keys applied.mandatory,
      )
]
