-- ===== src/Dns/Response/Loop.antt =====
-- src/dns/wire.rs: the search for reachable names ends, since each round but the last one finds the
-- target of another record.
use fetch.Common.{
  ℕ, zero, suc, ◌+◌, ◌≤◌, ◌<◌, ◌≡◌, refl, ◌≢◌, ◌⊎◌, inl, inr, Bool, Bool-cases, true, false, List,
  [], ◌∷◌, ◌++◌, Bytes, length, if◌then◌else◌, Result, ok, err, ok_inj, >>=-eq-ok, >>=-ne-err,
  arith,
}
use fetch.Dns.Wire.{WireError, out_of_fuel, read_name}
use fetch.Dns.Wire.Bounds.{read_name-ends}
use fetch.Dns.Response.{
  ResourceRecord, is_reachable, is_followed, cname_target, cname_step, cname_round, cname_loop,
  relevant_records,
}
use fetch.Dns.Response.Reach.{In, cname_step-cases, names_equal_self, append-is_reachable}

-- The names of one list are reachable by another.
abbrev pub Extends : List Bytes → List Bytes → Type 0
Extends before after =
    (name : Bytes) → is_reachable before name ≡ true → is_reachable after name ≡ true

-- Whether the target of a record is still missing, as a number.
abbrev missing : List Bytes → Result WireError Bytes → ℕ
missing reachable (err e) = 0
missing reachable (ok target) = if is_reachable reachable target then 0 else 1

abbrev pending : Bytes → List Bytes → List ResourceRecord → ℕ
pending raw reachable [] = 0
pending raw reachable (r ∷ records) =
    missing reachable (cname_target raw r) + pending raw reachable records

missing_mono :
    (before after : List Bytes) (target : Result WireError Bytes)
    → Extends before after
    → missing after target ≤ missing before target
missing_mono before after (err e) h = omega arith
missing_mono before after (ok target) h = elim (Bool-cases (is_reachable before target)) [
  | inl there ↦ rw (there, h target there) (omega arith)
  | inr absent ↦ rw absent (elim (Bool-cases (is_reachable after target)) [
    | inl found ↦ rw found (omega arith)
    | inr still ↦ rw still (omega arith)
  ])
]

pending_mono :
    (raw : Bytes) (before after : List Bytes) (records : List ResourceRecord)
    → Extends before after
    → pending raw after records ≤ pending raw before records
pending_mono raw before after [] h = omega arith
pending_mono raw before after (r ∷ records) h = omega (
  arith,
  missing_mono before after (cname_target raw r) h,
  pending_mono raw before after records h,
)

-- A record of the list whose target was missing and is not any more.
abbrev Gained : Bytes → List ResourceRecord → List Bytes → List Bytes → Type 0
Gained raw records before after =
    (r : ResourceRecord) × (target : Bytes) × In r records
    × (cname_target raw r ≡ ok target)
    × (is_reachable before target ≡ false)
    × (is_reachable after target ≡ true)

pending_less :
    (raw : Bytes) (before after : List Bytes) (records : List ResourceRecord)
    → Extends before after
    → Gained raw records before after
    → pending raw after records < pending raw before records
pending_less raw before after [] h (r, target, here, read, absent, found) = absurd here
pending_less raw before after (s ∷ records) h (r, target, inl e, read, absent, found) =
    let rest = pending_mono raw before after records h in rw (e, read, absent, found) (omega arith)
pending_less raw before after (s ∷ records) h (r, target, inr later, read, absent, found) =
    let rest = pending_less raw before after records h (r, target, later, read, absent, found) in
    omega (arith, missing_mono before after (cname_target raw s) h)

abbrev Progress : Bytes → List ResourceRecord → List Bytes → Bool → List Bytes × Bool → Type 0
Progress raw records reachable changed after =
    Extends reachable after.0
    × (after.1 ≡ true → (changed ≡ true) ⊎ Gained raw records reachable after.0)

later_record :
    (raw : Bytes) (s : ResourceRecord) (records : List ResourceRecord) (reachable : List Bytes)
    (changed : Bool) (after : List Bytes × Bool)
    → Progress raw records reachable changed after
    → Progress raw (s ∷ records) reachable changed after
later_record raw s records reachable changed after (extends, gain) = (
  extends,
  λ h. elim (gain h) [
    | inl e ↦ inl e
    | inr (r, target, here, read, absent, found) ↦ inr (r, target, inr here, read, absent, found)
  ],
)

pub cname_round-Progress :
    (raw : Bytes) (class : ℕ) (records : List ResourceRecord) (reachable : List Bytes)
    (changed : Bool) {after : List Bytes × Bool}
    → cname_round raw class records reachable changed ≡ ok after
    → Progress raw records reachable changed after
unfolding cname_round
cname_round-Progress raw class [] reachable changed h = rw (← ok_inj h) ((λ name k. k), λ k. inl k)
cname_round-Progress raw class (r ∷ records) reachable changed {after} h =
    let (middle, first, rest) = >>=-eq-ok (cname_step raw class r reachable changed) _ h in
    elim (cname_step-cases raw class r reachable changed first) [
      | inl (same, kept) ↦
          let k = rw same at rest in
          later_record raw r records reachable changed after
            (cname_round-Progress raw class records reachable changed k)
      | inr (target, added, (followed, read, absent)) ↦
          let k = rw added at rest in
          let (extends, gain) =
            cname_round-Progress raw class records (reachable ++ target ∷ []) true k in
          let there = append-is_reachable reachable target target (inr (names_equal_self target)) in
          (
            λ name n. extends name (append-is_reachable reachable target name (inl n)),
            λ flag. inr (r, target, inl refl, read, absent, extends target there),
          )
    ]

cname_target-ends : (raw : Bytes) (r : ResourceRecord) → cname_target raw r ≢ err out_of_fuel
unfolding cname_target
cname_target-ends raw r =
    >>=-ne-err (read_name raw r.data_offset) _ (read_name-ends raw r.data_offset)
      (λ read e q. ground arith)

cname_step-ends :
    (raw : Bytes) (class : ℕ) (r : ResourceRecord) (reachable : List Bytes) (changed : Bool)
    → cname_step raw class r reachable changed ≢ err out_of_fuel
unfolding cname_step
cname_step-ends raw class r reachable changed = elim (Bool-cases (is_followed class reachable r)) [
  | inl followed ↦
      rw followed
        (>>=-ne-err (cname_target raw r) _ (cname_target-ends raw r) (λ target e q. ground arith))
  | inr skipped ↦ rw skipped (λ q. cc)
]

cname_round-ends :
    (raw : Bytes) (class : ℕ) (records : List ResourceRecord) (reachable : List Bytes)
    (changed : Bool)
    → cname_round raw class records reachable changed ≢ err out_of_fuel
unfolding cname_round
cname_round-ends raw class [] reachable changed = λ q. cc
cname_round-ends raw class (r ∷ records) reachable changed =
    >>=-ne-err (cname_step raw class r reachable changed) _
      (cname_step-ends raw class r reachable changed)
      (λ step e. cname_round-ends raw class records step.0 step.1)

cname_loop-ends :
    (fuel : ℕ) (raw : Bytes) (class : ℕ) (records : List ResourceRecord) (reachable : List Bytes)
    → pending raw reachable records < fuel
    → cname_loop fuel raw class records reachable ≢ err out_of_fuel
unfolding cname_loop
cname_loop-ends zero raw class records reachable f = absurd (omega arith)
cname_loop-ends (suc fuel) raw class records reachable f =
    go
      (λ found h.
        cname_loop-ends fuel raw class records found
          (omega (arith, pending_less raw reachable found records h.0 h.1)))
      (cname_round raw class records reachable false)
      (λ after e. cname_round-Progress raw class records reachable false e)
      (cname_round-ends raw class records reachable false)
  where
    go :
        ((found : List Bytes)
          → Extends reachable found × Gained raw records reachable found
          → cname_loop fuel raw class records found ≢ err out_of_fuel)
        → (round : Result WireError (List Bytes × Bool))
        → ((after : List Bytes × Bool)
            → round ≡ ok after
            → Progress raw records reachable false after)
        → round ≢ err out_of_fuel
        → (elim round [
          | err e ↦ err e
          | ok (found, true) ↦ cname_loop fuel raw class records found
          | ok (found, false) ↦ ok found
        ])
          ≢ err out_of_fuel
    go later (err e) p h = λ q. h (cc)
    go later (ok (found, false)) p h = λ q. cc
    go later (ok (found, true)) p h =
        let (extends, gain) = p (found, true) refl in
        later found (extends, elim (gain refl) [ inl e ↦ cc | inr g ↦ g ])

pending-le-length :
    (raw : Bytes) (reachable : List Bytes) (records : List ResourceRecord)
    → pending raw reachable records ≤ length records
pending-le-length raw reachable [] = omega arith
pending-le-length raw reachable (r ∷ records) =
    let rest = pending-le-length raw reachable records in go (cname_target raw r) rest
  where
    go :
        (target : Result WireError Bytes)
        → pending raw reachable records ≤ length records
        → missing reachable target + pending raw reachable records ≤ suc (length records)
    go (err e) h = omega arith
    go (ok target) h = ground arith

pub relevant_records-ends :
    (raw asked : Bytes) (class : ℕ) (records : List ResourceRecord)
    → relevant_records raw asked class records ≢ err out_of_fuel
unfolding relevant_records
relevant_records-ends raw asked class records =
    >>=-ne-err (cname_loop (suc (length records)) raw class records (asked ∷ [])) _
      (cname_loop-ends (suc (length records)) raw class records (asked ∷ [])
        (omega (arith, pending-le-length raw (asked ∷ []) records)))
      (λ reachable e q. cc)
