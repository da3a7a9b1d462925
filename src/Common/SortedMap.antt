-- ===== src/Common/SortedMap.antt =====
-- `BTreeMap`: the entries in the order of their keys, each key once.
pub mod Every
use mathlib.Core.Path.{◌≡◌, refl, ap, sym, ◌∙◌}
use mathlib.Core.Logic.{inl, inr}
use mathlib.Core.Bool.{Bool, true}
use mathlib.Core.Option.{Option, none, some}
use mathlib.Core.List.{List, [], ◌∷◌}
use fetch.Common.Tests.{if◌then◌else◌, Bool-cases}

-- `Ord` of the keys, as far as a map asks.
pub record KeyOrder (K : Type 0) : Type 0 where
  pub same : K → K → Bool
  pub before : K → K → Bool
  pub same→eq : (a b : K) → same a b ≡ true → a ≡ b
  pub same_self : (a : K) → same a a ≡ true

abbrev pub Entries : Type 0 → Type 0 → Type 0
Entries K V = List (K × V)

module _ {K V : Type 0} (order : KeyOrder K) where
  unfoldable pub get : Entries K V → K → Option V
  get [] key = none
  get ((k, v) ∷ entries) key =
      let rest = get entries key in if order.same k key then some v else rest

  unfoldable pub remove : Entries K V → K → Entries K V
  remove [] key = []
  remove ((k, v) ∷ entries) key =
      let rest = remove entries key in if order.same k key then rest else (k, v) ∷ rest

  unfoldable pub place : Entries K V → K → V → Entries K V
  place [] key value = (key, value) ∷ []
  place ((k, v) ∷ entries) key value =
      let rest = place entries key value in
      if order.before key k then (key, value) ∷ ((k, v) ∷ entries) else (k, v) ∷ rest

  unfoldable pub insert : Entries K V → K → V → Entries K V
  insert entries key value = place (remove entries key) key value

  -- No key stands twice.
  abbrev pub Unique : Entries K V → Type 0
  Unique [] = Unit
  Unique ((k, v) ∷ entries) = (get entries k ≡ none) × Unique entries

same_other :
    {K : Type 0} (order : KeyOrder K) (a b c : K)
    → order.same a b ≡ true
    → order.same a c ≡ order.same b c
same_other {K} order a b c h = ap (λ (k : K). order.same k c) (order.same→eq a b h)

module _ {K V : Type 0} (order : KeyOrder K) where
  pub get-remove :
      (entries : Entries K V) (key other : K)
      → get order (remove order entries key) other
        ≡ (if order.same key other then none else get order entries other)
  unfolding get remove
  get-remove [] key other = elim (Bool-cases (order.same key other)) [
    | inl e ↦ rw e refl
    | inr e ↦ rw e refl
  ]
  get-remove ((k, v) ∷ entries) key other = elim (Bool-cases (order.same k key)) [
    | inl e ↦
        rw (e, get-remove entries key other, same_other order k key other e)
          (elim (Bool-cases (order.same key other)) [ inl f ↦ rw f refl | inr f ↦ rw f refl ])
    | inr e ↦ rw e (elim (Bool-cases (order.same k other)) [
      | inl f ↦ elim (Bool-cases (order.same key other)) [
        | inl g ↦
            let p : k ≡ key = order.same→eq k other f ∙ sym (order.same→eq key other g) in
            let q : order.same k key ≡ true = rw p (order.same_self key) in cc
        | inr g ↦ rw (f, g) refl
      ]
      | inr f ↦ rw (f, get-remove entries key other) refl
    ])
  ]

  get-place :
      (entries : Entries K V) (key other : K) (value : V)
      → get order entries key ≡ none
      → get order (place order entries key value) other
        ≡ (if order.same key other then some value else get order entries other)
  unfolding get place
  get-place [] key other value h = refl
  get-place ((k, v) ∷ entries) key other value h = elim (Bool-cases (order.same k key)) [
    | inl e ↦ let q = rw e at h in cc
    | inr e ↦
        let rest : get order entries key ≡ none = rw e at h in
        elim (Bool-cases (order.before key k)) [
          | inl first ↦ rw first refl
          | inr later ↦ rw later (elim (Bool-cases (order.same k other)) [
            | inl f ↦ elim (Bool-cases (order.same key other)) [
              | inl g ↦
                  let p : k ≡ key = order.same→eq k other f ∙ sym (order.same→eq key other g) in
                  let q : order.same k key ≡ true = rw p (order.same_self key) in cc
              | inr g ↦ rw (f, g) refl
            ]
            | inr f ↦ rw (f, get-place entries key other value rest) refl
          ])
        ]
  ]

  removed : (entries : Entries K V) (key : K) → get order (remove order entries key) key ≡ none
  removed entries key = get-remove entries key key ∙ rw (order.same_self key) refl

  -- An inserted entry is found under its key, and each other key has the entry that it had.
  pub get-insert :
      (entries : Entries K V) (key other : K) (value : V)
      → get order (insert order entries key value) other
        ≡ (if order.same key other then some value else get order entries other)
  unfolding insert
  get-insert entries key other value =
      get-place (remove order entries key) key other value (removed entries key)
      ∙ (elim (Bool-cases (order.same key other)) [
        | inl e ↦ rw e refl
        | inr e ↦ rw e (get-remove entries key other ∙ rw e refl)
      ])

  pub remove-Unique :
      (entries : Entries K V) (key : K)
      → Unique order entries
      → Unique order (remove order entries key)
  unfolding remove
  remove-Unique [] key u = tt
  remove-Unique ((k, v) ∷ entries) key (h, u) = elim (Bool-cases (order.same k key)) [
    | inl e ↦ rw e (remove-Unique entries key u)
    | inr e ↦ rw e (
      get-remove entries key k
          ∙ (elim (Bool-cases (order.same key k)) [ inl f ↦ rw f refl | inr f ↦ rw f h ]),
      remove-Unique entries key u,
    )
  ]

  place-Unique :
      (entries : Entries K V) (key : K) (value : V)
      → get order entries key ≡ none
      → Unique order entries
      → Unique order (place order entries key value)
  unfolding place get
  place-Unique [] key value h u = (refl, tt)
  place-Unique ((k, v) ∷ entries) key value h (g, u) = elim (Bool-cases (order.before key k)) [
    | inl first ↦ rw first (h, (g, u))
    | inr later ↦ rw later (elim (Bool-cases (order.same k key)) [
      | inl e ↦ let q = rw e at h in cc
      | inr e ↦
          let rest : get order entries key ≡ none = rw e at h in
          (
            get-place entries key k value rest ∙ (elim (Bool-cases (order.same key k)) [
              | inl f ↦
                  let p : k ≡ key = sym (order.same→eq key k f) in
                  let q : order.same k key ≡ true = rw p (order.same_self key) in cc
              | inr f ↦ rw f g
            ]),
            place-Unique entries key value rest u,
          )
    ])
  ]

  pub insert-Unique :
      (entries : Entries K V) (key : K) (value : V)
      → Unique order entries
      → Unique order (insert order entries key value)
  unfolding insert
  insert-Unique entries key value u =
      place-Unique (remove order entries key) key value (removed entries key)
        (remove-Unique entries key u)
