-- ===== src/Common/SortedMap/Every.antt =====
-- A property of each entry of a map, kept by its operations.
use mathlib.Core.Path.{◌≡◌, sym}
use mathlib.Core.Logic.{inl, inr}
use mathlib.Core.Option.{some}
use mathlib.Core.List.{[], ◌∷◌}
use fetch.Common.Tests.{Bool-cases}
use fetch.Common.Options.{some_inj}
use fetch.Common.SortedMap.{KeyOrder, Entries, get, remove, place, insert}

module _ {K V : Type 0} where
  abbrev pub EveryEntry : (K → V → Type 0) → Entries K V → Type 0
  EveryEntry P [] = Unit
  EveryEntry P ((k, v) ∷ entries) = P k v × EveryEntry P entries

module _ {K V : Type 0} (order : KeyOrder K) (P : K → V → Type 0) where
  pub remove-EveryEntry :
      (entries : Entries K V) (key : K)
      → EveryEntry P entries
      → EveryEntry P (remove order entries key)
  unfolding remove
  remove-EveryEntry [] key h = tt
  remove-EveryEntry ((k, v) ∷ entries) key (h, more) = elim (Bool-cases (order.same k key)) [
    | inl e ↦ rw e (remove-EveryEntry entries key more)
    | inr e ↦ rw e (h, remove-EveryEntry entries key more)
  ]

  place-EveryEntry :
      (entries : Entries K V) (key : K) (value : V)
      → P key value
      → EveryEntry P entries
      → EveryEntry P (place order entries key value)
  unfolding place
  place-EveryEntry [] key value p h = (p, tt)
  place-EveryEntry ((k, v) ∷ entries) key value p (h, more) =
      elim (Bool-cases (order.before key k)) [
        | inl e ↦ rw e (p, (h, more))
        | inr e ↦ rw e (h, place-EveryEntry entries key value p more)
      ]

  pub insert-EveryEntry :
      (entries : Entries K V) (key : K) (value : V)
      → P key value
      → EveryEntry P entries
      → EveryEntry P (insert order entries key value)
  unfolding insert
  insert-EveryEntry entries key value p h =
      place-EveryEntry (remove order entries key) key value p (remove-EveryEntry entries key h)

  pub get-EveryEntry :
      (entries : Entries K V) (key : K) {value : V}
      → EveryEntry P entries
      → get order entries key ≡ some value
      → P key value
  unfolding get
  get-EveryEntry [] key h q = cc
  get-EveryEntry ((k, v) ∷ entries) key {value} (h, more) q = elim (Bool-cases (order.same k key)) [
    | inl e ↦
        let p : k ≡ key = order.same→eq k key e in
        let r : v ≡ value = some_inj (rw e at q) in rw (sym p, sym r) h
    | inr e ↦ get-EveryEntry entries key more (rw e at q)
  ]
