-- ===== src/Prelude/Assoc.antt =====
-- A JavaScript `Map` with string keys, and a plain object used as one: an association list in
-- insertion order. Writing a key that is there changes its value in place; a new key goes last.
use sleeper_ff.Prelude.Tests.{if◌then◌else◌, Bool-cases}
use mathlib.Core.Logic.{inl, inr}
use sleeper_ff.Prelude.Lists.{length, drop, any}
use Prim.Native.Nat.{ℕ, zero, suc, ◌≤◌, ◌+◌}
use Prim.Native.String.{String}
use mathlib.Core.Path.{◌≡◌, refl, sym, subst, subst₂}
use mathlib.Core.Bool.{Bool, false}
use mathlib.Core.Option.{Option, none, some}
use mathlib.Core.List.{List, [], ◌∷◌, map}
use native.Mathlib.Omega.{arith}
use text.Mathlib.Text.{◌==◌ as str_eq}
use text.Mathlib.TextEquality.{eq_iff}

abbrev pub Assoc {ℓ} : Type ℓ → Type ℓ
Assoc V = List (String × V)

module _ {ℓ} {V : Type ℓ} where
  -- `m.delete(k)`, `delete o[k]`
  unfoldable pub remove : String → Assoc V → Assoc V
  remove key [] = []
  remove key ((own, v) ∷ entries) =
      let rest = remove key entries in if str_eq own key then rest else (own, v) ∷ rest

  -- `m.set(k, v)`, `o[k] = v`
  unfoldable pub insert : String → V → Assoc V → Assoc V
  insert key v [] = (key, v) ∷ []
  insert key v ((own, held) ∷ entries) =
      if str_eq own key then (own, v) ∷ entries else (own, held) ∷ insert key v entries

  -- `m.get(k)`, `o[k]`
  unfoldable pub lookup : String → Assoc V → Option V
  lookup key [] = none
  lookup key ((own, v) ∷ entries) = if str_eq own key then some v else lookup key entries

  -- `Object.values(o)`
  abbrev pub values : Assoc V → List V
  values entries = map (λ e. e.1) entries

  pub lookup-insert :
      (key own : String) (v : V) (entries : Assoc V)
      → lookup own (insert key v entries) ≡ (if str_eq key own then some v else lookup own entries)
  unfolding lookup insert
  lookup-insert key own v [] = refl
  lookup-insert key own v ((head, held) ∷ entries) =
      ground
        (arith, eq_iff key own, eq_iff head key, eq_iff head own, lookup-insert key own v entries)

  pub lookup-remove :
      (key own : String) (entries : Assoc V)
      → lookup own (remove key entries) ≡ (if str_eq key own then none else lookup own entries)
  unfolding lookup remove
  lookup-remove key own [] = ground arith
  lookup-remove key own ((head, v) ∷ entries) =
      ground
        (arith, lookup-remove key own entries, eq_iff head key, eq_iff head own, eq_iff key own)

  pub length-remove-le :
      (key : String) (entries : Assoc V) → length (remove key entries) ≤ length entries
  unfolding remove
  length-remove-le key [] = omega arith
  length-remove-le key ((head, v) ∷ entries) = ground (arith, length-remove-le key entries)

  pub length-insert-le :
      (key : String) (v : V) (entries : Assoc V)
      → length (insert key v entries) ≤ length entries + 1
  unfolding insert
  length-insert-le key v [] = omega arith
  length-insert-le key v ((head, held) ∷ entries) = ground (arith, length-insert-le key v entries)

  -- Changing every value by a function that does not see the key.
  unfoldable pub map_values : (V → V) → Assoc V → Assoc V
  map_values f [] = []
  map_values f ((own, v) ∷ entries) = (own, f v) ∷ map_values f entries

  pub lookup-map_values :
      (f : V → V) (key : String) (entries : Assoc V)
      → lookup key (map_values f entries)
        ≡ elim (lookup key entries) [ none ↦ none | some v ↦ some (f v) ]
  unfolding lookup map_values
  lookup-map_values f key [] = refl
  lookup-map_values f key ((own, v) ∷ entries) = ground (arith, lookup-map_values f key entries)

  -- `for (const [k, v] of …) if (p(v)) delete …[k]`
  unfoldable pub remove_if : (V → Bool) → Assoc V → Assoc V
  remove_if p [] = []
  remove_if p ((own, v) ∷ entries) =
      let rest = remove_if p entries in if p v then rest else (own, v) ∷ rest

  pub length-remove_if-le :
      (p : V → Bool) (entries : Assoc V) → length (remove_if p entries) ≤ length entries
  unfolding remove_if
  length-remove_if-le p [] = omega arith
  length-remove_if-le p ((head, v) ∷ entries) = ground (arith, length-remove_if-le p entries)

  -- No key twice: what every `Map` and every object satisfies.
  unfoldable pub IsMap : Assoc V → Type ℓ
  IsMap [] = Unit
  IsMap ((key, v) ∷ entries) = (lookup key entries ≡ none) × IsMap entries

  abbrev pub unless : (V → Bool) → Option V → Option V
  unless p none = none
  unless p (some v) = if p v then none else some v

  pub lookup-remove_if :
      (p : V → Bool) (key : String) (entries : Assoc V)
      → IsMap entries
      → lookup key (remove_if p entries) ≡ unless p (lookup key entries)
  unfolding lookup remove_if IsMap
  lookup-remove_if p key [] h = refl
  lookup-remove_if p key ((own, v) ∷ entries) h =
      ground (arith, lookup-remove_if p key entries h.1, eq_iff own key)

  pub lookup-drop-none :
      (n : ℕ) (key : String) (entries : Assoc V)
      → lookup key entries ≡ none
      → lookup key (drop n entries) ≡ none
  unfolding lookup
  lookup-drop-none zero key entries h = h
  lookup-drop-none (suc n) key [] h = h
  lookup-drop-none (suc n) key ((own, v) ∷ entries) h =
      lookup-drop-none n key entries (ground arith)

module _ {ℓ} {V : Type ℓ} where
  -- `for (const value of values) target[value.id] = value`
  unfoldable pub upsert : (V → String) → List V → Assoc V → Assoc V
  upsert id [] entries = entries
  upsert id (v ∷ vs) entries = upsert id vs (insert (id v) v entries)

  -- Where `upsert` puts no value, it changes none.
  pub lookup-upsert_other :
      (id : V → String) (vs : List V) (entries : Assoc V) (key : String)
      → any (λ v. str_eq (id v) key) vs ≡ false
      → lookup key (upsert id vs entries) ≡ lookup key entries
  unfolding upsert
  lookup-upsert_other id [] entries key h = refl
  lookup-upsert_other id (v ∷ vs) entries key h = ground (
    arith,
    lookup-insert (id v) key v entries,
    lookup-upsert_other id vs (insert (id v) v entries) key,
  )

  pub lookup-remove_if_kept :
      (p : V → Bool) (key : String) (entries : Assoc V) {v : V}
      → lookup key entries ≡ some v
      → p v ≡ false
      → lookup key (remove_if p entries) ≡ some v
  unfolding lookup remove_if
  lookup-remove_if_kept p key [] e h = cc
  lookup-remove_if_kept p key ((own, held) ∷ entries) {v} e h =
      ground (arith, lookup-remove_if_kept p key entries {v = v})

  -- What `remove_if` leaves does not pass its test.
  pub lookup-remove_if_test :
      (p : V → Bool) (key : String) (entries : Assoc V) {v : V}
      → lookup key (remove_if p entries) ≡ some v
      → p v ≡ false
  unfolding lookup remove_if
  lookup-remove_if_test p key [] e = cc
  lookup-remove_if_test p key ((own, held) ∷ entries) {v} e =
      ground (arith, lookup-remove_if_test p key entries {v = v})

-- Every stored value has the property, of its key and itself.
module _ {ℓ κ} {V : Type ℓ} (P : String → V → Type κ) where
  abbrev pub Every : Assoc V → Type κ
  Every [] = Unit
  Every ((key, v) ∷ entries) = P key v × Every entries

  found_of :
      (own key : String) (v : V) (o : Option V) {held : V}
      → (if str_eq own key then some v else o) ≡ some held
      → P own v
      → (o ≡ some held → P key held)
      → P key held
  found_of own key v o {held} e p h = elim (Bool-cases (str_eq own key)) [
    | inl same ↦ let value : v ≡ held = ground arith in subst₂ P ((eq_iff own key).0 same) value p
    | inr other ↦ h (ground arith)
  ]

  pub Every-lookup :
      (key : String) (entries : Assoc V) {v : V}
      → Every entries
      → lookup key entries ≡ some v
      → P key v
  unfolding lookup
  Every-lookup key [] h e = cc
  Every-lookup key ((own, held) ∷ entries) h e =
      found_of own key held (lookup key entries) e h.0 (Every-lookup key entries h.1)

  pub Every-insert :
      (key : String) (v : V) (entries : Assoc V)
      → P key v
      → Every entries
      → Every (insert key v entries)
  unfolding insert
  Every-insert key v [] p h = (p, tt)
  Every-insert key v ((own, held) ∷ entries) p h = elim (Bool-cases (str_eq own key)) [
    | inl same ↦ rw same (subst (λ head. P head v) (sym ((eq_iff own key).0 same)) p, h.1)
    | inr other ↦ rw other (h.0, Every-insert key v entries p h.1)
  ]

  pub Every-map_values :
      (f : V → V) (entries : Assoc V)
      → ((key : String) (u : V) → P key u → P key (f u))
      → Every entries
      → Every (map_values f entries)
  unfolding map_values
  Every-map_values f [] p h = tt
  Every-map_values f ((own, v) ∷ entries) p h = (p own v h.0, Every-map_values f entries p h.1)

  pub Every-remove_if :
      (q : V → Bool) (entries : Assoc V) → Every entries → Every (remove_if q entries)
  unfolding remove_if
  Every-remove_if q [] h = tt
  Every-remove_if q ((own, v) ∷ entries) h = elim (Bool-cases (q v)) [
    | inl gone ↦ rw gone (Every-remove_if q entries h.1)
    | inr kept ↦ rw kept (h.0, Every-remove_if q entries h.1)
  ]
