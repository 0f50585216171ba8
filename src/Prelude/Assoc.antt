-- ===== src/Prelude/Assoc.antt =====
-- A Python dict: an association list in insertion order.
use mathlib.Core.Path.{◌≡◌, refl, ap₂, subst}
use mathlib.Core.Option.{Option, none, some, none-ne-some, some-injective}
use mathlib.Core.Bool.{Bool, true, false}
use mathlib.Core.List.{List, [], ◌∷◌}
use native.Mathlib.Omega.{arith}
use auditlens.Prelude.Tests.{if◌then◌else◌}
use auditlens.Prelude.Lists.{keep_if, All}
use auditlens.Prelude.Eq.{Eq}

abbrev pub Dict {ℓ κ} : Type ℓ → Type κ → Type (ℓ ⊔ κ)
Dict K V = List (K × V)

module _ {ℓ κ} {K : Type ℓ} {V : Type κ} ⦃e : Eq K⦄ where
  -- `d.get(k)`
  unfoldable pub lookup : K → Dict K V → Option V
  lookup k [] = none
  lookup k ((j, v) ∷ d) = if e.beq j k then some v else lookup k d

  -- `d[k] = v`
  unfoldable pub insert : K → V → Dict K V → Dict K V
  insert k v [] = (k, v) ∷ []
  insert k v ((j, w) ∷ d) = if e.beq j k then (k, v) ∷ d else (j, w) ∷ insert k v d

  -- `d.get(k, default)`
  abbrev pub lookup_or : V → K → Dict K V → V
  lookup_or default k d = elim (lookup k d) [ none ↦ default | some v ↦ v ]

  pub lookup-insert :
      (k j : K) (v : V) (d : Dict K V)
      → lookup j (insert k v d) ≡ (if e.beq k j then some v else lookup j d)
  unfolding lookup insert
  lookup-insert k j v [] = refl
  lookup-insert k j v ((i, w) ∷ d) =
      ground (arith, e.beq_iff i k, e.beq_iff i j, e.beq_iff k j, lookup-insert k j v d)

  pub lookup_or-insert :
      (default : V) (k j : K) (v : V) (d : Dict K V)
      → lookup_or default j (insert k v d) ≡ (if e.beq k j then v else lookup_or default j d)
  lookup_or-insert default k j v d = ground (arith, lookup-insert k j v d)

  -- No key stands twice.
  abbrev pub Distinct : Dict K V → Type κ
  Distinct [] = Unit
  Distinct ((j, v) ∷ d) = (lookup j d ≡ none) × Distinct d

  lookup-keep_if-none :
      (p : K × V → Bool) (k : K) (d : Dict K V) → lookup k d ≡ none → lookup k (keep_if p d) ≡ none
  unfolding lookup
  lookup-keep_if-none p k [] h = refl
  lookup-keep_if-none p k ((j, v) ∷ d) h = ground (arith, lookup-keep_if-none p k d)

  pub keep_if-Distinct : (p : K × V → Bool) (d : Dict K V) → Distinct d → Distinct (keep_if p d)
  keep_if-Distinct p [] h = tt
  keep_if-Distinct p ((j, v) ∷ d) h =
      ground (arith, keep_if-Distinct p d h.1, lookup-keep_if-none p j d h.0)

  pub insert-Distinct : (k : K) (v : V) (d : Dict K V) → Distinct d → Distinct (insert k v d)
  unfolding insert lookup
  insert-Distinct k v [] h = (refl, tt)
  insert-Distinct k v ((j, w) ∷ d) h =
      ground (arith, insert-Distinct k v d h.1, e.beq_iff j k, e.beq_iff k j, lookup-insert k j v d)

  -- What a filter keeps under a key, and what it drops.
  pub lookup-keep_if :
      (p : K × V → Bool) (k : K) (d : Dict K V)
      → Distinct d
      → lookup k (keep_if p d)
        ≡ elim (lookup k d) [ none ↦ none | some v ↦ if p (k, v) then some v else none ]
  unfolding lookup
  lookup-keep_if p k [] h = refl
  lookup-keep_if p k ((j, v) ∷ d) h =
      ground (arith, lookup-keep_if p k d h.1, e.beq_iff j k, lookup-keep_if-none p k d)

  -- every value replaced, in place
  abbrev pub map_values : (V → V) → Dict K V → Dict K V
  map_values f [] = []
  map_values f ((j, v) ∷ d) = (j, f v) ∷ map_values f d

  pub lookup-map_values :
      (f : V → V) (k : K) (d : Dict K V)
      → lookup k (map_values f d) ≡ elim (lookup k d) [ none ↦ none | some v ↦ some (f v) ]
  unfolding lookup
  lookup-map_values f k [] = refl
  lookup-map_values f k ((j, v) ∷ d) = ground (arith, lookup-map_values f k d)

  pub map_values-Distinct : (f : V → V) (d : Dict K V) → Distinct d → Distinct (map_values f d)
  map_values-Distinct f [] h = tt
  map_values-Distinct f ((j, v) ∷ d) h =
      ground (arith, map_values-Distinct f d h.1, lookup-map_values f j d)

module _ {ℓ κ ν} {K : Type ℓ} {V : Type κ} ⦃e : Eq K⦄ (P : K × V → Type ν) where
  -- A property of every entry.
  pub All-insert : (k : K) (v : V) (d : Dict K V) → P (k, v) → All P d → All P (insert k v d)
  unfolding insert
  All-insert k v [] h hd = (h, tt)
  All-insert k v ((j, w) ∷ d) h hd = pick (e.beq j k) (All-insert k v d h hd.1)
    where
      pick :
          (b : Bool)
          → All P (insert k v d)
          → All P (if b then (k, v) ∷ d else (j, w) ∷ insert k v d)
      pick true r = (h, hd.1)
      pick false r = (hd.0, r)

  pub All-lookup : (k : K) (v : V) (d : Dict K V) → All P d → lookup k d ≡ some v → P (k, v)
  unfolding lookup
  All-lookup k v [] hd h = elim (none-ne-some v h) [ ]
  All-lookup k v ((j, w) ∷ d) hd h = pick (e.beq j k) refl (All-lookup k v d hd.1) h
    where
      pick :
          (b : Bool)
          → e.beq j k ≡ b
          → (lookup k d ≡ some v → P (k, v))
          → (if b then some w else lookup k d) ≡ some v
          → P (k, v)
      pick true eq rest h =
          subst P (ap₂ (λ x y. (x, y)) ((e.beq_iff j k).0 eq) (some-injective w v h)) hd.0
      pick false eq rest h = rest h
