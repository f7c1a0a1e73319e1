-- ===== src/Lru/Lookup.antt =====
-- What can be found in the hash map after an update.
use ullm.Prelude.{◌+◌, ◌≤◌, ◌≡◌, ◌≢◌, refl, sym, List, [], ◌∷◌, none, some, arith, length, map}
use mathlib.Core.List.{lookup, Mem, Nodup, Nodup-cons, mem-cons}
use mathlib.Core.Logic.{if_pos}
use mathlib.Core.Logic.Or
use mathlib.Core.Path.{subst}
use ullm.Lru.{remove, insert}

module _ {ℓ} {K V : Type ℓ} (dec : Discrete K) where
  pub lookup-remove_ne :
      (q k : K) (m : List (K × V)) → q ≢ k → lookup dec q (remove dec k m) ≡ lookup dec q m
  unfolding lookup remove
  lookup-remove_ne q k [] h = refl
  lookup-remove_ne q k (e ∷ m) h = ground (arith, lookup-remove_ne q k m)

  pub lookup-insert_self :
      (k : K) (v : V) (m : List (K × V)) → lookup dec k (insert dec k v m) ≡ some v
  unfolding lookup insert
  lookup-insert_self k v m = ground arith

  pub lookup-insert_ne :
      (q k : K) (v : V) (m : List (K × V))
      → q ≢ k
      → lookup dec q (insert dec k v m) ≡ lookup dec q m
  unfolding lookup insert
  lookup-insert_ne q k v m h = ground (arith, lookup-remove_ne q k m)

  pub length-remove-le : (k : K) (m : List (K × V)) → length (remove dec k m) ≤ length m
  unfolding remove
  length-remove-le k [] = omega arith
  length-remove-le k (e ∷ m) = ground (arith, length-remove-le k m)

  pub length-remove :
      (k : K) (v : V) (m : List (K × V))
      → lookup dec k m ≡ some v
      → length (remove dec k m) + 1 ≡ length m
  unfolding lookup remove
  length-remove k v [] h = cc
  length-remove k v (e ∷ m) h = ground (arith, length-remove k v m)

  pub length-insert :
      (k : K) (v : V) (m : List (K × V)) → length (insert dec k v m) ≡ length (remove dec k m) + 1
  unfolding insert
  length-insert k v m = omega arith

  pub remove_comm :
      (j k : K) (m : List (K × V)) → remove dec j (remove dec k m) ≡ remove dec k (remove dec j m)
  unfolding remove
  remove_comm j k [] = refl
  remove_comm j k (e ∷ m) = ground (arith, remove_comm j k m)

  pub none-remove :
      (q k : K) (m : List (K × V)) → lookup dec q m ≡ none → lookup dec q (remove dec k m) ≡ none
  unfolding lookup remove
  none-remove q k [] h = refl
  none-remove q k (e ∷ m) h = ground (arith, none-remove q k m)

  none_of_not-mem : (k : K) (m : List (K × V)) → ¬ Mem k (map (λ e. e.0) m) → lookup dec k m ≡ none
  unfolding lookup
  none_of_not-mem k [] h = refl
  none_of_not-mem k (e ∷ m) h = elim (dec k e.0) [
    | yes p ↦ absurd (h (mem-cons.1 (Or.inl p)))
    | no p ↦ ground (arith, none_of_not-mem k m (λ x. h (mem-cons.1 (Or.inr x))))
  ]

  pub lookup-remove_self :
      (k : K) (m : List (K × V)) → Nodup (map (λ e. e.0) m) → lookup dec k (remove dec k m) ≡ none
  unfolding lookup remove
  lookup-remove_self k [] d = refl
  lookup-remove_self k (e ∷ m) d = elim (dec e.0 k) [
    | yes p ↦ rw (if_pos _ p) (
        none_of_not-mem k m
          (λ x. (Nodup-cons.0 d).0 (subst (λ t. Mem t (map (λ e. e.0) m)) (sym p) x)))
    | no p ↦ ground (arith, lookup-remove_self k m (Nodup-cons.0 d).1)
  ]
