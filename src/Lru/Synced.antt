-- ===== src/Lru/Synced.antt =====
-- The hash map and the ordered set hold the same rows, and every paired update keeps it so.
use ullm.Prelude.{
  ℕ, suc, ◌≡◌, ◌≢◌, refl, sym, ap, ◌∙◌, List, [], ◌∷◌, map, Option, none, some, arith, length,
  length-map, Bool, true,
}
use mathlib.Core.List as L
use mathlib.Core.List.{
  lookup, Mem, Nodup, Perm, erase, erase-sublist, mem-cons, not-mem-nil, mem-map_of_mem, Nodup-cons,
}
use mathlib.Core.Option
use mathlib.Core.Path.{subst}
use mathlib.Core.HLevel.{hedberg}
use mathlib.Core.Logic.Or
use mathlib.Core.List.Perm
use mathlib.Core.List.Nodup
use mathlib.Core.Logic.{if_pos, if_neg}
use native.Mathlib.Bridge.{from_ℕ}
use ullm.Lru.{Row, Row-discrete, Bool-discrete, row_lt, insert_row, remove_row, remove, insert}

Option-discrete {ℓ} : {A : Type ℓ} → Discrete A → Discrete (Option A)
Option-discrete dec = hlevel dec

some_inverse {ℓ} : {A : Type ℓ} {a b : A} → some a ≡ some b → a ≡ b
some_inverse h = cc

Option-map-inverse {ℓ κ} :
    {A : Type ℓ} {B : Type κ} (f : A → B) (o : Option A) (b : B)
    → Option.map f o ≡ some b
    → (a : A) × (o ≡ some a) × (f a ≡ b)
Option-map-inverse f none b h = cc
Option-map-inverse f (some a) b h = (a, refl, some_inverse h)

from_length {ℓ} : {A : Type ℓ} (xs : List A) → from_ℕ (L.length xs) ≡ length xs
from_length [] = refl
from_length (x ∷ xs) = ap suc (from_length xs)

length-perm {ℓ} : {A : Type ℓ} {xs ys : List A} → Perm xs ys → length xs ≡ length ys
length-perm {xs = xs} {ys = ys} p =
    sym (from_length xs) ∙ ap from_ℕ (Perm.length-eq p) ∙ from_length ys

insert_row-perm {ℓ} :
    {K : Type ℓ} (dec : Discrete K) (key_lt : K → K → Bool) (r : Row K) (l : List (Row K))
    → ¬ Mem r l
    → Perm (r ∷ l) (insert_row dec key_lt r l)
unfolding insert_row
insert_row-perm dec key_lt r [] h = Perm.refl (r ∷ [])
insert_row-perm dec key_lt r (x ∷ xs) h = elim (Bool-discrete (row_lt key_lt r x) true) [
  | yes p ↦ rw (if_pos _ p) (Perm.refl (r ∷ x ∷ xs))
  | no p ↦
      let other : r ≢ x = λ e. h (mem-cons.1 (Or.inl e)) in
      rw (if_neg _ p, if_neg _ other)
        (Perm.trans (Perm.swap x r xs)
          (Perm.cons x (insert_row-perm dec key_lt r xs (λ y. h (mem-cons.1 (Or.inr y))))))
]

module _ {ℓ} {K V : Type ℓ} (dec : Discrete K) (stamp : V → ℕ × ℕ) where
  abbrev pub row : K → V → Row K
  row k v = record { instant = (stamp v).0; seq = (stamp v).1; key = k }

  abbrev pub rows : List (K × V) → List (Row K)
  rows = map (λ e. row e.0 e.1)

  abbrev pub keys : List (K × V) → List K
  keys = map (λ e. e.0)

  pub record Synced (m : List (K × V)) (l : List (Row K)) : Type ℓ where
    pub same : Perm (rows m) l
    pub distinct : Nodup (keys m)

  -- The row of an entry goes with the entry.
  rows-remove :
      (k : K) (v : V) (m : List (K × V))
      → lookup dec k m ≡ some v
      → rows (remove dec k m) ≡ remove_row dec (row k v) (rows m)
  unfolding lookup remove
  rows-remove k v [] h = cc
  rows-remove k v (e ∷ m) h = elim (dec e.0 k) [
    | yes p ↦
        let value : e.1 ≡ v = ground arith in
        let here : row e.0 e.1 ≡ row k v = cc in rw (if_pos _ p, if_pos _ here)
    | no p ↦
        let other : row e.0 e.1 ≢ row k v = λ q. p (ap (λ r. r.key) q) in
        rw (if_neg _ p, if_neg _ other) (ap (◌∷◌ (row e.0 e.1)) (rows-remove k v m (ground arith)))
  ]

  remove_absent : (k : K) (m : List (K × V)) → lookup dec k m ≡ none → remove dec k m ≡ m
  unfolding lookup remove
  remove_absent k [] h = refl
  remove_absent k (e ∷ m) h = ground (arith, remove_absent k m)

  pub keys-remove : (k : K) (m : List (K × V)) → keys (remove dec k m) ≡ erase dec (keys m) k
  unfolding remove
  keys-remove k [] = refl
  keys-remove k (e ∷ m) = ground (arith, keys-remove k m)

  not-mem-keys-remove :
      (k : K) (m : List (K × V)) → Nodup (keys m) → ¬ Mem k (keys (remove dec k m))
  not-mem-keys-remove k m d = rw (keys-remove k m) (λ x. ((Nodup.mem-erase_iff dec d).0 x).0 refl)

  -- Removing an entry and its row.
  pub remove-Synced :
      (k : K) (v : V) (m : List (K × V)) (l : List (Row K))
      → Synced m l
      → lookup dec k m ≡ some v
      → Synced (remove dec k m) (remove_row dec (row k v) l)
  remove-Synced k v m l s found = record {
    same = rw (rows-remove k v m found) (Perm.erase (Row-discrete dec) (row k v) s.same);
    distinct = rw (keys-remove k m) (Nodup.sublist (erase-sublist dec k) s.distinct);
  }

  pub remove_absent-Synced :
      (k : K) (m : List (K × V)) (l : List (Row K))
      → Synced m l
      → lookup dec k m ≡ none
      → Synced (remove dec k m) l
  remove_absent-Synced k m l s absent = rw (remove_absent k m absent) s

  -- The row that the map gives a key.
  abbrev pub row_of : K → List (K × V) → Option (Row K)
  row_of k m = Option.map (row k) (lookup dec k m)

  row_of-prop : (o : Option (Row K)) (r : Row K) → IsProp (o ≡ some r)
  row_of-prop o r = hedberg (Option-discrete (Row-discrete dec)) o (some r)

  pub keys_of_rows : (m : List (K × V)) → map (λ (r : Row K). r.key) (rows m) ≡ keys m
  keys_of_rows [] = refl
  keys_of_rows (e ∷ m) = ap (◌∷◌ e.0) (keys_of_rows m)

  lookup_here : (k : K) (e : K × V) (m : List (K × V)) → k ≡ e.0 → lookup dec k (e ∷ m) ≡ some e.1
  unfolding lookup
  lookup_here k e m here = ground arith

  lookup_there :
      (k : K) (e : K × V) (m : List (K × V)) → k ≢ e.0 → lookup dec k (e ∷ m) ≡ lookup dec k m
  unfolding lookup
  lookup_there k e m other = ground arith

  row_of_mem_rows :
      (r : Row K) (m : List (K × V)) → Nodup (keys m) → Mem r (rows m) → row_of r.key m ≡ some r
  row_of_mem_rows r [] d x = absurd (not-mem-nil x)
  row_of_mem_rows r (e ∷ m) d x =
      Or.elim (row_of-prop (row_of r.key (e ∷ m)) r) (mem-cons.0 x)
        (λ here.
          rw (lookup_here r.key e m (ap (λ (t : Row K). t.key) here))
            (ap some (record_eq r e here)))
        (λ later.
          rw (lookup_there r.key e m (not_head r e m d later))
            (row_of_mem_rows r m (Nodup-cons.0 d).1 later))
    where
      record_eq : (r : Row K) (e : K × V) → r ≡ row e.0 e.1 → row r.key e.1 ≡ r
      record_eq r e here = ap (λ (t : Row K). row t.key e.1) here ∙ sym here

      not_head :
          (r : Row K) (e : K × V) (m : List (K × V))
          → Nodup (keys (e ∷ m))
          → Mem r (rows m)
          → r.key ≢ e.0
      not_head r e m d later p = (Nodup-cons.0 d).0 (
          subst (λ k. Mem k (keys m)) p
            (subst (λ ks. Mem r.key ks) (keys_of_rows m)
              (mem-map_of_mem (λ (t : Row K). t.key) later)))

  -- A row of the set is the row of its key's entry, so both may be removed by it.
  pub entry_of_row :
      (r : Row K) (m : List (K × V)) (l : List (Row K))
      → Synced m l
      → Mem r l
      → (v : V) × (lookup dec r.key m ≡ some v) × (row r.key v ≡ r)
  entry_of_row r m l s x =
      Option-map-inverse (row r.key) (lookup dec r.key m) r
        (row_of_mem_rows r m s.distinct ((Perm.mem_iff s.same).1 x))

  -- An entry's row stands in the set.
  pub Mem-row :
      (k : K) (v : V) (m : List (K × V)) → lookup dec k m ≡ some v → Mem (row k v) (rows m)
  Mem-row k v [] h = unfold lookup in cc
  Mem-row k v (e ∷ m) h = elim (dec k e.0) [
    | yes p ↦
        let value : e.1 ≡ v = some_inverse (sym (lookup_here k e m p) ∙ h) in
        let here : row e.0 e.1 ≡ row k v = cc in mem-cons.1 (Or.inl (sym here))
    | no p ↦ mem-cons.1 (Or.inr (Mem-row k v m (sym (lookup_there k e m p) ∙ h)))
  ]

  -- A new entry and its row, where the key had none.
  pub insert-Synced :
      (key_lt : K → K → Bool) (k : K) (v : V) (m : List (K × V)) (l : List (Row K))
      → Nodup (keys m)
      → Synced (remove dec k m) l
      → Synced (insert dec k v m) (insert_row dec key_lt (row k v) l)
  unfolding insert
  insert-Synced key_lt k v m l d s = record {
    same =
        Perm.trans (Perm.cons (row k v) s.same)
          (insert_row-perm dec key_lt (row k v) l (λ x. absent (fresh x)));
    distinct = Nodup-cons.1 (not-mem-keys-remove k m d, s.distinct);
  }
    where
      fresh : Mem (row k v) l → Mem k (keys (remove dec k m))
      fresh x =
          subst (λ ks. Mem k ks) (keys_of_rows (remove dec k m))
            (mem-map_of_mem (λ (t : Row K). t.key) ((Perm.mem_iff s.same).1 x))

      absent : ¬ Mem k (keys (remove dec k m))
      absent = not-mem-keys-remove k m d

  -- Map and set have as many entries, as the code's assertion wants.
  pub length-Synced : (m : List (K × V)) (l : List (Row K)) → Synced m l → length m ≡ length l
  length-Synced m l s = sym (length-map m (λ (e : K × V). row e.0 e.1)) ∙ length-perm s.same
