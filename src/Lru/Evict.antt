-- ===== src/Lru/Evict.antt =====
-- Eviction of the oldest row, and of a list of rows, keeps the hash map and the ordered set paired.
use ullm.Prelude.{
  ℕ, ◌+◌, ◌≤◌, ◌<◌, ◌≡◌, ◌⊎◌, ◌≢◌, refl, sym, ◌∙◌, List, [], ◌∷◌, none, arith, length, map, inl,
  inr, All,
}
use mathlib.Core.List.{
  lookup, Mem, Nodup, mem-cons_self, mem-cons, Nodup-cons, Nodup-nil, mem-map_of_mem, erase-sublist,
}
use mathlib.Core.List.Nodup
use mathlib.Core.List.Perm
use mathlib.Core.Path.{subst}
use mathlib.Core.Logic.Or
use ullm.Lru.{Row, Row-discrete, remove, remove_row, evict_oldest, remove_all}
use ullm.Lru.Synced.{
  Synced, rows, keys, remove-Synced, entry_of_row, keys_of_rows, keys-remove, length-Synced,
}
use ullm.Lru.Order.{IsSorted, remove-IsSorted}
use ullm.Lru.Lookup.{
  length-remove, length-remove-le, remove_comm, lookup-remove_ne, none-remove, lookup-remove_self,
}

Nodup-of_map {ℓ} : {A B : Type ℓ} (f : A → B) (l : List A) → Nodup (map f l) → Nodup l
Nodup-of_map f [] d = Nodup-nil
Nodup-of_map f (x ∷ l) d =
    Nodup-cons.1 (λ y. (Nodup-cons.0 d).0 (mem-map_of_mem f y), Nodup-of_map f l (Nodup-cons.0 d).1)

module _ {ℓ} {K V : Type ℓ} (dec : Discrete K) (stamp : V → ℕ × ℕ) where
  -- A row of the set takes its entry along.
  pub remove_row-Synced :
      (r : Row K) (m : List (K × V)) (l : List (Row K))
      → Synced dec stamp m l
      → Mem r l
      → Synced dec stamp (remove dec r.key m) (remove_row dec r l)
  remove_row-Synced r m l s x =
      let (v, found, same) = entry_of_row dec stamp r m l s x in
      subst (λ t. Synced dec stamp (remove dec r.key m) (remove_row dec t l)) same
        (remove-Synced dec stamp r.key v m l s found)

  -- Eviction beside a key that is about to be written, whose row may be gone already.
  pub record IsReady (k : K) (m : List (K × V)) (l : List (Row K)) : Type ℓ where
    pub distinct : Nodup (keys dec stamp m)
    pub rest : Synced dec stamp (remove dec k m) l
    pub sorted : IsSorted l

  pub evict-IsReady :
      (k : K) (m : List (K × V)) (l : List (Row K))
      → IsReady k m l
      → IsReady k (evict_oldest dec m l).0 (evict_oldest dec m l).1
  unfolding evict_oldest
  evict-IsReady k m [] h = h
  evict-IsReady k m (oldest ∷ l) h = record {
    distinct =
        subst Nodup (sym (keys-remove dec stamp oldest.key m))
          (Nodup.sublist (erase-sublist dec oldest.key) h.distinct);
    rest =
        subst (λ t. Synced dec stamp t (remove_row dec oldest (oldest ∷ l)))
          (remove_comm dec oldest.key k m)
          (remove_row-Synced oldest (remove dec k m) (oldest ∷ l) h.rest mem-cons_self);
    sorted = remove-IsSorted dec oldest (oldest ∷ l) h.sorted;
  }

  -- After an eviction there is room for one entry under the cap.
  pub evict_room :
      (cap : ℕ) (k : K) (m : List (K × V)) (l : List (Row K))
      → 0 < cap
      → length m ≤ cap
      → IsReady k m l
      → length (remove dec k (evict_oldest dec m l).0) + 1 ≤ cap
  unfolding evict_oldest
  evict_room cap k m [] positive le h =
      omega (arith, length-Synced dec stamp (remove dec k m) [] h.rest)
  evict_room cap k m (oldest ∷ l) positive le h =
      let (v, found, _) =
        entry_of_row dec stamp oldest (remove dec k m) (oldest ∷ l) h.rest mem-cons_self in
      rw (remove_comm dec k oldest.key m) (
        omega
          (arith, length-remove dec oldest.key v (remove dec k m) found, length-remove-le dec k m))

  -- A list of different rows of the set goes, each with its entry.
  pub remove_all-Synced :
      (rs : List (Row K)) (m : List (K × V)) (l : List (Row K))
      → Nodup rs
      → ((r : Row K) → Mem r rs → Mem r l)
      → Nodup l
      → Synced dec stamp m l
      → Synced dec stamp (remove_all dec rs m l).0 (remove_all dec rs m l).1
  unfolding remove_all
  remove_all-Synced [] m l d inside dl s = s
  remove_all-Synced (r ∷ rs) m l d inside dl s =
      remove_all-Synced rs (remove dec r.key m) (remove_row dec r l) (Nodup-cons.0 d).1
        (λ q x.
          (Nodup.mem-erase_iff (Row-discrete dec) dl).1
            (λ e. (Nodup-cons.0 d).0 (subst (λ t. Mem t rs) e x), inside q (mem-cons.1 (Or.inr x))))
        (Nodup.sublist (erase-sublist (Row-discrete dec) r) dl)
        (remove_row-Synced r m l s (inside r mem-cons_self))

  pub remove_all-IsSorted :
      (rs : List (Row K)) (m : List (K × V)) (l : List (Row K))
      → IsSorted l
      → IsSorted (remove_all dec rs m l).1
  unfolding remove_all
  remove_all-IsSorted [] m l h = h
  remove_all-IsSorted (r ∷ rs) m l h =
      remove_all-IsSorted rs (remove dec r.key m) (remove_row dec r l) (remove-IsSorted dec r l h)

  pub length-remove_all :
      (rs : List (Row K)) (m : List (K × V)) (l : List (Row K))
      → length (remove_all dec rs m l).0 ≤ length m
  unfolding remove_all
  length-remove_all [] m l = omega arith
  length-remove_all (r ∷ rs) m l = omega (
    arith,
    length-remove_all rs (remove dec r.key m) (remove_row dec r l),
    length-remove-le dec r.key m,
  )

  -- A key that no removed row has keeps its entry.
  pub lookup-remove_all :
      (q : K) (rs : List (Row K)) (m : List (K × V)) (l : List (Row K))
      → All (λ r. q ≢ r.key) rs
      → lookup dec q (remove_all dec rs m l).0 ≡ lookup dec q m
  unfolding remove_all
  lookup-remove_all q [] m l h = refl
  lookup-remove_all q (r ∷ rs) m l h =
      lookup-remove_all q rs (remove dec r.key m) (remove_row dec r l) h.1
      ∙ lookup-remove_ne dec q r.key m h.0

  -- The rows of a paired set are all different.
  pub Nodup-rows : (m : List (K × V)) (l : List (Row K)) → Synced dec stamp m l → Nodup l
  Nodup-rows m l s = Perm.nodup s.same (
      Nodup-of_map (λ (t : Row K). t.key) (rows dec stamp m)
        (subst Nodup (sym (keys_of_rows dec stamp m)) s.distinct))

  pub none-remove_all :
      (q : K) (rs : List (Row K)) (m : List (K × V)) (l : List (Row K))
      → lookup dec q m ≡ none
      → lookup dec q (remove_all dec rs m l).0 ≡ none
  unfolding remove_all
  none-remove_all q [] m l h = h
  none-remove_all q (r ∷ rs) m l h =
      none-remove_all q rs (remove dec r.key m) (remove_row dec r l) (none-remove dec q r.key m h)

  -- A key that some removed row has is gone.
  pub gone-remove_all :
      (q : K) (rs : List (Row K)) (m : List (K × V)) (l : List (Row K))
      → Nodup (keys dec stamp m)
      → ¬ All (λ r. q ≢ r.key) rs
      → lookup dec q (remove_all dec rs m l).0 ≡ none
  unfolding remove_all
  gone-remove_all q [] m l d h = absurd (h tt)
  gone-remove_all q (r ∷ rs) m l d h = elim (dec q r.key) [
    | yes p ↦ none-remove_all q rs (remove dec r.key m) (remove_row dec r l) (
        subst (λ t. lookup dec t (remove dec r.key m) ≡ none) (sym p)
          (lookup-remove_self dec r.key m d))
    | no p ↦
        gone-remove_all q rs (remove dec r.key m) (remove_row dec r l)
          (subst Nodup (sym (keys-remove dec stamp r.key m))
            (Nodup.sublist (erase-sublist dec r.key) d))
          (λ t. h (p, t))
  ]

  -- Otherwise the key keeps its entry: the two cases of a lookup after the removal.
  pub remove_all_cases :
      (q : K) (rs : List (Row K)) (m : List (K × V)) (l : List (Row K))
      → Nodup (keys dec stamp m)
      → (lookup dec q (remove_all dec rs m l).0 ≡ none)
        ⊎ (lookup dec q (remove_all dec rs m l).0 ≡ lookup dec q m)
  unfolding remove_all
  remove_all_cases q [] m l d = inr refl
  remove_all_cases q (r ∷ rs) m l d = elim (dec q r.key) [
    | yes p ↦ inl (gone-remove_all q (r ∷ rs) m l d (λ t. t.0 p))
    | no p ↦
        let next : (lookup dec q (remove_all dec rs (remove dec r.key m) (remove_row dec r l)).0
              ≡ none)
            ⊎ (lookup dec q (remove_all dec rs (remove dec r.key m) (remove_row dec r l)).0
                ≡ lookup dec q (remove dec r.key m)) =
          remove_all_cases q rs (remove dec r.key m) (remove_row dec r l) (
            subst Nodup (sym (keys-remove dec stamp r.key m))
              (Nodup.sublist (erase-sublist dec r.key) d)) in
        elim next [
          | inl none_left ↦ inl none_left
          | inr kept ↦ inr (kept ∙ lookup-remove_ne dec q r.key m p)
        ]
  ]
