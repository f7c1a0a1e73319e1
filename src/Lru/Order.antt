-- ===== src/Lru/Order.antt =====
-- The set's rows stand oldest first: the row that is evicted has the least stamp.
use ullm.Prelude.{◌≤◌, ◌<◌, ◌≡◌, ◌⊎◌, inl, inr, List, [], ◌∷◌, arith, All, Bool, true}
use mathlib.Core.Logic.{if_pos, if_neg}
use ullm.Lru.{Row, Row-discrete, Bool-discrete, row_lt, insert_row, remove_row}

-- The stamp of `a` is not above the stamp of `b`.
pub data NotAfter {ℓ} {K : Type ℓ} (a b : Row K) : Type 0 where
  earlier : a.instant < b.instant → NotAfter a b
  tied : a.instant ≡ b.instant → a.seq ≤ b.seq → NotAfter a b

abbrev pub IsSorted {ℓ} : {K : Type ℓ} → List (Row K) → Type 0
IsSorted [] = Unit
IsSorted (r ∷ l) = All (NotAfter r) l × IsSorted l

module _ {ℓ} {K : Type ℓ} where
  stamp_order :
      (a b : Row K)
      → (a.instant < b.instant) ⊎ ((a.instant ≡ b.instant) × (a.seq ≤ b.seq))
      → NotAfter a b
  stamp_order a b (inl h) = earlier h
  stamp_order a b (inr (h, k)) = tied h k

  NotAfter-trans : (a b c : Row K) → NotAfter a b → NotAfter b c → NotAfter a c
  NotAfter-trans a b c (earlier p) (earlier q) = earlier (omega arith)
  NotAfter-trans a b c (earlier p) (tied q r) = earlier (omega arith)
  NotAfter-trans a b c (tied p s) (earlier q) = earlier (omega arith)
  NotAfter-trans a b c (tied p s) (tied q r) = tied (omega arith) (omega arith)

  All-NotAfter :
      (a b : Row K) (l : List (Row K)) → NotAfter a b → All (NotAfter b) l → All (NotAfter a) l
  All-NotAfter a b [] h t = tt
  All-NotAfter a b (x ∷ l) h t = (NotAfter-trans a b x h t.0, All-NotAfter a b l h t.1)

  row_lt-NotAfter : (key_lt : K → K → Bool) (a b : Row K) → row_lt key_lt a b ≡ true → NotAfter a b
  unfolding row_lt
  row_lt-NotAfter key_lt a b h = stamp_order a b (ground arith)

  NotAfter-of_not-row_lt :
      (key_lt : K → K → Bool) (a b : Row K) → ¬ (row_lt key_lt a b ≡ true) → NotAfter b a
  unfolding row_lt
  NotAfter-of_not-row_lt key_lt a b h = stamp_order b a (ground arith)

module _ {ℓ} {K : Type ℓ} (dec : Discrete K) where
  All-remove :
      (a r : Row K) (l : List (Row K)) → All (NotAfter a) l → All (NotAfter a) (remove_row dec r l)
  All-remove a r [] h = tt
  All-remove a r (x ∷ l) h = elim (Row-discrete dec x r) [
    | yes p ↦ rw (if_pos _ p) h.1
    | no p ↦ rw (if_neg _ p) (h.0, All-remove a r l h.1)
  ]

  pub remove-IsSorted : (r : Row K) (l : List (Row K)) → IsSorted l → IsSorted (remove_row dec r l)
  remove-IsSorted r [] h = tt
  remove-IsSorted r (x ∷ l) h = elim (Row-discrete dec x r) [
    | yes p ↦ rw (if_pos _ p) h.1
    | no p ↦ rw (if_neg _ p) (All-remove x r l h.0, remove-IsSorted r l h.1)
  ]

  module _ (key_lt : K → K → Bool) (r : Row K) where
    All-insert :
        (a : Row K) (l : List (Row K))
        → NotAfter a r
        → All (NotAfter a) l
        → All (NotAfter a) (insert_row dec key_lt r l)
    unfolding insert_row
    All-insert a [] h t = (h, tt)
    All-insert a (x ∷ l) h t = elim (Bool-discrete (row_lt key_lt r x) true) [
      | yes p ↦ rw (if_pos _ p) (h, t)
      | no p ↦ rw (if_neg _ p) (elim (Row-discrete dec r x) [
        | yes q ↦ rw (if_pos _ q) t
        | no q ↦ rw (if_neg _ q) (t.0, All-insert a l h t.1)
      ])
    ]

    pub insert-IsSorted : (l : List (Row K)) → IsSorted l → IsSorted (insert_row dec key_lt r l)
    unfolding insert_row
    insert-IsSorted [] h = (tt, tt)
    insert-IsSorted (x ∷ l) h = elim (Bool-discrete (row_lt key_lt r x) true) [
      | yes p ↦
          let before : NotAfter r x = row_lt-NotAfter key_lt r x p in
          rw (if_pos _ p) ((before, All-NotAfter r x l before h.0), h)
      | no p ↦ rw (if_neg _ p) (elim (Row-discrete dec r x) [
        | yes q ↦ rw (if_pos _ q) h
        | no q ↦
            rw (if_neg _ q)
              (All-insert x l (NotAfter-of_not-row_lt key_lt r x p) h.0, insert-IsSorted l h.1)
      ])
    ]
