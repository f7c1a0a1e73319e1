-- ===== src/Kvcloak/Cloak/Permutes.antt =====
-- The shuffle returns a permutation of the indices, whatever bytes drive it.
use ullm.Prelude.{
  ℕ, zero, suc, ◌+◌, ◌-◌, ◌*◌, ◌<◌, ◌≡◌, ◌≢◌, refl, sym, ap, ◌∙◌, List, some, length, get_elem?,
  take, drop, arith, ℕ_discrete,
}
use native.Mathlib.Nat.{mod-lt}
use ullm.Core.{ok}
use ullm.Core.Bytes.{from_be_bytes}
use ullm.Kvcloak.Cloak.{set, swap, iota, swap_index, shuffle}
use ullm.Kvcloak.Cloak.Indexed.{
  length-set, get_elem?-set, get_elem?-set_ne, get_elem?-some, get_elem?-lt,
}

-- A list of `n` numbers below `n` in which each of them stands somewhere.
pub record IsPermutation (n : ℕ) (p : List ℕ) : Type 0 where
  pub size : length p ≡ n
  pub below : (i v : ℕ) → get_elem? p i ≡ some v → v < n
  pub onto : (k : ℕ) → k < n → (i : ℕ) × (get_elem? p i ≡ some k)

some_inverse : {a b : ℕ} → some a ≡ some b → a ≡ b
some_inverse h = cc

length-iota : (n i : ℕ) → length (iota n i) ≡ n
unfolding iota
length-iota zero i = refl
length-iota (suc n) i = ap suc (length-iota n (suc i))

get_elem?-iota : (n i m : ℕ) → m < n → get_elem? (iota n i) m ≡ some (i + m)
unfolding iota
get_elem?-iota zero i m h = absurd (omega (arith, h))
get_elem?-iota (suc n) i zero h = ap some (omega arith)
get_elem?-iota (suc n) i (suc m) h =
    get_elem?-iota n (suc i) m (omega (arith, h)) ∙ ap some (omega arith)

iota-IsPermutation : (n : ℕ) → IsPermutation n (iota n 0)
iota-IsPermutation n = record {
  size = length-iota n 0;
  below = λ i v h.
      let lt : i < n = omega (arith, get_elem?-lt (iota n 0) i v h, length-iota n 0) in
      omega (arith, lt, some_inverse (sym h ∙ get_elem?-iota n 0 i lt));
  onto = λ k lt. (k, get_elem?-iota n 0 k lt ∙ ap some (omega arith));
}

module _ (n : ℕ) (xs : List ℕ) (i j a b : ℕ) (at_i : get_elem? xs i ≡ some a)
    (at_j : get_elem? xs j ≡ some b) where
  abbrev swapped : List ℕ
  swapped = set (set xs i b) j a

  read_j : get_elem? swapped j ≡ some a
  read_j =
      get_elem?-set (set xs i b) j a (omega (arith, get_elem?-lt xs j b at_j, length-set xs i b))

  read_i : i ≢ j → get_elem? swapped i ≡ some b
  read_i other =
      get_elem?-set_ne (set xs i b) j i a (λ e. other (sym e))
      ∙ get_elem?-set xs i b (get_elem?-lt xs i a at_i)

  read_other : (m : ℕ) → m ≢ i → m ≢ j → get_elem? swapped m ≡ get_elem? xs m
  read_other m not_i not_j =
      get_elem?-set_ne (set xs i b) j m a (λ e. not_j (sym e))
      ∙ get_elem?-set_ne xs i m b (λ e. not_i (sym e))

  swapped-below : IsPermutation n xs → (m v : ℕ) → get_elem? swapped m ≡ some v → v < n
  swapped-below is m v h = elim (ℕ_discrete m j) [
    | yes e ↦
        let value = some_inverse (sym h ∙ ap (get_elem? swapped) e ∙ read_j) in
        omega (arith, value, is.below i a at_i)
    | no not_j ↦ elim (ℕ_discrete m i) [
      | yes e ↦
          let value =
            some_inverse (sym h ∙ ap (get_elem? swapped) e ∙ read_i (λ q. not_j (e ∙ q))) in
          omega (arith, value, is.below j b at_j)
      | no not_i ↦ is.below m v (sym (read_other m not_i not_j) ∙ h)
    ]
  ]

  swapped-onto : IsPermutation n xs → (k : ℕ) → k < n → (m : ℕ) × (get_elem? swapped m ≡ some k)
  swapped-onto is k lt =
      let (m, there) = is.onto k lt in
      elim (ℕ_discrete m i) [
        | yes e ↦ (j, read_j ∙ sym at_i ∙ ap (get_elem? xs) (sym e) ∙ there)
        | no not_i ↦ elim (ℕ_discrete m j) [
          | yes e ↦
              (i, read_i (λ q. not_i (e ∙ sym q)) ∙ sym at_j ∙ ap (get_elem? xs) (sym e) ∙ there)
          | no not_j ↦ (m, read_other m not_i not_j ∙ there)
        ]
      ]

  swapped-IsPermutation : IsPermutation n xs → IsPermutation n swapped
  swapped-IsPermutation is = record {
    size = omega (arith, is.size, length-set (set xs i b) j a, length-set xs i b);
    below = swapped-below is;
    onto = swapped-onto is;
  }

swap-IsPermutation :
    (n : ℕ) (xs : List ℕ) (i j : ℕ)
    → IsPermutation n xs
    → i < n
    → j < n
    → (ys : List ℕ) × (swap xs i j ≡ ok ys) × IsPermutation n ys
unfolding swap
swap-IsPermutation n xs i j is lt lt' =
    let (a, at_i) = get_elem?-some xs i (omega (arith, lt, is.size)) in
    let (b, at_j) = get_elem?-some xs j (omega (arith, lt', is.size)) in
    (set (set xs i b) j a, rw (at_i, at_j) refl, swapped-IsPermutation n xs i j a b at_i at_j is)

-- Whatever bytes drive it, the shuffle of a permutation returns a permutation, with no index out of
-- range.
pub shuffle-IsPermutation :
    (n : ℕ) (rand_bytes : List ℕ) (i : ℕ) (out : List ℕ)
    → i < n
    → IsPermutation n out
    → (p : List ℕ) × (shuffle rand_bytes i out ≡ ok p) × IsPermutation n p
unfolding shuffle swap_index
shuffle-IsPermutation n rand_bytes zero out lt is = (out, refl, is)
shuffle-IsPermutation n rand_bytes (suc i) out lt is =
    let (next, swaps, is') =
      swap-IsPermutation n out (suc i) (swap_index rand_bytes (suc i)) is lt
        (omega (arith, lt, mod-lt (from_be_bytes (take 4 (drop (off i) rand_bytes))) (above i))) in
    let (p, more, is'') = shuffle-IsPermutation n rand_bytes i next (omega (arith, lt)) is' in
    (p, rw (swaps, more) refl, is'')
  where
    off : ℕ → ℕ
    off i = (suc i - 1) * 4

    above : (i : ℕ) → zero < suc i + 1
    above i = omega arith

-- The permutation of a block.
pub shuffled-IsPermutation :
    (rand_bytes : List ℕ)
    → (p : List ℕ) × (shuffle rand_bytes 255 (iota 256 0) ≡ ok p) × IsPermutation 256 p
shuffled-IsPermutation rand_bytes =
    shuffle-IsPermutation 256 rand_bytes 255 (iota 256 0) (omega arith) (iota-IsPermutation 256)
