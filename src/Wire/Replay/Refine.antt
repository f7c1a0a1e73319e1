-- ===== src/Wire/Replay/Refine.antt =====
-- The window of crates/ullm-wire/src/replay.rs answers as the receiver that remembers everything.
use ullm.Prelude.{
  ℕ, ◌+◌, ◌-◌, ◌*◌, ◌/◌, ◌^◌, ◌≤◌, ◌<◌, ◌≡◌, ◌≢◌, refl, sym, ap, ◌∙◌, Bool, true, false, not, ◌&&◌,
  ◌==◌, ltb, leb, if◌then◌else◌, List, [], ◌∷◌, arith, bit_and, bit_or, Bool-cases, inl, inr,
  lt→ltb,
}
use native.Mathlib.Nat.{one-le-pow, pow-le-pow_right, zero-mul, div-le_self}
use native.Mathlib.Decide.{dec_le, dec_lt, ℕ_discrete}
use ullm.Prelude.Bits.{
  bit_at, bit_at-lt, bit_at-zero, bit_at-bit_or, bit_at-shr, bit_at-pow_self, bit_at-pow_ne,
  bit_at_above, bit_and-pow, bit_or-lt,
}
use ullm.Core.{Error, Result, ok, err}
use ullm.Wire.Replay.{ReplayWindow, new, advance, look_back, first_zero, check_and_update, run}
use ullm.Wire.Replay.Spec.{
  contains, judge, remember, judge_all, indicator, Tracks, not_contains_above, contains_self,
  contains_ne,
}

-- The test of one bit, as the code makes it.
test_bit : (m b : ℕ) (c : Bool) → bit_at m b ≡ indicator c → not (bit_and m (2 ^ b) == 0) ≡ c
test_bit m b true e = ground (arith, bit_and-pow b m, one-le-pow b 2)
test_bit m b false e =
    let clear : bit_and m (2 ^ b) ≡ 0 =
      bit_and-pow b m ∙ ap (λ t. t * 2 ^ b) e ∙ zero-mul (2 ^ b) in
    rw clear

-- A bit that is set is 1, and the other bits stay.
set_bit_self : (m b : ℕ) → bit_at (bit_or m (2 ^ b)) b ≡ 1
set_bit_self m b = omega (arith, bit_at-bit_or b m (2 ^ b), bit_at-pow_self b, bit_at-lt b m)

set_bit_ne : (m b k : ℕ) → b ≢ k → bit_at (bit_or m (2 ^ b)) k ≡ bit_at m k
set_bit_ne m b k h = omega (arith, bit_at-bit_or k m (2 ^ b), bit_at-pow_ne b k h)

-- Setting the bit of `s` puts `s` into the history, below any top that has both in reach.
mark_bits :
    (m top s b q : ℕ) (h : List ℕ)
    → s ≤ top
    → top < s + 64
    → b ≡ 63 - (top - s)
    → q ≤ top
    → top < q + 64
    → (q ≢ s → bit_at m (63 - (top - q)) ≡ indicator (contains q h))
    → bit_at (bit_or m (2 ^ b)) (63 - (top - q)) ≡ indicator (contains q (s ∷ h))
mark_bits m top s b q h s_below s_near at q_below q_near rest = elim (ℕ_discrete q s) [
  | yes same ↦
      let place : 63 - (top - q) ≡ b = omega arith in
      rw place (
        set_bit_self m b
        ∙ ap indicator (sym (ap (λ x. contains x (s ∷ h)) same ∙ contains_self s h)))
  | no other ↦
      rw (contains_ne q s h other) (set_bit_ne m b (63 - (top - q)) (omega arith) ∙ rest other)
]

first_zero_seen :
    (w : ReplayWindow) → w.seen_zero_at_init ≡ true → first_zero w ≡ (w, err (Error.replay 0))
unfolding first_zero
first_zero_seen w seen = ground arith

first_zero_unseen :
    (w : ReplayWindow)
    → w.seen_zero_at_init ≡ false
    → first_zero w
      ≡ (record w { seen_zero_at_init = true; bitmap = bit_or w.bitmap (2 ^ 63) }, ok tt)
unfolding first_zero
first_zero_unseen w unseen = ground arith

module _ (w : ReplayWindow) (h : List ℕ) (t : Tracks w h) (s : ℕ) where
  slid_close :
      (q : ℕ)
      → w.high < s
      → q < s
      → s < q + 64
      → s - w.high < 64
      → bit_at (w.bitmap / 2 ^ (s - w.high)) (63 - (s - q)) ≡ indicator (contains q h)
  slid_close q up below near close = elim (dec_le q w.high) [
    | yes p ↦
        bit_at-shr (s - w.high) w.bitmap (63 - (s - q)) (63 - (w.high - q)) (omega arith)
        ∙ t.bits q p (omega arith)
    | no p ↦
        bit_at-shr (s - w.high) w.bitmap (63 - (s - q)) (s - w.high + (63 - (s - q))) refl
        ∙ bit_at_above 64 (s - w.high + (63 - (s - q))) w.bitmap t.word (omega arith)
        ∙ ap indicator (sym (not_contains_above q h (omega (arith, t.top))))
  ]

  -- The bitmap after sliding stands for the same history, numbered from the new top.
  slid_bits :
      (q : ℕ)
      → w.high < s
      → q < s
      → s < q + 64
      → bit_at (if leb 64 (s - w.high) then 0 else w.bitmap / 2 ^ (s - w.high)) (63 - (s - q))
        ≡ indicator (contains q h)
  slid_bits q up below near = elim (Bool-cases (leb 64 (s - w.high))) [
    | inl far ↦ rw far (
        bit_at-zero (63 - (s - q))
        ∙ ap indicator (sym (not_contains_above q h (ground (arith, t.top)))))
    | inr close ↦ rw close (slid_close q up below near (ground arith))
  ]

  -- The three branches of `check_and_update`, on the history's side.
  judge_up :
      w.high < s
      → judge h s
        ≡ (if ltb ((2 ^ 64 - 1) / 2) (s - w.high) then err (Error.seq_gap (s - w.high)) else ok tt)
  unfolding judge
  judge_up up = rw (← t.top, lt→ltb w.high s up)

  judge_down :
      s ≤ w.high
      → judge h s ≡ (
          if leb 64 (w.high - s)
          then err (Error.seq_gap (w.high - s))
          else if contains s h
          then err (Error.replay s)
          else ok tt)
  unfolding judge
  judge_down down = let not_up : ltb w.high s ≡ false = ground arith in rw (← t.top, not_up)

  -- Sliding up to a new top keeps the window true to the history.
  advanced :
      w.high < s
      → Tracks
          (record w {
            high = s;
            bitmap =
                bit_or (if leb 64 (s - w.high) then 0 else w.bitmap / 2 ^ (s - w.high)) (2 ^ 63);
          })
          (s ∷ h)
  advanced up = record {
    top = omega (arith, t.top);
    word = bit_or-lt 64 _ (2 ^ 63) slid_word (omega arith);
    bits = λ q le near.
        mark_bits _ s s 63 q h (omega arith) (omega arith) (omega arith) le near
          (λ other. slid_bits q up (omega arith) near);
    first = λ e. absurd (omega arith);
  }
    where
      slid_word : (if leb 64 (s - w.high) then 0 else w.bitmap / 2 ^ (s - w.high)) < 2 ^ 64
      slid_word = ground (arith, div-le_self w.bitmap (2 ^ (s - w.high)), t.word)

  -- A number within reach below the top is marked in place.
  marked :
      s ≤ w.high
      → w.high < s + 64
      → contains s h ≡ false
      → (w.high ≡ 0 → ⊥)
      → Tracks (record w { bitmap = bit_or w.bitmap (2 ^ (63 - (w.high - s))) }) (s ∷ h)
  marked down near fresh positive = record {
    top = omega (arith, t.top);
    word = bit_or-lt 64 w.bitmap _ t.word (
        omega (
          arith,
          pow-le-pow_right {n = 2} (omega arith) {i = 63 - (w.high - s)} {j = 63} (omega arith),
        ));
    bits = λ q le q_near.
        mark_bits w.bitmap w.high s _ q h down near refl le q_near (λ other. t.bits q le q_near);
    first = λ e. absurd (positive e);
  }

  -- The first zero on a fresh window is marked at the top.
  zero_marked :
      w.high ≡ 0
      → s ≡ 0
      → Tracks (record w { seen_zero_at_init = true; bitmap = bit_or w.bitmap (2 ^ 63) }) (s ∷ h)
  zero_marked fresh zero_seq = record {
    top = omega (arith, t.top);
    word = bit_or-lt 64 w.bitmap (2 ^ 63) t.word (omega arith);
    bits = λ q le q_near.
        mark_bits w.bitmap w.high s 63 q h (omega arith) (omega arith) (omega arith) le q_near
          (λ other. t.bits q le q_near);
    first = λ e. ground (arith, zero_seq);
  }

  -- The bit that the code tests tells whether the number was accepted before.
  tested :
      s ≤ w.high
      → w.high < s + 64
      → not (bit_and w.bitmap (2 ^ (63 - (w.high - s))) == 0) ≡ contains s h
  tested down near = test_bit w.bitmap _ (contains s h) (t.bits s down near)

  -- One branch of the code at a time: the answer, and the window that it leaves.
  abbrev pub Refines : ReplayWindow × Result (Unit {0}) → Type 0
  Refines r = (r.1 ≡ judge h s) × Tracks r.0 (remember h s)

  advance-Refines : w.high < s → Refines (advance w s)
  unfolding advance
  advance-Refines up = elim (Bool-cases (ltb ((2 ^ 64 - 1) / 2) (s - w.high))) [
    | inl far ↦ rw (judge_up up, far) (refl, t)
    | inr close ↦ rw (judge_up up, close) (refl, advanced up)
  ]

  look_back-Refines : s ≤ w.high → (w.high ≡ 0 → ⊥) → Refines (look_back w s)
  unfolding look_back
  look_back-Refines down positive = elim (Bool-cases (leb 64 (w.high - s))) [
    | inl far ↦ rw (judge_down down, far) (refl, t)
    | inr near ↦
        let reach : w.high < s + 64 = ground arith in
        elim (Bool-cases (contains s h)) [
          | inl seen ↦ rw (judge_down down, near, tested down reach, seen) (refl, t)
          | inr fresh ↦
              rw (judge_down down, near, tested down reach, fresh)
                (refl, marked down reach fresh positive)
        ]
  ]

  judge_zero :
      (c : Bool)
      → w.high ≡ 0
      → s ≡ 0
      → w.seen_zero_at_init ≡ c
      → judge h s ≡ (if c then err (Error.replay 0) else ok tt)
  unfolding judge
  judge_zero c fresh zero_seq seen = rw (zero_seq, ← t.top, fresh, sym (t.first fresh) ∙ seen)

  first_zero-Refines : w.high ≡ 0 → s ≡ 0 → Refines (first_zero w)
  first_zero-Refines fresh zero_seq = elim (Bool-cases w.seen_zero_at_init) [
    | inl seen ↦ rw (first_zero_seen w seen, judge_zero true fresh zero_seq seen) (refl, t)
    | inr unseen ↦
        rw (first_zero_unseen w unseen, judge_zero false fresh zero_seq unseen)
          (refl, zero_marked fresh zero_seq)
  ]

  -- One call on a window that is true to a history answers as the receiver that remembers
  -- everything, and the window stays true to the history.
  pub check_and_update-Refines : Refines (check_and_update w s)
  unfolding check_and_update
  check_and_update-Refines = elim (dec_lt w.high s) [
    | yes up ↦ rw (lt→ltb w.high s up) (advance-Refines up)
    | no down ↦ rw (not_up down) (elim (Bool-cases (s == 0 && w.high == 0)) [
      | inl zeros ↦ rw zeros (first_zero-Refines (ground arith) (ground arith))
      | inr more ↦ rw more (look_back-Refines (omega arith) (λ e. ground arith))
    ])
  ]
    where
      not_up : ¬ (w.high < s) → ltb w.high s ≡ false
      not_up down = ground arith

pub new-Tracks : Tracks new []
unfolding new
new-Tracks = record {
  top = refl;
  word = omega arith;
  bits = λ q le near. bit_at-zero (63 - (0 - q));
  first = λ e. refl;
}

-- From a window that is true to a history of accepted numbers, every sequence of sequence numbers
-- is answered as by a receiver that remembers every accepted number and judges by freshness,
-- window and gap, and the window stays true to that history.
pub run-judge_all :
    (seqs : List ℕ) (w : ReplayWindow) (h : List ℕ)
    → Tracks w h
    → ((run w seqs).1 ≡ (judge_all h seqs).1) × Tracks (run w seqs).0 (judge_all h seqs).0
unfolding run judge_all
run-judge_all [] w h t = (refl, t)
run-judge_all (s ∷ rest) w h t =
    let (answer, kept) = check_and_update-Refines w h t s in
    let (answers, last) = run-judge_all rest (check_and_update w s).0 (remember h s) kept in
    (cc, last)
