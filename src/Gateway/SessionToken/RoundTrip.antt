-- ===== src/Gateway/SessionToken/RoundTrip.antt =====
-- What is signed is verified, and nothing but what is signed.
use ullm.Prelude.{
  ℕ, zero, suc, ◌+◌, ◌-◌, ◌*◌, ◌/◌, ◌%◌, ◌^◌, ◌<◌, ◌≤◌, ◌≡◌, refl, sym, ap, ◌∙◌, true, false, ltb,
  leb, ◌==◌, List, [], ◌∷◌, ◌++◌, none, some, length, arith, All, Bool-cases, ltb→lt, inl, inr,
}
use native.Mathlib.Nat.{pow-suc}
use ullm.Gateway.SessionToken.{
  Mac, SessionToken, digits, to_string, scan, parse, split_once, rsplit_once, ct_eq, body_of,
  read_body, tag_of, sign, verify,
}

-- No dot, and a byte that is no plus and no dot.
abbrev pub IsDotless : List ℕ → Type 0
IsDotless = All (λ b. (b == 46) ≡ false)

IsDigits : List ℕ → Type 0
IsDigits = All (λ b. (48 ≤ b) × (b ≤ 57))

digits-IsDigits : (places n : ℕ) (out : List ℕ) → IsDigits out → IsDigits (digits places n out)
unfolding digits IsDigits
digits-IsDigits zero n out h = h
digits-IsDigits (suc places) n out h =
    let digit : (48 ≤ 48 + n % 10) × (48 + n % 10 ≤ 57) = (omega arith, omega arith) in
    let longer = digits-IsDigits places (n / 10) ((48 + n % 10) ∷ out) (digit, h) in
    elim (Bool-cases (ltb n 10)) [ inl small ↦ rw small (digit, h) | inr large ↦ rw large longer ]

digits-length : (places n : ℕ) (out : List ℕ) → length out ≤ length (digits places n out)
unfolding digits
digits-length zero n out = omega arith
digits-length (suc places) n out =
    ground (arith, digits-length places (n / 10) ((48 + n % 10) ∷ out))

IsDigits-IsDotless : (xs : List ℕ) → IsDigits xs → IsDotless xs
unfolding IsDigits
IsDigits-IsDotless [] h = h
IsDigits-IsDotless (x ∷ xs) h = (ground (arith, h.0), IsDigits-IsDotless xs h.1)

scan_digit :
    (bound n : ℕ) (out : List ℕ)
    → n < bound
    → scan bound (n / 10) ((48 + n % 10) ∷ out) ≡ scan bound n out
unfolding scan
scan_digit bound n out lt =
    let value : n / 10 * 10 + (48 + n % 10 - 48) ≡ n = omega arith in
    let low : leb 48 (48 + n % 10) ≡ true = ground arith in
    let high : leb (48 + n % 10) 57 ≡ true = ground arith in
    let fits : ltb n bound ≡ true = ground (arith, lt) in rw (low, high, value, fits) refl

scan_small :
    (bound n : ℕ) (out : List ℕ)
    → n < bound
    → n < 10
    → scan bound 0 ((48 + n % 10) ∷ out) ≡ scan bound n out
scan_small bound n out lt small =
    let none_left : n / 10 ≡ 0 = omega (arith, small) in
    ap (λ k. scan bound k ((48 + n % 10) ∷ out)) (sym none_left) ∙ scan_digit bound n out lt

scan-digits :
    (bound places n : ℕ) (out : List ℕ)
    → n < bound
    → n < 10 ^ suc places
    → scan bound 0 (digits (suc places) n out) ≡ scan bound n out
unfolding digits
scan-digits bound zero n out lt size =
    let small : ltb n 10 ≡ true = ground (arith, size) in
    rw small (scan_small bound n out lt (ltb→lt n 10 small))
scan-digits bound (suc places) n out lt size =
    let tenth : n / 10 < 10 ^ suc places = omega (arith, size, pow-suc 10 (suc places)) in
    let longer =
      scan-digits bound places (n / 10) ((48 + n % 10) ∷ out) (omega (arith, lt)) tenth
      ∙ scan_digit bound n out lt in
    elim (Bool-cases (ltb n 10)) [
      | inl small ↦ rw small (scan_small bound n out lt (ltb→lt n 10 small))
      | inr large ↦ rw large longer
    ]

parse-scan : (bound : ℕ) (s : List ℕ) → IsDigits s → 0 < length s → parse bound s ≡ scan bound 0 s
unfolding parse IsDigits
parse-scan bound [] h lt = absurd (omega (arith, lt))
parse-scan bound (c ∷ []) h lt = refl
parse-scan bound (c ∷ d ∷ s) h lt =
    let plain : (c == 43) ≡ false = ground (arith, h.0.0) in rw plain refl

to_string-IsDigits : (n : ℕ) → IsDigits (to_string n)
unfolding IsDigits
to_string-IsDigits n = digits-IsDigits 20 n [] tt

digits_some : (places n : ℕ) → 0 < length (digits (suc places) n [])
unfolding digits
digits_some places n = elim (Bool-cases (ltb n 10)) [
  | inl small ↦ rw small (omega arith)
  | inr large ↦ rw large (digits-length places (n / 10) ((48 + n % 10) ∷ []))
]

-- A number of at most 64 bits is read back from its print.
pub parse-to_string : (bound n : ℕ) → n < bound → n < 2 ^ 64 → parse bound (to_string n) ≡ some n
unfolding scan
parse-to_string bound n lt size =
    parse-scan bound (to_string n) (to_string-IsDigits n) (digits_some 19 n)
    ∙ scan-digits bound 19 n [] lt (omega (arith, size))

pub split_once-append :
    (xs ys : List ℕ) → IsDotless xs → split_once (xs ++ (46 ∷ ys)) ≡ some (xs, ys)
unfolding split_once
split_once-append [] ys h = refl
split_once-append (x ∷ xs) ys h = rw (split_once-append xs ys h.1, h.0) refl

rsplit_once-dotless : (xs : List ℕ) → IsDotless xs → rsplit_once xs ≡ none
unfolding rsplit_once
rsplit_once-dotless [] h = refl
rsplit_once-dotless (x ∷ xs) h = rw (rsplit_once-dotless xs h.1, h.0) refl

pub rsplit_once-append :
    (xs ys : List ℕ) → IsDotless ys → rsplit_once (xs ++ (46 ∷ ys)) ≡ some (xs, ys)
unfolding rsplit_once
rsplit_once-append [] ys h = rw (rsplit_once-dotless ys h) refl
rsplit_once-append (x ∷ xs) ys h = rw (rsplit_once-append xs ys h) refl

pub ct_eq_self : (xs : List ℕ) → ct_eq xs xs ≡ true
unfolding ct_eq
ct_eq_self [] = refl
ct_eq_self (x ∷ xs) = let same : (x == x) ≡ true = ground arith in rw (same, ct_eq_self xs) refl

read_body-body_of :
    (t : SessionToken)
    → IsDotless t.replica_id
    → t.epoch < 2 ^ 32
    → t.expiry_unix < 2 ^ 64
    → read_body (body_of t) ≡ some t
unfolding read_body body_of
read_body-body_of t named epoch expiry =
    rw
      (
        split_once-append t.replica_id (to_string t.epoch ++ (46 ∷ to_string t.expiry_unix)) named,
        split_once-append (to_string t.epoch) (to_string t.expiry_unix)
            (IsDigits-IsDotless (to_string t.epoch) (to_string-IsDigits t.epoch)),
        parse-to_string (2 ^ 32) t.epoch epoch (omega (arith, epoch)),
        parse-to_string (2 ^ 64) t.expiry_unix expiry expiry,
      )
      refl

module _ (mac : Mac) (key : List ℕ) where
  -- A signed token is verified to itself, if the name of its replica has no dot and its numbers are
  -- in the ranges of their types.
  pub verify-sign :
      (t : SessionToken)
      → IsDotless t.replica_id
      → t.epoch < 2 ^ 32
      → t.expiry_unix < 2 ^ 64
      → verify mac key (sign mac key t) ≡ some t
  unfolding verify sign tag_of
  verify-sign t named epoch expiry =
      rw
        (
          rsplit_once-append (body_of t) (tag_of mac key (body_of t))
              (mac.encode_dotless (mac.finalize key (body_of t))),
          ct_eq_self (tag_of mac key (body_of t)),
        )
        (read_body-body_of t named epoch expiry)
