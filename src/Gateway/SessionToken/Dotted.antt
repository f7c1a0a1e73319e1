-- ===== src/Gateway/SessionToken/Dotted.antt =====
-- A dot in the name of a replica.
use mathlib.Core.List.{append_assoc}
use ullm.Prelude.{
  ℕ, ◌+◌, ◌-◌, ◌*◌, ◌^◌, ◌≡◌, refl, ◌==◌, List, [], ◌∷◌, ◌++◌, Option, none, some, arith,
  Bool-cases, inl, inr,
}
use ullm.Prelude.Options.{◌>>=◌}
use ullm.Gateway.SessionToken.{
  Mac, SessionToken, to_string, scan, parse, split_once, body_of, read_body, tag_of, sign, verify,
}
use ullm.Gateway.SessionToken.RoundTrip.{
  IsDotless, split_once-append, rsplit_once-append, ct_eq_self,
}

scan_dotted : (bound n : ℕ) (u v : List ℕ) → scan bound n (u ++ (46 ∷ v)) ≡ none
unfolding scan
scan_dotted bound n [] v = refl
scan_dotted bound n (c ∷ u) v = ground (arith, scan_dotted bound (n * 10 + (c - 48)) u v)

parse_dotted : (bound : ℕ) (u v : List ℕ) → parse bound (u ++ (46 ∷ v)) ≡ none
unfolding parse
parse_dotted bound [] [] = scan_dotted bound 0 [] []
parse_dotted bound [] (d ∷ v) = scan_dotted bound 0 [] (d ∷ v)
parse_dotted bound (c ∷ []) v =
    ground (arith, scan_dotted bound 0 [] v, scan_dotted bound 0 (c ∷ []) v)
parse_dotted bound (c ∷ d ∷ u) v =
    ground (arith, scan_dotted bound 0 (d ∷ u) v, scan_dotted bound 0 (c ∷ d ∷ u) v)

split_once_dotted :
    (xs ys zs : List ℕ)
    → (first : List ℕ) × (u : List ℕ) × (v : List ℕ) × (split_once (xs ++ (46 ∷ (ys ++ (46 ∷ zs))))
        ≡ some (first, u ++ (46 ∷ v)))
unfolding split_once
split_once_dotted [] ys zs = ([], ys, zs, refl)
split_once_dotted (x ∷ xs) ys zs =
    let (first, u, v, h) = split_once_dotted xs ys zs in
    elim (Bool-cases (x == 46)) [
      | inl dot ↦ ([], xs, ys ++ (46 ∷ zs), rw dot refl)
      | inr other ↦ (x ∷ first, u, v, rw (h, other) refl)
    ]

read_body_dotted :
    (t : SessionToken) (a b : List ℕ)
    → t.replica_id ≡ a ++ (46 ∷ b)
    → IsDotless a
    → read_body (body_of t) ≡ none
unfolding read_body body_of
read_body_dotted t a b named dotless =
    let (first, u, v, h) = split_once_dotted b (to_string t.epoch) (to_string t.expiry_unix) in
    let numbers = to_string t.epoch ++ (46 ∷ to_string t.expiry_unix) in
    rw
      (
        named,
        append_assoc a (46 ∷ b) (46 ∷ numbers),
        split_once-append a (b ++ (46 ∷ numbers)) dotless,
        h,
        parse_dotted (2 ^ 64) u v,
      )
      (nothing (parse (2 ^ 32) first))
  where
    nothing : (o : Option ℕ) → ◌≡◌ {A = Option SessionToken} (o >>= (λ epoch. none)) none
    nothing none = refl
    nothing (some n) = refl

module _ (mac : Mac) (key : List ℕ) where
  -- A token that is signed for a replica with a dot in its name is refused.
  pub verify-sign_dotted :
      (t : SessionToken) (a b : List ℕ)
      → t.replica_id ≡ a ++ (46 ∷ b)
      → IsDotless a
      → verify mac key (sign mac key t) ≡ none
  unfolding verify sign tag_of
  verify-sign_dotted t a b named dotless =
      rw
        (
          rsplit_once-append (body_of t) (tag_of mac key (body_of t))
              (mac.encode_dotless (mac.finalize key (body_of t))),
          ct_eq_self (tag_of mac key (body_of t)),
        )
        (read_body_dotted t a b named dotless)
