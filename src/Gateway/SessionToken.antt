-- ===== src/Gateway/SessionToken.antt =====
-- crates/ullm-gateway/src/session_token.rs: tokens for sticky routing, signed with HMAC. A text is
-- the list of its bytes, and `to_string` and `parse` of Rust's unsigned integers are written out.
pub mod Dotted
pub mod RoundTrip
pub mod Tests
use ullm.Prelude.{
  ℕ, zero, suc, ◌+◌, ◌-◌, ◌*◌, ◌/◌, ◌%◌, ◌^◌, Bool, true, false, ltb, leb, ◌==◌, if◌then◌else◌,
  ◌&&◌, List, [], ◌∷◌, ◌++◌, Option, none, some, ◌≡◌, All,
}
use ullm.Prelude.Options.{◌>>=◌}

-- HMAC-SHA256, by key and text, and the encoding in hex, which has no dot.
pub record Mac : Type 0 where
  pub finalize : List ℕ → List ℕ → List ℕ
  pub encode : List ℕ → List ℕ
  pub encode_dotless : (bytes : List ℕ) → All (λ b. (b == 46) ≡ false) (encode bytes)

pub record SessionToken : Type 0 where
  pub replica_id : List ℕ
  pub epoch : ℕ
  pub expiry_unix : ℕ

-- The digits of a number before a text; a u64 has at most 20.
unfoldable pub digits : ℕ → ℕ → List ℕ → List ℕ
digits zero n out = out
digits (suc places) n out =
    let longer = digits places (n / 10) ((48 + n % 10) ∷ out) in
    if ltb n 10 then ((48 + n % 10) ∷ out) else longer

abbrev pub to_string : ℕ → List ℕ
to_string n = digits 20 n []

unfoldable pub scan : ℕ → ℕ → List ℕ → Option ℕ
scan bound n [] = some n
scan bound n (c ∷ text) =
    let rest = scan bound (n * 10 + (c - 48)) text in
    if leb 48 c && leb c 57 then if ltb (n * 10 + (c - 48)) bound then rest else none else none

-- `str::parse` to an unsigned integer below a bound: digits after at most one plus.
unfoldable pub parse : ℕ → List ℕ → Option ℕ
parse bound [] = none
parse bound (c ∷ []) = scan bound 0 (c ∷ [])
parse bound (c ∷ d ∷ text) =
    if c == 43 then scan bound 0 (d ∷ text) else scan bound 0 (c ∷ d ∷ text)

-- The text before the first dot, and the text after it.
unfoldable pub split_once : List ℕ → Option (List ℕ × List ℕ)
split_once [] = none
split_once (b ∷ text) =
    let later = widen b (split_once text) in if b == 46 then some ([], text) else later
  where
    widen : ℕ → Option (List ℕ × List ℕ) → Option (List ℕ × List ℕ)
    widen b (some (first, rest)) = some (b ∷ first, rest)
    widen b none = none

-- The text before the last dot, and the text after it.
unfoldable pub rsplit_once : List ℕ → Option (List ℕ × List ℕ)
rsplit_once [] = none
rsplit_once (b ∷ text) = widen b text (rsplit_once text)
  where
    widen : ℕ → List ℕ → Option (List ℕ × List ℕ) → Option (List ℕ × List ℕ)
    widen b text (some (first, rest)) = some (b ∷ first, rest)
    widen b text none = if b == 46 then some ([], text) else none

unfoldable pub ct_eq : List ℕ → List ℕ → Bool
ct_eq [] [] = true
ct_eq (a ∷ xs) (b ∷ ys) = a == b && ct_eq xs ys
ct_eq _ _ = false

unfoldable pub body_of : SessionToken → List ℕ
body_of t = t.replica_id ++ (46 ∷ (to_string t.epoch ++ (46 ∷ to_string t.expiry_unix)))

unfoldable pub read_body : List ℕ → Option SessionToken
read_body body = do
  (replica, numbers) ← split_once body
  (first, second) ← split_once numbers
  epoch ← parse (2 ^ 32) first
  expiry ← parse (2 ^ 64) second
  some (record { replica_id = replica; epoch = epoch; expiry_unix = expiry })

module _ (mac : Mac) (key : List ℕ) where
  unfoldable pub tag_of : List ℕ → List ℕ
  tag_of body = mac.encode (mac.finalize key body)

  unfoldable pub sign : SessionToken → List ℕ
  sign t = body_of t ++ (46 ∷ tag_of (body_of t))

  unfoldable pub verify : List ℕ → Option SessionToken
  verify encoded = do
    (body, tag_hex) ← rsplit_once encoded
    if ct_eq (tag_of body) tag_hex then read_body body else none
