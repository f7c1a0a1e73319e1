-- ===== src/Gateway/SessionToken/Tests.antt =====
-- Tokens of a replica, with and without a dot in its name.
use ullm.Prelude.{ℕ, ◌+◌, ◌≡◌, refl, List, [], ◌∷◌, none, some, length, arith}
use ullm.Gateway.SessionToken.{Mac, SessionToken, sign, verify}
use ullm.Gateway.SessionToken.RoundTrip.{verify-sign}
use ullm.Gateway.SessionToken.Dotted.{verify-sign_dotted}

-- A tag of one byte, a letter.
abbrev mac : Mac
mac = record {
  finalize = λ key text. (length key + length text) ∷ [];
  encode = λ bytes. 97 ∷ [];
  encode_dotless = λ bytes. (refl, tt);
}

abbrev key : List ℕ
key = 1 ∷ 2 ∷ []

abbrev token : SessionToken
token = record { replica_id = 114 ∷ 49 ∷ []; epoch = 70; expiry_unix = 1_900_000_000 }

abbrev dotted : SessionToken
dotted = record { replica_id = 114 ∷ 46 ∷ 49 ∷ []; epoch = 70; expiry_unix = 1_900_000_000 }

verify-sign_example : verify mac key (sign mac key token) ≡ some token
verify-sign_example = verify-sign mac key token (refl, (refl, tt)) (omega arith) (omega arith)

verify-sign_dotted_example : verify mac key (sign mac key dotted) ≡ none
verify-sign_dotted_example = verify-sign_dotted mac key dotted (114 ∷ []) (49 ∷ []) refl (refl, tt)
