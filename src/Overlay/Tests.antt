-- ===== src/Overlay/Tests.antt =====
-- The theorems on the overlay at small stand-ins for the crates: a layer is written field by field,
-- each behind its length.
use ullm.Prelude.{
  ℕ, zero, suc, ◌+◌, ◌≤◌, ◌<◌, ◌≡◌, refl, ap, List, [], ◌∷◌, ◌++◌, Option, none, some, length, drop,
  replicate, length-append, length-take, length-drop, arith, All,
}
unfoldable use ullm.Prelude.Reverse.{bytes_eq}
use ullm.Prelude.Fields.{join, split, split-join}
use ullm.Core.{Result, ok}
use ullm.Crypto.Tests.{hkdf, kex}
use ullm.Wire.Tests.{cipher, replicate-strip, length-tagged, strip}
use ullm.Overlay.Layer.{Crates, OnionLayer, LayerInner, IsOnionLayer, label_length}
use ullm.Overlay.Relay.{InMemoryRelay, push, route, send_through, get, new_registry}
use ullm.Overlay.Relay.Halts.{IsRouted, route-Halts}
use ullm.Overlay.Relay.Delivers.{IsRegistry, Registered, send_through-Delivers}

split-Below : (n m : ℕ) (b : List ℕ) → length b ≤ m → All (λ x. length x < m) (split n b)
split-Below zero m b le = tt
split-Below (suc n) m [] le = tt
split-Below (suc n) m (l ∷ b) le = (
  omega (arith, le, length-take l b),
  split-Below n m (drop l b) (omega (arith, le, length-drop l b)),
)

layer_fields : OnionLayer → List (List ℕ)
layer_fields v = v.ephemeral_pk ∷ v.ciphertext ∷ []

layer_of : List (List ℕ) → Option OnionLayer
layer_of (pk ∷ ct ∷ []) = some (record { ephemeral_pk = pk; ciphertext = ct })
layer_of _ = none

hop_field : Option (List ℕ) → List ℕ
hop_field none = []
hop_field (some label) = 1 ∷ label

hop_of : List ℕ → Option (List ℕ)
hop_of [] = none
hop_of (t ∷ label) = some label

inner_fields : LayerInner → List (List ℕ)
inner_fields v = hop_field v.next_hop ∷ v.inner ∷ []

inner_of : List (List ℕ) → Option LayerInner
inner_of (hop ∷ b ∷ []) = some (record { next_hop = hop_of hop; inner = b })
inner_of _ = none

hop_of-hop_field : (hop : Option (List ℕ)) → hop_of (hop_field hop) ≡ hop
unfolding hop_field hop_of
hop_of-hop_field none = refl
hop_of-hop_field (some label) = refl

length-hop_field : (hop : Option (List ℕ)) → length (hop_field hop) ≤ label_length hop + 1
unfolding hop_field
length-hop_field none = omega arith
length-hop_field (some label) = omega arith

layer_of-join : (v : OnionLayer) → layer_of (split 2 (join (layer_fields v))) ≡ some v
unfolding layer_of layer_fields
layer_of-join v = rw (split-join (layer_fields v)) refl

inner_of-join : (v : LayerInner) → inner_of (split 2 (join (inner_fields v))) ≡ some v
unfolding inner_of inner_fields
inner_of-join v = rw (split-join (inner_fields v), hop_of-hop_field v.next_hop) refl

layer_of-fits :
    (m : ℕ) (fields : List (List ℕ)) (v : OnionLayer)
    → All (λ x. length x < m) fields
    → layer_of fields ≡ some v
    → length v.ciphertext < m
unfolding layer_of
layer_of-fits m [] v h e = absurd cc
layer_of-fits m (pk ∷ []) v h e = absurd cc
layer_of-fits m (pk ∷ ct ∷ []) v h e =
    let same : ct ≡ v.ciphertext = cc in omega (arith, h.1.0, ap length same)
layer_of-fits m (pk ∷ ct ∷ x ∷ xs) v h e = absurd cc

inner_of-fits :
    (m : ℕ) (fields : List (List ℕ)) (v : LayerInner)
    → All (λ x. length x < m) fields
    → inner_of fields ≡ some v
    → length v.inner < m
unfolding inner_of
inner_of-fits m [] v h e = absurd cc
inner_of-fits m (hop ∷ []) v h e = absurd cc
inner_of-fits m (hop ∷ b ∷ []) v h e =
    let same : b ≡ v.inner = cc in omega (arith, h.1.0, ap length same)
inner_of-fits m (hop ∷ b ∷ x ∷ xs) v h e = absurd cc

tag_16 : (c m : List ℕ) → strip 16 c ≡ some m → length c ≡ length m + 16
tag_16 c m h = more (replicate-strip 16 c m h)
  where
    more : some (replicate 16 0 ++ m) ≡ some c → length c ≡ length m + 16
    more q =
        let same : replicate 16 0 ++ m ≡ c = cc in omega (arith, ap length same, length-tagged 16 m)

layer_size :
    (v : OnionLayer) (b : List ℕ)
    → IsOnionLayer v
    → some (join (layer_fields v)) ≡ some b
    → length b ≤ length v.ciphertext + 48
unfolding layer_fields
layer_size v b is h =
    let same : join (layer_fields v) ≡ b = cc in
    omega (
      arith,
      is,
      ap length same,
      length-append v.ephemeral_pk (length v.ciphertext ∷ v.ciphertext ++ []),
      length-append v.ciphertext [],
    )

layer_inner_size :
    (v : LayerInner) (b : List ℕ)
    → some (join (inner_fields v)) ≡ some b
    → length b ≤ label_length v.next_hop + length v.inner + 32
unfolding inner_fields
layer_inner_size v b h =
    let same : join (inner_fields v) ≡ b = cc in
    omega (
      arith,
      ap length same,
      length-hop_field v.next_hop,
      length-append (hop_field v.next_hop) (length v.inner ∷ v.inner ++ []),
      length-append v.inner [],
    )

abbrev crates : Crates
crates = record {
  kex = kex;
  hkdf = hkdf;
  cipher = cipher;
  layer = record {
    to_allocvec = λ v. some (join (layer_fields v));
    from_bytes = λ b. layer_of (split 2 b);
    round_trip = λ v is. (join (layer_fields v), refl, layer_of-join v);
  };
  layer_inner = record {
    to_allocvec = λ v. some (join (inner_fields v));
    from_bytes = λ b. inner_of (split 2 b);
    round_trip = λ v is. (join (inner_fields v), refl, inner_of-join v);
  };
  layer_size = layer_size;
  layer_inner_size = layer_inner_size;
  layer_fits =
      λ v b h. layer_of-fits (length b) (split 2 b) v (split-Below 2 (length b) b (omega arith)) h;
  layer_inner_fits =
      λ v b h. inner_of-fits (length b) (split 2 b) v (split-Below 2 (length b) b (omega arith)) h;
  tag_16 = λ k n aad m c h. tag_16 c m h;
}

abbrev guard : List ℕ
guard = 103 ∷ []

abbrev exit : List ℕ
exit = 120 ∷ []

abbrev registry : InMemoryRelay
registry = record {
  secrets = (guard, 3 ∷ []) ∷ (exit, 4 ∷ []) ∷ [];
  publics = (guard, replicate 32 3) ∷ (exit, replicate 32 4) ∷ [];
  delivered = [];
}

abbrev drawn : ℕ → List ℕ
drawn i = i ∷ []

abbrev hello : List ℕ
hello = 104 ∷ 105 ∷ []

registered : All (Registered registry) (guard ∷ exit ∷ [])
unfolding get bytes_eq
registered = ((3 ∷ [], refl), ((4 ∷ [], refl), tt))

registry-IsRegistry : IsRegistry crates registry
unfolding new_registry
registry-IsRegistry = refl

send_through-Delivers_example :
    send_through crates drawn registry (guard ∷ exit ∷ []) hello ≡ some (ok (push registry hello))
send_through-Delivers_example =
    send_through-Delivers crates registry drawn guard hello (exit ∷ []) registry-IsRegistry
      registered (omega arith)

-- Bytes that are no layer.
route-Halts_example :
    (r : Result InMemoryRelay) × (route crates registry guard hello ≡ some r)
    × IsRouted crates registry r
route-Halts_example = route-Halts crates registry guard hello
