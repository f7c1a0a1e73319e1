-- ===== src/Overlay/Relay/Delivers.antt =====
-- A payload sent through a chain of registered relays is delivered.
use ullm.Prelude.{
  ℕ, suc, ◌+◌, ◌^◌, ◌≤◌, ◌≡◌, refl, sym, ap, ◌∙◌, List, [], ◌∷◌, ◌++◌, map, reverse, Option, none,
  some, length, arith, inl, inr, All, All-reverse, reverse-cons, bytes_eq, Bool-cases,
}
use ullm.Core.{Result, ok}
use ullm.Overlay.Layer.{Crates, label_length, wrap_loop, wrap_layers, peel_layer}
use ullm.Overlay.Layer.Peel.{peel_layer-wrap_one}
use ullm.Overlay.Relay.{
  InMemoryRelay, get, push, public, peel_at, route_loop, route, chain_of, send_through,
  new_registry,
}
use ullm.Overlay.Relay.Halts.{route_loop-Agrees, route-Halts}

-- What the layers of a chain add at most.
abbrev pub weight : List (List ℕ) → ℕ
weight [] = 0
weight (label ∷ labels) = length label + 96 + weight labels

abbrev pub Registered : InMemoryRelay → List ℕ → Type 0
Registered registry label = (sk : List ℕ) × (get registry.secrets label ≡ some sk)

-- The public keys are those of the secrets, as `new` makes them.
abbrev pub IsRegistry : Crates → InMemoryRelay → Type 0
IsRegistry crates registry = registry.publics ≡ (new_registry crates registry.secrets).publics

last_label : Option (List ℕ) → List (List ℕ × List ℕ) → Option (List ℕ)
last_label next [] = next
last_label next ((label, pk) ∷ relays) = last_label (some label) relays

last_label-snoc :
    (next : Option (List ℕ)) (relays : List (List ℕ × List ℕ)) (label pk : List ℕ)
    → last_label next (relays ++ ((label, pk) ∷ [])) ≡ some label
unfolding last_label
last_label-snoc next [] label pk = refl
last_label-snoc next ((other, _) ∷ relays) label pk = last_label-snoc (some other) relays label pk

labels : List (List ℕ × List ℕ) → List (List ℕ)
labels [] = []
labels ((label, pk) ∷ relays) = label ∷ labels relays

weight-append :
    (xs ys : List (List ℕ × List ℕ))
    → weight (labels (xs ++ ys)) ≡ weight (labels xs) + weight (labels ys)
unfolding labels
weight-append [] ys = omega arith
weight-append (x ∷ xs) ys = omega (arith, weight-append xs ys)

weight-reverse : (xs : List (List ℕ × List ℕ)) → weight (labels (reverse xs)) ≡ weight (labels xs)
unfolding labels
weight-reverse [] = refl
weight-reverse (x ∷ xs) =
    rw (reverse-cons x xs) (omega (arith, weight-append (reverse xs) (x ∷ []), weight-reverse xs))

module _ (crates : Crates) (registry : InMemoryRelay) where
  Known : List ℕ × List ℕ → Type 0
  Known entry =
      (sk : List ℕ) × (get registry.secrets entry.0 ≡ some sk)
      × (entry.1 ≡ crates.kex.public_key sk)

  -- What becomes of a text that a relay has peeled.
  outcome : ℕ → Option (List ℕ) → List ℕ → Option (Result InMemoryRelay)
  outcome fuel none inner = some (ok (push registry inner))
  outcome fuel (some label) inner = route_loop crates fuel registry label inner

  route_loop-turn :
      (fuel : ℕ) (label b : List ℕ) (next : Option (List ℕ)) (inner : List ℕ)
      → peel_at crates registry label b ≡ ok (next, inner)
      → route_loop crates (suc fuel) registry label b ≡ outcome fuel next inner
  unfolding route_loop outcome
  route_loop-turn fuel label b none inner peeled = rw peeled refl
  route_loop-turn fuel label b (some l) inner peeled = rw peeled refl

  wrap_loop-Routes :
      (relays : List (List ℕ × List ℕ)) (drawn : ℕ → List ℕ) (i fuel : ℕ) (next : Option (List ℕ))
      (current : List ℕ) (end : Result InMemoryRelay)
      → All Known relays
      → label_length next + length current + weight (labels relays) + 32 ≤ 2 ^ 37
      → outcome fuel next current ≡ some end
      → (fuel' : ℕ) × (wrapped : List ℕ) × (wrap_loop crates relays drawn i (next, current)
          ≡ ok (last_label next relays, wrapped))
        × (outcome fuel' (last_label next relays) wrapped ≡ some end)
  unfolding wrap_loop last_label labels Known outcome
  wrap_loop-Routes [] drawn i fuel next current end known fits routes =
      (fuel, current, refl, routes)
  wrap_loop-Routes ((label, pk) ∷ relays) drawn i fuel next current end known fits routes =
      let (sk, there, is_pk) = known.0 in
      let (b, sealed, peels, size) =
        peel_layer-wrap_one crates (drawn i) sk next current (omega (arith, fits)) in
      let peeled = peel_at-ok label b sk next current there peels in
      let (fuel', wrapped, wrote, routes') =
        wrap_loop-Routes relays drawn (suc i) (suc fuel) (some label) b end known.1
          (omega (arith, fits, size)) (route_loop-turn fuel label b next current peeled ∙ routes) in
      (fuel', wrapped, rw (is_pk, sealed) wrote, routes')
    where
      peel_at-ok :
          (label b sk : List ℕ) (next : Option (List ℕ)) (inner : List ℕ)
          → get registry.secrets label ≡ some sk
          → peel_layer crates sk b ≡ ok (next, inner)
          → peel_at crates registry label b ≡ ok (next, inner)
      peel_at-ok label b sk next inner there peels = unfold peel_at in rw there peels

  get-public_key :
      (entries : List (List ℕ × List ℕ)) (id sk : List ℕ)
      → get entries id ≡ some sk
      → get (map (λ entry. (entry.0, crates.kex.public_key entry.1)) entries) id
        ≡ some (crates.kex.public_key sk)
  unfolding get
  get-public_key [] id sk h = cc
  get-public_key ((k, v) ∷ entries) id sk h = elim (Bool-cases (bytes_eq k id)) [
    | inl here ↦ let same : v ≡ sk = ground (arith, h, here) in rw (here, same) refl
    | inr there ↦ rw there (get-public_key entries id sk (ground (arith, h, there)))
  ]

  chain_of-Known :
      (ids : List (List ℕ))
      → IsRegistry crates registry
      → All (Registered registry) ids
      → (chain : List (List ℕ × List ℕ)) × (chain_of crates registry ids ≡ ok chain)
        × (labels chain ≡ ids)
        × All Known chain
  unfolding chain_of labels Known public new_registry
  chain_of-Known [] is known = ([], refl, refl, tt)
  chain_of-Known (id ∷ ids) is known =
      let (sk, there) = known.0 in
      let (chain, collected, same, rest) = chain_of-Known ids is known.1 in
      let pk = crates.kex.public_key sk in
      let found = ap (λ m. get m id) is ∙ get-public_key registry.secrets id sk there in
      (
        (id, pk) ∷ chain,
        rw (found, collected) refl,
        ap (λ l. id ∷ l) same,
        ((sk, there, refl), rest),
      )

  outcome-some :
      (fuel : ℕ) (next : Option (List ℕ)) (label b : List ℕ) (end : Option (Result InMemoryRelay))
      → outcome fuel next b ≡ end
      → next ≡ some label
      → route_loop crates fuel registry label b ≡ end
  unfolding outcome
  outcome-some fuel next label b end h at = ap (λ n. outcome fuel n b) (sym at) ∙ h

  route-Delivers :
      (chain : List (List ℕ × List ℕ)) (entry payload : List ℕ) (rest : List (List ℕ))
      (drawn : ℕ → List ℕ)
      → labels chain ≡ entry ∷ rest
      → All Known chain
      → length payload + weight (labels chain) + 32 ≤ 2 ^ 37
      → (wrapped : List ℕ) × (wrap_layers crates drawn chain payload ≡ ok wrapped)
        × (route crates registry entry wrapped ≡ some (ok (push registry payload)))
  unfolding wrap_layers route labels
  route-Delivers [] entry payload rest drawn named known fits = absurd cc
  route-Delivers ((label, pk) ∷ relays) entry payload rest drawn named known fits =
      let chain : List (List ℕ × List ℕ) = (label, pk) ∷ relays in
      let size = weight-reverse chain in
      let (fuel, wrapped, wrote, routes) =
        wrap_loop-Routes (reverse chain) drawn 0 0 none payload (ok (push registry payload))
          (All-reverse Known chain known) (omega (arith, fits, size)) (unfold outcome in refl) in
      let last : last_label none (reverse chain) ≡ some label =
        rw (reverse-cons (label, pk) relays) (last_label-snoc none (reverse relays) label pk) in
      let same : label ≡ entry = cc in
      let delivered =
        outcome-some fuel (last_label none (reverse chain)) entry wrapped
          (some (ok (push registry payload))) routes (last ∙ ap some same) in
      let (r, halts, routed) = route-Halts crates registry entry wrapped in
      let agrees =
        route_loop-Agrees crates registry fuel (suc (length wrapped)) entry wrapped
          (ok (push registry payload)) r delivered halts in
      (wrapped, rw wrote refl, halts ∙ ap some (sym agrees))

  -- In a registry made from its secrets, a payload sent through any chain of registered relays,
  -- which with 96 bytes and the label for each relay stays within the cipher's limit, is delivered:
  -- it is added to the queue, nothing else changes, and the routing does not run out of fuel.
  pub send_through-Delivers :
      (drawn : ℕ → List ℕ) (entry payload : List ℕ) (rest : List (List ℕ))
      → IsRegistry crates registry
      → All (Registered registry) (entry ∷ rest)
      → length payload + weight (entry ∷ rest) + 32 ≤ 2 ^ 37
      → send_through crates drawn registry (entry ∷ rest) payload
        ≡ some (ok (push registry payload))
  unfolding send_through
  send_through-Delivers drawn entry payload rest is known fits =
      let (chain, collected, named, all) = chain_of-Known (entry ∷ rest) is known in
      let (wrapped, wrote, routed) =
        route-Delivers chain entry payload rest drawn named all (rw named fits) in
      rw (collected, wrote) routed
