-- ===== src/Overlay/Relay/Halts.antt =====
-- The routing of any bytes ends: each turn hands on fewer bytes, and the fuel is never used up.
use ullm.Prelude.{
  ℕ, zero, suc, ◌<◌, ◌≡◌, ◌⊎◌, refl, inl, inr, List, [], ◌∷◌, ◌++◌, Option, none, some, length,
  arith, Option-cases,
}
use ullm.Core.{Error, Result, ok, err}
use ullm.Core.Calls.{Result-cases}
use ullm.Overlay.Layer.{Crates}
use ullm.Overlay.Layer.Peel.{peel_layer-lt, peel_layer-cases}
use ullm.Overlay.Relay.{InMemoryRelay, get, push, peel_at, route_loop, route}

-- The errors of an unknown relay, of unreadable bytes and of a layer that is not for the relay.
abbrev pub IsRefusal : Error → Type 0
IsRefusal e = (e ≡ Error.other) ⊎ (e ≡ Error.serde) ⊎ (e ≡ Error.decrypt)

module _ (crates : Crates) (registry : InMemoryRelay) where
  peel_at-lt :
      (relay b inner : List ℕ) (next_hop : Option (List ℕ))
      → peel_at crates registry relay b ≡ ok (next_hop, inner)
      → length inner < length b
  unfolding peel_at
  peel_at-lt relay b inner next_hop h = elim (Option-cases (get registry.secrets relay)) [
    | inl unknown ↦ absurd (ground (arith, h, unknown))
    | inr (sk, known) ↦ peel_layer-lt crates sk b inner next_hop (ground (arith, h, known))
  ]

  peel_at-cases :
      (relay b : List ℕ)
      → ((peeled : Option (List ℕ) × List ℕ) × (peel_at crates registry relay b ≡ ok peeled))
        ⊎ ((e : Error) × (peel_at crates registry relay b ≡ err e) × IsRefusal e)
  unfolding peel_at
  peel_at-cases relay b = elim (Option-cases (get registry.secrets relay)) [
    | inl unknown ↦ inr (Error.other, rw unknown refl, inl refl)
    | inr (sk, known) ↦ elim (peel_layer-cases crates sk b) [
      | inl (peeled, h) ↦ inl (peeled, rw known h)
      | inr (inl unread) ↦ inr (Error.serde, rw known unread, inr (inl refl))
      | inr (inr sealed) ↦ inr (Error.decrypt, rw known sealed, inr (inr refl))
    ]
  ]

  -- One payload more is delivered, or the routing is refused.
  abbrev pub IsRouted : Result InMemoryRelay → Type 0
  IsRouted r =
      ((payload : List ℕ) × (r
          ≡ ok (record {
            secrets = registry.secrets;
            publics = registry.publics;
            delivered = registry.delivered ++ (payload ∷ []);
          })))
      ⊎ ((e : Error) × (r ≡ err e) × IsRefusal e)

  route_loop-Halts :
      (fuel : ℕ) (relay b : List ℕ)
      → length b < fuel
      → (r : Result InMemoryRelay) × (route_loop crates fuel registry relay b ≡ some r) × IsRouted r
  unfolding route_loop push
  route_loop-Halts zero relay b enough = absurd (omega (arith, enough))
  route_loop-Halts (suc fuel) relay b enough = elim (peel_at-cases relay b) [
    | inl ((none, inner), peeled) ↦ (ok (push registry inner), rw peeled refl, inl (inner, refl))
    | inl ((some next_label, inner), peeled) ↦
        let less = peel_at-lt relay b inner (some next_label) peeled in
        let (r, halts, routed) =
          route_loop-Halts fuel next_label inner (omega (arith, less, enough)) in
        (r, rw peeled halts, routed)
    | inr (e, refused, why) ↦ (err e, rw refused refl, inr (e, refl, why))
  ]

  -- More fuel gives no other answer.
  pub route_loop-Agrees :
      (fuel fuel' : ℕ) (relay b : List ℕ) (r s : Result InMemoryRelay)
      → route_loop crates fuel registry relay b ≡ some r
      → route_loop crates fuel' registry relay b ≡ some s
      → r ≡ s
  unfolding route_loop
  route_loop-Agrees zero fuel' relay b r s h h' = cc
  route_loop-Agrees (suc fuel) zero relay b r s h h' = cc
  route_loop-Agrees (suc fuel) (suc fuel') relay b r s h h' =
      elim (Result-cases (peel_at crates registry relay b)) [
        | inl ((none, inner), peeled) ↦ ground (arith, h, h', peeled)
        | inl ((some next_label, inner), peeled) ↦
            route_loop-Agrees fuel fuel' next_label inner r s (ground (arith, h, peeled))
              (ground (arith, h', peeled))
        | inr (inl (e, refused)) ↦ ground (arith, h, h', refused)
        | inr (inr panics) ↦ ground (arith, h, h', panics)
      ]

  -- Whatever bytes enter at whatever relay, the routing loop ends within its fuel and without a
  -- panic: one more payload stands at the end of the queue and nothing else of the registry has
  -- changed, or the call fails with the error for an unknown relay, for bytes that cannot be read
  -- or for a layer that cannot be decrypted.
  pub route-Halts :
      (entry b : List ℕ)
      → (r : Result InMemoryRelay) × (route crates registry entry b ≡ some r) × IsRouted r
  unfolding route
  route-Halts entry b = route_loop-Halts (suc (length b)) entry b (omega arith)
