-- ===== src/Overlay/Relay.antt =====
-- crates/ullm-overlay/src/relay.rs and transport.rs: the registry of relays, the routing of a
-- message from relay to relay, and the sending of a payload through a chain.
pub mod Halts
pub mod Delivers
use ullm.Prelude.{
  ℕ, zero, suc, ◌≡◌, List, [], ◌∷◌, ◌++◌, map, Option, none, some, length, if◌then◌else◌, bytes_eq,
}
use ullm.Core.{Error, Result, ok, err, panic, ok_or, ◌>>=◌}
use ullm.Overlay.Layer.{Crates, wrap_layers, peel_layer}

-- The two maps and the queue behind the mutex.
pub record InMemoryRelay : Type 0 where
  pub secrets : List (List ℕ × List ℕ)
  pub publics : List (List ℕ × List ℕ)
  pub delivered : List (List ℕ)

-- `HashMap::get`
unfoldable pub get : List (List ℕ × List ℕ) → List ℕ → Option (List ℕ)
get [] id = none
get ((k, v) ∷ entries) id = if bytes_eq k id then some v else get entries id

unfoldable pub push : InMemoryRelay → List ℕ → InMemoryRelay
push registry payload = record {
  secrets = registry.secrets;
  publics = registry.publics;
  delivered = registry.delivered ++ (payload ∷ []);
}

-- `InMemoryRelay::public`
unfoldable pub public : InMemoryRelay → List ℕ → Option (List ℕ)
public registry id = get registry.publics id

unfoldable pub take_delivered : InMemoryRelay → List (List ℕ) × InMemoryRelay
take_delivered registry = (
  registry.delivered,
  record { secrets = registry.secrets; publics = registry.publics; delivered = [] },
)

unfoldable pub deliver : InMemoryRelay → Option (List ℕ) × InMemoryRelay
unfolding take_delivered
deliver registry = let (taken, rest) = take_delivered registry in (first taken, rest)
  where
    first : List (List ℕ) → Option (List ℕ)
    first [] = none
    first (payload ∷ payloads) = some payload

module _ (crates : Crates) where
  unfoldable pub new_registry : List (List ℕ × List ℕ) → InMemoryRelay
  new_registry secrets = record {
    secrets = secrets;
    publics = map (λ entry. (entry.0, crates.kex.public_key entry.1)) secrets;
    delivered = [];
  }

  -- One turn of the loop of `route`: what the relay at hand peels.
  unfoldable pub peel_at : InMemoryRelay → List ℕ → List ℕ → Result (Option (List ℕ) × List ℕ)
  peel_at registry current_relay current_bytes = do
    sk ← ok_or Error.other (get registry.secrets current_relay)
    peel_layer crates sk current_bytes

  -- The loop, on fuel; out of fuel it gives nothing.
  unfoldable pub route_loop : ℕ → InMemoryRelay → List ℕ → List ℕ → Option (Result InMemoryRelay)
  route_loop zero registry current_relay current_bytes = none
  route_loop (suc fuel) registry current_relay current_bytes =
      turn (peel_at registry current_relay current_bytes) (route_loop fuel registry)
    where
      turn :
          Result (Option (List ℕ) × List ℕ)
          → (List ℕ → List ℕ → Option (Result InMemoryRelay))
          → Option (Result InMemoryRelay)
      turn (err e) go = some (err e)
      turn panic go = some panic
      turn (ok (none, inner)) go = some (ok (push registry inner))
      turn (ok (some next_label, inner)) go = go next_label inner

  -- A layer is longer than what is peeled off it, so its length bounds the turns.
  unfoldable pub route : InMemoryRelay → List ℕ → List ℕ → Option (Result InMemoryRelay)
  route registry entry layer_bytes =
      route_loop (suc (length layer_bytes)) registry entry layer_bytes

  -- `collect`: the first unknown relay ends it.
  unfoldable pub chain_of : InMemoryRelay → List (List ℕ) → Result (List (List ℕ × List ℕ))
  chain_of registry [] = ok []
  chain_of registry (id ∷ ids) = do
    pk ← ok_or Error.other (public registry id)
    rest ← chain_of registry ids
    ok ((id, pk) ∷ rest)

  unfoldable pub send_through :
      (ℕ → List ℕ) → InMemoryRelay → List (List ℕ) → List ℕ → Option (Result InMemoryRelay)
  send_through drawn registry relay_chain payload = sent wrapped
    where
      wrapped : Result (List ℕ)
      wrapped = do chain ← chain_of registry relay_chain; wrap_layers crates drawn chain payload

      route_from : List (List ℕ) → List ℕ → Option (Result InMemoryRelay)
      route_from [] b = some panic
      route_from (entry ∷ rest) b = route registry entry b

      sent : Result (List ℕ) → Option (Result InMemoryRelay)
      sent (ok b) = route_from relay_chain b
      sent (err e) = some (err e)
      sent panic = some panic
