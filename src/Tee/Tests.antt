-- ===== src/Tee/Tests.antt =====
-- The theorems on the TEE's registry of nonces at concrete nonces and instants.
use ullm.Prelude.{ℕ, ◌+◌, ◌≡◌, refl, some, replicate, arith, if◌then◌else◌}
use mathlib.Core.List.{lookup}
use ullm.Lru.{remove_all, rows_below}
use ullm.Tee.NonceRegistry.{Nonce, Nonce-discrete, State, new, accepted, replayed, observe}
use ullm.Tee.NonceRegistry.Invariant.{IsValid, new-IsValid, observe-IsValid}
use ullm.Tee.NonceRegistry.Answers.{alive, observe-alive, observe_early, observe_records}

abbrev first : Nonce
first = replicate 32 1

abbrev second : Nonce
second = replicate 32 2

abbrev minute : ℕ
minute = 60_000_000_000

-- A registry that has seen one nonce a second after the first minute.
abbrev one_seen : State
one_seen = (observe new (minute + 1_000_000_000) first).0

one_seen-IsValid : IsValid one_seen
one_seen-IsValid = observe-IsValid new (minute + 1_000_000_000) first new-IsValid

observe-IsValid_example : IsValid (observe one_seen (minute + 2_000_000_000) second).0
observe-IsValid_example = observe-IsValid one_seen (minute + 2_000_000_000) second one_seen-IsValid

-- The same nonce again, in its lifetime.
observe-alive_example : (observe one_seen (minute + 5_000_000_000) first).1 ≡ (
    if alive (minute + 5_000_000_000) (lookup Nonce-discrete first one_seen.seen)
    then replayed
    else accepted)
observe-alive_example =
    observe-alive one_seen (minute + 5_000_000_000) first one_seen-IsValid refl (omega arith)

new_accepts : (observe new 5 first).1 ≡ accepted
unfolding observe new lookup remove_all rows_below
new_accepts = refl

recorded : lookup Nonce-discrete first (observe new 5 first).0.seen ≡ some (5, new.next_lru_seq)
recorded = observe_records new 5 first new_accepts

-- Before the first minute is over, the nonce of instant 5 is accepted again at instant 10.
observe_early_example : (observe (observe new 5 first).0 10 first).1 ≡ accepted
observe_early_example =
    observe_early (observe new 5 first).0 10 first 5 new.next_lru_seq
      (observe-IsValid new 5 first new-IsValid) (omega arith) recorded (omega arith)
