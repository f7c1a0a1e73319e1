-- ===== src/Handshake/Tests.antt =====
-- The theorems on the handshake at small stand-ins for the crates: a message is written field by
-- field, each behind its length, and a digest repeats the length of its text.
use ullm.Prelude.{
  ◌++◌, ℕ, ◌≡◌, ◌≢◌, refl, ◌⊎◌, List, [], ◌∷◌, Option, none, some, length, replicate,
  length-replicate,
}
use ullm.Prelude.Digest.{Collide}
use ullm.Prelude.Fields.{join, split, split-join}
use ullm.Core.{Error, Result, ok, err}
use ullm.Crypto.Tests.{hkdf, kex}
use ullm.Handshake.Messages.{protocol_id, ClientHello, ServerHello, PreKeyBundle}
use ullm.Handshake.Messages.Suite.{CipherSuite, default_phase1, validate, validate-default_phase1}
use ullm.Crypto.Kex.{ml_kem_keypair}
use ullm.Handshake.State.{
  Crates, EstablishedKeys, ClientHandshake, Drawn, ServerHandshake, initiate, respond, complete,
}
use ullm.Handshake.State.Agree.{IsEstablished, IsBundleOf, IsDrawn, complete-respond-initiate}
use ullm.Handshake.State.Binding.{IsAccepted, respond-IsAccepted, complete-Binding}

client_fields : ClientHello → List (List ℕ)
client_fields m =
    m.client_random
    ∷ m.attestation_nonce
    ∷ m.client_x25519_pk
    ∷ m.client_mlkem_ct
    ∷ m.client_ratchet_pk
    ∷ (m.version ∷ m.cipher_suite.kem ∷ m.cipher_suite.aead ∷ m.cipher_suite.hash ∷ [])
    ∷ []

client_of : List (List ℕ) → Option ClientHello
client_of (r ∷ n ∷ x ∷ c ∷ k ∷ (v ∷ kem ∷ aead ∷ hash ∷ []) ∷ []) = some (record {
  version = v;
  client_random = r;
  attestation_nonce = n;
  client_x25519_pk = x;
  client_mlkem_ct = c;
  client_ratchet_pk = k;
  cipher_suite = record { kem = kem; aead = aead; hash = hash };
})
client_of _ = none

server_fields : ServerHello → List (List ℕ)
server_fields m =
    m.server_random
    ∷ m.server_x25519_pk
    ∷ m.attestation_evidence
    ∷ m.signature
    ∷ (m.version ∷ [])
    ∷ []

server_of : List (List ℕ) → Option ServerHello
server_of (r ∷ x ∷ e ∷ s ∷ (v ∷ []) ∷ []) = some (record {
  version = v;
  server_random = r;
  server_x25519_pk = x;
  attestation_evidence = e;
  signature = s;
})
server_of _ = none

client_of-join : (m : ClientHello) → client_of (split 6 (join (client_fields m))) ≡ some m
unfolding client_fields client_of
client_of-join m = rw (split-join (client_fields m)) refl

server_of-join : (m : ServerHello) → server_of (split 5 (join (server_fields m))) ≡ some m
unfolding server_fields server_of
server_of-join m = rw (split-join (server_fields m)) refl

abbrev crates : Crates
crates = record {
  hkdf = hkdf;
  kex = kex;
  sha = record {
    sha256 = λ m. replicate 32 (length m);
    sha512 = λ m. replicate 64 (length m);
    length-sha256 = λ m. refl;
    length-sha512 = λ m. refl;
  };
  client_hello = record {
    to_allocvec = λ m. some (join (client_fields m));
    from_bytes = λ b. client_of (split 6 b);
    round_trip = λ m is. (join (client_fields m), refl, client_of-join m);
  };
  server_hello = record {
    to_allocvec = λ m. some (join (server_fields m));
    from_bytes = λ b. server_of (split 5 b);
    round_trip = λ m is. (join (server_fields m), refl, server_of-join m);
  };
}

abbrev seed : List ℕ
seed = 3 ∷ []

abbrev spk_sk : List ℕ
spk_sk = 4 ∷ []

abbrev ratchet_sk : List ℕ
ratchet_sk = 5 ∷ []

abbrev server_random : List ℕ
server_random = replicate 32 6

abbrev drawn : Drawn
drawn = record {
  coins = 7 ∷ [];
  client_x25519_sk = 8 ∷ [];
  client_random = replicate 32 9;
  attestation_nonce = replicate 32 10;
  client_ratchet_sk = 11 ∷ [];
}

abbrev bundle : PreKeyBundle
bundle = record {
  id_pk = replicate 32 1;
  spk_pk_x25519 = replicate 32 4;
  pq_pk_mlkem = replicate 1184 3;
  attestation_evidence = 2 ∷ [];
  signature = replicate 64 0;
}

abbrev server : ServerHandshake
server = record { spk_sk_x25519 = spk_sk; pq_sk_mlkem = (ml_kem_keypair crates.kex seed).0 }

-- The evidence is the report data; the signature repeats the first byte of the hash.
abbrev sign : List ℕ → List ℕ → Result (List ℕ × List ℕ)
sign report_data hash = ok (report_data, replicate 64 (length hash))

abbrev accept : List ℕ → List ℕ → Result (Unit {0})
accept hash signature = ok tt

bundle-IsBundleOf : IsBundleOf crates seed spk_sk bundle
unfolding ml_kem_keypair
bundle-IsBundleOf = record { pq_pk = refl; spk_pk = refl }

drawn-IsDrawn : IsDrawn drawn
drawn-IsDrawn = record { random_32 = refl; nonce_32 = refl }

signs :
    (report_data hash : List ℕ)
    → (evidence : List ℕ) × (signature : List ℕ) × (sign report_data hash
        ≡ ok (evidence, signature))
      × (length signature ≡ 64)
      × (accept hash signature ≡ ok tt)
signs report_data hash =
    (report_data, replicate 64 (length hash), refl, length-replicate 64 (length hash), refl)

complete-respond-initiate_example :
    (client : ClientHandshake) × (hello : List ℕ) × (server_hello : List ℕ)
    × (keys : EstablishedKeys) × (initiate crates drawn bundle ≡ ok (client, hello))
    × (respond crates
          (record { spk_sk_x25519 = spk_sk; pq_sk_mlkem = (ml_kem_keypair kex seed).0 })
          server_random
          hello
          ratchet_sk
          sign
        ≡ ok (server_hello, keys))
    × (complete crates client server_hello accept ≡ ok keys)
    × IsEstablished keys
complete-respond-initiate_example =
    complete-respond-initiate crates seed spk_sk ratchet_sk server_random drawn bundle sign accept
      bundle-IsBundleOf drawn-IsDrawn refl signs

-- A suite that asks for AES-256-GCM-SIV.
abbrev suite : CipherSuite
suite = record { kem = 0x11EC; aead = 2; hash = 1 }

-- One handshake between the two, from which the next examples take their messages.
finished :
    (client : ClientHandshake) × (hello : List ℕ) × (server_hello : List ℕ)
    × (keys : EstablishedKeys) × (initiate crates drawn bundle ≡ ok (client, hello))
    × (respond crates server server_random hello ratchet_sk sign ≡ ok (server_hello, keys))
    × (complete crates client server_hello accept ≡ ok keys)
    × IsEstablished keys
finished =
    complete-respond-initiate crates seed spk_sk ratchet_sk server_random drawn bundle sign accept
      bundle-IsBundleOf drawn-IsDrawn refl signs

respond-IsAccepted_example : IsAccepted crates finished.1
respond-IsAccepted_example =
    let (client, hello, server_hello, keys, sent, answered, completed, sized) = finished in
    respond-IsAccepted crates server server_random hello ratchet_sk server_hello sign keys answered

complete-Binding_example :
    ((finished.1 ≡ finished.1) × (finished.2 ≡ finished.2))
    ⊎ Collide crates.sha.sha256
        (protocol_id ++ finished.1 ++ finished.2)
        (protocol_id ++ finished.1 ++ finished.2)
complete-Binding_example =
    let (client, hello, server_hello, keys, sent, answered, completed, sized) = finished in
    complete-Binding crates drawn bundle client hello server_hello accept keys keys server
      server_random hello ratchet_sk server_hello sign sent completed answered refl refl

validate-default_phase1_example :
    ((suite ≡ default_phase1) × (validate suite ≡ ok tt))
    ⊎ ((suite ≢ default_phase1) × (validate suite ≡ err Error.bad_cipher_suite))
validate-default_phase1_example = validate-default_phase1 suite
