-- ===== src/Scylla/Tests.antt =====
-- Examples of the theorems, at the instance of `Toy`.
use fragging.Common.{
  take, ◌*◌, err, length, ◌≤◌, ap, ℕ, ◌+◌, ◌≡◌, refl, List, [], ◌∷◌, ◌++◌, map, replicate,
  length-replicate, ok, inr, arith, from_be_bytes, flatten,
}
use fragging.Scylla.Primitives.{Bytes}
use fragging.Scylla.Onion.{Scylla, Draws, reply, last}
use fragging.Scylla.Onion.Journey.{Owner, node_of, travel, relay_meta}
use fragging.Scylla.Api.{SendDraws, create_onions, defrag, create_surb, unwrap_reply}
use fragging.Scylla.Api.Send.{Route, path_of, arrivals, numbered, IsDrawn, AllSized}
use fragging.Scylla.Api.Send.EndToEnd.{defrag-create_onions}
use fragging.Scylla.Api.Reply.{unwrap_reply-create_surb}
use fragging.Scylla.Aont.{aont}
use fragging.Scylla.Aont.RoundTrip.{IsTransformed, aont-IsTransformed}
use fragging.Scylla.Crypto.{alpha_len, kappa, final_hop_meta_length, mac_mismatch, h_mu, mu}
use fragging.Scylla.Onion.{header_length, process, wrap}
use fragging.Scylla.Onion.Size.{length-wrap}
use fragging.Scylla.Onion.Process.{process-mac_mismatch}
use fragging.Scylla.Api.Checks.{AllConverge, create_onions-Checked}
use fragging.Scylla.Toy.{checksum, toy, toy-IsLawful}

abbrev address_of : ℕ → Bytes
address_of k = replicate 32 k

abbrev owner : ℕ → Owner ℕ
owner k = record { address = address_of k; private_key = k + 2 }

abbrev config : Scylla
config = record { max_path_length = 3; payload_size = 100 }

abbrev draws_at : ℕ → Draws
draws_at i = record { wide = i ∷ []; fill = λ k. replicate k 9 }

abbrev send_draws : SendDraws
send_draws = record { randomness = replicate 16 4; frag_set_id = replicate 16 6; wraps = draws_at }

abbrev route_a : Route
route_a = (owner 1, owner 2 ∷ owner 3 ∷ [])

abbrev route_b : Route
route_b = (owner 2, owner 3 ∷ [])

send_draws-IsDrawn : IsDrawn send_draws
send_draws-IsDrawn = record {
  randomness_length = length-replicate 16 4;
  set_id_length = length-replicate 16 6;
  fills = λ i k. length-replicate k 9;
}

defrag-create_onions_example :
    (onions : List Bytes) × (parts : List Bytes) × (create_onions config send_draws
        (map path_of (route_a ∷ route_b ∷ []))
        (replicate 32 8)
        (replicate 36 1 ∷ replicate 100 2 ∷ [])
      ≡ ok onions)
    × (arrivals config (route_a ∷ route_b ∷ []) onions
        ≡ ok (numbered (from_be_bytes (replicate 16 6)) 0 parts))
    × (defrag parts ≡ ok (replicate 32 8, flatten (replicate 36 1 ∷ replicate 100 2 ∷ [])))
unfolding last
defrag-create_onions_example =
    defrag-create_onions toy-IsLawful config send_draws route_a (route_b ∷ []) (node_of (owner 3))
      (replicate 32 8) (replicate 36 1) (replicate 100 2 ∷ []) refl (omega arith)
      (length-replicate 32 8) (omega (arith, length-replicate {A = ℕ} 36 1))
      (length-replicate 100 2, tt) (omega arith)
      (
        omega arith,
        (length-replicate 32 2, (length-replicate 32 3, tt)),
        (omega arith, (length-replicate 32 3, tt), tt),
      )
      (refl, (refl, tt)) (omega arith) send_draws-IsDrawn

unwrap_reply-create_surb_example :
    (keys : List Bytes) × (surb : Bytes) × (answer : Bytes) × (create_surb config
        (draws_at 0)
        (map node_of (owner 1 ∷ owner 2 ∷ []))
        (replicate 51 3)
      ≡ ok (keys, surb))
    × (travel config (3 ∷ 4 ∷ []) (surb ++ replicate 40 5)
        ≡ ok (relay_meta (owner 2) ∷ [], reply (replicate 51 3) answer))
    × (unwrap_reply keys answer ≡ ok (replicate 40 5))
unwrap_reply-create_surb_example =
    unwrap_reply-create_surb toy-IsLawful config (draws_at 0) (owner 1) (owner 2 ∷ [])
      (replicate 51 3) (replicate 40 5) (omega arith) (omega arith) (λ k. length-replicate k 9)
      (length-replicate 32 2, tt) (length-replicate 51 3)
      (inr (omega (arith, length-replicate {A = ℕ} 40 5)))

aont-IsTransformed_example :
    IsTransformed
      (replicate 3 1 ∷ replicate 4 2 ∷ [])
      ((kappa + length (replicate {A = ℕ} 3 1)) ∷ length (replicate {A = ℕ} 4 2) ∷ [])
      (aont (replicate 16 9) (replicate 3 1 ∷ replicate 4 2 ∷ []))
aont-IsTransformed_example =
    aont-IsTransformed toy-IsLawful (replicate 16 9) (replicate 3 1) (replicate 4 2 ∷ [])
      (length-replicate 16 9)

length-wrap_example :
    (secrets : List ℕ) × (onion : Bytes) × (wrap config
        (draws_at 0)
        (map node_of (owner 1 ∷ owner 2 ∷ []))
        (replicate 52 7)
        (replicate 40 5)
      ≡ ok (secrets, onion))
    × (length secrets ≡ 2)
    × (length onion ≡ alpha_len + header_length config + kappa + length (replicate {A = ℕ} 40 5))
length-wrap_example =
    length-wrap toy-IsLawful config (draws_at 0) (owner 1) (owner 2 ∷ []) (replicate 52 7)
      (replicate 40 5) (omega arith) (omega arith) (λ k. length-replicate k 9)
      (length-replicate 32 2, tt) (length-replicate 52 7)
      (inr (omega (arith, length-replicate {A = ℕ} 40 5)))

-- No byte of a MAC is above 255.
first_or_zero : Bytes → ℕ
first_or_zero [] = 0
first_or_zero (b ∷ bs) = b

small-checksum : (bs : Bytes) → checksum bs ≤ 255
unfolding checksum
small-checksum [] = omega arith
small-checksum (b ∷ bs) = omega arith

small-mu : (key message : Bytes) → first_or_zero (mu key message) ≤ 255
unfolding mu take first_or_zero
small-mu key message = small-checksum ((b'm' ∷ b'u' ∷ []) ++ (key ++ message))

not_mac : (key message : Bytes) → ¬ (replicate 16 300 ≡ mu key message)
unfolding first_or_zero replicate
not_mac key message h =
    let large : 300 ≡ first_or_zero (mu key message) = ap first_or_zero h in
    omega (arith, small-mu key message)

abbrev test_beta : Bytes
test_beta = replicate (header_length config) 1

process-mac_mismatch_example :
    process config 3 (toy.compress 5 ++ (test_beta ++ (replicate 16 300 ++ replicate 40 5)))
    ≡ err mac_mismatch
process-mac_mismatch_example =
    process-mac_mismatch toy-IsLawful config 3 5 test_beta (replicate 16 300) (replicate 40 5)
      (length-replicate (header_length config) 1) (length-replicate 16 300)
      (not_mac (h_mu (5 * 3)) test_beta)

-- What the first witness's message is sent as.
sent :
    (onions : List Bytes) × (parts : List Bytes) × (create_onions config send_draws
        (map path_of (route_a ∷ route_b ∷ []))
        (replicate 32 8)
        (replicate 36 1 ∷ replicate 100 2 ∷ [])
      ≡ ok onions)
    × (arrivals config (route_a ∷ route_b ∷ []) onions
        ≡ ok (numbered (from_be_bytes (replicate 16 6)) 0 parts))
    × (defrag parts ≡ ok (replicate 32 8, flatten (replicate 36 1 ∷ replicate 100 2 ∷ [])))
unfolding last
sent =
    defrag-create_onions toy-IsLawful config send_draws route_a (route_b ∷ []) (node_of (owner 3))
      (replicate 32 8) (replicate 36 1) (replicate 100 2 ∷ []) refl (omega arith)
      (length-replicate 32 8) (omega (arith, length-replicate {A = ℕ} 36 1))
      (length-replicate 100 2, tt) (omega arith)
      (
        omega arith,
        (length-replicate 32 2, (length-replicate 32 3, tt)),
        (omega arith, (length-replicate 32 3, tt), tt),
      )
      (refl, (refl, tt)) (omega arith) send_draws-IsDrawn

create_onions-Checked_example :
    (length (replicate {A = ℕ} 100 2 ∷ []) ≡ 1)
    × (length (replicate {A = ℕ} 36 1) + 2 * kappa + final_hop_meta_length ≡ 100)
    × AllSized 100 (replicate 100 2 ∷ [])
    × AllConverge (path_of route_a) (path_of route_b ∷ [])
create_onions-Checked_example =
    create_onions-Checked config send_draws (path_of route_a) (path_of route_b ∷ [])
      (replicate 32 8) (replicate 36 1) (replicate 100 2 ∷ []) sent.0 sent.2
