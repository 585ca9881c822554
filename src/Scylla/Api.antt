-- ===== src/Scylla/Api.antt =====
-- The functions of scylla/src/lib.rs that a sender and a receiver call: `create_onions`, `defrag`,
-- `create_surb`, `unwrap_reply`.
pub mod Send
pub mod Reply
pub mod Checks
use fragging.Common.{
  ℕ, ◌+◌, ◌-◌, ◌*◌, List, [], ◌∷◌, ◌++◌, map, length, take, drop, Option, none, some, Outcome, ok,
  err, panic, assert, ensure, slice, slice_from, ◌>>=◌, ◌>>◌, ◌==◌, ltb, if◌then◌else◌, bytes_eq,
  to_be_bytes, Bool, true, false, not, ◌&&◌, ◌||◌, flatten,
}
use fragging.Scylla.Primitives.{Primitives, Bytes}
use fragging.Scylla.Crypto.{
  Error, invalid_fragment_size, invalid_path_count, missing_fragments, diverging_paths, Flag,
  flag_byte, kappa, final_hop_meta_length, reply_meta_length, h_pi, pi,
}
use fragging.Scylla.Aont.{aont, aont_inv}
use fragging.Scylla.Onion.{Scylla, Node, Draws, zeros, last, wrap}

-- What `create_onions` draws: for `aont`, for the set of fragments, and for each onion.
pub record SendDraws : Type 0 where
  pub randomness : Bytes
  pub frag_set_id : Bytes
  pub wraps : ℕ → Draws

-- `fragments[1..]` are all of this size.
pub all_sized : ℕ → List Bytes → Bool
all_sized size [] = true
all_sized size (f ∷ fs) = length f == size && all_sized size fs

-- `bytes.iter().any(|x| *x != 0)`
pub any_nonzero : Bytes → Bool
any_nonzero [] = false
any_nonzero (b ∷ bs) = not (b == 0) || any_nonzero bs

-- The final routing information of fragment `i`: the index fills the last eight of its 16 bytes.
pub fragment_info : ℕ → Bytes → Bytes
fragment_info i frag_set_id =
    flag_byte Flag.fragment
    ∷ ((zeros (kappa - 8) ++ to_be_bytes 8 i)
        ++ (frag_set_id ++ zeros (reply_meta_length - 2 * kappa)))

module _ ⦃p : Primitives⦄ where
  open p use {Point, point_eq}

  pub node_eq : Node Point → Node Point → Bool
  node_eq a b = bytes_eq a.address b.address && point_eq a.public_key b.public_key

  pub last_eq : Option (Node Point) → Option (Node Point) → Bool
  last_eq none none = true
  last_eq none (some b) = false
  last_eq (some a) none = false
  last_eq (some a) (some b) = node_eq a b

  -- All these paths end where `first` ends.
  pub converge : List (Node Point) → List (List (Node Point)) → Bool
  converge first [] = true
  converge first (path ∷ paths) = last_eq (last path) (last first) && converge first paths

  -- The `zip` of paths and payloads, with the index of each.
  pub wrap_all :
      Scylla → SendDraws → ℕ → List (List (Node Point)) → List Bytes → Outcome Error (List Bytes)
  wrap_all s draws i [] payloads = ok []
  wrap_all s draws i (path ∷ paths) [] = ok []
  wrap_all s draws i (path ∷ paths) (payload ∷ payloads) = do
    (secrets, onion) ← wrap s (draws.wraps i) path (fragment_info i draws.frag_set_id) payload
    onions ← wrap_all s draws (i + 1) paths payloads
    ok (onion ∷ onions)

  -- `create_onions` once the counts agree and there is a fragment.
  pub create_some :
      Scylla
      → SendDraws
      → List (Node Point)
      → List (List (Node Point))
      → Bytes
      → Bytes
      → List Bytes
      → Outcome Error (List Bytes)
  create_some s draws path paths destination fragment fragments = do
    ensure (length fragment + 2 * kappa + final_hop_meta_length == s.payload_size)
        invalid_fragment_size
    ensure (all_sized s.payload_size fragments) invalid_fragment_size
    ensure (converge path paths) diverging_paths
    let first_fragment = zeros kappa ++ (destination ++ fragment)
    transformed ← aont draws.randomness (first_fragment ∷ fragments)
    assert (all_sized s.payload_size transformed)
    wrap_all s draws 0 (path ∷ paths) transformed

  pub create_onions :
      Scylla
      → SendDraws
      → List (List (Node Point))
      → Bytes
      → List Bytes
      → Outcome Error (List Bytes)
  create_onions s draws [] destination [] = ok []
  create_onions s draws [] destination (f ∷ fs) = err invalid_path_count
  create_onions s draws (path ∷ paths) destination [] = err invalid_path_count
  create_onions s draws (path ∷ paths) destination (f ∷ fs) =
      if length fs == length paths
      then create_some s draws path paths destination f fs
      else err invalid_path_count

  pub defrag : List Bytes → Outcome Error (Bytes × Bytes)
  defrag fragments = do
    new_fragments ← aont_inv fragments
    let message = flatten new_fragments
    ensure (not (ltb (length message) kappa || any_nonzero (take kappa message))) missing_fragments
    let rest = drop kappa message
    address ← slice 0 final_hop_meta_length rest
    content ← slice_from final_hop_meta_length rest
    ok (address, content)

  -- `secrets.iter().map(h_pi)`
  pub payload_keys : List Point → Outcome Error (List Bytes)
  payload_keys [] = ok []
  payload_keys (s ∷ ss) = do key ← h_pi s; keys ← payload_keys ss; ok (key ∷ keys)

  pub create_surb : Scylla → Draws → List (Node Point) → Bytes → Outcome Error (List Bytes × Bytes)
  create_surb s draws path meta = do
    (secrets, surb) ← wrap s draws path (flag_byte Flag.deliver ∷ meta) []
    keys ← payload_keys secrets
    ok (keys, surb)

  -- The loop over the keys from the last to the first.
  pub unwrap_reply : List Bytes → Bytes → Outcome Error Bytes
  unwrap_reply [] message = ok message
  unwrap_reply (secret ∷ secrets) message = do inner ← unwrap_reply secrets message; pi secret inner
