-- ===== src/Latency/Message.antt =====
-- The values that travel in latency-sim/src/main.rs: `Message`, `Ack`, `Packet` and `Content`, and
-- the methods of `Packet`. A packet holds the content of the next hop, and a message holds the
-- packet that acknowledges it. Sums and differences of `u64` wrap, as in the release build.
use fragging.Common.{ℕ, ◌+◌, ◌-◌, ◌%◌, ◌^◌, ◌<◌, ◌≡◌, ap, Outcome, ok, panic, ◌>>=◌, arith}

pub record Ack : Type 0 where
  pub message_id : ℕ
  pub recipient : ℕ

-- The fields of a `Message` other than its `ack`.
pub record Fields : Type 0 where
  pub id : ℕ
  pub sending_time : ℕ
  pub recipient : ℕ
  pub sender : ℕ
  pub fragment_set : ℕ
  pub fragment_size : ℕ
  pub fragment_index : ℕ

mutual
  pub data Message : Type 0 where
    -- fields, ack
    new : Fields → Packet → Message

  pub data Packet : Type 0 where
    -- destination, delay, content
    hop : ℕ → ℕ → Content → Packet

  pub data Content : Type 0 where
    message : Message → Content
    ack : Ack → Content
    packet : Packet → Content

abbrev pub fields : Message → Fields
fields (new all reply) = all

abbrev pub ack_of : Message → Packet
ack_of (new all reply) = reply

abbrev pub destination : Packet → ℕ
destination (hop node wait inner) = node

abbrev pub delay : Packet → ℕ
delay (hop node wait inner) = wait

abbrev pub content : Packet → Content
content (hop node wait inner) = inner

module _ {E : Type 0} where
  -- `a + b` and `a - b` of `u64`, which wrap and so always return.
  unfoldable pub add : ℕ → ℕ → Outcome E ℕ
  add a b = ok ((a + b) % 2 ^ 64)

  -- A sum that fits is the sum.
  pub add-ok : (a b : ℕ) → a + b < 2 ^ 64 → add a b ≡ ok (a + b)
  unfolding add
  add-ok a b small = let fits : (a + b) % 2 ^ 64 ≡ a + b = omega (arith, small) in ap ok fits

  unfoldable pub sub : ℕ → ℕ → Outcome E ℕ
  sub a b = ok ((a + 2 ^ 64 - b) % 2 ^ 64)

  unfoldable mutual
    pub total_delay : Packet → Outcome E ℕ
    total_delay (hop node wait inner) = do rest ← inner_delay inner; add wait rest

    -- The `match` of `total_delay`.
    pub inner_delay : Content → Outcome E ℕ
    inner_delay (message m) = ok 0
    inner_delay (ack a) = ok 0
    inner_delay (packet p) = total_delay p

  -- `Packet::message`
  unfoldable mutual
    pub message_of : Packet → Outcome E Message
    message_of (hop node wait inner) = inner_message inner

    pub inner_message : Content → Outcome E Message
    inner_message (message m) = ok m
    inner_message (ack a) = panic
    inner_message (packet p) = message_of p

  unfoldable pub message_id : Packet → Outcome E ℕ
  message_id p = do m ← message_of p; ok (fields m).id

  -- `Packet::message_mut`, with what the caller writes through the reference.
  unfoldable mutual
    pub message_mut : (Message → Message) → Packet → Outcome E Packet
    message_mut write (hop node wait inner) = do
      inner' ← inner_mut write inner
      ok (hop node wait inner')

    pub inner_mut : (Message → Message) → Content → Outcome E Content
    inner_mut write (message m) = ok (message (write m))
    inner_mut write (ack a) = panic
    inner_mut write (packet p) = do p' ← message_mut write p; ok (packet p')
