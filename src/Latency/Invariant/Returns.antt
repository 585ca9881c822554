-- ===== src/Latency/Invariant/Returns.antt =====
-- The calls of latency-sim/src/main.rs that leave the state alone return or panic, and never end the
-- simulation's step with an error.
use fragging.Common.{ℕ, List, [], ◌∷◌, Option, none, some, unwrap, >>=-Ensures, Ensures}
use fragging.Latency.Sources.{Sources}
use fragging.Latency.Message.{
  Message, Packet, Content, hop, message, ack, packet, add, sub, total_delay, inner_delay,
  message_of, inner_message, message_mut, inner_mut, message_id,
}
use fragging.Latency.Simulation.Actions.{Sim, add32}
use fragging.Latency.Simulation.Egress.{timeout_of, backdate}
use fragging.Latency.Invariant.{IsIdle}

abbrev pub Any : {A : Type 0} → A → Type 0
Any a = Unit

module _ {E : Type 0} (Q : E → Type 0) where
  pub unwrap-Any : {A : Type 0} (found : Option A) → Ensures Any Q (unwrap found)
  unwrap-Any none = record { holds = tt }
  unwrap-Any (some a) = record { holds = tt }

  pub add-Any : (a b : ℕ) → Ensures Any Q (add a b)
  unfolding add
  add-Any a b = record { holds = tt }

  pub sub-Any : (a b : ℕ) → Ensures Any Q (sub a b)
  unfolding sub
  sub-Any a b = record { holds = tt }

  pub add32-Any : (a b : ℕ) → Ensures Any Q (add32 a b)
  unfolding add32
  add32-Any a b = record { holds = tt }

  mutual
    unfolding total_delay inner_delay

    pub total_delay-Any : (p : Packet) → Ensures Any Q (total_delay p)
    total_delay-Any (hop node wait inner) =
        >>=-Ensures _ _ (inner_delay-Any inner) (λ rest k. add-Any wait rest)

    inner_delay-Any : (c : Content) → Ensures Any Q (inner_delay c)
    inner_delay-Any (message m) = record { holds = tt }
    inner_delay-Any (ack a) = record { holds = tt }
    inner_delay-Any (packet p) = total_delay-Any p

  mutual
    unfolding message_of inner_message

    pub message_of-Any : (p : Packet) → Ensures Any Q (message_of p)
    message_of-Any (hop node wait inner) = inner_message-Any inner

    inner_message-Any : (c : Content) → Ensures Any Q (inner_message c)
    inner_message-Any (message m) = record { holds = tt }
    inner_message-Any (ack a) = record { holds = tt }
    inner_message-Any (packet p) = message_of-Any p

  mutual
    unfolding message_mut inner_mut

    pub message_mut-Any :
        (write : Message → Message) (p : Packet) → Ensures Any Q (message_mut write p)
    message_mut-Any write (hop node wait inner) =
        >>=-Ensures _ _ (inner_mut-Any write inner) (λ inner' k. record { holds = tt })

    inner_mut-Any : (write : Message → Message) (c : Content) → Ensures Any Q (inner_mut write c)
    inner_mut-Any write (message m) = record { holds = tt }
    inner_mut-Any write (ack a) = record { holds = tt }
    inner_mut-Any write (packet p) =
        >>=-Ensures _ _ (message_mut-Any write p) (λ p' k. record { holds = tt })

  pub message_id-Any : (p : Packet) → Ensures Any Q (message_id p)
  unfolding message_id
  message_id-Any p = >>=-Ensures _ _ (message_of-Any p) (λ m k. record { holds = tt })

module _ ⦃s : Sources⦄ where
  pub timeout_of-Any : (total : ℕ) (sim : Sim) → Ensures Any IsIdle (timeout_of total sim)
  unfolding timeout_of
  timeout_of-Any total sim = add32-Any IsIdle _ _

  pub backdate-Any : (time : ℕ) (packets : List Packet) → Ensures Any IsIdle (backdate time packets)
  unfolding backdate
  backdate-Any time [] = record { holds = tt }
  backdate-Any time (p ∷ packets) =
      >>=-Ensures _ _ (message_mut-Any IsIdle _ p)
        (λ dated k. >>=-Ensures _ _ (backdate-Any time packets) (λ rest l. record { holds = tt }))
