-- ===== src/Latency/User.antt =====
-- `UserEvent` and `User` of latency-sim/src/main.rs: what a user waits for, the fragments it has of
-- each set, when it saw a set first, and the messages that it may have to send again.
use fragging.Common.{
  ℕ, ◌%◌, ◌^◌, Bool, true, not, [], ◌∷◌, List, length, Option, none, some, ◌==◌, if◌then◌else◌,
}
use fragging.Latency.Message.{Message, Packet}
use fragging.Latency.Queue
use fragging.Latency.Queue.{Queue, first_time, pop_first, retain}
use fragging.Latency.Table
use fragging.Latency.Table.{Table, get}

pub data UserEvent : Type 0 where
  message : Message → UserEvent
  egress : Packet → UserEvent
  ack_timeout : ℕ → UserEvent
  send_message : ℕ → UserEvent

pub record User (Float : Type 0) : Type 0 where
  pub events : Queue UserEvent
  pub fragments : Table (List ℕ)
  pub t_first : Table ℕ
  pub original_messages : Table Message
  pub drop_chance : Float

-- `HashSet::insert`
unfoldable pub set_insert : ℕ → List ℕ → List ℕ
set_insert n [] = n ∷ []
set_insert n (m ∷ ms) = if m == n then m ∷ ms else m ∷ set_insert n ms

-- `entry(..).or_default()`
abbrev pub or_empty : Option (List ℕ) → List ℕ
or_empty none = []
or_empty (some set) = set

-- `!matches!(e, UserEvent::AckTimeout(id) if *id == ack.message_id)`
abbrev pub is_kept : ℕ → UserEvent → Bool
is_kept id (ack_timeout other) = not (other == id)
is_kept id (message m) = true
is_kept id (egress p) = true
is_kept id (send_message n) = true

module _ {Float : Type 0} where
  unfoldable pub insert : ℕ → UserEvent → User Float → User Float
  insert timestamp event user = record user { events = Queue.insert timestamp event user.events }

  abbrev pub next : User Float → Option ℕ
  next user = first_time user.events

  -- The first event, and the user without it; nothing where the code panics.
  unfoldable pub pop : User Float → Option (UserEvent × User Float)
  pop user = elim (pop_first user.events) [
    | none ↦ none
    | some (event, rest) ↦ some (event, record user { events = rest })
  ]

  unfoldable pub mark_fragment : ℕ → ℕ → User Float → User Float
  mark_fragment set index user = record user {
    fragments =
        Table.insert set (set_insert index (or_empty (get set user.fragments))) user.fragments;
  }

  -- `s.len() as u32`, or 0
  unfoldable pub fragment_set_size : ℕ → User Float → ℕ
  fragment_set_size set user = length (or_empty (get set user.fragments)) % 2 ^ 32

  -- What an `Ack` does to the events of its recipient.
  unfoldable pub clear_timeouts : ℕ → User Float → User Float
  clear_timeouts id user = record user { events = retain (is_kept id) user.events }

  abbrev pub or_insert : ℕ → ℕ → Option ℕ → User Float → User Float
  or_insert set timestamp none user = record user {
    t_first = Table.insert set timestamp user.t_first;
  }
  or_insert set timestamp (some earlier) user = user

  -- `user.t_first.entry(set).or_insert(timestamp)`
  unfoldable pub see_first : ℕ → ℕ → User Float → User Float
  see_first set timestamp user = or_insert set timestamp (get set user.t_first) user
