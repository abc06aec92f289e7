-- ===== src/Broadcast.antt =====
-- The broadcaster: forwarder/broadcast/broadcast.go. A channel is a number with a buffer; `waiting`
-- says of a channel whether a receiver blocks on it. Each step is one turn of a goroutine.
pub mod Subsequence
pub mod Order
pub mod Runs
mod Tests
use packet_handling.Base.{
  ℕ, Bool, true, false, ◌&&◌, ◌||◌, Option, none, some, List, [], ◌∷◌, ◌++◌, ltb, ◌==◌,
  if◌then◌else◌, length,
}
use packet_handling.GoMap.{Map, insert, delete}

pub record Channel (T : Type 0) : Type 0 where
  pub capacity : ℕ
  pub queue : List T

-- `Broadcaster`: the buffer of `message`, the set of listeners, and the channels of the program.
pub record Broadcaster (T : Type 0) : Type 0 where
  pub bufsize : ℕ
  pub message : List T
  pub listeners : Map Bool
  pub channels : ℕ → Channel T

-- A turn of `TryBroadcast`, of the loop of `Run` with a message, a subscription or its end, and a
-- receive by the owner of a channel.
pub data Turn (T : Type 0) : Type 0 where
  post : T → Turn T
  dispatch : (ℕ → Bool) → Turn T
  subscribe : ℕ → Turn T
  unsubscribe : ℕ → Turn T
  receive : ℕ → Turn T

pub data Event (T : Type 0) : Type 0 where
  posted : T → Event T
  got : ℕ → T → Event T

module _ {T : Type 0} where
  abbrev pub is_empty : List T → Bool
  is_empty [] = true
  is_empty (x ∷ xs) = false

  -- `select` with a default: the send happens where the buffer has room or a receiver waits.
  unfoldable pub offer : T → Bool → Channel T → Channel T
  offer msg waits c =
      if ltb (length c.queue) c.capacity || (waits && is_empty c.queue)
      then record c { queue = c.queue ++ msg ∷ [] }
      else c

  abbrev pub put_channel : ℕ → Channel T → (ℕ → Channel T) → ℕ → Channel T
  put_channel id c channels j = if j == id then c else channels j

  -- `broadcast`, over the listeners in the order of the range
  unfoldable pub broadcast : T → (ℕ → Bool) → Map Bool → (ℕ → Channel T) → ℕ → Channel T
  broadcast msg waiting [] channels = channels
  broadcast msg waiting ((id, b) ∷ listeners) channels =
      broadcast msg waiting listeners
        (put_channel id (offer msg (waiting id) (channels id)) channels)

  -- `TryBroadcast`
  unfoldable pub try_broadcast : T → Broadcaster T → Bool × Broadcaster T
  try_broadcast msg b =
      if ltb (length b.message) b.bufsize
      then (true, record b { message = b.message ++ msg ∷ [] })
      else (false, b)

  unfoldable pub took : ℕ → List T → Broadcaster T → Broadcaster T × List (Event T)
  took id [] b = (b, [])
  took id (x ∷ xs) b = (
    record b { channels = put_channel id (record (b.channels id) { queue = xs }) b.channels },
    got id x ∷ [],
  )

  unfoldable pub sent : (ℕ → Bool) → List T → Broadcaster T → Broadcaster T
  sent waiting [] b = b
  sent waiting (x ∷ xs) b = record b {
    message = xs;
    channels = broadcast x waiting b.listeners b.channels;
  }

  unfoldable pub turn : Turn T → Broadcaster T → Broadcaster T × List (Event T)
  unfolding took sent
  turn (post msg) b = let r = try_broadcast msg b in (r.1, if r.0 then posted msg ∷ [] else [])
  turn (dispatch waiting) b = (sent waiting b.message b, [])
  turn (subscribe id) b = (record b { listeners = insert id true b.listeners }, [])
  turn (unsubscribe id) b = (record b { listeners = delete id b.listeners }, [])
  turn (receive id) b = took id (b.channels id).queue b

  unfoldable pub turns : List (Turn T) → Broadcaster T → Broadcaster T × List (Event T)
  turns [] b = (b, [])
  turns (t ∷ ts) b = let r = turn t b in let rest = turns ts r.0 in (rest.0, r.1 ++ rest.1)
