-- ===== src/RouterClient/Reconnect.antt =====
-- The reconnect loop of `Run` and `updateJoinFilter` (forwarder/router_client.go).
use packet_handling.Base.{
  ℕ, ◌*◌, Bool, true, false, Option, none, some, List, [], ◌∷◌, ltb, if◌then◌else◌,
}
use packet_handling.Base.Time.{second, minute}
use packet_handling.Wire.{JoinFilter}
use packet_handling.Route.{Router, RouterDetails, set_join_filter}
use packet_handling.RouterClient.Defs.{Outcome, send_failed, connection_lost, endpoint_changed}
use packet_handling.RouterClient.Step.{apply_details}

-- `nextReconnectInterval`
unfoldable pub next_reconnect_interval : ℕ → ℕ
next_reconnect_interval interval =
    if ltb interval second
    then 5 * second
    else if ltb (5 * minute) (interval * 2)
    then 5 * minute
    else interval * 2

-- A run that lasted more than a minute resets the interval.
unfoldable pub after_run : ℕ → ℕ → ℕ
after_run lasted interval = if ltb minute lasted then 0 else interval

-- The interval that is waited for after a run that failed.
unfoldable pub reconnect : ℕ → ℕ → ℕ
unfolding next_reconnect_interval after_run
reconnect lasted interval = next_reconnect_interval (after_run lasted interval)

-- `Run` tries again exactly where `run` returned an error.
abbrev pub tries_again : Outcome → Bool
tries_again send_failed = true
tries_again connection_lost = true
tries_again endpoint_changed = true
tries_again _ = false

module _ {Bitmap : Type 0} where
  -- The details that arrive before the next attempt, in order.
  unfoldable pub take_details : List RouterDetails → Router Bitmap → Router Bitmap
  take_details [] r = r
  take_details (d ∷ ds) r =
      take_details ds (apply_details r d.endpoint d.net_id d.prefix d.mask d.owner)

  abbrev with_bitmap : Router Bitmap → Option Bitmap → Router Bitmap
  with_bitmap r none = r
  with_bitmap r (some bitmap) = set_join_filter r none (some bitmap)

  -- `updateJoinFilter`: the reply, or `none` where the call failed; the decoder of bitmaps is
  -- roaring64's.
  unfoldable pub update_join_filter_of :
      (List ℕ → Option Bitmap) → Router Bitmap → Option JoinFilter → Router Bitmap
  update_join_filter_of unmarshal r none = r
  update_join_filter_of unmarshal r (some reply) = elim reply.roaring_bitmap [
    | [] ↦ set_join_filter r reply.xor8 none
    | b ∷ bs ↦ with_bitmap r (unmarshal (b ∷ bs))
  ]
