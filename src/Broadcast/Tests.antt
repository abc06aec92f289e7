-- ===== src/Broadcast/Tests.antt =====
-- The broadcaster at work: two listeners, one of them with a channel of one place.
use packet_handling.Base.{ℕ, refl, true, List, [], ◌∷◌, ◌++◌}
use packet_handling.Broadcast.{Broadcaster, Turn, post, dispatch, subscribe, receive, turns}
use packet_handling.Broadcast.Subsequence.{Within}
use packet_handling.Broadcast.Order.{all_got, all_posted}
use packet_handling.Broadcast.Runs.{received_in_order}

abbrev idle : Broadcaster ℕ
idle = record {
  bufsize = 2;
  message = [];
  listeners = (1, true) ∷ [];
  channels = λ id. record { capacity = id; queue = [] };
}

abbrev busy : List (Turn ℕ)
busy =
    subscribe 2
    ∷ post 10
    ∷ post 20
    ∷ post 30
    ∷ dispatch (λ id. true)
    ∷ dispatch (λ id. true)
    ∷ receive 1
    ∷ receive 2
    ∷ []

received_in_order_example :
    Within
      (all_got 1 (turns busy idle).1
        ++ (((turns busy idle).0.channels 1).queue ++ (turns busy idle).0.message))
      (all_posted (turns busy idle).1)
received_in_order_example = received_in_order 1 busy idle (refl, tt) refl refl
