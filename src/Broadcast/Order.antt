-- ===== src/Broadcast/Order.antt =====
-- The order of what waits for a listener (forwarder/broadcast/broadcast.go).
use packet_handling.Base.{
  ℕ, ◌≡◌, refl, sym, ap, ◌∙◌, subst, Bool, false, ◌&&◌, ◌||◌, inl, inr, none, List, [], ◌∷◌, ◌++◌,
  arith, ltb, ◌==◌, ==_iff, if◌then◌else◌, length, Bool-cases, is_some,
}
use mathlib.Core.List.{append_assoc}
use packet_handling.GoMap.{Map, lookup, has, Distinct}
use packet_handling.Broadcast.{
  Channel, Broadcaster, Event, posted, got, is_empty, offer, put_channel, broadcast, sent,
}
use packet_handling.Broadcast.Subsequence.{Within, Within-append, Within-drop}

module _ {T : Type 0} where
  -- The messages that `TryBroadcast` took, and those that the owner of a channel received.
  abbrev pub all_posted : List (Event T) → List T
  all_posted [] = []
  all_posted (posted m ∷ es) = m ∷ all_posted es
  all_posted (got id m ∷ es) = all_posted es

  abbrev pub all_got : ℕ → List (Event T) → List T
  all_got k [] = []
  all_got k (posted m ∷ es) = all_got k es
  all_got k (got id m ∷ es) = let rest = all_got k es in if id == k then m ∷ rest else rest

  broadcast_elsewhere :
      (msg : T) (waiting : ℕ → Bool) (m : Map Bool) (channels : ℕ → Channel T) (k : ℕ)
      → has k m ≡ false
      → broadcast msg waiting m channels k ≡ channels k
  unfolding broadcast
  broadcast_elsewhere msg waiting [] channels k h = refl
  broadcast_elsewhere msg waiting ((id, b) ∷ m) channels k h =
      broadcast_elsewhere msg waiting m
        (put_channel id (offer msg (waiting id) (channels id)) channels) k (ground arith)
      ∙ ground arith

  -- A listener is offered the message once, any other channel not at all.
  broadcast_at :
      (msg : T) (waiting : ℕ → Bool) (m : Map Bool) (channels : ℕ → Channel T) (k : ℕ)
      → Distinct m
      → broadcast msg waiting m channels k
        ≡ (if has k m then offer msg (waiting k) (channels k) else channels k)
  unfolding broadcast
  broadcast_at msg waiting [] channels k d = refl
  broadcast_at msg waiting ((id, b) ∷ m) channels k d = elim (Bool-cases (id == k)) [
    | inl e ↦
        let same : id ≡ k = (==_iff id k).0 e in
        let absent : has k m ≡ false = ap is_some (subst (λ j. lookup j m ≡ none) same d.0) in
        broadcast_elsewhere msg waiting m
          (put_channel id (offer msg (waiting id) (channels id)) channels) k absent
        ∙ ground (arith, same)
    | inr e ↦
        broadcast_at msg waiting m (put_channel id (offer msg (waiting id) (channels id)) channels)
          k d.1
        ∙ ground arith
  ]

  -- A message at the front of the broadcaster may be passed by, and the rest stays in line.
  pub passed_by :
      (m : T) (c : Channel T) (before after P : List T)
      → Within (before ++ (c.queue ++ m ∷ after)) P
      → Within (before ++ (c.queue ++ after)) P
  passed_by m c before after P w =
      subst (λ l. Within l P) (append_assoc before c.queue after)
        (Within-drop (before ++ c.queue) after P m
          (subst (λ l. Within l P) (sym (append_assoc before c.queue (m ∷ after))) w))

  -- A message that is offered to a channel is put at its end or passed by.
  pub offered :
      (m : T) (waits : Bool) (c : Channel T) (before after P : List T)
      → Within (before ++ (c.queue ++ m ∷ after)) P
      → Within (before ++ ((offer m waits c).queue ++ after)) P
  unfolding offer
  offered m waits c before after P w =
      elim (Bool-cases (ltb (length c.queue) c.capacity || (waits && is_empty c.queue))) [
        | inl y ↦
            rw (y, offer)
              (subst (λ l. Within (before ++ l) P) (sym (append_assoc c.queue (m ∷ []) after)) w)
        | inr n ↦ rw (n, offer) (passed_by m c before after P w)
      ]

  abbrev pub line : ℕ → List T → Broadcaster T → List T
  line k before b = before ++ ((b.channels k).queue ++ b.message)

  pub sent-Within :
      (k : ℕ) (waiting : ℕ → Bool) (ms : List T) (b : Broadcaster T) (before P : List T)
      → Distinct b.listeners
      → b.message ≡ ms
      → Within (line k before b) P
      → Within (line k before (sent waiting ms b)) P
  unfolding sent
  sent-Within k waiting [] b before P d e w = w
  sent-Within k waiting (m ∷ ms) b before P d e w =
      let w' : Within (before ++ ((b.channels k).queue ++ m ∷ ms)) P =
        subst (λ l. Within (before ++ ((b.channels k).queue ++ l)) P) e w in
      elim (Bool-cases (has k b.listeners)) [
        | inl y ↦
            rw (broadcast_at m waiting b.listeners b.channels k d, y)
              (offered m (waiting k) (b.channels k) before ms P w')
        | inr n ↦
            rw (broadcast_at m waiting b.listeners b.channels k d, n)
              (passed_by m (b.channels k) before ms P w')
      ]

  pub posted-Within :
      (k : ℕ) (m : T) (b : Broadcaster T) (before P : List T)
      → Within (line k before b) P
      → Within (before ++ ((b.channels k).queue ++ (b.message ++ m ∷ []))) (P ++ m ∷ [])
  posted-Within k m b before P w =
      subst (λ l. Within l (P ++ m ∷ []))
        (append_assoc before ((b.channels k).queue ++ b.message) (m ∷ [])
          ∙ ap (◌++◌ before) (append_assoc (b.channels k).queue b.message (m ∷ [])))
        (Within-append (line k before b) P m w)
