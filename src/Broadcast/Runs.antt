-- ===== src/Broadcast/Runs.antt =====
-- What a listener receives over a run, and in what order (forwarder/broadcast/broadcast.go).
use packet_handling.Base.{
  ℕ, ◌≡◌, refl, sym, ap, ◌∙◌, subst, Bool, true, false, inl, inr, List, [], ◌∷◌, ◌++◌, arith, ltb,
  ◌==◌, ==_iff, length, Bool-cases,
}
use mathlib.Core.List.{append_assoc, append-nil}
use packet_handling.GoMap.{Distinct}
use packet_handling.GoMap.Laws.{Distinct-insert, Distinct-delete}
use packet_handling.Broadcast.{
  Broadcaster, Turn, post, dispatch, subscribe, unsubscribe, receive, Event, posted, got,
  try_broadcast, turn, turns, took, sent,
}
use packet_handling.Broadcast.Subsequence.{Within}
use packet_handling.Broadcast.Order.{all_posted, all_got, line, sent-Within, posted-Within}

module _ {T : Type 0} where
  took-Within :
      (k id : ℕ) (q : List T) (b : Broadcaster T) (before P : List T)
      → (b.channels id).queue ≡ q
      → Within (line k before b) P
      → Within (line k (before ++ all_got k (took id q b).1) (took id q b).0) P
  unfolding took
  took-Within k id [] b before P e w = rw (append-nil before) w
  took-Within k id (x ∷ xs) b before P e w = elim (Bool-cases (id == k)) [
    | inl y ↦
        let same : id ≡ k = (==_iff id k).0 y in
        let here : (k == id) ≡ true = ground (arith, same) in
        rw (y, here)
          (subst (λ l. Within l P) (sym (append_assoc before (x ∷ []) (xs ++ b.message)))
            (subst (λ q. Within (before ++ (q ++ b.message)) P)
              (ap (λ j. (b.channels j).queue) (sym same) ∙ e) w))
    | inr n ↦
        let there : (k == id) ≡ false = ground (arith, n) in rw (n, there, append-nil before) w
  ]

  sent-listeners :
      (waiting : ℕ → Bool) (ms : List T) (b : Broadcaster T)
      → (sent waiting ms b).listeners ≡ b.listeners
  unfolding sent
  sent-listeners waiting [] b = refl
  sent-listeners waiting (m ∷ ms) b = refl

  took-listeners :
      (id : ℕ) (q : List T) (b : Broadcaster T) → (took id q b).0.listeners ≡ b.listeners
  unfolding took
  took-listeners id [] b = refl
  took-listeners id (x ∷ xs) b = refl

  took-all_posted : (id : ℕ) (q : List T) (b : Broadcaster T) → all_posted (took id q b).1 ≡ []
  unfolding took
  took-all_posted id [] b = refl
  took-all_posted id (x ∷ xs) b = refl

  turn-Distinct :
      (t : Turn T) (b : Broadcaster T) → Distinct b.listeners → Distinct (turn t b).0.listeners
  unfolding turn
  turn-Distinct (post m) b d = unfold try_broadcast in ground arith
  turn-Distinct (dispatch waiting) b d = subst Distinct (sym (sent-listeners waiting b.message b)) d
  turn-Distinct (subscribe id) b d = Distinct-insert id true b.listeners d
  turn-Distinct (unsubscribe id) b d = Distinct-delete id b.listeners d
  turn-Distinct (receive id) b d =
      subst Distinct (sym (took-listeners id (b.channels id).queue b)) d

  turn-Within :
      (k : ℕ) (t : Turn T) (b : Broadcaster T) (before P : List T)
      → Distinct b.listeners
      → Within (line k before b) P
      → Within
          (line k (before ++ all_got k (turn t b).1) (turn t b).0)
          (P ++ all_posted (turn t b).1)
  unfolding turn try_broadcast
  turn-Within k (post m) b before P d w = elim (Bool-cases (ltb (length b.message) b.bufsize)) [
    | inl y ↦ rw (y, append-nil before) (posted-Within k m b before P w)
    | inr n ↦ rw (n, append-nil before, append-nil P) w
  ]
  turn-Within k (dispatch waiting) b before P d w =
      rw (append-nil before, append-nil P) (sent-Within k waiting b.message b before P d refl w)
  turn-Within k (subscribe id) b before P d w = rw (append-nil before, append-nil P) w
  turn-Within k (unsubscribe id) b before P d w = rw (append-nil before, append-nil P) w
  turn-Within k (receive id) b before P d w =
      rw (took-all_posted id (b.channels id).queue b, append-nil P)
        (took-Within k id (b.channels id).queue b before P refl w)

  all_posted-append :
      (es fs : List (Event T)) → all_posted (es ++ fs) ≡ all_posted es ++ all_posted fs
  all_posted-append [] fs = refl
  all_posted-append (posted m ∷ es) fs = ap (◌∷◌ m) (all_posted-append es fs)
  all_posted-append (got id m ∷ es) fs = all_posted-append es fs

  all_got-append :
      (k : ℕ) (es fs : List (Event T)) → all_got k (es ++ fs) ≡ all_got k es ++ all_got k fs
  all_got-append k [] fs = refl
  all_got-append k (posted m ∷ es) fs = all_got-append k es fs
  all_got-append k (got id m ∷ es) fs = ground (arith, all_got-append k es fs)

  turns-Within :
      (k : ℕ) (ts : List (Turn T)) (b : Broadcaster T) (before P : List T)
      → Distinct b.listeners
      → Within (line k before b) P
      → Within
          (line k (before ++ all_got k (turns ts b).1) (turns ts b).0)
          (P ++ all_posted (turns ts b).1)
  unfolding turns
  turns-Within k [] b before P d w = rw (append-nil before, append-nil P) w
  turns-Within k (t ∷ ts) b before P d w =
      let r = turn t b in
      rw
        (
          all_got-append k r.1 (turns ts r.0).1,
          all_posted-append r.1 (turns ts r.0).1,
          ← append_assoc before (all_got k r.1) (all_got k (turns ts r.0).1),
          ← append_assoc P (all_posted r.1) (all_posted (turns ts r.0).1),
        )
        (turns-Within k ts r.0 (before ++ all_got k r.1) (P ++ all_posted r.1) (turn-Distinct t b d)
          (turn-Within k t b before P d w))

  -- From a broadcaster with nothing in its buffer and an empty channel, however the goroutines take
  -- turns, and whichever sends to a full channel are dropped: what the owner of the channel has
  -- received, followed by what waits in the channel and in the broadcaster, is what `TryBroadcast`
  -- took, in the same order, with entries left out; nothing comes twice.
  pub received_in_order :
      (k : ℕ) (ts : List (Turn T)) (b : Broadcaster T)
      → Distinct b.listeners
      → (b.channels k).queue ≡ []
      → b.message ≡ []
      → let r = turns ts b in
        Within (all_got k r.1 ++ ((r.0.channels k).queue ++ r.0.message)) (all_posted r.1)
  received_in_order k ts b d q m = turns-Within k ts b [] [] d (ap (λ l. l ++ b.message) q ∙ m)
