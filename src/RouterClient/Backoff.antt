-- ===== src/RouterClient/Backoff.antt =====
-- How long a client waits before it reconnects (`Run` of forwarder/router_client.go).
use Prim.Native.Nat.{min}
use native.Mathlib.Nat.{pow-suc, one-le-pow}
use packet_handling.Base.{ℕ, ◌*◌, ◌^◌, ◌≤◌, ◌<◌, ◌≡◌, List, [], ◌∷◌, ◌++◌, arith, length}
use packet_handling.Base.Time.{second, minute}
use packet_handling.RouterClient.Reconnect.{reconnect}

-- The wait after runs that failed, by how long each run lasted, the last one first.
unfoldable pub waited : List ℕ → ℕ
waited [] = 5 * second
waited (lasted ∷ earlier) = reconnect lasted (waited earlier)

-- A streak of runs of at most a minute each.
abbrev pub Short : List ℕ → Type 0
Short [] = Unit
Short (l ∷ ls) = (l ≤ minute) × Short ls

-- After a run of more than a minute the wait is five seconds, though the source speaks of a retry at once;
-- each short run that fails after it doubles the wait, up to five minutes.
pub waited_streak :
    (streak : List ℕ) (long : ℕ) (earlier : List ℕ)
    → Short streak
    → minute < long
    → waited (streak ++ long ∷ earlier) ≡ min (5 * second * 2 ^ length streak) (5 * minute)
unfolding waited reconnect
waited_streak [] long earlier s h = ground arith
waited_streak (l ∷ ls) long earlier s h =
    ground
      (arith, waited_streak ls long earlier s.1 h, pow-suc 2 (length ls), one-le-pow (length ls) 2)
