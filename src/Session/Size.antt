-- ===== src/Session/Size.antt =====
-- How many sends are pending after a round.
use wu_kong_easy_sdk_rust.Base.{ℕ, ◌+◌, ◌≤◌, String, Bool, none, some, [], ◌∷◌, length, arith}
use wu_kong_easy_sdk_rust.Json.{Json, Base64}
use wu_kong_easy_sdk_rust.Types.Options.{Options}
use wu_kong_easy_sdk_rust.Session.State.{PendingMap, State, remove, insert}
use wu_kong_easy_sdk_rust.Session.Round.{
  retain_open, Branch, timer_ready, command_ready, frame_ready, Input, round,
}
use wu_kong_easy_sdk_rust.Session.Rounds.{swept}
use wu_kong_easy_sdk_rust.Session.Leaves.{Holds, Admits, left-expire, Leaves-round}

length-remove : (key : String) (m : PendingMap) → length (remove key m) ≤ length m
unfolding remove
length-remove key [] = omega arith
length-remove key ((id, p) ∷ m) = ground (arith, length-remove key m)

length-retain_open : (gone : ℕ → Bool) (m : PendingMap) → length (retain_open gone m) ≤ length m
unfolding retain_open
length-retain_open gone [] = omega arith
length-retain_open gone ((id, p) ∷ m) = ground (arith, length-retain_open gone m)

abbrev pub AtMost : ℕ → PendingMap → Type 0
AtMost n m = length m ≤ n

AtMost-remove : (n : ℕ) (key : String) (m : PendingMap) → AtMost n m → AtMost n (remove key m)
AtMost-remove n key m h = omega (arith, h, length-remove key m)

AtMost-swept :
    (J : Json) (B : Base64) (o : Options) (s : State) (i : Input J)
    → AtMost (length s.pending) (swept J s i).pending
AtMost-swept J B o s i =
    let n = length s.pending in
    left-expire (AtMost n) (AtMost-remove n) J B o _ _ (length-retain_open i.closed s.pending)

-- How many commands a branch takes from the queue.
abbrev pub commands_of : {J : Json} → Branch J → ℕ
commands_of (command_ready (some c) generation now io) = 1
commands_of _ = 0

AtMost-Admits :
    {J : Json} (n : ℕ) (s : State) (b : Branch J)
    → length s.pending + commands_of b ≤ n
    → Admits (AtMost n) s b
unfolding insert
AtMost-Admits n s (timer_ready now later id io) h = tt
AtMost-Admits n s (command_ready none generation now io) h = tt
AtMost-Admits n s (command_ready (some c) generation now io) h =
    omega (arith, h, length-remove c.id s.pending)
AtMost-Admits n s (frame_ready f now io) h = tt

-- A round leaves no more sends pending than there were, and one more if it takes a command.
pub AtMost-round :
    (J : Json) (B : Base64) (o : Options) (s : State) (i : Input J)
    → Holds (AtMost (length s.pending + commands_of i.branch)) (round J B o s i).result
AtMost-round J B o s i =
    let fewer = AtMost-swept J B o s i in
    Leaves-round (AtMost (length s.pending + commands_of i.branch)) (AtMost-remove _) J B o s i
      (omega (arith, fewer)) (AtMost-Admits _ (swept J s i) i.branch (omega (arith, fewer)))
