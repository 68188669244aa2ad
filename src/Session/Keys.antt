-- ===== src/Session/Keys.antt =====
-- The keys of the pending sends over a round.
use wu_kong_easy_sdk_rust.Base.{
  ℕ, ◌≡◌, refl, String, Bool, none, some, [], ◌∷◌, str_eq, arith, Bool-cases, inl, inr, eq_iff,
}
use wu_kong_easy_sdk_rust.Json.{Json, Base64}
use wu_kong_easy_sdk_rust.Types.Failure.{Result}
use wu_kong_easy_sdk_rust.Types.Options.{Options}
use wu_kong_easy_sdk_rust.Session.State.{Pending, PendingMap, State, lookup, remove, insert}
use wu_kong_easy_sdk_rust.Session.Round.{
  retain_open, Branch, timer_ready, command_ready, frame_ready, Input, round,
}
use wu_kong_easy_sdk_rust.Session.Deadlines.{NodupKeys}
use wu_kong_easy_sdk_rust.Session.Rounds.{swept, lookup-remove-none, lookup-retain_open-none}
use wu_kong_easy_sdk_rust.Session.Leaves.{Holds, Admits, left-expire, Leaves-round}

pub NodupKeys-remove : (key : String) (m : PendingMap) → NodupKeys m → NodupKeys (remove key m)
unfolding remove
NodupKeys-remove key [] h = tt
NodupKeys-remove key ((id, p) ∷ m) h = elim (Bool-cases (str_eq id key)) [
  | inl e ↦ rw (e, remove) h.1
  | inr e ↦ rw (e, remove) (lookup-remove-none id key m h.0, NodupKeys-remove key m h.1)
]

lookup-remove : (key : String) (m : PendingMap) → NodupKeys m → lookup key (remove key m) ≡ none
unfolding remove lookup
lookup-remove key [] h = refl
lookup-remove key ((id, p) ∷ m) h = ground (arith, lookup-remove key m h.1, h.0, eq_iff id key)

pub NodupKeys-insert :
    (key : String) (p : Pending) (m : PendingMap) → NodupKeys m → NodupKeys (insert key p m)
unfolding insert
NodupKeys-insert key p m h = (lookup-remove key m h, NodupKeys-remove key m h)

pub NodupKeys-retain_open :
    (gone : ℕ → Bool) (m : PendingMap) → NodupKeys m → NodupKeys (retain_open gone m)
unfolding retain_open
NodupKeys-retain_open gone [] h = tt
NodupKeys-retain_open gone ((id, p) ∷ m) h = elim (Bool-cases (gone p.reply)) [
  | inl e ↦ rw (e, retain_open) (NodupKeys-retain_open gone m h.1)
  | inr e ↦
      rw (e, retain_open) (lookup-retain_open-none id gone m h.0, NodupKeys-retain_open gone m h.1)
]

abbrev pub KeysDiffer : Result State → Type 0
KeysDiffer r = Holds NodupKeys r

NodupKeys-Admits :
    {J : Json} (s : State) (b : Branch J) → NodupKeys s.pending → Admits NodupKeys s b
NodupKeys-Admits s (timer_ready now later id io) h = tt
NodupKeys-Admits s (command_ready none generation now io) h = tt
NodupKeys-Admits s (command_ready (some c) generation now io) h =
    NodupKeys-insert c.id _ s.pending h
NodupKeys-Admits s (frame_ready f now io) h = tt

module _ (J : Json) (B : Base64) (o : Options) where
  pub NodupKeys-round :
      (s : State) (i : Input J) → NodupKeys s.pending → KeysDiffer (round J B o s i).result
  NodupKeys-round s i h =
      let kept =
        left-expire NodupKeys NodupKeys-remove J B o _ _
          (NodupKeys-retain_open i.closed s.pending h) in
      Leaves-round NodupKeys NodupKeys-remove J B o s i kept
        (NodupKeys-Admits (swept J s i) i.branch kept)
