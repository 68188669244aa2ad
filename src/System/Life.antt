-- ===== src/System/Life.antt =====
-- The life of one send as an abstract state machine: a call, a place in the queue, a pending entry.
pub mod Steps
use wu_kong_easy_sdk_rust.Base.{
  ℕ, suc, ◌+◌, ◌≤◌, ◌≡◌, refl, List, [], ◌∷◌, arith, ap, sym, ◌∙◌, subst, ◌==◌, zero, inl, inr,
  Bool-cases, zero_or_suc,
}
use wu_kong_easy_sdk_rust.Json.{Json, Base64}
use wu_kong_easy_sdk_rust.Types.Options.{Options}
use wu_kong_easy_sdk_rust.Session.State.{Command, Effect}
use wu_kong_easy_sdk_rust.Session.Round.{start}
use wu_kong_easy_sdk_rust.System.{
  entered, cleared, Caller, System, command_of, Step, enter, call, push, count, announce, serve,
  fail, part, drain, stop, settle, open_run, destroy,
}
use wu_kong_easy_sdk_rust.Session.Answers.{one_if, held, answers}
use wu_kong_easy_sdk_rust.System.Accounts.{
  calling, queued, pending, unused, calling-append, queued-append, calling-split, takes_ticket,
  queued-Takes, calling-call, round_account, failed_round_account,
}

-- Not begun, in its call, in the queue, pending in a session, or done with.
pub data Life : Type 0 where
  unborn in_call in_queue in_session over : Life

-- What may become of a send, and how many answers it gets thereby.
pub data Move : Life → ℕ → Life → Type 0 where
  stay : {l : Life} → Move l 0 l
  begin : Move unborn 0 in_call
  give_up : Move in_call 0 over
  line_up : Move in_call 0 in_queue
  write_out : Move in_queue 0 in_session
  refuse : Move in_queue 1 over
  discard : Move in_queue 0 over
  reply_to : Move in_session 1 over
  lose : Move in_session 0 over

abbrev pub unused_in : Life → ℕ
unused_in unborn = 1
unused_in _ = 0

abbrev pub calling_in : Life → ℕ
calling_in in_call = 1
calling_in _ = 0

abbrev pub queued_in : Life → ℕ
queued_in in_queue = 1
queued_in _ = 0

abbrev pub pending_in : Life → ℕ
pending_in in_session = 1
pending_in _ = 0

-- The ticket is where its life says, and nowhere else.
pub record Lives {J : Json} (t : ℕ) (s : System J) (l : Life) : Type 0 where
  pub not_begun : unused J t s ≡ unused_in l
  pub called : calling J t s.callers ≡ calling_in l
  pub waits : queued J t s.queue ≡ queued_in l
  pub awaits : pending J t s.stage ≡ pending_in l

-- Where a life goes on to, if it leaves the queue by `x`, and is then pending `c'` times.
abbrev pub Onward : Life → ℕ → ℕ → ℕ → Type 0
Onward l n b' c' =
    (l' : Life) × Move l n l'
    × (unused_in l ≡ unused_in l')
    × (calling_in l ≡ calling_in l')
    × (b' ≡ queued_in l')
    × (c' ≡ pending_in l')

stays : (l : Life) (n b' c' : ℕ) → n ≡ 0 → b' ≡ queued_in l → c' ≡ pending_in l → Onward l n b' c'
stays l n b' c' none_now h k = (l, subst (λ m. Move l m l) (sym none_now) stay, refl, refl, h, k)

pub onward :
    (l : Life) (x n b' c' : ℕ) → queued_in l ≡ x + b' → n + c' ≤ x + pending_in l → Onward l n b' c'
onward unborn x n b' c' h k =
    stays unborn n b' c' (omega (arith, h, k)) (omega (arith, h)) (omega (arith, h, k))
onward in_call x n b' c' h k =
    stays in_call n b' c' (omega (arith, h, k)) (omega (arith, h)) (omega (arith, h, k))
onward over x n b' c' h k =
    stays over n b' c' (omega (arith, h, k)) (omega (arith, h)) (omega (arith, h, k))
onward in_queue zero n b' c' h k =
    stays in_queue n b' c' (omega (arith, h, k)) (omega (arith, h)) (omega (arith, h, k))
onward in_queue (suc x) zero b' zero h k = (over, discard, refl, refl, omega (arith, h), refl)
onward in_queue (suc x) zero b' (suc c') h k =
    (in_session, write_out, refl, refl, omega (arith, h), omega (arith, h, k))
onward in_queue (suc x) (suc n) b' c' h k =
    let one : 1 ≡ suc n = omega (arith, h, k) in
    (
      over,
      subst (λ m. Move in_queue m over) one refuse,
      refl,
      refl,
      omega (arith, h),
      omega (arith, h, k),
    )
onward in_session x zero b' zero h k = (over, lose, refl, refl, omega (arith, h), refl)
onward in_session x zero b' (suc c') h k =
    (in_session, stay, refl, refl, omega (arith, h), omega (arith, h, k))
onward in_session x (suc n) b' c' h k =
    let one : 1 ≡ suc n = omega (arith, h, k) in
    (
      over,
      subst (λ m. Move in_session m over) one reply_to,
      refl,
      refl,
      omega (arith, h),
      omega (arith, h, k),
    )

-- The life after a step that gives `n` answers.
abbrev pub Next : {J : Json} → ℕ → System J → Life → ℕ → Type 0
Next t s' l n = (l' : Life) × Move l n l' × Lives t s' l'
