-- ===== src/Probe/Observe/Exact.antt =====
-- Whom `observe` of the probes lets a message reach (examples/group_acceptance.rs and
-- examples/cluster_acceptance.rs).
use wu_kong_easy_sdk_rust.Base.{
  ℕ, suc, ◌+◌, ◌≡◌, refl, Bool, true, false, ◌&&◌, Option, none, some, List, [], ◌∷◌, ◌++◌, all,
  leb, ◌==◌, if◌then◌else◌, arith, Bool-cases, inl, inr, ◌⊎◌, ==_iff, ap, sym, subst,
}
use wu_kong_easy_sdk_rust.Json.{Json}
use wu_kong_easy_sdk_rust.Types.Messages.{RecvMessage, Event}
use wu_kong_easy_sdk_rust.Probe.{Fault, Verdict, pass, failed, ◌>>=◌}
use wu_kong_easy_sdk_rust.Probe.Observe.{
  Seen, mark, contains, one_if, count_seen, Drained, Turn, Judge, on_event, drain, sweep, observe,
}

-- The case of a verdict.
pub Verdict-cases {ℓ} :
    {A : Type ℓ} (v : Verdict A) → ((a : A) × (v ≡ pass a)) ⊎ ((f : Fault) × (v ≡ failed f))
Verdict-cases (pass a) = inl (a, refl)
Verdict-cases (failed f) = inr (f, refl)

pub bind-pass {ℓ κ} :
    {A : Type ℓ} {B : Type κ} (v : Verdict A) (next : A → Verdict B) (b : B)
    → (v >>= next) ≡ pass b
    → (a : A) × (v ≡ pass a) × (next a ≡ pass b)
bind-pass (pass a) next b h = (a, refl, h)
bind-pass (failed f) next b h = (cc)

pub pass-injective {ℓ} : {A : Type ℓ} (a b : A) → pass a ≡ pass b → a ≡ b
pass-injective a b h = cc

-- `iter().all(…)` says it of each element.
all-contains :
    (p : ℕ → Bool) (xs : List ℕ) (j : ℕ) → all p xs ≡ true → contains xs j ≡ true → p j ≡ true
all-contains p [] j h k = cc
all-contains p (x ∷ xs) j h k = elim (Bool-cases (x == j)) [
  | inl e ↦ let same : x ≡ j = (==_iff x j).0 e in subst (λ i. p i ≡ true) same (ground (arith, h))
  | inr e ↦ all-contains p xs j (ground (arith, h)) (rw e at k)
]

one_if_iff : (a b : Bool) → (a ≡ true → b ≡ true) → (b ≡ true → a ≡ true) → one_if a ≡ one_if b
one_if_iff true b f g = ap one_if (sym (f refl))
one_if_iff false true f g = ap one_if (g refl)
one_if_iff false false f g = refl

counted : (a b : ℕ) → some (pass a) ≡ some (pass b) → a ≡ b
counted a b h = cc

module _ (J : Json) where
  abbrev pub messages : List (Event J) → ℕ
  messages [] = 0
  messages (Event.message m ∷ es) = suc (messages es)
  messages (_ ∷ es) = messages es

  messages-if :
      (j i : ℕ) (e : Event J) (es : List (Event J))
      → (if i == j then messages (e ∷ []) else 0) + (if i == j then messages es else 0)
        ≡ (if i == j then messages (e ∷ es) else 0)
  messages-if j i (Event.message m) es = ground arith
  messages-if j i e es = ground arith

  -- The messages at the inbox `j`, where the first one is the inbox `i`.
  abbrev pub messages_at : ℕ → ℕ → List (Drained J) → ℕ
  messages_at j i [] = 0
  messages_at j i ((es, end) ∷ rest) =
      (if i == j then messages es else 0) + messages_at j (suc i) rest

  -- The messages at an inbox in some turns.
  abbrev pub heard : ℕ → List (Turn J) → ℕ
  heard j [] = 0
  heard j (t ∷ ts) = messages_at j 0 t.inboxes + heard j ts

  -- Every message of an inbox, of the inboxes, and of some turns.
  abbrev pub EachMessage : (RecvMessage J → Type 0) → List (Event J) → Type 0
  EachMessage p [] = Unit
  EachMessage p (Event.message m ∷ es) = p m × EachMessage p es
  EachMessage p (_ ∷ es) = EachMessage p es

  abbrev pub EachDrained : (RecvMessage J → Type 0) → List (Drained J) → Type 0
  EachDrained p [] = Unit
  EachDrained p ((es, end) ∷ rest) = EachMessage p es × EachDrained p rest

  abbrev pub EachTurn : (RecvMessage J → Type 0) → List (Turn J) → Type 0
  EachTurn p [] = Unit
  EachTurn p (t ∷ ts) = EachDrained p t.inboxes × EachTurn p ts

  module _ (judge : Judge J) (expected : List ℕ) (fits : RecvMessage J → Type 0)
      (strict : (seen : Seen) (i : ℕ) (m : RecvMessage J)
        → judge seen i m ≡ pass tt
        → (contains expected i ≡ true) × (seen i ≡ false) × fits m) where
    -- What has been seen at `j` after `n` more messages there, all of them expected.
    record Grows (j n : ℕ) (seen seen' : Seen) : Type 0 where
      count : one_if (seen' j) ≡ one_if (seen j) + n
      due :
          (seen j ≡ true → contains expected j ≡ true) → seen' j ≡ true → contains expected j ≡ true

    Grows-append : (j n k : ℕ) (a b c : Seen) → Grows j n a b → Grows j k b c → Grows j (n + k) a c
    Grows-append j n k a b c g h = record {
      count = omega (arith, g.count, h.count);
      due = λ start. h.due (g.due start);
    }

    Grows-none : (j : ℕ) (a : Seen) → Grows j 0 a a
    Grows-none j a = record { count = omega arith; due = λ start. start }

    Grows-same : (j i : ℕ) (a b : Seen) → pass a ≡ pass b → Grows j (if i == j then 0 else 0) a b
    Grows-same j i a b h =
        subst (Grows j (if i == j then 0 else 0) a) (pass-injective a b h)
          (record { count = ground arith; due = λ start. start })

    Grows-mark :
        (j i : ℕ) (seen : Seen)
        → contains expected i ≡ true
        → seen i ≡ false
        → Grows j (if i == j then 1 else 0) seen (mark i seen)
    Grows-mark j i seen wanted new = elim (Bool-cases (i == j)) [
      | inl e ↦
          let same : i ≡ j = (==_iff i j).0 e in
          record {
            count = rw (e, sym (ap seen same), new) refl;
            due = λ start now. subst (λ k. contains expected k ≡ true) same wanted;
          }
      | inr e ↦ record { count = rw e (omega arith); due = λ start now. start (rw e at now) }
    ]

    on_event-Grows :
        (j i : ℕ) (e : Event J) (seen seen' : Seen)
        → on_event J judge seen i e ≡ pass seen'
        → Grows j (if i == j then messages (e ∷ []) else 0) seen seen'
    unfolding on_event
    on_event-Grows j i (Event.message m) seen seen' h =
        let (a, judged, same) =
          bind-pass (judge seen i m) (λ accepted. pass (mark i seen)) seen' h in
        let (wanted, new, fine) = strict seen i m judged in
        let marked : mark i seen ≡ seen' = pass-injective (mark i seen) seen' same in
        subst (Grows j (if i == j then 1 else 0) seen) marked (Grows-mark j i seen wanted new)
    on_event-Grows j i (Event.error e) seen seen' h = cc
    on_event-Grows j i (Event.disconnect r) seen seen' h = cc
    on_event-Grows j i (Event.connect r) seen seen' h = Grows-same j i seen seen' h
    on_event-Grows j i (Event.send_ack r) seen seen' h = Grows-same j i seen seen' h
    on_event-Grows j i (Event.reconnecting n d) seen seen' h = Grows-same j i seen seen' h
    on_event-Grows j i (Event.custom_event e) seen seen' h = Grows-same j i seen seen' h

    drain-Grows :
        (j i : ℕ) (es : List (Event J)) (end : Option Fault) (seen seen' : Seen)
        → drain J judge seen i es end ≡ pass seen'
        → Grows j (if i == j then messages es else 0) seen seen'
    unfolding drain
    drain-Grows j i [] none seen seen' h = Grows-same j i seen seen' h
    drain-Grows j i [] (some f) seen seen' h = cc
    drain-Grows j i (e ∷ es) end seen seen' h =
        let (mid, first, then_rest) =
          bind-pass (on_event J judge seen i e) (λ s. drain J judge s i es end) seen' h in
        subst (λ n. Grows j n seen seen') (messages-if j i e es)
          (Grows-append j _ _ seen mid seen' (on_event-Grows j i e seen mid first)
            (drain-Grows j i es end mid seen' then_rest))

    sweep-Grows :
        (j i : ℕ) (ds : List (Drained J)) (seen seen' : Seen)
        → sweep J judge seen i ds ≡ pass seen'
        → Grows j (messages_at j i ds) seen seen'
    unfolding sweep
    sweep-Grows j i [] seen seen' h =
        subst (Grows j 0 seen) (pass-injective seen seen' h) (Grows-none j seen)
    sweep-Grows j i ((es, end) ∷ rest) seen seen' h =
        let (mid, first, then_rest) =
          bind-pass (drain J judge seen i es end) (λ s. sweep J judge s (suc i) rest) seen' h in
        Grows-append j _ _ seen mid seen' (drain-Grows j i es end seen mid first)
          (sweep-Grows j (suc i) rest mid seen' then_rest)

    drain-EachMessage :
        (i : ℕ) (es : List (Event J)) (end : Option Fault) (seen seen' : Seen)
        → drain J judge seen i es end ≡ pass seen'
        → EachMessage fits es
    unfolding drain on_event
    drain-EachMessage i [] end seen seen' h = tt
    drain-EachMessage i (Event.message m ∷ es) end seen seen' h =
        let (mid, first, then_rest) =
          bind-pass (on_event J judge seen i (Event.message m)) (λ s. drain J judge s i es end)
            seen' h in
        let (a, judged, same) =
          bind-pass (judge seen i m) (λ accepted. pass (mark i seen)) mid first in
        let (wanted, new, fine) = strict seen i m judged in
        (fine, drain-EachMessage i es end mid seen' then_rest)
    drain-EachMessage i (Event.error e ∷ es) end seen seen' h = absurd (cc)
    drain-EachMessage i (Event.disconnect r ∷ es) end seen seen' h = absurd (cc)
    drain-EachMessage i (Event.connect r ∷ es) end seen seen' h =
        drain-EachMessage i es end seen seen' h
    drain-EachMessage i (Event.send_ack r ∷ es) end seen seen' h =
        drain-EachMessage i es end seen seen' h
    drain-EachMessage i (Event.reconnecting n d ∷ es) end seen seen' h =
        drain-EachMessage i es end seen seen' h
    drain-EachMessage i (Event.custom_event e ∷ es) end seen seen' h =
        drain-EachMessage i es end seen seen' h

    sweep-EachDrained :
        (i : ℕ) (ds : List (Drained J)) (seen seen' : Seen)
        → sweep J judge seen i ds ≡ pass seen'
        → EachDrained fits ds
    unfolding sweep
    sweep-EachDrained i [] seen seen' h = tt
    sweep-EachDrained i ((es, end) ∷ rest) seen seen' h =
        let (mid, first, then_rest) =
          bind-pass (drain J judge seen i es end) (λ s. sweep J judge s (suc i) rest) seen' h in
        (
          drain-EachMessage i es end seen mid first,
          sweep-EachDrained (suc i) rest mid seen' then_rest,
        )

    -- What is returned, after which turns.
    abbrev pub ExactlyFrom : Seen → List (Turn J) → ℕ → Type 0
    ExactlyFrom seen ts n =
        (before : List (Turn J)) × (after : List (Turn J)) × (ts ≡ before ++ after)
        × ((j : ℕ) → one_if (seen j) + heard j before ≡ one_if (contains expected j))
        × EachTurn fits before
        × (n ≡ count_seen (contains expected))

    pub observe-exactly :
        (ts : List (Turn J)) (seen : Seen) (n : ℕ)
        → observe J judge expected seen ts ≡ some (pass n)
        → ((j : ℕ) → seen j ≡ true → contains expected j ≡ true)
        → ExactlyFrom seen ts n
    unfolding observe
    observe-exactly [] seen n h start = cc
    observe-exactly (t ∷ ts) seen n h start =
        elim (Verdict-cases (sweep J judge seen 0 t.inboxes)) [
          | inr (f, e) ↦ (let stopped = rw (e, observe) at h in cc)
          | inl (s, e) ↦
              let grown : (j : ℕ) → Grows j (messages_at j 0 t.inboxes) seen s =
                λ j. sweep-Grows j 0 t.inboxes seen s e in
              elim (Bool-cases (all s expected && leb 500000000 t.elapsed)) [
                | inl done ↦
                    let every : all s expected ≡ true = ground (arith, done) in
                    let level : (j : ℕ) → one_if (s j) ≡ one_if (contains expected j) = λ j.
                      one_if_iff (s j) (contains expected j) ((grown j).due (start j))
                        (all-contains s expected j every) in
                    let count = rw (e, observe, done) at h in
                    (
                      t ∷ [],
                      ts,
                      refl,
                      λ j. omega (arith, (grown j).count, level j),
                      (sweep-EachDrained 0 t.inboxes seen s e, tt),
                      omega (
                        arith,
                        counted (count_seen s) n count,
                        level 0,
                        level 1,
                        level 2,
                        level 3,
                      ),
                    )
                | inr more ↦ elim (Bool-cases (leb 8000000000 t.later)) [
                  | inl over ↦ (let stopped = rw (e, observe, more, over) at h in cc)
                  | inr on ↦
                      let (before, after, split, all_heard, all_fit, total) =
                        observe-exactly ts s n (rw (e, observe, more, on) at h)
                          (λ j. (grown j).due (start j)) in
                      (
                        t ∷ before,
                        after,
                        ap (λ xs. t ∷ xs) split,
                        λ j. omega (arith, (grown j).count, all_heard j),
                        (sweep-EachDrained 0 t.inboxes seen s e, all_fit),
                        total,
                      )
                ]
              ]
        ]
