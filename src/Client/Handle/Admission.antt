-- ===== src/Client/Handle/Admission.antt =====
-- When `send_with_options` admits a send and what that does to the handle.
use wu_kong_easy_sdk_rust.Base.{
  zero_or_suc, ℕ, suc, ◌+◌, ◌<◌, ◌≡◌, ◌↔◌, refl, String, Bool, true, false, Option, none, some,
  List, [], ◌∷◌, ◌++◌, length, arith, Bool-cases, Option-cases, ◌⊎◌, inl, inr, ap, sym, ◌∙◌,
}
use wu_kong_easy_sdk_rust.Json.{Json, Base64}
use wu_kong_easy_sdk_rust.Types.Failure.{
  Error, Result, Result-cases, ok, err, destroyed, not_connected, backpressure, message_too_large,
}
use wu_kong_easy_sdk_rust.Types.Options.{Options}
use wu_kong_easy_sdk_rust.Types.Messages.{SendOptions}
use wu_kong_easy_sdk_rust.Protocol.Outbound
use wu_kong_easy_sdk_rust.Session.State.{Command}
use wu_kong_easy_sdk_rust.Client.Handle.{Running, Handle, enqueue, too_large, admit_send}

module _ (J : Json) where
  open J use {Value}

  pub length-snoc :
      (cs : List (Command J)) (c : Command J) → length (cs ++ (c ∷ [])) ≡ length cs + 1
  length-snoc [] c = refl
  length-snoc (d ∷ cs) c = ground (arith, length-snoc cs c)

  -- The slots that a handle knows of: free ones, and those of queued commands.
  abbrev pub queued : Option (Running J) → ℕ
  queued none = 0
  queued (some run) = length run.queue

  abbrev pub slots : Handle J → ℕ
  slots h = h.free_slots + queued h.running

  slots-enqueue :
      (o : Options) (h : Handle J) (left : ℕ) (c : Command J)
      → h.free_slots ≡ suc left
      → slots (enqueue J o h left c).0 ≡ slots h
  unfolding enqueue
  slots-enqueue o h left c e = elim (Option-cases h.running) [
    | inl k ↦ ground (arith, k)
    | inr (run, k) ↦ ground (arith, e, k, length-snoc run.queue c)
  ]

  -- The handle once a command has been put into the queue of its run.
  abbrev pub with_command : Handle J → Running J → ℕ → Command J → Handle J
  with_command h run left c = record h {
    free_slots = left;
    running = some (record run { queue = run.queue ++ (c ∷ []) });
  }

  abbrev pub Enqueues : Options → Handle J → ℕ → Command J → Handle J → Command J → Type 0
  Enqueues o h left c h' c' =
      (run : Running J) × (h.running ≡ some run)
      × (run.closed ≡ false)
      × (length run.queue < o.max_in_flight)
      × (with_command h run left c ≡ h')
      × (c ≡ c')

  enqueue-ok_iff :
      (o : Options) (h : Handle J) (left : ℕ) (c : Command J) (h' : Handle J) (c' : Command J)
      → (enqueue J o h left c ≡ (h', ok c')) ↔ Enqueues o h left c h' c'
  unfolding enqueue
  enqueue-ok_iff o h left c h' c' = elim (Option-cases h.running) [
    | inl k ↦ (λ e. ground (arith, k, e), λ (run, same, _, _, _, _). ground (arith, k, same))
    | inr (run, k) ↦ (
      λ e. (
        run,
        k,
        ground (arith, k, e),
        ground (arith, k, e),
        ground (arith, k, e),
        ground (arith, k, e),
      ),
      λ (run', same, open_now, room, built, equal).
          ground (arith, same, open_now, room, built, equal),
    )
  ]

  module _ (B : Base64) (o : Options) (channel : String) (kind : ℕ) (payload : Value)
      (options : SendOptions) (still : Bool) (now : ℕ) (generated_id id : String) (reply : ℕ) where
    abbrev pub admitted : Handle J → Handle J × Result (Command J)
    admitted h = admit_send J B o h channel kind payload options still now generated_id id reply

    abbrev pub command_of : Handle J → Value → Command J
    command_of h params = record {
      generation = h.generation;
      id = id;
      params = params;
      deadline = now + o.request_timeout;
      reply = reply;
    }

    -- All that a send must meet before it is put into the queue.
    pub record Passes (h : Handle J) (left : ℕ) (params : Value) : Type 0 where
      pub alive : h.is_destroyed ≡ false
      pub online : h.connected ≡ true
      pub slot : h.free_slots ≡ suc left
      pub accepted : Outbound.send J B channel kind payload options generated_id ≡ ok params
      pub fits : too_large J o params id ≡ false
      pub online_still : still ≡ true

    pub admit_send-cases :
        (h : Handle J)
        → ((e : Error) × (admitted h ≡ (h, err e)))
          ⊎ ((left : ℕ) × (params : Value) × Passes h left params
              × (admitted h ≡ enqueue J o h left (command_of h params)))
    unfolding admit_send
    admit_send-cases h = elim (Bool-cases h.is_destroyed) [
      | inl a ↦ inl (destroyed, simp (a, admit_send))
      | inr a ↦ elim (Bool-cases h.connected) [
        | inr b ↦ inl (not_connected, simp (a, b, admit_send))
        | inl b ↦ elim (zero_or_suc h.free_slots) [
          | inl c ↦ inl (backpressure, simp (a, b, c, admit_send))
          | inr (left, c) ↦
              elim (Result-cases (Outbound.send J B channel kind payload options generated_id)) [
                | inr (e, d) ↦ inl (e, simp (a, b, c, d, admit_send))
                | inl (params, d) ↦ elim (Bool-cases (too_large J o params id)) [
                  | inl f ↦ inl (message_too_large, simp (a, b, c, d, f, admit_send))
                  | inr f ↦ elim (Bool-cases still) [
                    | inr g ↦ inl (not_connected, simp (a, b, c, d, f, g, admit_send))
                    | inl g ↦ inr (
                      left,
                      params,
                      record {
                        alive = a;
                        online = b;
                        slot = c;
                        accepted = d;
                        fits = f;
                        online_still = g;
                      },
                      simp (a, b, c, d, f, g, admit_send),
                    )
                  ]
                ]
              ]
        ]
      ]
    ]

    -- Whatever becomes of a send, no slot is lost and none is made: it moves from the free ones to
    -- the queue with a command that is admitted, and comes back with any error.
    pub slots-admit_send : (h : Handle J) → slots (admitted h).0 ≡ slots h
    unfolding admit_send
    slots-admit_send h = elim (admit_send-cases h) [
      | inl (e, k) ↦ rw (k, slots) refl
      | inr (left, params, p, k) ↦
          ap (λ (x : Handle J × Result (Command J)). slots x.0) k
          ∙ slots-enqueue o h left (command_of h params) p.slot
    ]

    -- A send is admitted exactly if the client is not destroyed and is connected, at first and under
    -- the lock, a slot is free, the parameters are accepted and fit a message, and the run's queue is
    -- open and has room. The command carries the generation first read and the deadline one request
    -- timeout later, stands last in the queue, and holds one slot.
    pub admit_send-ok_iff :
        (h h' : Handle J) (c : Command J)
        → (admitted h ≡ (h', ok c)) ↔ (
            (left : ℕ) × (params : Value) × Passes h left params
            × Enqueues o h left (command_of h params) h' c)
    unfolding admit_send
    admit_send-ok_iff h h' c = (
      λ e. elim (admit_send-cases h) [
        | inl (e', k) ↦ ground (arith, e, k)
        | inr (left, params, p, k) ↦
            (left, params, p, (enqueue-ok_iff o h left (command_of h params) h' c).0 (sym k ∙ e))
      ],
      λ (left, params, p, q).
          simp (p.alive, p.online, p.slot, p.accepted, p.fits, p.online_still, admit_send)
            ((enqueue-ok_iff o h left (command_of h params) h' c).1 q),
    )
