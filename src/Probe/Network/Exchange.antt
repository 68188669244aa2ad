-- ===== src/Probe/Network/Exchange.antt =====
-- What the phases "exchange", "lag" and "blocked_ack" of examples/network_acceptance.rs have seen where they
-- pass.
use wu_kong_easy_sdk_rust.Base.{
  ℕ, suc, ◌+◌, ◌%◌, ◌≡◌, refl, Bool, true, not, none, List, [], ◌∷◌, length, arith, All, sym, ◌∙◌,
  str_eq,
}
use wu_kong_easy_sdk_rust.Json.{Json}
use wu_kong_easy_sdk_rust.Types.Failure.{Result, ok, err, timeout, backpressure}
use wu_kong_easy_sdk_rust.Types.Messages.{SendResult, RecvMessage}
use wu_kong_easy_sdk_rust.Probe.{pass, fail_if}
use wu_kong_easy_sdk_rust.Probe.Observe.{Drained}
use wu_kong_easy_sdk_rust.Probe.Observe.Exact.{bind-pass, pass-injective}
use wu_kong_easy_sdk_rust.Probe.Interruption.{Arrivals, silent}
use wu_kong_easy_sdk_rust.Probe.Interruption.Waits.{IsNoMessage}
use wu_kong_easy_sdk_rust.Probe.Control.Dispatch.{silent-IsNoMessage}
use wu_kong_easy_sdk_rust.Probe.Network.{
  user, next_message, receive, identifies, raise, Round, exchange_round, exchange_rounds,
  lag_rounds, is_backpressure, is_timed_out, blocked_ack,
}

module _ (J : Json) (same : J.Value → J.Value → Bool) where
  -- The next message of the inbox is the one that the user sent.
  pub record Received (from : ℕ) (payload : J.Value) (inbox : Arrivals J) (m : RecvMessage J)
      (left : Arrivals J) : Type 0 where
    pub next : next_message J inbox ≡ pass (m, left)
    pub sender : str_eq m.from_uid (user from) ≡ true
    pub channel : str_eq m.channel_id (user from) ≡ true
    pub intact : same m.payload payload ≡ true

  abbrev Got : Type 0
  Got = RecvMessage J × Arrivals J × ℕ

  pub receive-Received :
      (from : ℕ) (payload : J.Value) (inbox : Arrivals J) (delivered : ℕ) (got : Got)
      → receive J same from payload inbox delivered ≡ pass got
      → Received from payload inbox got.0 got.1 × (got.2 ≡ delivered + 1)
  unfolding receive
  receive-Received from payload inbox delivered got h =
      let ((m, left), next, rest) = bind-pass (next_message J inbox) _ got h in
      let (u, fine, same_got) = bind-pass _ (λ fine. pass (m, left, delivered + 1)) got rest in
      let e = pass-injective (m, left, delivered + 1) got same_got in
      rw (sym e) (
        record {
          next = next;
          sender = ground (arith, fine);
          channel = ground (arith, fine);
          intact = ground (arith, fine);
        },
        refl,
      )

  -- The SENDACK of a round identifies the message that the other user got.
  pub record Delivered (from : ℕ) (r : Round J same) : Type 0 where
    pub ack : SendResult
    pub message : RecvMessage J
    pub left : Arrivals J
    pub sent : r.outcome ≡ ok ack
    pub received : Received from r.payload r.inbox message left
    pub identified : identifies J same ack message ≡ true

  pub raise-pass : {A : Type 0} (r : Result A) (a : A) → raise J same r ≡ pass a → r ≡ ok a
  raise-pass (ok b) a h = (let e = pass-injective b a h in rw e refl)
  raise-pass (err e) a h = absurd (cc)

  exchange_round-Delivered :
      (from : ℕ) (r : Round J same) (delivered n : ℕ)
      → exchange_round J same from r delivered ≡ pass n
      → Delivered from r × (n ≡ delivered + 1)
  unfolding exchange_round
  exchange_round-Delivered from r delivered n h =
      let (ack, sent, rest) = bind-pass (raise J same r.outcome) _ n h in
      let (got, came, last) =
        bind-pass (receive J same from r.payload r.inbox delivered) _ n rest in
      let (received, counted) = receive-Received from r.payload r.inbox delivered got came in
      let (u, fine, total) = bind-pass _ (λ fine. pass got.2) n last in
      (
        record {
          ack = ack;
          message = got.0;
          left = got.1;
          sent = raise-pass r.outcome ack sent;
          received = received;
          identified = ground (arith, fine);
        },
        sym (pass-injective got.2 n total) ∙ counted,
      )

  -- So it is in all rounds from an index on, where the users take turns.
  abbrev pub AllDelivered : ℕ → List (Round J same) → Type 0
  AllDelivered index [] = Unit
  AllDelivered index (r ∷ rs) = Delivered (index % 2) r × AllDelivered (suc index) rs

  pub exchange_rounds-AllDelivered :
      (index : ℕ) (rs : List (Round J same)) (delivered n : ℕ)
      → exchange_rounds J same index rs delivered ≡ pass n
      → AllDelivered index rs × (n ≡ delivered + length rs)
  unfolding exchange_rounds
  exchange_rounds-AllDelivered index [] delivered n h =
      (tt, omega (arith, pass-injective delivered n h))
  exchange_rounds-AllDelivered index (r ∷ rs) delivered n h =
      let (count, one, others) = bind-pass (exchange_round J same (index % 2) r delivered) _ n h in
      let (here, counted) = exchange_round-Delivered (index % 2) r delivered count one in
      let (all, total) = exchange_rounds-AllDelivered (suc index) rs count n others in
      ((here, all), omega (arith, counted, total))

  -- All rounds of "lag" go from the first user to the second, and the first gets no message.
  abbrev pub AllLagged : List (Round J same × Drained J) → Type 0
  AllLagged [] = Unit
  AllLagged ((r, (es, end)) ∷ rs) =
      (Delivered 0 r × All (IsNoMessage J) es × (end ≡ none)) × AllLagged rs

  pub lag_rounds-AllLagged :
      (rs : List (Round J same × Drained J)) (delivered n : ℕ)
      → lag_rounds J same rs delivered ≡ pass n
      → AllLagged rs × (n ≡ delivered + length rs)
  unfolding lag_rounds
  lag_rounds-AllLagged [] delivered n h = (tt, omega (arith, pass-injective delivered n h))
  lag_rounds-AllLagged ((r, (es, end)) ∷ rs) delivered n h =
      let (ack, sent, rest) = bind-pass (raise J same r.outcome) _ n h in
      let (got, came, last) = bind-pass (receive J same 0 r.payload r.inbox delivered) _ n rest in
      let (received, counted) = receive-Received 0 r.payload r.inbox delivered got came in
      let (u, fine, more) =
        bind-pass
          (fail_if (not (identifies J same ack got.0)) "slow-observer phase metadata mismatch") _ n
          last in
      let (v, alone, others) =
        bind-pass (silent J "unexpected lag-phase recipient" es end) _ n more in
      let (quiet, ended) = silent-IsNoMessage J _ es end alone in
      let (all, total) = lag_rounds-AllLagged rs got.2 n others in
      (
        (
          (
            record {
              ack = ack;
              message = got.0;
              left = got.1;
              sent = raise-pass r.outcome ack sent;
              received = received;
              identified = ground (arith, fine);
            },
            quiet,
            ended,
          ),
          all,
        ),
        omega (arith, counted, total),
      )

  -- The third send is refused for want of a slot, and the first two, whose messages arrive in order,
  -- time out.
  pub record Blocked (rejected first second : Result SendResult) (payload_a payload_b : J.Value)
      (inbox : Arrivals J) : Type 0 where
    pub refused : rejected ≡ err backpressure
    pub first_lost : first ≡ err timeout
    pub second_lost : second ≡ err timeout
    pub message_a : RecvMessage J
    pub message_b : RecvMessage J
    pub between : Arrivals J
    pub left : Arrivals J
    pub received_a : Received 0 payload_a inbox message_a between
    pub received_b : Received 0 payload_b between message_b left

  backpressure_of : (r : Result SendResult) → is_backpressure J same r ≡ true → r ≡ err backpressure
  backpressure_of (ok a) h = absurd (cc)
  backpressure_of (err backpressure) h = refl
  backpressure_of (err e) h = absurd (cc)

  timeout_of : (r : Result SendResult) → is_timed_out J same r ≡ true → r ≡ err timeout
  timeout_of (ok a) h = absurd (cc)
  timeout_of (err timeout) h = refl
  timeout_of (err e) h = absurd (cc)

  pub blocked_ack-Blocked :
      (rejected first second : Result SendResult) (payload_a payload_b : J.Value)
      (inbox : Arrivals J) (delivered n : ℕ)
      → blocked_ack J same rejected first second payload_a payload_b inbox delivered ≡ pass n
      → Blocked rejected first second payload_a payload_b inbox × (n ≡ delivered + 2)
  unfolding blocked_ack
  blocked_ack-Blocked rejected first second payload_a payload_b inbox delivered n h =
      let (u, full, h1) =
        bind-pass
          (fail_if (not (is_backpressure J same rejected))
            "full admission did not return Backpressure")
          _ n h in
      let (got, came, h2) = bind-pass (receive J same 0 payload_a inbox delivered) _ n h1 in
      let (got', came', h3) = bind-pass (receive J same 0 payload_b got.1 got.2) _ n h2 in
      let (v, lost, total) = bind-pass _ (λ b. pass got'.2) n h3 in
      let (a, counted) = receive-Received 0 payload_a inbox delivered got came in
      let (b, counted') = receive-Received 0 payload_b got.1 got.2 got' came' in
      (
        record {
          refused = backpressure_of rejected (ground (arith, full));
          first_lost = timeout_of first (ground (arith, lost));
          second_lost = timeout_of second (ground (arith, lost));
          message_a = got.0;
          message_b = got'.0;
          between = got.1;
          left = got'.1;
          received_a = a;
          received_b = b;
        },
        omega (arith, pass-injective got'.2 n total, counted, counted'),
      )
