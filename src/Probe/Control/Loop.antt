-- ===== src/Probe/Control/Loop.antt =====
-- The loop over the lines of a probe's input, where it goes on from a command.
use wu_kong_easy_sdk_rust.Base.{
  ◌≡◌, String, Option, some, List, ◌∷◌, ap, ◌∙◌, inl, inr, Option-cases,
}
use wu_kong_easy_sdk_rust.Json.{Json}
use wu_kong_easy_sdk_rust.Probe.{Verdict, pass}
use wu_kong_easy_sdk_rust.Probe.Observe.Exact.{Verdict-cases}
use wu_kong_easy_sdk_rust.Probe.Control.{Next, goes_on, read_line, control}

module _ {ℓ κ} (J : Json) {S : Type ℓ} {L : Type κ} (text_of : L → String)
    (handle : S → J.Value → String → L → Option (Verdict (Next S))) where
  -- Where the loop passes, its first line was read and its command passed, and if that goes on so does
  -- the loop.
  pub control-next :
      (s : S) (l : L) (ls : List L)
      → control J text_of handle s (l ∷ ls) ≡ some (pass tt)
      → (command : J.Value) × (op : String) × (next : Next S) × (read_line J (text_of l)
          ≡ pass (command, op))
        × (handle s command op l ≡ some (pass next))
        × ((s' : S) → next ≡ goes_on s' → control J text_of handle s' ls ≡ some (pass tt))
  unfolding control
  control-next s l ls h = elim (Verdict-cases (read_line J (text_of l))) [
    | inr (f, e) ↦ absurd (let h' = rw (e, control) at h in cc)
    | inl ((command, op), e) ↦ elim (Option-cases (handle s command op l)) [
      | inl g ↦ absurd (let h' = rw (control, e, g) at h in cc)
      | inr (v, g) ↦ elim (Verdict-cases v) [
        | inr (f, k) ↦ absurd (let h' = rw (control, e, g, k) at h in cc)
        | inl (next, k) ↦ (
          command,
          op,
          next,
          e,
          g ∙ ap (λ w. some w) k,
          λ s' same_next. (rw (control, e, g, k, same_next) at h),
        )
      ]
    ]
  ]
