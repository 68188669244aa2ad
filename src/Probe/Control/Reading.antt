-- ===== src/Probe/Control/Reading.antt =====
-- The keys under which examples/cluster_acceptance.rs keeps sequence numbers.
use Prim.Native.Char.{code}
use Prim.Native.Nat.{Ordering, compare as compare_ℕ}
use Prim.Native.String.{compare, then}
use Prim.Native.String.compare
use text.Mathlib.TextEquality.{path_by_compare}
use wu_kong_easy_sdk_rust.Base.{
  ◌⊎◌, inl, inr, not, Bool-cases, ap, sym, ◌∙◌, ℕ, ◌≡◌, refl, String, arith,
}
use wu_kong_easy_sdk_rust.Probe.Control.{str_le, person_key, sequence_key}

abbrev flip : Ordering → Ordering
flip Ordering.lt = Ordering.gt
flip Ordering.eq = Ordering.eq
flip Ordering.gt = Ordering.lt

flip-numbers : (a b : ℕ) → compare_ℕ b a ≡ flip (compare_ℕ a b)
flip-numbers a b = ground arith

flip-then : (x y : Ordering) → flip (then x y) ≡ then (flip x) (flip y)
flip-then Ordering.lt y = refl
flip-then Ordering.eq y = refl
flip-then Ordering.gt y = refl

flip-compare : (s t : String) → compare t s ≡ flip (compare s t)
flip-compare String.[] String.[] = rw compare.nil-nil refl
flip-compare String.[] (String.◌∷◌ d t) = rw (compare.nil-cons, compare.cons-nil) refl
flip-compare (String.◌∷◌ c s) String.[] = rw (compare.nil-cons, compare.cons-nil) refl
flip-compare (String.◌∷◌ c s) (String.◌∷◌ d t) =
    rw
      (
        compare.cons-cons d c t s,
        compare.cons-cons c d s t,
        flip-then (compare_ℕ (code c) (code d)) (compare s t),
        flip-compare s t,
        flip-numbers (code c) (code d),
      )
      refl

le_flip :
    (a b : String) (x : Ordering) → compare a b ≡ x → (a ≡ b) ⊎ (str_le b a ≡ not (str_le a b))
le_flip a b Ordering.lt e = inr (rw (flip-compare a b, e) refl)
le_flip a b Ordering.eq e = inl (path_by_compare a b e)
le_flip a b Ordering.gt e = inr (rw (flip-compare a b, e) refl)

person_key_comm : (a b : String) → person_key a b ≡ person_key b a
unfolding person_key
person_key_comm a b = elim (le_flip a b (compare a b) refl) [
  | inl e ↦ ap (λ x. person_key a x) (sym e) ∙ ap (λ x. person_key x a) e
  | inr e ↦ elim (Bool-cases (str_le a b)) [ inl f ↦ rw (e, f) refl | inr f ↦ rw (e, f) refl ]
]

-- The two directions of a conversation share one sequence.
pub sequence_key_comm : (a b : String) → sequence_key 1 a b ≡ sequence_key 1 b a
unfolding sequence_key
sequence_key_comm a b = person_key_comm a b
