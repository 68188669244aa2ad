-- ===== src/Base/Reorders.antt =====
-- Permutations of lists by induction, and the loops over a list that do not depend on its order. No code
-- of the repository is modelled here.
use mathlib.Core.Path.{◌≡◌, refl, subst}
use mathlib.Core.Bool.{Bool, true, false}
use mathlib.Core.List.{List, [], ◌∷◌, Permᴰ}
use mathlib.Core.List.Permᴰ
use wu_kong_easy_sdk_rust.Base.Tests.{if◌then◌else◌}

-- The one list is a permutation of the other.
abbrev pub Reorders {ℓ} : {A : Type ℓ} → List A → List A → Type ℓ
Reorders xs ys = Permᴰ xs ys

module _ {ℓ} {A : Type ℓ} where
  pub Reorders-refl : (xs : List A) → Reorders xs xs
  Reorders-refl = Permᴰ.refl

  pub Reorders-ind {κ} :
      (R : List A → List A → Type κ)
      → R [] []
      → ((x : A) (xs ys : List A) → Reorders xs ys → R xs ys → R (x ∷ xs) (x ∷ ys))
      → ((x y : A) (xs : List A) → R (x ∷ y ∷ xs) (y ∷ x ∷ xs))
      → ((xs ys zs : List A) → R xs ys → R ys zs → R xs zs)
      → {xs ys : List A} → Reorders xs ys
      → R xs ys
  Reorders-ind R n c s t Permᴰ.nil = n
  Reorders-ind R n c s t (Permᴰ.cons {a} {l₁ = xs} {l₂ = ys} e d) =
      subst (λ y. R (a ∷ xs) (y ∷ ys)) e (c a xs ys d (Reorders-ind R n c s t d))
  Reorders-ind R n c s t (Permᴰ.swap {a} {b} {b' = d} {l = l} e f) =
      subst (λ y. R (a ∷ b ∷ l) (y ∷ d ∷ l)) f (subst (λ y. R (a ∷ b ∷ l) (b ∷ y ∷ l)) e (s a b l))
  Reorders-ind R n c s t (Permᴰ.trans {l₁ = xs} {l₂ = ys} {l₃ = zs} d f) =
      t xs ys zs (Reorders-ind R n c s t d) (Reorders-ind R n c s t f)

  kept_swap :
      (b c : Bool) (x y : A) (xs : List A)
      → Reorders
          (if b then x ∷ (if c then y ∷ xs else xs) else if c then y ∷ xs else xs)
          (if c then y ∷ (if b then x ∷ xs else xs) else if b then x ∷ xs else xs)
  kept_swap true true x y xs = Permᴰ.swap refl refl
  kept_swap true false x y xs = Reorders-refl _
  kept_swap false true x y xs = Reorders-refl _
  kept_swap false false x y xs = Reorders-refl _

  kept_head :
      (b : Bool) (x : A) (xs ys : List A)
      → Reorders xs ys
      → Reorders (if b then x ∷ xs else xs) (if b then x ∷ ys else ys)
  kept_head true x xs ys d = Permᴰ.cons refl d
  kept_head false x xs ys d = d

-- A loop that keeps an image of some entries, each judged by itself.
pub Reorders-filtered {ℓ κ} :
    {A : Type ℓ} {B : Type κ} (f : List A → List B) (keeps : A → Bool) (image : A → B)
    → ((a : A) (xs : List A) → f (a ∷ xs) ≡ (if keeps a then image a ∷ f xs else f xs))
    → {xs ys : List A} → Reorders xs ys
    → Reorders (f xs) (f ys)
Reorders-filtered f keeps image step =
    Reorders-ind (λ xs ys. Reorders (f xs) (f ys)) (Reorders-refl (f []))
      (λ x xs ys d k. rw (step x xs, step x ys) (kept_head (keeps x) (image x) _ _ k))
      (λ x y xs.
        rw (step x (y ∷ xs), step y (x ∷ xs), step x xs, step y xs)
          (kept_swap (keeps x) (keeps y) (image x) (image y) (f xs)))
      (λ xs ys zs d k. Permᴰ.trans d k)
