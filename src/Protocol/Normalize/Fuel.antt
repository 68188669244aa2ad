-- ===== src/Protocol/Normalize/Fuel.antt =====
-- The recursion of `normalize` into "header", and its fuel.
use wu_kong_easy_sdk_rust.Base.{
  ℕ, zero, suc, ◌≤◌, String, Bool, true, false, ◌∙◌, ◌≡◌, refl, sym, Option, none, some, arith,
  str_eq, eq_iff, if◌then◌else◌, option_map, and_then, Option-cases, inl, inr, or_else,
}
use wu_kong_easy_sdk_rust.Json.{Json, IsLawful}
use wu_kong_easy_sdk_rust.Types.Decode.{as_object, as_object-out}
use wu_kong_easy_sdk_rust.Protocol.Normalize.{
  aliases, modify, stringify, rename_all, normalize_fields, normalize_at, normalize, on_object,
}
use wu_kong_easy_sdk_rust.Protocol.Normalize.Names.{is_snake, snake_of, get-rename_all}

-- The entry of a key once the names are merged: camelCase first, then snake_case.
abbrev pub merged : (J : Json) → J.Map → String → Option J.Value
merged J m key = or_else (J.get m key) (and_then (snake_of aliases key) (J.get m))

swap_tests {ℓ} :
    {A : Type ℓ} (a b : Bool) (f : A → A) (x : Option A)
    → (if a then option_map f (if b then none else x) else (if b then none else x))
      ≡ (if b then none else if a then option_map f x else x)
swap_tests true true f x = refl
swap_tests true false f x = refl
swap_tests false true f x = refl
swap_tests false false f x = refl

module _ (J : Json) (L : IsLawful J) where
  open J use {Value, Map, get, depth, out}

  pub get-modify :
      (key : String) (f : Value → Value) (m : Map) (j : String)
      → get (modify J key f m) j ≡ (if str_eq key j then option_map f (get m j) else get m j)
  unfolding modify
  get-modify key f m j = elim (Option-cases (get m key)) [
    | inl e ↦ rw (e, modify) (ground (arith, eq_iff key j))
    | inr (v, e) ↦ rw (e, modify) (ground (arith, eq_iff key j, L.get-insert m key (f v) j))
  ]

  pub get-normalize_fields :
      (m : Map) (key : String)
      → get (normalize_fields J m) key ≡ (
          if is_snake aliases key
          then none
          else if str_eq "messageId" key
          then option_map (stringify J) (merged J m key)
          else merged J m key)
  unfolding normalize_fields
  get-normalize_fields m key =
      rw
        (
          get-modify "messageId" (stringify J) (rename_all J aliases m) key,
          get-rename_all J L aliases m key refl,
        )
        (swap_tests (str_eq "messageId" key) (is_snake aliases key) (stringify J) (merged J m key))

  pub get-normalize_fields-header : (m : Map) → get (normalize_fields J m) "header" ≡ get m "header"
  unfolding is_snake snake_of
  get-normalize_fields-header m = get-normalize_fields m "header" ∙ ground arith

  -- `modify` looks at one entry only.
  modify_cong :
      (key : String) (f g : Value → Value) (m : Map)
      → ((w : Value) → get m key ≡ some w → f w ≡ g w)
      → modify J key f m ≡ modify J key g m
  unfolding modify
  modify_cong key f g m h = elim (Option-cases (get m key)) [
    | inl e ↦ rw (e, modify)
    | inr (w, e) ↦ rw (e, modify, h w e)
  ]

  modify_absent :
      (key : String) (f : Value → Value) (m : Map) → get m key ≡ none → modify J key f m ≡ m
  unfolding modify
  modify_absent key f m e = rw (e, modify)

  on_object_cong :
      (v : Value) (f g : Map → Map)
      → ((m : Map) → as_object J v ≡ some m → f m ≡ g m)
      → on_object J v f ≡ on_object J v g
  on_object_cong v f g h = elim (Option-cases (as_object J v)) [
    | inl e ↦ rw (e, on_object)
    | inr (m, e) ↦ rw (e, on_object, h m e)
  ]

  -- The header lies less deep than its value.
  header_depth :
      (v w : Value) (m : Map)
      → as_object J v ≡ some m
      → get (normalize_fields J m) "header" ≡ some w
      → suc (depth w) ≤ depth v
  header_depth v w m e h =
      L.depth-get v w m "header" (as_object-out J v m e) (sym (get-normalize_fields-header m) ∙ h)

  flat_header :
      (v : Value) (m : Map)
      → depth v ≤ 0
      → as_object J v ≡ some m
      → get (normalize_fields J m) "header" ≡ none
  flat_header v m p e = elim (Option-cases (get (normalize_fields J m) "header")) [
    | inl absent ↦ absent
    | inr (w, present) ↦ absurd (omega (arith, header_depth v w m e present))
  ]

  -- Any two amounts of fuel that the depth allows give one result.
  normalize_at_enough :
      (a b : ℕ) (v : Value) → depth v ≤ a → depth v ≤ b → normalize_at J a v ≡ normalize_at J b v
  unfolding normalize_at
  normalize_at_enough zero zero v p q = refl
  normalize_at_enough zero (suc b) v p q =
      on_object_cong v _ _ (λ m e. sym (modify_absent "header" _ _ (flat_header v m p e)))
  normalize_at_enough (suc a) zero v p q =
      on_object_cong v _ _ (λ m e. modify_absent "header" _ _ (flat_header v m q e))
  normalize_at_enough (suc a) (suc b) v p q = on_object_cong v _ _ λ m e.
      modify_cong "header" _ _ _ λ w h.
        normalize_at_enough a b w (omega (arith, header_depth v w m e h))
          (omega (arith, header_depth v w m e h))

  -- The recursion ends: with fuel of at least the value's depth the result no longer depends on it.
  normalize_at-depth :
      (fuel : ℕ) (v : Value) → depth v ≤ fuel → normalize_at J fuel v ≡ normalize J v
  unfolding normalize
  normalize_at-depth fuel v h = normalize_at_enough fuel (depth v) v h (omega arith)

  -- The equation of the source, with `normalize` itself in the recursive call.
  pub normalize_lem :
      (v : Value)
      → normalize J v ≡ on_object J v (λ m. modify J "header" (normalize J) (normalize_fields J m))
  unfolding normalize_at
  normalize_lem v =
      sym (normalize_at-depth (suc (depth v)) v (omega arith))
      ∙ on_object_cong v _ _ λ m e.
        modify_cong "header" _ _ _
          λ w h. normalize_at-depth (depth v) w (omega (arith, header_depth v w m e h))
