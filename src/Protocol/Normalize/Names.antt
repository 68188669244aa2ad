-- ===== src/Protocol/Normalize/Names.antt =====
-- Which entries `normalize` moves: the alias loop seen as one lookup function.
use wu_kong_easy_sdk_rust.Base.{
  String, ◌≡◌, refl, Bool, true, false, not, ◌&&◌, ◌||◌, Option, none, some, List, [], ◌∷◌, arith,
  str_eq, eq_iff, if◌then◌else◌, or_else, and_then, Option-cases, inl, inr,
}
use wu_kong_easy_sdk_rust.Json.{Json, IsLawful}
use wu_kong_easy_sdk_rust.Protocol.Normalize.{or_insert, rename, rename_all}

unfoldable pub is_snake : List (String × String) → String → Bool
is_snake [] key = false
is_snake ((snake, camel) ∷ ps) key = str_eq snake key || is_snake ps key

-- The snake_case spelling of a camelCase name.
unfoldable pub snake_of : List (String × String) → String → Option String
snake_of [] key = none
snake_of ((snake, camel) ∷ ps) key = if str_eq camel key then some snake else snake_of ps key

abbrev is_name : List (String × String) → String → Bool
is_name [] key = false
is_name ((snake, camel) ∷ ps) key = str_eq snake key || str_eq camel key || is_name ps key

-- All names of a table differ.
abbrev pub distinct : List (String × String) → Bool
distinct [] = true
distinct ((snake, camel) ∷ ps) =
    not (str_eq snake camel) && not (is_name ps snake) && not (is_name ps camel) && distinct ps

is_snake-is_name :
    (ps : List (String × String)) (key : String) → is_name ps key ≡ false → is_snake ps key ≡ false
unfolding is_snake snake_of
is_snake-is_name [] key h = refl
is_snake-is_name ((snake, camel) ∷ ps) key h = ground (arith, is_snake-is_name ps key)

snake_of-is_name :
    (ps : List (String × String)) (key : String) → is_name ps key ≡ false → snake_of ps key ≡ none
unfolding is_snake snake_of
snake_of-is_name [] key h = refl
snake_of-is_name ((snake, camel) ∷ ps) key h = ground (arith, snake_of-is_name ps key)

is_name-snake_of :
    (ps : List (String × String)) (key s : String) → snake_of ps key ≡ some s → is_name ps s ≡ true
unfolding is_snake snake_of
is_name-snake_of [] key s h = cc
is_name-snake_of ((snake, camel) ∷ ps) key s h =
    ground (arith, is_name-snake_of ps key s, eq_iff snake s)

module _ (J : Json) (L : IsLawful J) where
  open J use {Map, get}

  get-or_insert :
      (m : Map) (key : String) (v : J.Value) (j : String)
      → get (or_insert J m key v) j
        ≡ (if str_eq key j then or_else (get m key) (some v) else get m j)
  unfolding or_insert
  get-or_insert m key v j = elim (Option-cases (get m key)) [
    | inl e ↦ rw (e, or_insert) (L.get-insert m key v j)
    | inr (old, e) ↦ rw (e, or_insert) (ground (arith, eq_iff key j))
  ]

  get-rename :
      (snake camel : String) (m : Map) (key : String)
      → str_eq snake camel ≡ false
      → get (rename J (snake, camel) m) key ≡ (
          if str_eq snake key
          then none
          else if str_eq camel key
          then or_else (get m camel) (get m snake)
          else get m key)
  unfolding rename
  get-rename snake camel m key h = elim (Option-cases (get m snake)) [
    | inl e ↦ rw (e, rename) (ground (arith, eq_iff snake key, eq_iff camel key))
    | inr (v, e) ↦
        rw (e, rename)
          (ground (
            arith,
            get-or_insert (J.remove m snake) camel v key,
            L.get-remove m snake key,
            L.get-remove m snake camel,
            eq_iff snake key,
            eq_iff camel key,
          ))
  ]

  -- The loop over a table of different names, as one lookup.
  pub get-rename_all :
      (ps : List (String × String)) (m : Map) (key : String)
      → distinct ps ≡ true
      → get (rename_all J ps m) key ≡ (
          if is_snake ps key
          then none
          else or_else (get m key) (and_then (snake_of ps key) (get m)))
  unfolding rename_all is_snake snake_of
  get-rename_all [] m key h = ground arith
  get-rename_all ((snake, camel) ∷ ps) m key h =
      let rest = get-rename_all ps (rename J (snake, camel) m) key (ground arith) in
      let here = get-rename snake camel m key (ground arith) in
      elim (Option-cases (snake_of ps key)) [
        | inl e ↦ ground (
          arith,
          rest,
          here,
          e,
          eq_iff snake key,
          eq_iff camel key,
          is_snake-is_name ps snake,
          is_snake-is_name ps camel,
        )
        | inr (s, e) ↦ ground (
          arith,
          rest,
          here,
          e,
          get-rename snake camel m s,
          is_name-snake_of ps key s e,
          snake_of-is_name ps snake,
          snake_of-is_name ps camel,
          is_snake-is_name ps snake,
          is_snake-is_name ps camel,
          eq_iff snake key,
          eq_iff camel key,
          eq_iff snake s,
          eq_iff camel s,
        )
      ]
