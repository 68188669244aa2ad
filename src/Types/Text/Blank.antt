-- ===== src/Types/Text/Blank.antt =====
-- `trim().is_empty()` and texts of white space.
use Prim.Native.Char.{code}
use wu_kong_easy_sdk_rust.Base.{String, ◌≡◌, refl, Bool, true, ◌&&◌, arith, ◌∙◌}
use wu_kong_easy_sdk_rust.Types.Text.{is_whitespace, is_empty, trim_start, trim_end, trim}

-- Every character is white space.
unfoldable pub is_blank : String → Bool
is_blank String.[] = true
is_blank (String.◌∷◌ c s) = is_whitespace (code c) && is_blank s

is_empty-trim_end : (s : String) → is_empty (trim_end s) ≡ is_blank s
unfolding trim_end is_blank
is_empty-trim_end String.[] = refl
is_empty-trim_end (String.◌∷◌ c s) = ground (arith, is_empty-trim_end s)

is_blank-trim_start : (s : String) → is_blank (trim_start s) ≡ is_blank s
unfolding trim_start is_blank
is_blank-trim_start String.[] = refl
is_blank-trim_start (String.◌∷◌ c s) = ground (arith, is_blank-trim_start s)

pub is_empty-trim : (s : String) → is_empty (trim s) ≡ is_blank s
unfolding trim
is_empty-trim s = is_empty-trim_end (trim_start s) ∙ is_blank-trim_start s
