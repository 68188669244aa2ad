-- ===== src/Tests/Serde.antt =====
-- A concrete `Json` and `Base64` for the runs. The parser reads the texts that occur in the runs.
use Prim.Native.Char.{code}
use native.Mathlib.Nat.{add-zero, add-suc, suc-add, zero-add}
use Prim.Native.String.{◌++◌ as ◌<>◌}
use wu_kong_easy_sdk_rust.Base.{
  ℕ, zero, suc, ◌≤◌, ◌^◌, max, String, ◌≡◌, refl, Bool, true, false, Option, none, some, List, [],
  ◌∷◌, ltb, str_eq, ◌==◌, ◌&&◌, any, ◌+◌, option_map, if◌then◌else◌, arith, eq_iff, ap, ◌∙◌,
}
use wu_kong_easy_sdk_rust.Base.Int.{pos}
use wu_kong_easy_sdk_rust.Json.{Json, IsLawful, Base64, Shape}
use wu_kong_easy_sdk_rust.Types.Text.{to_decimal}

mutual
  pub data Tree : Type 0 where
    null : Tree
    bool : Bool → Tree
    number : ℕ → Tree
    string : String → Tree
    array : Trees → Tree
    object : Members → Tree

  pub data Trees : Type 0 where
    nil : Trees
    cons : Tree → Trees → Trees

  pub data Members : Type 0 where
    end : Members
    member : String → Tree → Members → Members

abbrev pub member_get : Members → String → Option Tree
member_get end key = none
member_get (member k v m) key = if str_eq k key then some v else member_get m key

abbrev pub member_remove : Members → String → Members
member_remove end key = end
member_remove (member k v m) key =
    let rest = member_remove m key in if str_eq k key then rest else member k v rest

abbrev of_list : List Tree → Trees
of_list [] = nil
of_list (x ∷ xs) = cons x (of_list xs)

abbrev to_list : Trees → List Tree
to_list nil = []
to_list (cons x xs) = x ∷ to_list xs

abbrev pub tree_out : Tree → Shape Tree Members ℕ
tree_out null = Shape.null
tree_out (bool b) = Shape.bool b
tree_out (number n) = Shape.number n
tree_out (string s) = Shape.string s
tree_out (array xs) = Shape.array (to_list xs)
tree_out (object m) = Shape.object m

abbrev pub tree_in : Shape Tree Members ℕ → Tree
tree_in Shape.null = null
tree_in (Shape.bool b) = bool b
tree_in (Shape.number n) = number n
tree_in (Shape.string s) = string s
tree_in (Shape.array xs) = array (of_list xs)
tree_in (Shape.object m) = object m

unfoldable mutual
  pub tree_depth : Tree → ℕ
  tree_depth null = 1
  tree_depth (bool b) = 1
  tree_depth (number n) = 1
  tree_depth (string s) = 1
  tree_depth (array xs) = 1
  tree_depth (object m) = suc (members_depth m)

  pub members_depth : Members → ℕ
  members_depth end = 0
  members_depth (member k v m) = max (tree_depth v) (members_depth m)

unfoldable mutual
  pub tree_text : Tree → String
  tree_text null = "null"
  tree_text (bool true) = "true"
  tree_text (bool false) = "false"
  tree_text (number n) = to_decimal n
  tree_text (string s) = "\"" <> s <> "\""
  tree_text (array xs) = "[]"
  tree_text (object m) = "{" <> members_text m <> "}"

  pub members_text : Members → String
  members_text end = ""
  members_text (member k v m) = "\"" <> k <> "\":" <> tree_text v <> "," <> members_text m

unfoldable pub codes : String → List ℕ
codes String.[] = []
codes (String.◌∷◌ c s) = code c ∷ codes s

-- The SENDACK of the send "a", with a numeric message ID and one name in snake_case.
abbrev pub ack_result : Members
ack_result =
    member "messageId" (number 900)
      (member "message_seq" (number 4) (member "reasonCode" (number 1) end))

abbrev pub ack_value : Tree
ack_value = object (member "id" (string "a") (member "result" (object ack_result) end))

-- The server's acceptance of the authentication request "h".
abbrev pub hello_value : Tree
hello_value =
    object
      (member "id" (string "h") (member "result" (object (member "reasonCode" (number 1) end)) end))

-- A line of a probe's input.
abbrev pub line_value : String → Tree
line_value op = object (
    member "op" (string op) (
      member "sender" (number 0) (
        member "channel" (string "room") (
          member "phase" (string "p") (
            member "reason" (number 1)
              (member "recipients" (array (cons (number 1) (cons (number 2) nil))) end))))))

unfoldable pub tree_read : String → Option Tree
tree_read s =
    if str_eq s "{}"
    then some (object end)
    else if str_eq s "ack"
    then some ack_value
    else if str_eq s "hello"
    then some hello_value
    else if any (str_eq s) ("send" ∷ "arm_reconnect" ∷ "stop" ∷ "new" ∷ "exchange" ∷ "destroy" ∷ [])
    then some (line_value s)
    else none

unfoldable pub bytes_read : List ℕ → Option Tree
bytes_read (a ∷ b ∷ []) = if a == 123 && b == 125 then some (object end) else none
bytes_read _ = none

abbrev pub serde : Json
serde = record {
  Value = Tree;
  Map = Members;
  Number = ℕ;
  out = tree_out;
  into = tree_in;
  empty = end;
  get = member_get;
  insert = λ m k v. member k v (member_remove m k);
  remove = member_remove;
  as_u64 = λ n. if ltb n (2 ^ 64) then some n else none;
  as_i64 = λ n. if ltb n (2 ^ 63) then some (pos n) else none;
  from_u64 = λ n. n;
  to_string = tree_text;
  from_str = tree_read;
  to_vec = λ v. some (codes (tree_text v));
  from_slice = bytes_read;
  depth = tree_depth;
}

-- Whether two values have the same text.
abbrev pub same_text : serde.Value → serde.Value → Bool
same_text v w = str_eq (serde.to_string v) (serde.to_string w)

list_in_out : (xs : List Tree) → to_list (of_list xs) ≡ xs
list_in_out [] = refl
list_in_out (x ∷ xs) = ap (λ ys. x ∷ ys) (list_in_out xs)

list_out_in : (xs : Trees) → of_list (to_list xs) ≡ xs
list_out_in nil = refl
list_out_in (cons x xs) = ap (λ ys. cons x ys) (list_out_in xs)

out-in : (s : Shape Tree Members ℕ) → tree_out (tree_in s) ≡ s
out-in Shape.null = refl
out-in (Shape.bool b) = refl
out-in (Shape.number n) = refl
out-in (Shape.string s) = refl
out-in (Shape.array xs) = ap (λ ys. Shape.array ys) (list_in_out xs)
out-in (Shape.object m) = refl

in-out : (v : Tree) → tree_in (tree_out v) ≡ v
in-out null = refl
in-out (bool b) = refl
in-out (number n) = refl
in-out (string s) = refl
in-out (array xs) = ap (λ ys. array ys) (list_out_in xs)
in-out (object m) = refl

get-member_remove :
    (m : Members) (k j : String)
    → member_get (member_remove m k) j ≡ (if str_eq k j then none else member_get m j)
get-member_remove end k j = ground arith
get-member_remove (member i v m) k j =
    ground (arith, get-member_remove m k j, eq_iff i k, eq_iff i j, eq_iff k j)

get-member_insert :
    (m : Members) (k : String) (v : Tree) (j : String)
    → member_get (member k v (member_remove m k)) j
      ≡ (if str_eq k j then some v else member_get m j)
get-member_insert m k v j = ground (arith, get-member_remove m k j)

depth-member_get :
    (m : Members) (k : String) (w : Tree) → member_get m k ≡ some w → tree_depth w ≤ members_depth m
unfolding members_depth
depth-member_get end k w h = ground arith
depth-member_get (member i v m) k w h = ground (arith, depth-member_get m k w)

depth-tree_get :
    (v w : Tree) (m : Members) (k : String)
    → tree_out v ≡ Shape.object m
    → member_get m k ≡ some w
    → suc (tree_depth w) ≤ tree_depth v
unfolding tree_depth
depth-tree_get (object m') w m k e h = ground (arith, depth-member_get m' k w)
depth-tree_get null w m k e h = ground arith
depth-tree_get (bool b) w m k e h = ground arith
depth-tree_get (number n) w m k e h = ground arith
depth-tree_get (string s) w m k e h = ground arith
depth-tree_get (array xs) w m k e h = ground arith

pub serde-IsLawful : IsLawful serde
serde-IsLawful = record {
  out-into = out-in;
  into-out = in-out;
  get-empty = λ k. refl;
  get-insert = get-member_insert;
  get-remove = get-member_remove;
  as_u64-from_u64 = λ n h. ground arith;
  as_u64-lt = λ n k h. ground arith;
  depth-get = depth-tree_get;
}

-- Bytes in unary, each closed by a zero.
unfoldable pub ones : ℕ → String → String
ones zero s = String.◌∷◌ "0" s
ones (suc n) s = String.◌∷◌ "1" (ones n s)

unfoldable pub unary : List ℕ → String
unary [] = ""
unary (n ∷ ns) = ones n (unary ns)

unfoldable pub read_unary : ℕ → String → Option (List ℕ)
read_unary n String.[] = some []
read_unary n (String.◌∷◌ c s) =
    let next = read_unary 0 s in
    let more = read_unary (suc n) s in if code c == 49 then more else option_map (λ ns. n ∷ ns) next

read_unary-ones :
    (k n : ℕ) (s : String)
    → read_unary k (ones n s) ≡ option_map (λ ns. (k + n) ∷ ns) (read_unary 0 s)
unfolding read_unary ones
read_unary-ones k zero s = rw add-zero refl
read_unary-ones k (suc n) s = rw (add-suc, ← suc-add) (read_unary-ones (suc k) n s)

pub read-unary : (ns : List ℕ) → read_unary 0 (unary ns) ≡ some ns
unfolding unary read_unary
read-unary [] = refl
read-unary (n ∷ ns) =
    (rw zero-add at (read_unary-ones 0 n (unary ns)))
    ∙ ap (option_map (λ ms. n ∷ ms)) (read-unary ns)

abbrev pub unary64 : Base64
unary64 = record { encode = unary; decode = read_unary 0; decode-encode = read-unary }
