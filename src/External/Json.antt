-- ===== src/External/Json.antt =====
-- The calls of nlohmann::json that the program makes, and its laws. `none` is a thrown `json::exception`.
use cluster_chat_server_soft.Prelude.{◌≡◌, Bool, false, ◌||◌, Option, some, List, [], ◌∷◌, ◌++◌}
use cluster_chat_server_soft.Prelude.Int.{ℤ, pos, eq_ℤ}
use cluster_chat_server_soft.Prelude.Text.{Str, str_eq}

pub record JsonLib : Type 1 where
  pub Json : Type 0
  pub parse : Str → Option Json
  pub dump : Json → Str
  -- `j[key]`, read: null where an object lacks the key, and an exception where `j` is no object.
  pub subscript : Json → Str → Option Json
  -- `j.find(key) != j.end()` and `j.contains(key)`.
  pub contains : Json → Str → Bool
  pub is_null : Json → Bool
  -- `0 == j`.
  pub is_zero : Json → Bool
  pub get_int : Json → Option ℤ
  pub get_string : Json → Option Str
  pub get_strings : Json → Option (List Str)
  -- `j.value(key, default)`: an exception where `j` is no object or the field has another type.
  pub string_or : Json → Str → Str → Option Str
  pub int_or : Json → Str → ℤ → Option ℤ
  -- The default `json`, `j[key] = value`, and the values that the code assigns.
  pub empty : Json
  pub assign : Str → Json → Json → Json
  pub int : ℤ → Json
  pub string : Str → Json
  pub strings : List Str → Json

-- A value reads as what was assigned to it, and a value that was dumped parses to itself.
pub record JsonLaws (json : JsonLib) : Type 0 where
  pub parse-dump : (j : json.Json) → json.parse (json.dump j) ≡ some j
  -- A newline behind a value is white space.
  pub parse-line : (j : json.Json) → json.parse (json.dump j ++ 10 ∷ []) ≡ some j
  -- A zero byte ends the text.
  pub parse-zero : (j : json.Json) → json.parse (json.dump j ++ 0 ∷ []) ≡ some j
  pub subscript-assign_self :
      (k : Str) (v j : json.Json) → json.subscript (json.assign k v j) k ≡ some v
  pub subscript-assign_other :
      (k k' : Str) (v w j : json.Json)
      → str_eq k k' ≡ false
      → json.subscript j k' ≡ some w
      → json.subscript (json.assign k v j) k' ≡ some w
  pub contains-assign :
      (k k' : Str) (v j : json.Json)
      → json.contains (json.assign k v j) k' ≡ (str_eq k k' || json.contains j k')
  pub contains-empty : (k : Str) → json.contains json.empty k ≡ false
  pub get_int-int : (n : ℤ) → json.get_int (json.int n) ≡ some n
  pub is_zero-int : (n : ℤ) → json.is_zero (json.int n) ≡ eq_ℤ n (pos 0)
  pub get_string-string : (t : Str) → json.get_string (json.string t) ≡ some t
  pub is_null-string : (t : Str) → json.is_null (json.string t) ≡ false
  pub get_strings-strings : (ts : List Str) → json.get_strings (json.strings ts) ≡ some ts
  pub string_or-assign_self :
      (k : Str) (v j : json.Json) (d : Str)
      → json.string_or (json.assign k v j) k d ≡ json.get_string v
  pub string_or-assign_other :
      (k k' : Str) (v j : json.Json) (d : Str)
      → str_eq k k' ≡ false
      → json.string_or (json.assign k v j) k' d ≡ json.string_or j k' d
  pub string_or-empty : (k d : Str) → json.string_or json.empty k d ≡ some d
  pub int_or-assign_self :
      (k : Str) (v j : json.Json) (d : ℤ) → json.int_or (json.assign k v j) k d ≡ json.get_int v
  pub int_or-assign_other :
      (k k' : Str) (v j : json.Json) (d : ℤ)
      → str_eq k k' ≡ false
      → json.int_or (json.assign k v j) k' d ≡ json.int_or j k' d
  pub int_or-empty : (k : Str) (d : ℤ) → json.int_or json.empty k d ≡ some d
