-- ===== src/External/Objects.antt =====
-- What reading a field of an object gives that was built by assignments.
use cluster_chat_server_soft.Prelude.{
  ◌≡◌, sym, ◌∙◌, ap, Bool, false, ◌||◌, Option, none, some, List, [], ◌∷◌, arith, inl, inr,
  Bool-cases, if◌then◌else◌,
}
use cluster_chat_server_soft.Prelude.Int.{ℤ}
use cluster_chat_server_soft.Prelude.Text.{Str, str_eq, str_eq_iff}
use cluster_chat_server_soft.External.Json.{JsonLib, JsonLaws}

module _ ⦃json : JsonLib⦄ where
  -- The object with these fields, the last assigned first.
  abbrev pub object : List (Str × json.Json) → json.Json
  object [] = json.empty
  object ((k, v) ∷ fields) = json.assign k v (object fields)

  abbrev pub field : Str → List (Str × json.Json) → Option json.Json
  field key [] = none
  field key ((k, v) ∷ fields) = if str_eq k key then some v else field key fields

  abbrev pub has_field : Str → List (Str × json.Json) → Bool
  has_field key [] = false
  has_field key ((k, v) ∷ fields) = str_eq k key || has_field key fields

module _ ⦃json : JsonLib⦄ (laws : JsonLaws json) where
  pub subscript-object :
      (key : Str) (v : json.Json) (fields : List (Str × json.Json))
      → field key fields ≡ some v
      → json.subscript (object fields) key ≡ some v
  subscript-object key v [] e = cc
  subscript-object key v ((k, w) ∷ fields) e = elim (Bool-cases (str_eq k key)) [
    | inl same ↦
        let eq = (str_eq_iff k key).0 same in
        ground (arith, laws.subscript-assign_self k w (object fields))
    | inr other ↦
        laws.subscript-assign_other k key w v (object fields) other
          (subscript-object key v fields (sym (rw other) ∙ e))
  ]

  pub contains-object :
      (key : Str) (fields : List (Str × json.Json))
      → json.contains (object fields) key ≡ has_field key fields
  contains-object key [] = laws.contains-empty key
  contains-object key ((k, w) ∷ fields) =
      laws.contains-assign k key w (object fields)
      ∙ ap (λ b. str_eq k key || b) (contains-object key fields)

  pub string_or-object :
      (key t d : Str) (fields : List (Str × json.Json))
      → field key fields ≡ some (json.string t)
      → json.string_or (object fields) key d ≡ some t
  string_or-object key t d [] e = cc
  string_or-object key t d ((k, w) ∷ fields) e = elim (Bool-cases (str_eq k key)) [
    | inl same ↦
        let eq = (str_eq_iff k key).0 same in
        ground (arith, laws.string_or-assign_self k w (object fields) d, laws.get_string-string t)
    | inr other ↦
        laws.string_or-assign_other k key w (object fields) d other
        ∙ string_or-object key t d fields (sym (rw other) ∙ e)
  ]

  pub int_or-object :
      (key : Str) (n d : ℤ) (fields : List (Str × json.Json))
      → field key fields ≡ some (json.int n)
      → json.int_or (object fields) key d ≡ some n
  int_or-object key n d [] e = cc
  int_or-object key n d ((k, w) ∷ fields) e = elim (Bool-cases (str_eq k key)) [
    | inl same ↦
        let eq = (str_eq_iff k key).0 same in
        ground (arith, laws.int_or-assign_self k w (object fields) d, laws.get_int-int n)
    | inr other ↦
        laws.int_or-assign_other k key w (object fields) d other
        ∙ int_or-object key n d fields (sym (rw other) ∙ e)
  ]
