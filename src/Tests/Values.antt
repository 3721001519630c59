-- ===== src/Tests/Values.antt =====
-- A JSON library in memory.
use cluster_chat_server_soft.Prelude.{
  ℕ, zero, suc, ◌+◌, ◌-◌, ◌≡◌, refl, sym, ap, ◌∙◌, inl, inr, Option-cases, arith, ltb, ◌==◌, Bool,
  true, false, Option, none, some, List, [], ◌∷◌, ◌++◌, if◌then◌else◌,
}
use cluster_chat_server_soft.Prelude.Int.{ℤ, pos, negsuc, eq_ℤ}
use cluster_chat_server_soft.Prelude.Text.{Str, str_eq, str_eq_refl}
use cluster_chat_server_soft.External.Json.{JsonLib, JsonLaws}

-- A JSON value; an object is a list of fields.
pub data Value : Type 0 where
  null empty : Value
  number : ℤ → Value
  text : Str → Value
  texts : List Str → Value
  entry : Str → Value → Value → Value

abbrev pub find : Value → Str → Option Value
find (entry k v rest) key = if str_eq k key then some v else find rest key
find null key = none
find empty key = none
find (number n) key = none
find (text t) key = none
find (texts ts) key = none

abbrev is_object : Value → Bool
is_object empty = true
is_object (entry k v rest) = true
is_object null = false
is_object (number n) = false
is_object (text t) = false
is_object (texts ts) = false

-- A value printed as a program for a stack machine: 11 and 1 push a constant, 2 an empty text, 3 and 5
-- the numbers 0 and -1, 4 moves a number away from 0, 6 pushes an empty list of texts, 7 and 8 build a
-- list and a field, 0 and 10 do nothing, and c + 12 puts c in front of a text.
abbrev print_text : Str → Str
print_text [] = 2 ∷ []
print_text (c ∷ t) = print_text t ++ (c + 12) ∷ []

abbrev print_number : ℕ → Str
print_number zero = []
print_number (suc n) = print_number n ++ 4 ∷ []

abbrev print_texts : List Str → Str
print_texts [] = 6 ∷ []
print_texts (t ∷ ts) = print_texts ts ++ (print_text t ++ 7 ∷ [])

abbrev pub print : Value → Str
print null = 11 ∷ []
print empty = 1 ∷ []
print (number (pos n)) = 3 ∷ print_number n
print (number (negsuc n)) = 5 ∷ print_number n
print (text t) = print_text t
print (texts ts) = print_texts ts
print (entry k v rest) = print rest ++ (print v ++ (print_text k ++ 8 ∷ []))

abbrev away : List Value → Option (List Value)
away (number (pos n) ∷ st) = some (number (pos (suc n)) ∷ st)
away (number (negsuc n) ∷ st) = some (number (negsuc (suc n)) ∷ st)
away st = none

abbrev add_text : List Value → Option (List Value)
add_text (text t ∷ texts ts ∷ st) = some (texts (t ∷ ts) ∷ st)
add_text st = none

abbrev add_field : List Value → Option (List Value)
add_field (text k ∷ v ∷ rest ∷ st) = some (entry k v rest ∷ st)
add_field st = none

abbrev add_char : ℕ → List Value → Option (List Value)
add_char c (text t ∷ st) = some (text (c ∷ t) ∷ st)
add_char c st = none

op : ℕ → List Value → Option (List Value)
op c st =
    if c == 0
    then some st
    else if c == 1
    then some (empty ∷ st)
    else if c == 2
    then some (text [] ∷ st)
    else if c == 3
    then some (number (pos 0) ∷ st)
    else if c == 4
    then away st
    else if c == 5
    then some (number (negsuc 0) ∷ st)
    else if c == 6
    then some (texts [] ∷ st)
    else if c == 7
    then add_text st
    else if c == 8
    then add_field st
    else if c == 10
    then some st
    else if c == 11
    then some (null ∷ st)
    else none

exec : ℕ → List Value → Option (List Value)
unfolding op
exec c st = if ltb c 12 then op c st else add_char (c - 12) st

machine : Str → List Value → Option (List Value)
machine [] st = some st
machine (c ∷ s) st = elim (exec c st) [ none ↦ none | some st' ↦ machine s st' ]

machine-cons :
    (c : ℕ) (s : Str) (st st' : List Value)
    → exec c st ≡ some st'
    → machine (c ∷ s) st ≡ machine s st'
unfolding machine
machine-cons c s st st' e = rw (e, machine)

machine-none : (c : ℕ) (s : Str) (st : List Value) → exec c st ≡ none → machine (c ∷ s) st ≡ none
unfolding machine
machine-none c s st e = rw (e, machine)

machine-append :
    (s t : Str) (st st' : List Value)
    → machine s st ≡ some st'
    → machine (s ++ t) st ≡ machine t st'
unfolding machine
machine-append [] t st st' e = cc
machine-append (c ∷ s) t st st' e = elim (Option-cases (exec c st)) [
  | inl q ↦ cc (machine-none c s st q)
  | inr (st'', q) ↦
      machine-cons c (s ++ t) st st'' q
      ∙ machine-append s t st'' st' (sym (machine-cons c s st st'' q) ∙ e)
]

machine-print_text : (t : Str) (st : List Value) → machine (print_text t) st ≡ some (text t ∷ st)
unfolding machine exec op
machine-print_text [] st = refl
machine-print_text (c ∷ t) st =
    machine-append (print_text t) ((c + 12) ∷ []) st (text t ∷ st) (machine-print_text t st)
    ∙ ground arith

machine-pos :
    (n : ℕ) (st : List Value) → machine (3 ∷ print_number n) st ≡ some (number (pos n) ∷ st)
unfolding machine exec op
machine-pos zero st = refl
machine-pos (suc n) st =
    machine-append (3 ∷ print_number n) (4 ∷ []) st (number (pos n) ∷ st) (machine-pos n st)

machine-negsuc :
    (n : ℕ) (st : List Value) → machine (5 ∷ print_number n) st ≡ some (number (negsuc n) ∷ st)
unfolding machine exec op
machine-negsuc zero st = refl
machine-negsuc (suc n) st =
    machine-append (5 ∷ print_number n) (4 ∷ []) st (number (negsuc n) ∷ st) (machine-negsuc n st)

machine-print_texts :
    (ts : List Str) (st : List Value) → machine (print_texts ts) st ≡ some (texts ts ∷ st)
unfolding machine exec op
machine-print_texts [] st = refl
machine-print_texts (t ∷ ts) st =
    machine-append (print_texts ts) (print_text t ++ 7 ∷ []) st (texts ts ∷ st)
      (machine-print_texts ts st)
    ∙ machine-append (print_text t) (7 ∷ []) (texts ts ∷ st) (text t ∷ texts ts ∷ st)
        (machine-print_text t (texts ts ∷ st))

machine-print : (v : Value) (st : List Value) → machine (print v) st ≡ some (v ∷ st)
unfolding machine exec op
machine-print null st = refl
machine-print empty st = refl
machine-print (number (pos n)) st = machine-pos n st
machine-print (number (negsuc n)) st = machine-negsuc n st
machine-print (text t) st = machine-print_text t st
machine-print (texts ts) st = machine-print_texts ts st
machine-print (entry k v rest) st =
    machine-append (print rest) (print v ++ (print_text k ++ 8 ∷ [])) st (rest ∷ st)
      (machine-print rest st)
    ∙ machine-append (print v) (print_text k ++ 8 ∷ []) (rest ∷ st) (v ∷ rest ∷ st)
        (machine-print v (rest ∷ st))
    ∙ machine-append (print_text k) (8 ∷ []) (v ∷ rest ∷ st) (text k ∷ v ∷ rest ∷ st)
        (machine-print_text k (v ∷ rest ∷ st))

abbrev one : List Value → Option Value
one (v ∷ []) = some v
one st = none

abbrev one_of : Option (List Value) → Option Value
one_of none = none
one_of (some st) = one st

unfoldable pub read : Str → Option Value
unfolding machine exec
read t = one_of (machine t [])

-- A zero byte or a newline behind a value.
read-then :
    (v : Value) (c : ℕ) → exec c (v ∷ []) ≡ some (v ∷ []) → read (print v ++ c ∷ []) ≡ some v
unfolding read machine
read-then v c e =
    ap (λ o. one_of o)
      (machine-append (print v) (c ∷ []) [] (v ∷ []) (machine-print v [])
        ∙ machine-cons c [] (v ∷ []) (v ∷ []) e)

read-line : (v : Value) → read (print v ++ 10 ∷ []) ≡ some v
unfolding exec op
read-line v = read-then v 10 refl

read-zero : (v : Value) → read (print v ++ 0 ∷ []) ≡ some v
unfolding exec op
read-zero v = read-then v 0 refl

read-print : (v : Value) → read (print v) ≡ some v
unfolding read
read-print v = ap (λ o. one_of o) (machine-print v [])

abbrev number_of : Value → Option ℤ
number_of v = elim v [ number n ↦ some n | _ ↦ none ]

abbrev text_of : Value → Option Str
text_of v = elim v [ text t ↦ some t | _ ↦ none ]

abbrev field_or : {A : Type 0} → Value → Str → A → (Value → Option A) → Option A
field_or (entry k v rest) key d f = if str_eq k key then f v else field_or rest key d f
field_or empty key d f = some d
field_or null key d f = none
field_or (number n) key d f = none
field_or (text t) key d f = none
field_or (texts ts) key d f = none

abbrev pub values : JsonLib
values = record {
  Json = Value;
  parse = read;
  dump = print;
  subscript = λ j key.
      if is_object j then elim (find j key) [ none ↦ some null | some v ↦ some v ] else none;
  contains = λ j key. elim (find j key) [ none ↦ false | some v ↦ true ];
  is_null = λ j. elim j [ null ↦ true | _ ↦ false ];
  is_zero = λ j. elim j [ number n ↦ eq_ℤ n (pos 0) | _ ↦ false ];
  get_int = number_of;
  get_string = text_of;
  get_strings = λ j. elim j [ texts ts ↦ some ts | _ ↦ none ];
  string_or = λ j key d. field_or j key d text_of;
  int_or = λ j key d. field_or j key d number_of;
  empty = empty;
  assign = entry;
  int = number;
  string = text;
  strings = texts;
}

reads_field :
    (k : Str) (w j : Value)
    → values.subscript j k ≡ some w
    → elim (find j k) as (λ x. Option Value) [ none ↦ some null | some v ↦ some v ] ≡ some w
reads_field k w null h = cc
reads_field k w empty h = h
reads_field k w (number n) h = cc
reads_field k w (text t) h = cc
reads_field k w (texts ts) h = cc
reads_field k w (entry k' v j) h = h

pub values-JsonLaws : JsonLaws values
values-JsonLaws = record {
  parse-dump = λ j. read-print j;
  parse-line = λ j. read-line j;
  parse-zero = λ j. read-zero j;
  subscript-assign_self = λ k v j. simp str_eq_refl;
  subscript-assign_other = λ k k' v w j e h. rw e (reads_field k' w j h);
  contains-assign = λ k k' v j. ground arith;
  contains-empty = λ k. refl;
  get_int-int = λ n. refl;
  is_zero-int = λ n. refl;
  get_string-string = λ t. refl;
  is_null-string = λ t. refl;
  get_strings-strings = λ ts. refl;
  string_or-assign_self = λ k v j d. simp str_eq_refl;
  string_or-assign_other = λ k k' v j d e. rw e refl;
  string_or-empty = λ k d. refl;
  int_or-assign_self = λ k v j d. simp str_eq_refl;
  int_or-assign_other = λ k k' v j d e. rw e refl;
  int_or-empty = λ k d. refl;
}
