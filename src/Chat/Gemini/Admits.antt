-- ===== src/Chat/Gemini/Admits.antt =====
-- What a schema admits and a parser accepts (services/agent/schemas.py).
use cyber_tracker_ai.Base.{
  ◌≡◌, refl, true, Option, none, some, List, [], ◌∷◌, ◌==◌, arith, nat_eq, if◌then◌else◌, map, any,
  all, Bool-cases, Option-cases, inl, inr,
}
use cyber_tracker_ai.Base.Dict.{is_some}
use cyber_tracker_ai.Base.Json.{
  Json, text, list, mapping, Items, nil, cons, Fields, get_field, null, bool, number,
}
use cyber_tracker_ai.Base.Text.{Text, text_eq, text_beq_iff}
use cyber_tracker_ai.Base.Result.{Result, ok, err, is_ok, ◌>>=◌}
use cyber_tracker_ai.Chat.Validation.{
  ValidationError, as_text, as_enum, as_items, as_list, member, field_of, required, defaulted,
}
use cyber_tracker_ai.Chat.Gemini.{
  Schema, string, array, object, Properties, done, property, all_items, conforms, conform, enum_of,
  is_absent_or,
}

-- A validation that gives a value.
pub record Succeeds {ℓ} {A : Type ℓ} (m : Result ValidationError A) : Type 0 where
  pub succeeds : is_ok m ≡ true

-- What a schema admits, the parser accepts.
abbrev pub Admits {ℓ} : {A : Type ℓ} → Schema → (Json → Result ValidationError A) → Type 0
Admits s parse = (j : Json) → conforms s j ≡ true → Succeeds (parse j)

pub string-Admits : Admits string as_text
unfolding conforms as_text
string-Admits (text t) h = record { succeeds = refl }
string-Admits null h = absurd cc
string-Admits (bool b) h = absurd cc
string-Admits (number n) h = absurd cc
string-Admits (list js) h = absurd cc
string-Admits (mapping fs) h = absurd cc

member-any {ℓ} :
    {E : Type ℓ} (value : E → Text) (es : List E) (t : Text)
    → any (λ v. v == t) (map value es) ≡ true
    → is_ok (member value es t) ≡ true
unfolding member
member-any value [] t h = cc
member-any value (e ∷ es) t h = elim (Bool-cases (value e == t)) [
  | inl same ↦ rw same refl
  | inr other ↦ rw other (member-any value es t (ground (arith, other, h)))
]

pub enum-Admits {ℓ} :
    {E : Type ℓ} (value : E → Text) (es : List E) → Admits (enum_of value es) (as_enum value es)
unfolding conforms as_enum
enum-Admits value es (text t) h = record { succeeds = member-any value es t h }
enum-Admits value es null h = absurd cc
enum-Admits value es (bool b) h = absurd cc
enum-Admits value es (number n) h = absurd cc
enum-Admits value es (list js) h = absurd cc
enum-Admits value es (mapping fs) h = absurd cc

pub is_ok->>= {ℓ κ} :
    {A : Type ℓ} {B : Type κ} {m : Result ValidationError A} {f : A → Result ValidationError B}
    → Succeeds m
    → ((a : A) → Succeeds (f a))
    → Succeeds (m >>= f)
is_ok->>= {m = ok a} h k = k a
is_ok->>= {m = err e} h k = absurd (let e = h.succeeds in cc)

items-Admits {ℓ} :
    {A : Type ℓ} (s : Schema) (parse : Json → Result ValidationError A)
    → Admits s parse
    → (js : Items) → all_items (conforms s) js ≡ true
    → Succeeds (as_items parse js)
unfolding all_items as_items
items-Admits s parse admits nil h = record { succeeds = refl }
items-Admits s parse admits (cons j js) h = is_ok->>= (admits j (ground (arith, h))) (λ x.
    is_ok->>= (items-Admits s parse admits js (ground (arith, h)))
      (λ xs. record { succeeds = refl }))

pub array-Admits {ℓ} :
    {A : Type ℓ} (s : Schema) (parse : Json → Result ValidationError A)
    → Admits s parse
    → Admits (array s) (as_list parse)
unfolding conforms as_list
array-Admits s parse admits (list js) h = items-Admits s parse admits js h
array-Admits s parse admits null h = absurd cc
array-Admits s parse admits (bool b) h = absurd cc
array-Admits s parse admits (number n) h = absurd cc
array-Admits s parse admits (text t) h = absurd cc
array-Admits s parse admits (mapping fs) h = absurd cc

abbrev schema_of : Text → Properties → Option Schema
schema_of key done = none
schema_of key (property name s ps) =
    let rest = schema_of key ps in if name == key then some s else rest

all-lookup :
    (fs : Fields) (key : Text) (names : List Text)
    → any (λ n. n == key) names ≡ true
    → all (λ n. is_some (get_field n fs)) names ≡ true
    → is_some (get_field key fs) ≡ true
all-lookup fs key [] there h = cc
all-lookup fs key (n ∷ ns) there h = elim (Bool-cases (n == key)) [
  | inl same ↦ let e : n ≡ key = (text_beq_iff n key).0 same in rw (← e) (ground (arith, h))
  | inr other ↦ all-lookup fs key ns (ground (arith, other, there)) (ground (arith, h))
]

conform-lookup :
    (fs : Fields) (key : Text) (ps : Properties) (s : Schema)
    → schema_of key ps ≡ some s
    → conform ps fs ≡ true
    → is_absent_or (conforms s) (get_field key fs) ≡ true
unfolding conform
conform-lookup fs key done s there h = cc
conform-lookup fs key (property n t ps) s there h = elim (Bool-cases (n == key)) [
  | inl same ↦
      let e : n ≡ key = (text_beq_iff n key).0 same in
      let f : t ≡ s = ground (arith, same, there) in rw (← e) (rw (← f) (ground (arith, h)))
  | inr other ↦ conform-lookup fs key ps s (ground (arith, other, there)) (ground (arith, h))
]

-- The fields of a value that conforms to an object.
pub record IsObject (properties : Properties) (names : List Text) (fs : Fields) : Type 0 where
  pub present : all (λ name. is_some (get_field name fs)) names ≡ true
  pub fits : conform properties fs ≡ true

pub conforms-IsObject :
    (properties : Properties) (names : List Text) (fs : Fields)
    → conforms (object properties names) (mapping fs) ≡ true
    → IsObject properties names fs
unfolding conforms
conforms-IsObject properties names fs h = record {
  present = ground (arith, h);
  fits = ground (arith, h);
}

admitted :
    {properties : Properties} {names : List Text} {fs : Fields} {s : Schema}
    (o : IsObject properties names fs) (key : Text) (j : Json)
    → get_field key fs ≡ some j
    → schema_of key properties ≡ some s
    → conforms s j ≡ true
admitted {properties = properties} {fs = fs} {s = s} o key j found there =
    ground (arith, found, conform-lookup fs key properties s there o.fits)

module _ {ℓ} {A : Type ℓ} {properties : Properties} {names : List Text} {fs : Fields} {s : Schema}
    (o : IsObject properties names fs) (key : Text) where
  -- A required property.
  pub required-Admits :
      {parse : Json → Result ValidationError A}
      → any (λ n. n == key) names ≡ true
      → schema_of key properties ≡ some s
      → Admits s parse
      → Succeeds (required parse (get_field key fs))
  unfolding required
  required-Admits {parse = parse} listed there admits = elim (Option-cases (get_field key fs)) [
    | inl missing ↦ absurd (ground (arith, missing, all-lookup fs key names listed o.present))
    | inr (j, found) ↦ record {
      succeeds = ground (arith, found, (admits j (admitted o key j found there)).succeeds);
    }
  ]

  -- One that has another name in Python.
  pub aliased-Admits :
      {parse : Json → Result ValidationError A} (name : Text)
      → any (λ n. n == key) names ≡ true
      → schema_of key properties ≡ some s
      → Admits s parse
      → Succeeds (required parse (field_of key name fs))
  unfolding required field_of
  aliased-Admits {parse = parse} name listed there admits = elim (Option-cases (get_field key fs)) [
    | inl missing ↦ absurd (ground (arith, missing, all-lookup fs key names listed o.present))
    | inr (j, found) ↦ record {
      succeeds = ground (arith, found, (admits j (admitted o key j found there)).succeeds);
    }
  ]

  -- One that may be absent.
  pub defaulted-Admits :
      {parse : Json → Result ValidationError (List A)}
      → schema_of key properties ≡ some s
      → Admits s parse
      → Succeeds (defaulted parse (get_field key fs))
  unfolding defaulted
  defaulted-Admits {parse = parse} there admits = elim (Option-cases (get_field key fs)) [
    | inl missing ↦ record { succeeds = ground (arith, missing) }
    | inr (j, found) ↦ record {
      succeeds = ground (arith, found, (admits j (admitted o key j found there)).succeeds);
    }
  ]
