-- ===== src/Termux/Connector/Agreement.antt =====
-- The server's checks of a command (services/terminal/validation.py) against those of the device
-- (apps/termux_connector/cyberai_termux.py).
use cyber_tracker_ai.Base.{
  ℕ, ◌≡◌, refl, ap, ◌∙◌, Bool, true, false, not, ◌&&◌, List, [], ◌∷◌, ◌++◌, ltb, ◌==◌, nat_eq,
  if◌then◌else◌, length, any, all, map, arith, Bool-cases, inl, inr,
}
use mathlib.Core.List.{map-append}
use cyber_tracker_ai.Base.Dict.{Dict}
use cyber_tracker_ai.Base.Text.{Text, codes, contains, starts_with, fold}
use cyber_tracker_ai.Base.Result.{ok, err, is_ok}
use cyber_tracker_ai.Terminal.Validation
use cyber_tracker_ai.Terminal.Validation.{is_secret, filter_environment}
use cyber_tracker_ai.Base.Json.{text, list, mapping, Items, nil, cons, Fields, end, field}
use cyber_tracker_ai.Termux.Connector.{
  nul_byte, item_count, validate_parts, check_program, validate_argv, is_metacharacter, upper_of,
  upper, is_secret_shaped, validate_fields, validate_env_overrides,
}

-- `json.dumps` of a list and of a dictionary of texts, read back.
unfoldable pub to_items : List Text → Items
to_items [] = nil
to_items (t ∷ ts) = cons (text t) (to_items ts)

unfoldable pub to_fields : Dict Text Text → Fields
to_fields [] = end
to_fields ((k, v) ∷ d) = field k (text v) (to_fields d)

abbrev pub has_nul : Text → Bool
has_nul t = any (λ c. c == 0) t

item_count-to_items : (ts : List Text) → item_count (to_items ts) ≡ length ts
unfolding item_count to_items
item_count-to_items [] = refl
item_count-to_items (t ∷ ts) = ap (λ n. ℕ.suc n) (item_count-to_items ts)

validate_parts-to_items :
    (ts : List Text)
    → any (λ t. ltb 4096 (length t)) ts ≡ false
    → validate_parts (to_items ts) ≡ (if any has_nul ts then err nul_byte else ok ts)
unfolding validate_parts to_items
validate_parts-to_items [] h = refl
validate_parts-to_items (t ∷ ts) h = elim (Bool-cases (has_nul t)) [
  | inl nul ↦ ground (arith, h, nul)
  | inr clean ↦ ground (arith, h, clean, validate_parts-to_items ts)
]

abbrev pub program_is_plain : List Text → Bool
program_is_plain [] = true
program_is_plain (program ∷ args) = not (any is_metacharacter program)

validate_argv-to_items :
    (a : Text) (argv : List Text)
    → Validation.validate_argv (a ∷ argv) ≡ ok tt
    → validate_argv (list (to_items (a ∷ argv)))
      ≡ (if any has_nul (a ∷ argv) then err nul_byte else check_program (a ∷ argv))
unfolding validate_argv to_items
validate_argv-to_items a argv h =
    let bounds = (Validation.validate_argv_iff (a ∷ argv)).0 h in
    let parts = validate_parts-to_items (a ∷ argv) bounds.2 in
    let counted = item_count-to_items (a ∷ argv) in
    elim (Bool-cases (any has_nul (a ∷ argv))) [
      | inl nul ↦ ground (arith, nul, parts, counted, bounds.1)
      | inr clean ↦ ground (arith, clean, parts, counted, bounds.1)
    ]

pub is_ok-validate_argv :
    (argv : List Text)
    → Validation.validate_argv argv ≡ ok tt
    → is_ok (validate_argv (list (to_items argv)))
      ≡ (not (any has_nul argv) && program_is_plain argv)
unfolding Validation.validate_argv check_program
is_ok-validate_argv [] h = absurd (ground (arith, h))
is_ok-validate_argv (a ∷ argv) h = ground (arith, validate_argv-to_items a argv h)

module _ (f : ℕ → ℕ) where
  starts_with-map :
      (ps cs : Text) → starts_with ps cs ≡ true → starts_with (map f ps) (map f cs) ≡ true
  unfolding starts_with
  starts_with-map [] cs h = refl
  starts_with-map (p ∷ ps) [] h = absurd (ground (arith, h))
  starts_with-map (p ∷ ps) (c ∷ cs) h = ground (arith, h, starts_with-map ps cs)

  contains-map : (ps cs : Text) → contains ps cs ≡ true → contains (map f ps) (map f cs) ≡ true
  unfolding contains
  contains-map ps [] h = starts_with-map ps [] h
  contains-map ps (c ∷ cs) h = ground (arith, h, starts_with-map ps (c ∷ cs), contains-map ps cs)

abbrev is_ascii : Text → Bool
is_ascii t = all (λ c. ltb c 128) t

fold-upper_of : (c : ℕ) → ltb c 128 ≡ true → map fold (upper_of c) ≡ fold c ∷ []
unfolding fold upper_of
fold-upper_of c h = ground (arith, h)

fold-upper : (t : Text) → is_ascii t ≡ true → map fold (upper t) ≡ map fold t
unfolding upper
fold-upper [] h = refl
fold-upper (c ∷ cs) h =
    map-append fold (upper_of c) (upper cs)
    ∙ (ap (λ x. x ++ map fold (upper cs)) (fold-upper_of c (ground (arith, h)))
        ∙ ap (λ x. fold c ∷ x) (fold-upper cs (ground (arith, h))))

contains-fold :
    (word key : Text)
    → is_ascii key ≡ true
    → contains word (upper key) ≡ true
    → contains (map fold word) (map fold key) ≡ true
contains-fold word key ascii h = rw (← fold-upper key ascii) (contains-map fold word (upper key) h)

-- A word that does not stand in the folded name does not stand in the capitals of the name.
module _ (key : Text) (ascii : is_ascii key ≡ true) where
  absent :
      (capitals word : Text)
      → map fold capitals ≡ word
      → contains word (map fold key) ≡ false
      → contains capitals (upper key) ≡ false
  absent capitals word same h = elim (Bool-cases (contains capitals (upper key))) [
    | inl there ↦ absurd (cc (same, contains-fold capitals key ascii there, h))
    | inr none_there ↦ none_there
  ]

  -- A name that the device takes for a secret is one that the server filters.
  is_secret_shaped-is_secret : is_secret key ≡ false → is_secret_shaped key ≡ false
  unfolding is_secret_shaped is_secret fold codes
  is_secret_shaped-is_secret h = ground (
    arith,
    h,
    absent (codes "SECRET") (codes "secret") refl,
    absent (codes "TOKEN") (codes "token") refl,
    absent (codes "PASSWORD") (codes "password") refl,
    absent (codes "PASSWD") (codes "passwd") refl,
    absent (codes "PRIVATE_KEY") (codes "private_key") refl,
    absent (codes "API_KEY") (codes "api_key") refl,
    absent (codes "APIKEY") (codes "apikey") refl,
    absent (codes "CREDENTIAL") (codes "credential") refl,
  )

abbrev pub has_ascii_names : Dict Text Text → Bool
has_ascii_names [] = true
has_ascii_names ((k, v) ∷ d) = is_ascii k && has_ascii_names d

validate_fields-filter :
    (env : Dict Text Text)
    → has_ascii_names env ≡ true
    → validate_fields (to_fields (filter_environment env)) ≡ ok (filter_environment env)
unfolding filter_environment validate_fields to_fields
validate_fields-filter [] h = refl
validate_fields-filter ((k, v) ∷ d) h = elim (Bool-cases (is_secret k)) [
  | inl secret ↦ ground (arith, secret, h, validate_fields-filter d)
  | inr plain ↦
      let shape = is_secret_shaped-is_secret k (ground (arith, h)) plain in
      ground (arith, plain, shape, h, validate_fields-filter d)
]

pub validate_env_overrides_agrees :
    (env : Dict Text Text)
    → has_ascii_names env ≡ true
    → validate_env_overrides (mapping (to_fields (filter_environment env)))
      ≡ ok (filter_environment env)
unfolding validate_env_overrides
validate_env_overrides_agrees env h = validate_fields-filter env h
