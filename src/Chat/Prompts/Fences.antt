-- ===== src/Chat/Prompts/Fences.antt =====
-- What is framed cannot close its frame (services/agent/prompts.py).
use cyber_tracker_ai.Base.{
  ℕ, ◌≡◌, refl, Bool, true, false, ◌&&◌, Option, none, some, [], ◌∷◌, ◌++◌, ◌==◌, nat_eq, arith,
  Bool-cases, inl, inr,
}
use cyber_tracker_ai.Base.Text.{Text, codes, contains, starts_with}
use cyber_tracker_ai.Chat.Prompts.{
  backtick, fence, sanitize, framed, user_header, build_user_message_block,
}

-- The texts before and after the first fence.
unfoldable pub split_at_fence : Text → Option (Text × Text)
split_at_fence (a ∷ b ∷ c ∷ rest) = elim (a == backtick && b == backtick && c == backtick) [
  | true ↦ some ([], rest)
  | false ↦ elim (split_at_fence (b ∷ c ∷ rest)) [
    | none ↦ none
    | some (before, after) ↦ some (a ∷ before, after)
  ]
]
split_at_fence _ = none

-- What a reader of a block takes for the quoted text, and what it finds after the closing fence.
unfoldable pub quoted : Text → Option (Text × Text)
unfolding split_at_fence
quoted block = elim (split_at_fence block) [
  | none ↦ none
  | some (header, rest) ↦ split_at_fence rest
]

abbrev is_fence : ℕ → ℕ → ℕ → Bool
is_fence a b c = a == backtick && b == backtick && c == backtick

sanitize-fence :
    (a b c : ℕ) (rest : Text)
    → is_fence a b c ≡ true
    → sanitize (a ∷ b ∷ c ∷ rest) ≡ 0x27 ∷ 0x27 ∷ 0x27 ∷ sanitize rest
unfolding sanitize
sanitize-fence a b c rest h = rw (h, sanitize) refl

sanitize-other :
    (a b c : ℕ) (rest : Text)
    → is_fence a b c ≡ false
    → sanitize (a ∷ b ∷ c ∷ rest) ≡ a ∷ sanitize (b ∷ c ∷ rest)
unfolding sanitize
sanitize-other a b c rest h = rw (h, sanitize) refl

-- A text that starts with backticks after the replacement started with them before.
one_tick :
    (c : ℕ) (rest : Text)
    → starts_with (backtick ∷ []) (sanitize (c ∷ rest)) ≡ true
    → (c == backtick) ≡ true
unfolding starts_with
one_tick c [] h = unfold sanitize in ground (arith, h)
one_tick c (d ∷ []) h = unfold sanitize in ground (arith, h)
one_tick c (d ∷ e ∷ rest) h = elim (Bool-cases (is_fence c d e)) [
  | inl all_ticks ↦ ground (arith, h, sanitize-fence c d e rest all_ticks)
  | inr other ↦ ground (arith, h, sanitize-other c d e rest other)
]

two_ticks :
    (b c : ℕ) (rest : Text)
    → starts_with (backtick ∷ backtick ∷ []) (sanitize (b ∷ c ∷ rest)) ≡ true
    → (b == backtick && c == backtick) ≡ true
unfolding starts_with
two_ticks b c [] h = unfold sanitize in ground (arith, h)
two_ticks b c (d ∷ rest) h = elim (Bool-cases (is_fence b c d)) [
  | inl all_ticks ↦ ground (arith, h, sanitize-fence b c d rest all_ticks)
  | inr other ↦ ground (arith, h, sanitize-other b c d rest other, one_tick c (d ∷ rest))
]

contains-sanitize : (t : Text) → contains fence (sanitize t) ≡ false
unfolding contains starts_with
contains-sanitize [] = unfold sanitize in refl
contains-sanitize (a ∷ []) = unfold sanitize in ground arith
contains-sanitize (a ∷ b ∷ []) = unfold sanitize in ground arith
contains-sanitize (a ∷ b ∷ c ∷ rest) = elim (Bool-cases (is_fence a b c)) [
  | inl all_ticks ↦
      rw (sanitize-fence a b c rest all_ticks) (ground (arith, contains-sanitize rest))
  | inr other ↦
      rw (sanitize-other a b c rest other)
        (ground (arith, other, contains-sanitize (b ∷ c ∷ rest), two_ticks b c rest))
]

split_here :
    (a b c : ℕ) (rest : Text)
    → is_fence a b c ≡ true
    → split_at_fence (a ∷ b ∷ c ∷ rest) ≡ some ([], rest)
unfolding split_at_fence
split_here a b c rest h = rw (h, split_at_fence) refl

split_later :
    (a b c : ℕ) (rest before after : Text)
    → is_fence a b c ≡ false
    → split_at_fence (b ∷ c ∷ rest) ≡ some (before, after)
    → split_at_fence (a ∷ b ∷ c ∷ rest) ≡ some (a ∷ before, after)
unfolding split_at_fence
split_later a b c rest before after h k = rw (h, split_at_fence) (rw k refl)

-- The first fence after a text without one, and a line break.
split_closed :
    (s rest : Text)
    → contains fence s ≡ false
    → split_at_fence (s ++ (10 ∷ (fence ++ rest))) ≡ some (s ++ 10 ∷ [], rest)
unfolding contains starts_with
split_closed [] rest h =
    split_later 10 backtick backtick (backtick ∷ rest) [] rest refl
      (split_here backtick backtick backtick rest refl)
split_closed (a ∷ []) rest h =
    split_later a 10 backtick (backtick ∷ backtick ∷ rest) (10 ∷ []) rest (ground arith)
      (split_closed [] rest refl)
split_closed (a ∷ b ∷ []) rest h =
    split_later a b 10 (fence ++ rest) (b ∷ 10 ∷ []) rest (ground arith)
      (split_closed (b ∷ []) rest (ground (arith, h)))
split_closed (a ∷ b ∷ c ∷ s) rest h =
    split_later a b c (s ++ (10 ∷ (fence ++ rest))) (b ∷ c ∷ s ++ 10 ∷ []) rest (ground (arith, h))
      (split_closed (b ∷ c ∷ s) rest (ground (arith, h)))

break_first : (s : Text) → contains fence s ≡ false → contains fence (10 ∷ s) ≡ false
unfolding contains starts_with
break_first s h = ground (arith, h)

quoted-framed :
    (header content : Text)
    → contains fence header ≡ false
    → quoted (framed header content) ≡ some (10 ∷ (sanitize content ++ 10 ∷ []), [])
unfolding quoted framed codes
quoted-framed header content h =
    rw (split_closed header (10 ∷ (sanitize content ++ (10 ∷ fence))) h, quoted)
      (split_closed (10 ∷ sanitize content) []
        (break_first (sanitize content) (contains-sanitize content)))

-- A reader of the block of a message that looks for the two fences finds the sanitized message
-- between them, on lines of its own, and nothing after the second: no message closes its frame.
pub quoted-build_user_message_block :
    (content : Text)
    → quoted (build_user_message_block content) ≡ some (10 ∷ (sanitize content ++ 10 ∷ []), [])
unfolding build_user_message_block
quoted-build_user_message_block content =
    quoted-framed user_header content (unfold codes contains starts_with in refl)
