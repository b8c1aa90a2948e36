-- ===== src/Chat/Context/Window.antt =====
-- The window of the conversation that a provider is sent (services/agent/conversation_context.py).
use cyber_tracker_ai.Base.{
  ℕ, zero, suc, ◌+◌, ◌-◌, ◌*◌, ◌≤◌, ◌≡◌, refl, ap, sym, ◌∙◌, min, false, List, [], ◌∷◌, ◌++◌, map,
  nat_eq, length, length-append, leb, ltb, arith, All, All-append, Bool-cases, inl, inr,
}
use mathlib.Core.List.{
  reverse, reverse-cons, append_assoc, reverse-append, reverse-reverse, map-append,
}
use mathlib.Core.Path.{subst}
use cyber_tracker_ai.Base.Text.{Text, skip_spaces}
use cyber_tracker_ai.Terminal.Output.{take}
use cyber_tracker_ai.Chat.Context.{
  ConversationTurn, ConversationContext, rstrip, truncate, skip, last_of, capped, fitting,
  bounded_history,
}

module _ {ℓ} {A : Type ℓ} where
  length-reverse : (xs : List A) → length (reverse xs) ≡ length xs
  length-reverse [] = refl
  length-reverse (x ∷ xs) =
      rw (reverse-cons x xs, length-append (reverse xs) (x ∷ [])) (omega (arith, length-reverse xs))

  All-reverse {κ} : (P : A → Type κ) (xs : List A) → All P xs → All P (reverse xs)
  All-reverse P [] h = tt
  All-reverse P (x ∷ xs) h =
      rw (reverse-cons x xs) (All-append P (reverse xs) (x ∷ []) (All-reverse P xs h.1) (h.0, tt))

  length-take-le : (n : ℕ) (xs : List A) → length (take n xs) ≤ n
  length-take-le zero xs = omega arith
  length-take-le (suc n) [] = omega arith
  length-take-le (suc n) (x ∷ xs) = omega (arith, length-take-le n xs)

  skip-split : (n : ℕ) (xs : List A) → (older : List A) × (xs ≡ older ++ skip n xs)
  unfolding skip
  skip-split zero xs = ([], refl)
  skip-split (suc n) [] = ([], refl)
  skip-split (suc n) (x ∷ xs) =
      let (older, e) = skip-split n xs in (x ∷ older, ap (λ (ys : List A). x ∷ ys) e)

  length-skip : (n : ℕ) (xs : List A) → length (skip n xs) ≡ length xs - n
  unfolding skip
  length-skip zero xs = omega arith
  length-skip (suc n) [] = omega arith
  length-skip (suc n) (x ∷ xs) = omega (arith, length-skip n xs)

skip_spaces_shorter : (t : Text) → length (skip_spaces t) ≤ length t
unfolding skip_spaces
skip_spaces_shorter [] = omega arith
skip_spaces_shorter (c ∷ cs) = ground (arith, skip_spaces_shorter cs)

rstrip_shorter : (t : Text) → length (rstrip t) ≤ length t
unfolding rstrip
rstrip_shorter t = omega (
  arith,
  length-reverse t,
  length-reverse (skip_spaces (reverse t)),
  skip_spaces_shorter (reverse t),
)

truncate_bounded : (t : Text) (limit : ℕ) → 1 ≤ limit → length (truncate t limit) ≤ limit
unfolding truncate
truncate_bounded t limit some_limit = elim (Bool-cases (leb (length t) limit)) [
  | inl short ↦ rw short (ground (arith, short))
  | inr long ↦
      rw (long, length-append (rstrip (take (limit - 1) t)) (0x2026 ∷ []))
        (omega
          (arith, some_limit, rstrip_shorter (take (limit - 1) t), length-take-le (limit - 1) t))
]

-- The characters of the turns.
abbrev total_chars : List ConversationTurn → ℕ
total_chars [] = 0
total_chars (turn ∷ turns) = length turn.content + total_chars turns

total_chars-append :
    (xs ys : List ConversationTurn) → total_chars (xs ++ ys) ≡ total_chars xs + total_chars ys
total_chars-append [] ys = omega arith
total_chars-append (x ∷ xs) ys = omega (arith, total_chars-append xs ys)

total_chars-reverse : (xs : List ConversationTurn) → total_chars (reverse xs) ≡ total_chars xs
total_chars-reverse [] = refl
total_chars-reverse (x ∷ xs) =
    rw (reverse-cons x xs, total_chars-append (reverse xs) (x ∷ []))
      (omega (arith, total_chars-reverse xs))

abbrev IsCapped : ConversationTurn → Type 0
IsCapped turn = length turn.content ≤ 2000

capped-IsCapped : (turns : List ConversationTurn) → All IsCapped (map capped turns)
unfolding capped
capped-IsCapped [] = tt
capped-IsCapped (turn ∷ turns) =
    (truncate_bounded turn.content 2000 (omega arith), capped-IsCapped turns)

fitting-split :
    (total : ℕ) (turns : List ConversationTurn)
    → (older : List ConversationTurn) × (turns ≡ fitting total turns ++ older)
unfolding fitting
fitting-split total [] = ([], refl)
fitting-split total (turn ∷ turns) =
    let (older, e) = fitting-split (total + length turn.content) turns in
    elim (Bool-cases (ltb 16000 (total + length turn.content))) [
      | inl full ↦ (turn ∷ turns, rw full refl)
      | inr room ↦ (older, rw room (ap (λ (ts : List ConversationTurn). turn ∷ ts) e))
    ]

fitting_bounded :
    (total : ℕ) (turns : List ConversationTurn)
    → total ≤ 16000
    → total + total_chars (fitting total turns) ≤ 16000
unfolding fitting
fitting_bounded total [] h = omega (arith, h)
fitting_bounded total (turn ∷ turns) h =
    elim (Bool-cases (ltb 16000 (total + length turn.content))) [
      | inl full ↦ rw full (omega (arith, h))
      | inr room ↦ rw room (
          omega (arith, fitting_bounded (total + length turn.content) turns (ground (arith, room))))
    ]

-- Eight turns of the longest kind fill the context.
fitting_recent :
    (seen kept total : ℕ) (turns : List ConversationTurn)
    → seen + kept ≡ 8
    → total ≤ 2000 * seen
    → All IsCapped turns
    → min kept (length turns) ≤ length (fitting total turns)
unfolding fitting
fitting_recent seen kept total [] n h c = omega arith
fitting_recent seen zero total (turn ∷ turns) n h c = omega arith
fitting_recent seen (suc kept) total (turn ∷ turns) n h c =
    let room : ltb 16000 (total + length turn.content) ≡ false = ground (arith, n, h, c.0) in
    rw room (
      omega (
        arith,
        fitting_recent (suc seen) kept (total + length turn.content) turns (omega (arith, n))
            (omega (arith, h, c.0)) c.1,
      ))

All-prefix {ℓ κ} : {A : Type ℓ} (P : A → Type κ) (xs ys : List A) → All P (xs ++ ys) → All P xs
All-prefix P [] ys h = tt
All-prefix P (x ∷ xs) ys h = (h.0, All-prefix P xs ys h.1)

-- The newest turns of the history, each cut to 2000 characters: at most 12 and 16000 characters in
-- all, but the last eight whatever their length.
pub record IsWindow (history result : List ConversationTurn) : Type 0 where
  pub newest : (older : List ConversationTurn) × (map capped history ≡ older ++ result)
  pub each : All IsCapped result
  pub total : total_chars result ≤ 16000
  pub few : length result ≤ 12
  pub recent : min 8 (length history) ≤ length result

length-map : (turns : List ConversationTurn) → length (map capped turns) ≡ length turns
length-map [] = refl
length-map (turn ∷ turns) = omega (arith, length-map turns)

module _ (turns : List ConversationTurn) where
  abbrev kept : List ConversationTurn
  kept = fitting 0 (reverse (map capped turns))

  kept-split : (older : List ConversationTurn) × (map capped turns ≡ older ++ reverse kept)
  kept-split =
      let (older, e) = fitting-split 0 (reverse (map capped turns)) in
      (
        reverse older,
        sym (reverse-reverse (map capped turns)) ∙ ap reverse e ∙ reverse-append kept older,
      )

  kept-IsCapped : All IsCapped kept
  kept-IsCapped =
      let (older, e) = fitting-split 0 (reverse (map capped turns)) in
      All-prefix IsCapped kept older
        (subst (All IsCapped) e (All-reverse IsCapped (map capped turns) (capped-IsCapped turns)))

  kept_few : length kept ≤ length turns
  kept_few =
      let (older, e) = fitting-split 0 (reverse (map capped turns)) in
      let same = ap (λ (ts : List ConversationTurn). length ts) e in
      omega
        (arith, same, length-append kept older, length-reverse (map capped turns), length-map turns)

  kept_recent : min 8 (length turns) ≤ length kept
  kept_recent = omega (
    arith,
    length-reverse (map capped turns),
    length-map turns,
    fitting_recent 0 8 0 (reverse (map capped turns)) refl (omega arith)
        (All-reverse IsCapped (map capped turns) (capped-IsCapped turns)),
  )

-- Of any history a provider is sent the newest turns, each cut to 2000 characters: at most 12, with at
-- most 16000 characters in all, and at least the last eight, or all where there are fewer.
pub bounded_history-IsWindow :
    (context : ConversationContext) → IsWindow context.history (bounded_history context)
unfolding bounded_history last_of
bounded_history-IsWindow context =
    let n = length context.history - 12 in
    let turns = skip n context.history in
    let (before, split) = skip-split n context.history in
    let (older, rest) = kept-split turns in
    let shown = length-reverse (kept turns) in
    record {
      newest = (
        map capped before ++ older,
        ap (λ (ts : List ConversationTurn). map capped ts) split
            ∙ map-append capped before turns
            ∙ ap (λ (ts : List ConversationTurn). map capped before ++ ts) rest
            ∙ sym (append_assoc (map capped before) older (reverse (kept turns))),
      );
      each = All-reverse IsCapped (kept turns) (kept-IsCapped turns);
      total = omega (
        arith,
        total_chars-reverse (kept turns),
        fitting_bounded 0 (reverse (map capped turns)) (omega arith),
      );
      few = omega (arith, shown, kept_few turns, length-skip n context.history);
      recent = omega (arith, shown, kept_recent turns, length-skip n context.history);
    }
