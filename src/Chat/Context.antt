-- ===== src/Chat/Context.antt =====
-- The bounded context of a chat turn (services/agent/conversation_context.py).
pub mod Window
use cyber_tracker_ai.Base.{
  ℕ, zero, suc, ◌+◌, ◌-◌, String, Bool, true, false, Option, none, some, List, [], ◌∷◌, ◌++◌, map,
  nat_eq, string_eq, if◌then◌else◌, length, leb, ltb,
}
use mathlib.Core.List.{reverse}
use cyber_tracker_ai.Base.Text.{Text, codes, skip_spaces}
use cyber_tracker_ai.Terminal.Output.{take}

abbrev max_history_messages : ℕ
max_history_messages = 12

abbrev max_message_chars : ℕ
max_message_chars = 2000

abbrev max_total_context_chars : ℕ
max_total_context_chars = 16000

pub data Role : Type 0 where
  system user assistant : Role

pub record ConversationTurn : Type 0 where
  pub role : Role
  pub content : Text

pub record ConversationContext : Type 0 where
  pub conversation_id : Text
  pub history : List ConversationTurn
  pub known_target : Option Text
  pub known_authorization_status : Option Text
  pub known_constraints : List Text
  pub existing_objective : Option Text

-- `text.rstrip()`.
unfoldable pub rstrip : Text → Text
unfolding skip_spaces
rstrip cs = reverse (skip_spaces (reverse cs))

-- `_truncate`, for a limit that is not 0: `…` is the code point 0x2026.
unfoldable pub truncate : Text → ℕ → Text
unfolding rstrip
truncate t limit = if leb (length t) limit then t else rstrip (take (limit - 1) t) ++ 0x2026 ∷ []

-- `xs[-n:]`, for a number that is not 0.
unfoldable pub skip {ℓ} : {A : Type ℓ} → ℕ → List A → List A
skip zero xs = xs
skip (suc n) [] = []
skip (suc n) (x ∷ xs) = skip n xs

unfoldable pub last_of {ℓ} : {A : Type ℓ} → ℕ → List A → List A
unfolding skip
last_of n xs = skip (length xs - n) xs

unfoldable pub capped : ConversationTurn → ConversationTurn
unfolding truncate
capped turn = record turn { content = truncate turn.content max_message_chars }

-- The loop over the turns from the newest, with the total so far.
unfoldable pub fitting : ℕ → List ConversationTurn → List ConversationTurn
fitting total [] = []
fitting total (turn ∷ turns) =
    let grown = total + length turn.content in
    let rest = fitting grown turns in if ltb max_total_context_chars grown then [] else turn ∷ rest

unfoldable pub bounded_history : ConversationContext → List ConversationTurn
unfolding last_of fitting
bounded_history context =
    reverse (fitting 0 (reverse (map capped (last_of max_history_messages context.history))))

-- `value or otherwise`.
abbrev either : Option Text → Text → Text
either none otherwise = otherwise
either (some []) otherwise = otherwise
either (some (c ∷ cs)) otherwise = c ∷ cs

-- `separator.join(texts)`.
unfoldable pub join : Text → List Text → Text
join separator [] = []
join separator (t ∷ []) = t
join separator (t ∷ u ∷ ts) = t ++ separator ++ join separator (u ∷ ts)

unfoldable pub build_context_summary : ConversationContext → Text
unfolding join
build_context_summary context = join (codes "\n") (
    (codes "- Conversation ID: " ++ context.conversation_id)
    ∷ (codes "- Existing objective: "
        ++ either context.existing_objective (codes "none captured yet"))
    ∷ (codes "- Known target: " ++ either context.known_target (codes "unknown"))
    ∷ (codes "- Known authorization status: "
        ++ either context.known_authorization_status (codes "UNKNOWN"))
    ∷ (codes "- User-stated constraints: "
        ++ either (some (join (codes ", ") context.known_constraints)) (codes "none"))
    ∷ [])

-- What is sent to a provider. The system instruction is a fixed text, which is not written out.
pub data Content : Type 0 where
  system_instruction : Content
  written : Text → Content

pub record Message : Type 0 where
  pub role : Role
  pub content : Content

unfoldable pub to_provider_messages : List ConversationTurn → List Message
to_provider_messages history =
    map (λ (turn : ConversationTurn). record { role = turn.role; content = written turn.content })
      history
