-- ===== src/Termux/Pending.antt =====
-- A command that a device works on, and its output under the caps (`_PendingCommand` of
-- services/termux/connection_manager.py).
pub mod Cut
use cyber_tracker_ai.Base.{
  ℕ, ◌+◌, ◌-◌, Bool, true, false, Option, none, some, List, [], ◌∷◌, ◌++◌, ltb, leb, if◌then◌else◌,
}
use cyber_tracker_ai.Base.Text.{Text}
use cyber_tracker_ai.Base.Utf8.{byte_length, has_surrogate, decode_prefix}
use cyber_tracker_ai.Terminal.Controller.{ExecutionResult}

-- `stdout` or `stderr`.
pub data Stream : Type 0 where
  stdout stderr : Stream

-- One stream of a command: `max_…_bytes`, `…_chunks`, `…_bytes` and `…_truncated`.
pub record Output : Type 0 where
  pub max_bytes : Option ℕ
  pub chunks : List Text
  pub bytes : ℕ
  pub truncated : Bool

-- `future` is the result, once it is set.
pub record PendingCommand : Type 0 where
  pub device_id : ℕ
  pub future : Option ExecutionResult
  pub out : Output
  pub error : Output
  pub started_at : ℕ

abbrev pub empty : Option ℕ → Output
empty cap = record { max_bytes = cap; chunks = []; bytes = 0; truncated = false }

-- The end of `append`: the chunk, and its bytes. `text.encode()` raises `UnicodeEncodeError`, here
-- `false`, for a text with a surrogate, which stands among the chunks by then.
unfoldable pub keep : Text → Output → Bool × Output
keep text o =
    let kept : Output = record o { chunks = o.chunks ++ text ∷ [] } in
    if has_surrogate text
    then (false, kept)
    else (true, record kept { bytes = o.bytes + byte_length text })

-- `append` under a cap; `remaining <= 0` is tested before the subtraction.
unfoldable pub append_capped : ℕ → Text → Output → Bool × Output
unfolding keep
append_capped cap text o =
    let remaining = cap - o.bytes in
    if leb cap o.bytes
    then (true, record o { truncated = true })
    else if has_surrogate text
    then (false, o)
    else if ltb remaining (byte_length text)
    then keep (decode_prefix remaining text) (record o { truncated = true })
    else keep text o

unfoldable pub append_output : Text → Output → Bool × Output
unfolding append_capped keep
append_output text o = elim o.max_bytes [ none ↦ keep text o | some cap ↦ append_capped cap text o ]

-- `append`; the Boolean tells whether it returned.
unfoldable pub append : Stream → Text → PendingCommand → Bool × PendingCommand
unfolding append_output
append stdout text p = let r = append_output text p.out in (r.0, record p { out = r.1 })
append stderr text p = let r = append_output text p.error in (r.0, record p { error = r.1 })

-- `"".join(chunks)`.
unfoldable pub joined : List Text → Text
joined [] = []
joined (c ∷ cs) = c ++ joined cs
