-- ===== src/Termux/Connector/Running/Pumped.antt =====
-- What the device sends of a process's output (apps/termux_connector/cyberai_termux.py).
use cyber_tracker_ai.Base.{
  ℕ, zero, suc, Option-cases, ◌-◌, ◌+◌, ◌≡◌, ap, sym, ◌∙◌, none, some, List, [], ◌∷◌, ◌++◌, ltb,
  nat_eq, length, arith, min, Bool-cases, inl, inr,
}
use cyber_tracker_ai.Terminal.Output.{take, take_nil, take_none, take_all, take-append}
use cyber_tracker_ai.Termux.Pending.{Stream, Stream.stdout, Stream.stderr}
use cyber_tracker_ai.Termux.Connector.Running.{pump_chunk, pump}

-- The bytes of each stream.
unfoldable pub out_bytes : List (Stream × List ℕ) → List ℕ
out_bytes [] = []
out_bytes ((stdout, chunk) ∷ rest) = chunk ++ out_bytes rest
out_bytes ((stderr, chunk) ∷ rest) = out_bytes rest

unfoldable pub err_bytes : List (Stream × List ℕ) → List ℕ
err_bytes [] = []
err_bytes ((stdout, chunk) ∷ rest) = err_bytes rest
err_bytes ((stderr, chunk) ∷ rest) = chunk ++ err_bytes rest

length-take : (n : ℕ) (xs : List ℕ) → length (take n xs) ≡ min n (length xs)
length-take zero xs = omega arith
length-take (suc n) [] = omega arith
length-take (suc n) (x ∷ xs) = omega (arith, length-take n xs)

sub_zero : (n : ℕ) → n - 0 ≡ n
sub_zero n = omega arith

sub-sub : (a b c : ℕ) → a - (b + c) ≡ a - b - c
sub-sub a b c = omega arith

-- A chunk and what follows it, under what is left of the cap.
module _ (cap used : ℕ) (chunk rest : List ℕ) where
  drop_chunk :
      pump_chunk cap used chunk ≡ none → take (cap - used) (chunk ++ rest) ≡ take (cap - used) rest
  unfolding pump_chunk
  drop_chunk h =
      take_none (cap - used) (chunk ++ rest) (ground (arith, h))
      ∙ sym (take_none (cap - used) rest (ground (arith, h)))

  keep_chunk :
      (c : List ℕ)
      → pump_chunk cap used chunk ≡ some c
      → c ++ take (cap - (used + length c)) rest ≡ take (cap - used) (chunk ++ rest)
  unfolding pump_chunk
  keep_chunk c h = elim (Bool-cases (ltb (cap - used) (length chunk))) [
    | inl over ↦ ground (
      arith,
      h,
      over,
      length-take (cap - used) chunk,
      take-append (cap - used) chunk rest,
      take_none (cap - (used + length c)) rest,
      take_none (cap - used - length chunk) rest,
    )
    | inr fits ↦ ground (
      arith,
      h,
      fits,
      take-append (cap - used) chunk rest,
      take_all (cap - used) chunk,
      ap (λ n. take n rest) (sub-sub cap used (length chunk)),
    )
  ]

pump-out :
    (max_out max_err out_used err_used : ℕ) (reads : List (Stream × List ℕ))
    → out_bytes (pump max_out max_err out_used err_used reads)
      ≡ take (max_out - out_used) (out_bytes reads)
unfolding pump out_bytes
pump-out max_out max_err out_used err_used [] = sym (take_nil (max_out - out_used))
pump-out max_out max_err out_used err_used ((stdout, chunk) ∷ rest) =
    elim (Option-cases (pump_chunk max_out out_used chunk)) [
      | inl dropped ↦ ground (
        arith,
        dropped,
        pump-out max_out max_err out_used err_used rest,
        drop_chunk max_out out_used chunk (out_bytes rest) dropped,
      )
      | inr (c, kept) ↦ ground (
        arith,
        kept,
        pump-out max_out max_err (out_used + length c) err_used rest,
        keep_chunk max_out out_used chunk (out_bytes rest) c kept,
      )
    ]
pump-out max_out max_err out_used err_used ((stderr, chunk) ∷ rest) =
    elim (Option-cases (pump_chunk max_err err_used chunk)) [
      | inl dropped ↦ ground (arith, dropped, pump-out max_out max_err out_used err_used rest)
      | inr (c, kept) ↦
          ground (arith, kept, pump-out max_out max_err out_used (err_used + length c) rest)
    ]

pump-err :
    (max_out max_err out_used err_used : ℕ) (reads : List (Stream × List ℕ))
    → err_bytes (pump max_out max_err out_used err_used reads)
      ≡ take (max_err - err_used) (err_bytes reads)
unfolding pump err_bytes
pump-err max_out max_err out_used err_used [] = sym (take_nil (max_err - err_used))
pump-err max_out max_err out_used err_used ((stderr, chunk) ∷ rest) =
    elim (Option-cases (pump_chunk max_err err_used chunk)) [
      | inl dropped ↦ ground (
        arith,
        dropped,
        pump-err max_out max_err out_used err_used rest,
        drop_chunk max_err err_used chunk (err_bytes rest) dropped,
      )
      | inr (c, kept) ↦ ground (
        arith,
        kept,
        pump-err max_out max_err out_used (err_used + length c) rest,
        keep_chunk max_err err_used chunk (err_bytes rest) c kept,
      )
    ]
pump-err max_out max_err out_used err_used ((stdout, chunk) ∷ rest) =
    elim (Option-cases (pump_chunk max_out out_used chunk)) [
      | inl dropped ↦ ground (arith, dropped, pump-err max_out max_err out_used err_used rest)
      | inr (c, kept) ↦
          ground (arith, kept, pump-err max_out max_err (out_used + length c) err_used rest)
    ]

-- However the chunks of the two streams of a process come, the device sends exactly the first bytes of
-- each, up to its cap.
pump_capped :
    (max_out max_err : ℕ) (reads : List (Stream × List ℕ))
    → (out_bytes (pump max_out max_err 0 0 reads) ≡ take max_out (out_bytes reads))
      × (err_bytes (pump max_out max_err 0 0 reads) ≡ take max_err (err_bytes reads))
pump_capped max_out max_err reads = (
  pump-out max_out max_err 0 0 reads ∙ ap (λ n. take n (out_bytes reads)) (sub_zero max_out),
  pump-err max_out max_err 0 0 reads ∙ ap (λ n. take n (err_bytes reads)) (sub_zero max_err),
)
