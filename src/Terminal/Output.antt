-- ===== src/Terminal/Output.antt =====
-- The capped reader of a process's output (services/terminal/adapters/local_process.py). The stream
-- is the list of the chunks that it delivers before its end, a chunk is a list of bytes.
use cyber_tracker_ai.Base.{
  ℕ, zero, suc, ◌+◌, ◌-◌, ◌≤◌, ◌<◌, min, ◌≡◌, refl, sym, ap, Bool, true, false, Option, none, some,
  List, [], ◌∷◌, ◌++◌, arith, ltb, leb, nat_eq, string_eq, if◌then◌else◌, length, All,
  length-append,
}
use Prim.Native.Nat.{min}
use mathlib.Core.List.{append-nil, append_assoc}

abbrev pub take {ℓ} : {A : Type ℓ} → ℕ → List A → List A
take zero xs = []
take (suc n) [] = []
take (suc n) (x ∷ xs) = x ∷ take n xs

abbrev pub flatten {ℓ} : {A : Type ℓ} → List (List A) → List A
flatten [] = []
flatten (c ∷ cs) = c ++ flatten cs

-- `_chunks` is kept joined.
pub record CappedReader : Type 0 where
  pub max_bytes : Option ℕ
  pub chunks : List ℕ
  pub total : ℕ
  pub exceeded : Bool

abbrev pub new : Option ℕ → CappedReader
new cap = record { max_bytes = cap; chunks = []; total = 0; exceeded = false }

-- One round of `read_all` under a cap; `remaining <= 0` is tested before the subtraction.
unfoldable read_capped : ℕ → CappedReader → List ℕ → CappedReader
read_capped cap r chunk =
    let remaining = cap - r.total in
    if leb cap r.total
    then record r { exceeded = true }
    else if ltb remaining (length chunk)
    then record r {
      chunks = r.chunks ++ take remaining chunk;
      total = r.total + remaining;
      exceeded = true;
    }
    else record r { chunks = r.chunks ++ chunk; total = r.total + length chunk }

unfoldable pub read_chunk : CappedReader → List ℕ → CappedReader
unfolding read_capped
read_chunk r chunk = elim r.max_bytes [
  | none ↦ record r { chunks = r.chunks ++ chunk; total = r.total + length chunk }
  | some cap ↦ read_capped cap r chunk
]

-- The loop ends at an empty chunk, which stands for the end of the stream.
unfoldable pub read_all : CappedReader → List (List ℕ) → CappedReader
read_all r [] = r
read_all r ([] ∷ rest) = r
read_all r ((b ∷ bs) ∷ rest) = read_all (read_chunk r (b ∷ bs)) rest

sub-suc-suc : (n m : ℕ) → suc n - suc m ≡ n - m
sub-suc-suc n m = omega arith

module _ {ℓ} {A : Type ℓ} where
  pub take_none : (n : ℕ) (xs : List A) → n ≡ 0 → take n xs ≡ []
  take_none zero xs h = refl
  take_none (suc n) xs h = absurd (omega arith)

  pub take_nil : (n : ℕ) → take {A = A} n [] ≡ []
  take_nil zero = refl
  take_nil (suc n) = refl

  pub take_all : (n : ℕ) (xs : List A) → length xs ≤ n → take n xs ≡ xs
  take_all zero [] h = refl
  take_all (suc n) [] h = refl
  take_all zero (x ∷ xs) h = absurd (omega arith)
  take_all (suc n) (x ∷ xs) h = ap (λ t. x ∷ t) (take_all n xs (omega arith))

  pub take-append :
      (n : ℕ) (xs ys : List A) → take n (xs ++ ys) ≡ take n xs ++ take (n - length xs) ys
  take-append zero [] ys = sym (take_none (zero - 0) ys (omega arith))
  take-append zero (x ∷ xs) ys = sym (take_none (zero - suc (length xs)) ys (omega arith))
  take-append (suc n) [] ys = let e : suc n - 0 ≡ suc n = omega arith in rw e
  take-append (suc n) (x ∷ xs) ys = rw (sub-suc-suc n (length xs)) (rw (take-append n xs ys))

-- What a reader has kept of the bytes `seen`: the first `cap` of them, and whether more came.
pub record Keeps (cap : ℕ) (seen : List ℕ) (r : CappedReader) : Type 0 where
  pub capped : r.max_bytes ≡ some cap
  pub kept : r.chunks ≡ take cap seen
  pub counted : r.total ≡ min cap (length seen)
  pub flagged : r.exceeded ≡ ltb cap (length seen)

new-Keeps : (cap : ℕ) → Keeps cap [] (new (some cap))
new-Keeps cap = record {
  capped = refl;
  kept = sym (take_nil cap);
  counted = omega arith;
  flagged = ground arith;
}

read_chunk-Keeps :
    (cap : ℕ) (seen chunk : List ℕ) (r : CappedReader)
    → 0 < length chunk
    → Keeps cap seen r
    → Keeps cap (seen ++ chunk) (read_chunk r chunk)
unfolding read_chunk
read_chunk-Keeps cap seen chunk r h k = record {
  capped = ground (arith, k.capped);
  kept = ground (
    arith,
    k.capped,
    k.kept,
    k.counted,
    take-append cap seen chunk,
    take_none (cap - length seen) chunk,
    take_all (cap - length seen) chunk,
    append-nil r.chunks,
  );
  counted = ground (arith, k.capped, k.counted, length-append seen chunk);
  flagged = ground (arith, k.capped, k.counted, k.flagged, length-append seen chunk);
}

read_all-Keeps :
    (cap : ℕ) (seen : List ℕ) (chunks : List (List ℕ)) (r : CappedReader)
    → All (λ c. 0 < length c) chunks
    → Keeps cap seen r
    → Keeps cap (seen ++ flatten chunks) (read_all r chunks)
unfolding read_all
read_all-Keeps cap seen [] r h k = rw append-nil k
read_all-Keeps cap seen ([] ∷ rest) r h k = absurd (omega (arith, h.0))
read_all-Keeps cap seen ((b ∷ bs) ∷ rest) r h k = rw (← append_assoc) (
    read_all-Keeps cap (seen ++ b ∷ bs) rest (read_chunk r (b ∷ bs)) h.1
      (read_chunk-Keeps cap seen (b ∷ bs) r h.0 k))

-- Whatever chunks a process writes before the stream ends, a reader with a cap keeps exactly the
-- first `cap` bytes of them all, and raises its flag exactly if there were more.
pub read_all_capped :
    (cap : ℕ) (chunks : List (List ℕ))
    → All (λ c. 0 < length c) chunks
    → ((read_all (new (some cap)) chunks).chunks ≡ take cap (flatten chunks))
      × ((read_all (new (some cap)) chunks).exceeded ≡ ltb cap (length (flatten chunks)))
read_all_capped cap chunks h =
    let k = read_all-Keeps cap [] chunks (new (some cap)) h (new-Keeps cap) in (k.kept, k.flagged)
