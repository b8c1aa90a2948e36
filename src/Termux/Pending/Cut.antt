-- ===== src/Termux/Pending/Cut.antt =====
-- What is kept of a device's output (services/termux/connection_manager.py), against one cut of the
-- whole.
use cyber_tracker_ai.Base.{
  ℕ, ◌+◌, ◌-◌, ◌≤◌, ◌<◌, ◌≡◌, refl, sym, ◌∙◌, true, false, some, List, [], ◌∷◌, ◌++◌, arith, ltb,
  leb, Bool-cases, inl, inr, All,
}
use mathlib.Core.List.{append-nil, append_assoc}
use cyber_tracker_ai.Base.Text.{Text}
use cyber_tracker_ai.Base.Utf8.{width, byte_length, has_surrogate, decode_prefix, replacement}
use cyber_tracker_ai.Termux.Pending.{Output, empty, append_output, joined}

-- The output after these messages, one after the other.
unfoldable pub append_all : List Text → Output → Output
append_all [] o = o
append_all (t ∷ ts) o = append_all ts (append_output t o).1

byte_length-append : (xs ys : Text) → byte_length (xs ++ ys) ≡ byte_length xs + byte_length ys
unfolding byte_length
byte_length-append [] ys = omega arith
byte_length-append (x ∷ xs) ys = omega (arith, byte_length-append xs ys)

joined-append : (xs ys : List Text) → joined (xs ++ ys) ≡ joined xs ++ joined ys
unfolding joined
joined-append [] ys = refl
joined-append (x ∷ xs) ys = rw (joined-append xs ys) (sym (append_assoc x (joined xs) (joined ys)))

width_bounds : (c : ℕ) → (0 < width c) × (width c ≤ 4)
unfolding width
width_bounds c = ground arith

-- A text that fits is not cut.
decode_prefix_all : (n : ℕ) (t : Text) → byte_length t ≤ n → decode_prefix n t ≡ t
unfolding decode_prefix byte_length
decode_prefix_all n [] h = refl
decode_prefix_all n (c ∷ cs) h = ground (arith, decode_prefix_all (n - width c) cs)

decode_prefix_none : (n : ℕ) (t : Text) → n ≡ 0 → decode_prefix n t ≡ []
unfolding decode_prefix
decode_prefix_none n [] h = refl
decode_prefix_none n (c ∷ cs) h = ground (arith, width_bounds c)

width-replacement : width replacement ≡ 3
unfolding width
width-replacement = refl

-- A text that does not fit is cut within a character at most.
decode_prefix_bounds :
    (n : ℕ) (t : Text)
    → n < byte_length t
    → (n ≤ byte_length (decode_prefix n t)) × (byte_length (decode_prefix n t) ≤ n + 2)
unfolding decode_prefix byte_length
decode_prefix_bounds n [] h = absurd (omega arith)
decode_prefix_bounds n (c ∷ cs) h =
    ground (arith, width_bounds c, width-replacement, decode_prefix_bounds (n - width c) cs)

-- A cut of two texts that stops in the second, or in the first.
decode_prefix-append :
    (n : ℕ) (s t : Text)
    → byte_length s ≤ n
    → decode_prefix n (s ++ t) ≡ s ++ decode_prefix (n - byte_length s) t
unfolding decode_prefix byte_length
decode_prefix-append n [] t h = let e : n - 0 ≡ n = omega arith in rw e
decode_prefix-append n (c ∷ cs) t h =
    let e : n - width c - byte_length cs ≡ n - (width c + byte_length cs) = omega arith in
    ground (arith, e, decode_prefix-append (n - width c) cs t)

decode_prefix-append_over :
    (n : ℕ) (s t : Text) → n < byte_length s → decode_prefix n (s ++ t) ≡ decode_prefix n s
unfolding decode_prefix byte_length
decode_prefix-append_over n [] t h = absurd (omega arith)
decode_prefix-append_over n (c ∷ cs) t h =
    ground (arith, decode_prefix-append_over (n - width c) cs t)

-- What the output of a stream under a cap holds after the texts `seen`: one cut of them all.
pub record Holds (cap : ℕ) (seen : Text) (o : Output) : Type 0 where
  pub capped : o.max_bytes ≡ some cap
  pub kept : joined o.chunks ≡ decode_prefix cap seen
  pub counted : o.bytes ≡ byte_length (joined o.chunks)
  pub flagged : cap < byte_length seen → o.truncated ≡ true

-- What is held reaches the cap once the texts do, and never before.
Holds-bytes :
    (cap : ℕ) (seen : Text) (o : Output)
    → Holds cap seen o
    → (byte_length seen ≤ cap → o.bytes ≡ byte_length seen)
      × (cap < byte_length seen → cap ≤ o.bytes)
Holds-bytes cap seen o k = (
  λ h. ground (arith, k.kept, k.counted, decode_prefix_all cap seen h),
  λ h. ground (arith, k.kept, k.counted, decode_prefix_bounds cap seen h),
)

pub has_surrogate_none :
    (n : ℕ) (t : Text) → has_surrogate t ≡ false → has_surrogate (decode_prefix n t) ≡ false
unfolding decode_prefix has_surrogate
has_surrogate_none n [] h = refl
has_surrogate_none n (c ∷ cs) h = ground (arith, has_surrogate_none (n - width c) cs)

-- Past the cap nothing is added to the cut.
decode_prefix_full :
    (cap : ℕ) (seen text : Text)
    → cap ≤ byte_length seen
    → decode_prefix cap (seen ++ text) ≡ decode_prefix cap seen
decode_prefix_full cap seen text h = elim (Bool-cases (ltb cap (byte_length seen))) [
  | inl over ↦ decode_prefix-append_over cap seen text (ground (arith, over))
  | inr full ↦ ground (
    arith,
    full,
    decode_prefix-append cap seen text,
    decode_prefix_none (cap - byte_length seen) text,
    decode_prefix_all cap seen,
    append-nil seen,
  )
]

joined-snoc : (ts : List Text) (t : Text) → joined (ts ++ t ∷ []) ≡ joined ts ++ t
unfolding joined
joined-snoc ts t = rw (joined-append ts (t ∷ [])) (rw (append-nil t) refl)

-- The three ways of `append` under a cap.
module _ (cap : ℕ) (text : Text) (o : Output) (capped : o.max_bytes ≡ some cap) where
  append_output_full :
      leb cap o.bytes ≡ true → append_output text o ≡ (true, record o { truncated = true })
  unfolding append_output
  append_output_full full = ground (arith, capped, full)

  append_output_over :
      has_surrogate text ≡ false
      → leb cap o.bytes ≡ false
      → ltb (cap - o.bytes) (byte_length text) ≡ true
      → append_output text o ≡ (
        true,
        record o {
          chunks = o.chunks ++ decode_prefix (cap - o.bytes) text ∷ [];
          bytes = o.bytes + byte_length (decode_prefix (cap - o.bytes) text);
          truncated = true;
        },
      )
  unfolding append_output
  append_output_over clean room over =
      ground (arith, capped, has_surrogate_none (cap - o.bytes) text)

  append_output_fits :
      has_surrogate text ≡ false
      → leb cap o.bytes ≡ false
      → ltb (cap - o.bytes) (byte_length text) ≡ false
      → append_output text o
        ≡ (true, record o { chunks = o.chunks ++ text ∷ []; bytes = o.bytes + byte_length text })
  unfolding append_output
  append_output_fits clean room fits = ground (arith, capped)

module _ (cap : ℕ) (seen text : Text) (o : Output) (k : Holds cap seen o) where
  append_full : leb cap o.bytes ≡ true → Holds cap (seen ++ text) (append_output text o).1
  append_full full =
      let reached : cap ≤ byte_length seen = ground (arith, full, Holds-bytes cap seen o k) in
      rw (append_output_full cap text o k.capped full) (record {
        capped = k.capped;
        kept = k.kept ∙ sym (decode_prefix_full cap seen text reached);
        counted = k.counted;
        flagged = λ _. refl;
      })

  append_room :
      has_surrogate text ≡ false
      → leb cap o.bytes ≡ false
      → Holds cap (seen ++ text) (append_output text o).1
  append_room clean room =
      let below : byte_length seen ≤ cap = ground (arith, room, Holds-bytes cap seen o k) in
      let counted : o.bytes ≡ byte_length seen = (Holds-bytes cap seen o k).0 below in
      let all : joined o.chunks ≡ seen = k.kept ∙ decode_prefix_all cap seen below in
      let cut = decode_prefix-append cap seen text below in
      let total = byte_length-append seen text in
      elim (Bool-cases (ltb (cap - o.bytes) (byte_length text))) [
        | inl over ↦ rw (append_output_over cap text o k.capped clean room over) (record {
          capped = k.capped;
          kept =
              ground (
                arith,
                all,
                cut,
                counted,
                joined-snoc o.chunks (decode_prefix (cap - o.bytes) text),
              );
          counted = ground (
            arith,
            all,
            counted,
            joined-snoc o.chunks (decode_prefix (cap - o.bytes) text),
            byte_length-append seen (decode_prefix (cap - o.bytes) text),
          );
          flagged = λ _. refl;
        })
        | inr fits ↦ rw (append_output_fits cap text o k.capped clean room fits) (record {
          capped = k.capped;
          kept = ground (
            arith,
            all,
            cut,
            counted,
            joined-snoc o.chunks text,
            decode_prefix_all (cap - byte_length seen) text,
          );
          counted = ground (arith, all, counted, joined-snoc o.chunks text, total);
          flagged = λ h. ground (arith, total, counted, fits, h);
        })
      ]

append_output-Holds :
    (cap : ℕ) (seen text : Text) (o : Output)
    → has_surrogate text ≡ false
    → Holds cap seen o
    → Holds cap (seen ++ text) (append_output text o).1
append_output-Holds cap seen text o clean k = elim (Bool-cases (leb cap o.bytes)) [
  | inl full ↦ append_full cap seen text o k full
  | inr room ↦ append_room cap seen text o k clean room
]

append_all-Holds :
    (cap : ℕ) (seen : Text) (texts : List Text) (o : Output)
    → All (λ t. has_surrogate t ≡ false) texts
    → Holds cap seen o
    → Holds cap (seen ++ joined texts) (append_all texts o)
unfolding append_all joined
append_all-Holds cap seen [] o clean k = rw (append-nil seen) k
append_all-Holds cap seen (t ∷ ts) o clean k = rw (← append_assoc) (
    append_all-Holds cap (seen ++ t) ts (append_output t o).1 clean.1
      (append_output-Holds cap seen t o clean.0 k))

empty-Holds : (cap : ℕ) → Holds cap [] (empty (some cap))
unfolding joined decode_prefix byte_length
empty-Holds cap = record {
  capped = refl;
  kept = refl;
  counted = refl;
  flagged = λ h. absurd (omega arith);
}

-- However a device cuts its output into messages that can be encoded: under a cap the manager keeps
-- what decoding the first `cap` bytes of the whole gives, which is at most two bytes longer than the
-- cap, and marks the output as truncated whenever the whole is longer than the cap.
pub append_all_capped :
    (cap : ℕ) (texts : List Text)
    → All (λ t. has_surrogate t ≡ false) texts
    → (joined (append_all texts (empty (some cap))).chunks ≡ decode_prefix cap (joined texts))
      × (byte_length (joined (append_all texts (empty (some cap))).chunks) ≤ cap + 2)
      × (cap < byte_length (joined texts) → (append_all texts (empty (some cap))).truncated ≡ true)
append_all_capped cap texts clean =
    let k = append_all-Holds cap [] texts (empty (some cap)) clean (empty-Holds cap) in
    (
      k.kept,
      ground (
        arith,
        k.kept,
        decode_prefix_bounds cap (joined texts),
        decode_prefix_all cap (joined texts),
      ),
      k.flagged,
    )
