-- ===== src/Base/Text.antt =====
-- The operations on text that the program uses, over the list of a text's code points.
use mathlib.Core.List.{reverse}
use Prim.Native.Nat.{zero, suc, ℕ, ◌<◌, ◌+◌, ◌/◌, ◌%◌}
use Prim.Native.Char.{code}
use Prim.Native.String.{String}
use mathlib.Core.Bool.{Bool, true, false≢true, false, ◌&&◌, ◌||◌}
use mathlib.Core.Path.{◌≡◌, refl}
use mathlib.Core.List.{List, [], ◌∷◌, ◌++◌}
use native.Mathlib.Omega.{arith}
use mathlib.Core.Logic.{◌↔◌, inl, inr}
use cyber_tracker_ai.Base.Tests.{ltb, Bool-cases, leb, nat_beq, Comparable, if◌then◌else◌}

-- A text as the list of its code points.
abbrev pub Text : Type 0
Text = List ℕ

unfoldable pub codes : String → Text
codes String.[] = []
codes (String.◌∷◌ c s) = code c ∷ codes s

-- `str.lower` on ASCII.
unfoldable pub lower : Text → Text
lower [] = []
lower (c ∷ cs) = (if leb b'A' c && leb c b'Z' then c + 32 else c) ∷ lower cs

-- What `re.IGNORECASE` takes for one letter: the ASCII capitals, and the long s, the Kelvin sign,
-- and the dotted and dotless i.
unfoldable pub fold : ℕ → ℕ
fold c =
    if leb b'A' c && leb c b'Z'
    then c + 32
    else if nat_beq c 0x17f
    then b's'
    else if nat_beq c 0x212a
    then b'k'
    else if nat_beq c 0x130 || nat_beq c 0x131
    then b'i'
    else c

unfoldable pub starts_with : Text → Text → Bool
starts_with [] cs = true
starts_with (p ∷ ps) [] = false
starts_with (p ∷ ps) (c ∷ cs) = nat_beq p c && starts_with ps cs

-- `needle in text`.
unfoldable pub contains : Text → Text → Bool
unfolding starts_with
contains needle [] = starts_with needle []
contains needle (c ∷ cs) = starts_with needle (c ∷ cs) || contains needle cs

-- `text.startswith(prefix)` splits the text at the prefix.
pub starts_with-eq-append :
    (ps cs : Text) → starts_with ps cs ≡ true → (rest : Text) × (cs ≡ ps ++ rest)
unfolding starts_with
starts_with-eq-append [] cs h = (cs, refl)
starts_with-eq-append (p ∷ ps) [] h = absurd (false≢true h)
starts_with-eq-append (p ∷ ps) (c ∷ cs) h =
    let tail = starts_with-eq-append ps cs (ground arith) in (tail.0, ground (arith, tail.1))

unfoldable pub text_beq : Text → Text → Bool
text_beq [] [] = true
text_beq (a ∷ as') (b ∷ bs) = nat_beq a b && text_beq as' bs
text_beq _ _ = false

pub text_beq_iff : (s t : Text) → (text_beq s t ≡ true) ↔ (s ≡ t)
unfolding text_beq
text_beq_iff [] [] = ((λ h. refl), (λ h. refl))
text_beq_iff [] (b ∷ bs) = ground arith
text_beq_iff (a ∷ as') [] = ground arith
text_beq_iff (a ∷ as') (b ∷ bs) = ground (arith, text_beq_iff as' bs)

instance abbrev pub text_eq : Comparable Text
text_eq = record { equals = text_beq; equals_iff = text_beq_iff }

unfoldable pub take_while : (ℕ → Bool) → Text → Text
take_while p [] = []
take_while p (c ∷ cs) = let rest = take_while p cs in if p c then c ∷ rest else []

unfoldable pub drop : ℕ → Text → Text
drop zero cs = cs
drop (suc n) [] = []
drop (suc n) (c ∷ cs) = drop n cs

-- White space, as `str.isspace`, `str.strip` and `\s` see it.
abbrev pub is_space : ℕ → Bool
is_space c =
    leb 9 c && leb c 13
    || leb 28 c && leb c 32
    || nat_beq c 0x85
    || nat_beq c 0xa0
    || nat_beq c 0x1680
    || leb 0x2000 c && leb c 0x200a
    || nat_beq c 0x2028
    || nat_beq c 0x2029
    || nat_beq c 0x202f
    || nat_beq c 0x205f
    || nat_beq c 0x3000

-- `text.strip()`.
unfoldable pub skip_spaces : Text → Text
skip_spaces [] = []
skip_spaces (c ∷ cs) = let rest = skip_spaces cs in if is_space c then rest else c ∷ cs

unfoldable pub strip : Text → Text
unfolding skip_spaces
strip cs = reverse (skip_spaces (reverse (skip_spaces cs)))

-- The decimal digits of a number, before the given ones; the fuel is at least their number.
unfoldable digits_onto : ℕ → ℕ → Text → Text
digits_onto zero n cs = cs
digits_onto (suc fuel) n cs =
    let here = (48 + n % 10) ∷ cs in
    let more = digits_onto fuel (n / 10) here in if ltb n 10 then here else more

-- Any fuel above the number gives the same digits.
digits_onto-fuel : (f g n : ℕ) (cs : Text) → n < f → n < g → digits_onto f n cs ≡ digits_onto g n cs
unfolding digits_onto
digits_onto-fuel zero g n cs a b = ground (arith, a)
digits_onto-fuel (suc f) zero n cs a b = ground (arith, b)
digits_onto-fuel (suc f) (suc g) n cs a b = elim (Bool-cases (ltb n 10)) [
  | inl short ↦ rw short refl
  | inr long ↦ rw long (
      digits_onto-fuel f g (n / 10) ((48 + n % 10) ∷ cs) (ground (arith, a, long))
        (ground (arith, b, long)))
]

-- `str(n)`, with n + 1 as fuel.
unfoldable pub decimal : ℕ → Text
unfolding digits_onto
decimal n = digits_onto (suc n) n []
