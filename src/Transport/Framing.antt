-- ===== src/Transport/Framing.antt =====
-- The cutting of the byte stream into commands.
use mathlib.Core.List.{append_assoc, append-nil}
use protobuf_sandbox.Prelude.{
  list_laws, ℕ, zero, suc, ◌+◌, ◌≤◌, ◌≡◌, ◌≢◌, refl, sym, ap, ◌∙◌, none, some, List, [], ◌∷◌, ◌++◌,
  arith, ◌==◌, if◌then◌else◌, Bool-cases, Option-cases, Bytes, length, inl, inr, All, All-append,
  ==_iff,
}
use protobuf_sandbox.Transport.{cut_at_newline, drain}

-- The specification: commands end at newlines, and `cur` is what has been read of the next one.
unfoldable pub cut : Bytes → Bytes → List Bytes × Bytes
cut cur [] = ([], cur)
cut cur (x ∷ xs) =
    let ended : List Bytes × Bytes = (cur ∷ (cut [] xs).0, (cut [] xs).1) in
    let longer : List Bytes × Bytes = cut (cur ++ x ∷ []) xs in if x == b'\n' then ended else longer

-- The stream that a cut came from.
abbrev pub joined : List Bytes → Bytes → Bytes
joined [] rest = rest
joined (s ∷ ss) rest = s ++ b'\n' ∷ joined ss rest

abbrev pub NoNewline : Bytes → Type 0
NoNewline = All (λ c. c ≢ b'\n')

cut_at_newline-none :
    (buffer cur : Bytes) → cut_at_newline buffer ≡ none → cut cur buffer ≡ ([], cur ++ buffer)
unfolding cut_at_newline cut
cut_at_newline-none [] cur e = rw (append-nil cur)
cut_at_newline-none (x ∷ xs) cur e = elim (Bool-cases (x == b'\n')) [
  | inl b ↦ cc (rw (b, cut_at_newline) at e)
  | inr b ↦ elim (Option-cases (cut_at_newline xs)) [
    | inl z ↦ rw b (cut_at_newline-none xs (cur ++ x ∷ []) z ∙ simp list_laws)
    | inr (p, z) ↦ ground arith
  ]
]

cut_at_newline-some :
    (buffer cur front back : Bytes)
    → cut_at_newline buffer ≡ some (front, back)
    → (cut cur buffer ≡ ((cur ++ front) ∷ (cut [] back).0, (cut [] back).1))
      × (length back + 1 ≤ length buffer)
unfolding cut_at_newline cut
cut_at_newline-some [] cur front back e = cc
cut_at_newline-some (x ∷ xs) cur front back e = elim (Bool-cases (x == b'\n')) [
  | inl b ↦ ground (arith, append-nil cur)
  | inr b ↦ elim (Option-cases (cut_at_newline xs)) [
    | inl z ↦ ground arith
    | inr ((f, g), z) ↦
        ground (arith, cut_at_newline-some xs (cur ++ x ∷ []) f g z, append_assoc cur (x ∷ []) f)
  ]
]

-- With a round for each byte the loop cuts the buffer as the specification says.
pub drain_enough :
    (fuel : ℕ) (buffer : Bytes) → length buffer ≤ fuel → drain fuel buffer ≡ cut [] buffer
unfolding drain
drain_enough zero [] h = unfold cut in refl
drain_enough zero (x ∷ xs) h = absurd (omega arith)
drain_enough (suc fuel) buffer h = elim (Option-cases (cut_at_newline buffer)) [
  | inl z ↦ rw (z, drain) (sym (cut_at_newline-none buffer [] z))
  | inr ((front, back), z) ↦
      let (e, shorter) = cut_at_newline-some buffer [] front back z in
      rw (z, drain) (rw (drain_enough fuel back (omega arith)) (sym e))
]

-- Cutting a stream in two parts, with what is left of the first in front of the second, is cutting
-- it whole.
pub cut-append :
    (xs ys cur : Bytes)
    → cut cur (xs ++ ys) ≡ ((cut cur xs).0 ++ (cut (cut cur xs).1 ys).0, (cut (cut cur xs).1 ys).1)
unfolding cut
cut-append [] ys cur = refl
cut-append (x ∷ xs) ys cur = ground (arith, cut-append xs ys [], cut-append xs ys (cur ++ x ∷ []))

NoNewline-concat : (s : Bytes) (x : ℕ) → NoNewline s → x ≢ b'\n' → NoNewline (s ++ x ∷ [])
NoNewline-concat s x h n = All-append (λ c. c ≢ b'\n') s (x ∷ []) h (n, tt)

-- The cut is the one into strings without a newline that gives the stream back.
pub cut-joined :
    (xs cur : Bytes)
    → NoNewline cur
    → (joined (cut cur xs).0 (cut cur xs).1 ≡ cur ++ xs)
      × All NoNewline (cut cur xs).0
      × NoNewline (cut cur xs).1
unfolding cut
cut-joined [] cur h = (rw (append-nil cur), tt, h)
cut-joined (x ∷ xs) cur h = elim (Bool-cases (x == b'\n')) [
  | inl b ↦
      let (e, cmds, rest) = cut-joined xs [] tt in rw b (rw (e, (==_iff x 10).0 b), (h, cmds), rest)
  | inr b ↦
      let (e, cmds, rest) =
        cut-joined xs (cur ++ x ∷ []) (NoNewline-concat cur x h (λ z. ground arith)) in
      rw b (e ∙ append_assoc cur (x ∷ []) xs, cmds, rest)
]

-- With fuel for each byte, the strings that the loop cuts off hold no newline, nor does what is left, and together with the
-- newlines between them they are the buffer.
pub drain-joined :
    (fuel : ℕ) (buffer : Bytes)
    → length buffer ≤ fuel
    → (joined (drain fuel buffer).0 (drain fuel buffer).1 ≡ buffer)
      × All NoNewline (drain fuel buffer).0
      × NoNewline (drain fuel buffer).1
drain-joined fuel buffer h = rw (drain_enough fuel buffer h) (cut-joined buffer [] tt)

pub cut-NoNewline : (xs cur : Bytes) → NoNewline xs → cut cur xs ≡ ([], cur ++ xs)
unfolding cut
cut-NoNewline [] cur h = rw (append-nil cur)
cut-NoNewline (x ∷ xs) cur (n, h) =
    ground (arith, cut-NoNewline xs (cur ++ x ∷ []) h, append_assoc cur (x ∷ []) xs)

-- A further part of the stream meets what was left of the parts before it.
pub cut_further :
    (xs ys : Bytes)
    → cut [] (xs ++ ys)
      ≡ ((cut [] xs).0 ++ (cut [] ((cut [] xs).1 ++ ys)).0, (cut [] ((cut [] xs).1 ++ ys)).1)
cut_further xs ys =
    let rest = (cut [] xs).1 in
    let (e, cmds, h) = cut-joined xs [] tt in
    let alone = cut-NoNewline rest [] h in
    cut-append xs ys []
    ∙ ap (λ r. ((cut [] xs).0 ++ r.0, r.1)) (sym (cut-append rest ys [] ∙ rw alone))

pub cut_left : (xs : Bytes) → NoNewline (cut [] xs).1
cut_left xs = (cut-joined xs [] tt).2
