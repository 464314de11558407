-- ===== src/Client/Stream.antt =====
-- What the client relies on in the stream reader of `serde_json`, and the messages in a text.
use rlstatsapi.Prelude.{
  ℕ, zero, suc, ◌≤◌, ◌<◌, ◌≡◌, ◌⊎◌, inl, inr, refl, ap, sym, ◌∙◌, false, Bool-cases, List, [], ◌∷◌,
  ◌++◌, length, arith,
}
use rlstatsapi.Text.{is_ascii_whitespace}
use rlstatsapi.Json.{object, Fields}
use rlstatsapi.Client.Buffer.{
  Bytes, value, ends_early, JsonStream, Read, chunk, broken, drop, discard_leading_whitespace,
}

-- An object is found at its last byte, whatever follows it, and a text that stops inside of it ends
-- early.
pub record StreamLaws {N : Type 0} (stream : JsonStream N) : Type 0 where
  pub offset :
      (b : Bytes) (f : Fields N) (n : ℕ)
      → stream.next b ≡ value (object f) n
      → (0 < n) × (n ≤ length b)
  pub complete :
      (p q : Bytes) (f : Fields N) (n : ℕ)
      → stream.next (p ++ q) ≡ value (object f) n
      → n ≤ length p
      → stream.next p ≡ value (object f) n
  pub incomplete :
      (c : ℕ) (p q : Bytes) (f : Fields N) (n : ℕ)
      → is_ascii_whitespace c ≡ false
      → stream.next ((c ∷ p) ++ q) ≡ value (object f) n
      → length (c ∷ p) < n
      → stream.next (c ∷ p) ≡ ends_early

-- The objects that follow one another in a text, with white space before each and behind the last.
pub data Messages {N : Type 0} (stream : JsonStream N) : Bytes → List (Fields N) → Type 0 where
  end : (b : Bytes) → discard_leading_whitespace b ≡ [] → Messages stream b []
  more :
      (b : Bytes) (f : Fields N) (n : ℕ) (fs : List (Fields N))
      → stream.next (discard_leading_whitespace b) ≡ value (object f) n
      → Messages stream (drop n (discard_leading_whitespace b)) fs
      → Messages stream b (f ∷ fs)

-- The bytes that some reads deliver.
abbrev pub bytes_of : List Read → Bytes
bytes_of [] = []
bytes_of (chunk s ∷ reads) = s ++ bytes_of reads
bytes_of (broken source ∷ reads) = bytes_of reads

-- Every read delivers something.
abbrev pub IsFlowing : List Read → Type 0
IsFlowing [] = Unit
IsFlowing (chunk (c ∷ s) ∷ reads) = IsFlowing reads
IsFlowing _ = ⊥

-- A buffer is white space, or starts with something else once the white space is discarded.
pub discard-cases :
    (b : Bytes)
    → (discard_leading_whitespace b ≡ [])
      ⊎ ((c : ℕ) × (s : Bytes) × (is_ascii_whitespace c ≡ false)
          × (discard_leading_whitespace b ≡ c ∷ s))
unfolding discard_leading_whitespace
discard-cases [] = inl refl
discard-cases (c ∷ s) = elim (Bool-cases (is_ascii_whitespace c)) [
  | inl blank ↦ rw blank (discard-cases s)
  | inr other ↦ inr (c, s, other, rw other)
]

pub discard-keeps :
    (c : ℕ) (s : Bytes) → is_ascii_whitespace c ≡ false → discard_leading_whitespace (c ∷ s) ≡ c ∷ s
unfolding discard_leading_whitespace
discard-keeps c s h = rw h

-- White space may be discarded before the rest arrives.
pub discard-append :
    (b s : Bytes)
    → discard_leading_whitespace (discard_leading_whitespace b ++ s)
      ≡ discard_leading_whitespace (b ++ s)
unfolding discard_leading_whitespace
discard-append [] s = refl
discard-append (c ∷ b) s = elim (Bool-cases (is_ascii_whitespace c)) [
  | inl blank ↦ rw blank (discard-append b s)
  | inr other ↦ rw (other, other)
]

pub drop-append : (n : ℕ) (p q : Bytes) → n ≤ length p → drop n (p ++ q) ≡ drop n p ++ q
drop-append zero p q h = refl
drop-append (suc n) [] q h = absurd (omega arith)
drop-append (suc n) (c ∷ p) q h = drop-append n p q (omega arith)

-- The first part of a text that starts with no white space.
pub discard-part :
    (b q s : Bytes) (c : ℕ)
    → discard_leading_whitespace b ≡ c ∷ s
    → is_ascii_whitespace c ≡ false
    → discard_leading_whitespace (b ++ q) ≡ (c ∷ s) ++ q
discard-part b q s c e h =
    sym (discard-append b q)
    ∙ ap (λ w. discard_leading_whitespace (w ++ q)) e
    ∙ discard-keeps c (s ++ q) h

pub discard_twice :
    (c : ℕ) (s b : Bytes)
    → discard_leading_whitespace b ≡ c ∷ s
    → discard_leading_whitespace (c ∷ s) ≡ c ∷ s
discard_twice c s b e = elim (discard-cases b) [
  | inl blank ↦ cc
  | inr (d, t, visible, e2) ↦ rw (sym e ∙ e2) (discard-keeps d t visible)
]
