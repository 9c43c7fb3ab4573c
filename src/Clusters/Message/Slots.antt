-- ===== src/Clusters/Message/Slots.antt =====
-- utils/clusters/message.go: the words of the bitmap, written and read back.
use emberdb.Prelude.{
  ℕ, zero, suc, ◌*◌, ◌^◌, ◌<◌, ◌≡◌, refl, ap, ◌∙◌, some, List, [], ◌∷◌, ◌++◌, arith, Str, All,
  length, Option-cases, inl, inr,
}
use emberdb.Prelude.BigEndian.{put_u64}
use emberdb.Prelude.Reader.{Reads, with_read, read_u64, read_u64-Reads, read_u64-put}
use emberdb.Clusters.Node.{Bitmap}
use emberdb.Clusters.Message.{read_words, put_words, word_at, words_of}

pub read_words-put :
    (ws : List ℕ) (rest : Str)
    → All (λ w. w < 2 ^ 64) ws
    → read_words (length ws) (put_words ws ++ rest) ≡ some (ws, rest)
unfolding read_words put_words
read_words-put [] rest h = refl
read_words-put (w ∷ ws) rest h =
    rw (read_u64-put w (put_words ws ++ rest) h.0, read_words-put ws rest h.1) refl

pub read_words-Reads : (n : ℕ) → Reads (read_words n) put_words (n * 8)
unfolding read_words put_words
read_words-Reads zero buf bs h = ([], buf, refl, refl, omega arith, bs)
read_words-Reads (suc n) buf bs h =
    with_read put_u64 read_u64-Reads buf bs (omega arith) λ w b1 e1 s1 l1 k1.
      with_read put_words (read_words-Reads n) b1 k1 (omega arith) λ ws b2 e2 s2 l2 k2.
        (w ∷ ws, b2, rw (e1, e2) refl, s1 ∙ ap (λ t. put_u64 w ++ t) s2, omega arith, k2)

pub length-put_words : (ws : List ℕ) → length (put_words ws) ≡ length ws * 8
unfolding put_words
length-put_words [] = refl
length-put_words (w ∷ ws) = omega (arith, length-put_words ws)

pub length-read_words :
    (n : ℕ) (buf : Str) (ws : List ℕ) (rest : Str)
    → read_words n buf ≡ some (ws, rest)
    → length ws ≡ n
unfolding read_words
length-read_words zero buf ws rest h = ground arith
length-read_words (suc n) buf ws rest h = elim (Option-cases (read_u64 buf)) [
  | inl e ↦ cc
  | inr ((w, b1), e) ↦ elim (Option-cases (read_words n b1)) [
    | inl e' ↦ cc
    | inr ((ws', b2), e') ↦ let k = length-read_words n b1 ws' b2 e' in ground arith
  ]
]

pub length-words_of : (n : ℕ) (slots : Bitmap) → length (words_of n slots) ≡ n
unfolding words_of
length-words_of zero slots = refl
length-words_of (suc n) slots = ap suc (length-words_of n (λ i. slots (suc i)))

-- An array that is stored holds the words that were taken from it.
pub word_at-words_of :
    (n : ℕ) (slots : Bitmap) (i : ℕ) → i < n → word_at (words_of n slots) i ≡ slots i
unfolding word_at words_of
word_at-words_of zero slots i h = absurd (omega arith)
word_at-words_of (suc n) slots zero h = refl
word_at-words_of (suc n) slots (suc i) h = word_at-words_of n (λ j. slots (suc j)) i (omega arith)

pub words_of-word_at : (ws : List ℕ) → words_of (length ws) (word_at ws) ≡ ws
unfolding word_at words_of
words_of-word_at [] = refl
words_of-word_at (w ∷ ws) = ap (λ t. w ∷ t) (words_of-word_at ws)

pub All-words_of :
    (n : ℕ) (slots : Bitmap)
    → ((i : ℕ) → i < n → slots i < 2 ^ 64)
    → All (λ w. w < 2 ^ 64) (words_of n slots)
unfolding words_of
All-words_of zero slots h = tt
All-words_of (suc n) slots h =
    (h 0 (omega arith), All-words_of n (λ i. slots (suc i)) (λ i k. h (suc i) (omega arith)))
