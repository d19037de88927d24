-- ===== src/Splitting/Words.antt =====
-- `text.split()` takes any layout of words apart again.
use mathlib.Core.List.{append_assoc, reverse-cons, reverse-reverse, append-nil}
use problem_verifier.Prelude.{
  ℕ, true, ◌≡◌, refl, ◌≢◌, ◌∙◌, sym, ap, List, [], ◌∷◌, ◌++◌, reverse, Str, All, is_space, flush,
  split_words, split,
}
use problem_verifier.Splitting.{IsSolid}

abbrev pub IsBlank : Str → Type 0
IsBlank = All (λ c. is_space c ≡ true)

-- A text laid out as words, each behind a gap, with a tail at the end.
abbrev pub spread : List (Str × Str) → Str → Str
spread [] tail = tail
spread ((gap, word) ∷ items) tail = gap ++ (word ++ spread items tail)

abbrev pub words_of : List (Str × Str) → List Str
words_of [] = []
words_of ((gap, word) ∷ items) = word ∷ words_of items

-- The words are not empty and have no white space, and the gaps are white space: the first may be
-- empty.
abbrev pub IsLayoutAfter : List (Str × Str) → Type 0
IsLayoutAfter [] = Unit
IsLayoutAfter ((gap, word) ∷ items) =
    (gap ≢ []) × IsBlank gap × (word ≢ []) × IsSolid word × IsLayoutAfter items

abbrev pub IsLayout : List (Str × Str) → Type 0
IsLayout [] = Unit
IsLayout ((gap, word) ∷ items) = IsBlank gap × (word ≢ []) × IsSolid word × IsLayoutAfter items

split_words-blank :
    (gap text : Str) → IsBlank gap → split_words [] (gap ++ text) ≡ split_words [] text
unfolding split_words
split_words-blank [] text h = refl
split_words-blank (c ∷ gap) text h = rw h.0 (split_words-blank gap text h.1)

-- A gap ends the word that is being read.
split_words-gap :
    (word gap text : Str)
    → gap ≢ []
    → IsBlank gap
    → split_words word (gap ++ text) ≡ flush word ++ split_words [] text
unfolding split_words
split_words-gap word [] text n h = absurd (n refl)
split_words-gap word (c ∷ gap) text n h =
    rw h.0 (ap (◌++◌ (flush word)) (split_words-blank gap text h.1))

split_words-end : (word tail : Str) → IsBlank tail → split_words word tail ≡ flush word
unfolding split_words
split_words-end word [] h = refl
split_words-end word (c ∷ tail) h = rw (h.0, split_words-end [] tail h.1) (append-nil (flush word))

reverse-cons-append :
    (c : ℕ) (word read : Str) → reverse word ++ c ∷ read ≡ reverse (c ∷ word) ++ read
reverse-cons-append c word read =
    sym (ap (λ l. l ++ read) (reverse-cons c word) ∙ append_assoc (reverse word) (c ∷ []) read)

split_words-solid :
    (read word text : Str)
    → IsSolid word
    → split_words read (word ++ text) ≡ split_words (reverse word ++ read) text
unfolding split_words
split_words-solid read [] text h = refl
split_words-solid read (c ∷ word) text h = rw h.0 (
    split_words-solid (c ∷ read) word text h.1
    ∙ ap (λ l. split_words l text) (reverse-cons-append c word read))

flush-ne-nil : (word : Str) → word ≢ [] → flush word ≡ reverse word ∷ []
flush-ne-nil [] n = absurd (n refl)
flush-ne-nil (c ∷ word) n = refl

flush-reverse : (word : Str) → word ≢ [] → flush (reverse word ++ []) ≡ word ∷ []
flush-reverse word n =
    ap flush (append-nil (reverse word))
    ∙ flush-ne-nil (reverse word) (λ e. n (sym (reverse-reverse word) ∙ ap reverse e))
    ∙ ap (λ w. w ∷ []) (reverse-reverse word)

split_words-layout :
    (word : Str) (items : List (Str × Str)) (tail : Str)
    → IsLayoutAfter items
    → IsBlank tail
    → split_words word (spread items tail) ≡ flush word ++ words_of items
split_words-layout word [] tail h t = split_words-end word tail t ∙ sym (append-nil (flush word))
split_words-layout word ((gap, next) ∷ items) tail (n, blank, w, solid, h) t =
    split_words-gap word gap (next ++ spread items tail) n blank
    ∙ ap (◌++◌ (flush word)) (
        split_words-solid [] next (spread items tail) solid
        ∙ split_words-layout (reverse next ++ []) items tail h t
        ∙ ap (λ f. f ++ words_of items) (flush-reverse next w))

-- `split()` returns the words of a layout, whatever white space stands before, between and after them.
pub split-spread :
    (items : List (Str × Str)) (tail : Str)
    → IsLayout items
    → IsBlank tail
    → split (spread items tail) ≡ words_of items
unfolding split
split-spread [] tail h t = split_words-end [] tail t
split-spread ((gap, next) ∷ items) tail (blank, w, solid, h) t =
    split_words-blank gap (next ++ spread items tail) blank
    ∙ split_words-solid [] next (spread items tail) solid
    ∙ split_words-layout (reverse next ++ []) items tail h t
    ∙ ap (λ f. f ++ words_of items) (flush-reverse next w)
