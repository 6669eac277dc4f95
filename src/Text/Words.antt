-- ===== src/Text/Words.antt =====
-- `str::split_whitespace`.
use rust_bpf.Prelude.{
  ℕ, ◌≡◌, refl, ◌∙◌, ap, false, true, List, [], ◌∷◌, ◌++◌, All, append_assoc, append-nil,
  if◌then◌else◌, ◌≢◌,
}
use rust_bpf.Text.Trim.{is_whitespace}

-- A word, unless it is empty, in front of other words.
unfoldable pub close_word : List ℕ → List (List ℕ) → List (List ℕ)
close_word [] words = words
close_word (c ∷ word) words = (c ∷ word) ∷ words

-- The words of a text behind the beginning of one.
unfoldable pub words_from : List ℕ → List ℕ → List (List ℕ)
unfolding close_word is_whitespace
words_from word [] = close_word word []
words_from word (c ∷ s) =
    let behind = words_from [] s in
    let more = words_from (word ++ c ∷ []) s in
    if is_whitespace c then close_word word behind else more

unfoldable pub split_whitespace : List ℕ → List (List ℕ)
unfolding words_from
split_whitespace s = words_from [] s

-- No character is white.
abbrev pub IsWord : List ℕ → Type 0
IsWord = All (λ c. is_whitespace c ≡ false)

words_from-IsWord :
    (begun word : List ℕ) (c : ℕ) (s : List ℕ)
    → IsWord word
    → is_whitespace c ≡ true
    → words_from begun (word ++ c ∷ s) ≡ close_word (begun ++ word) (words_from [] s)
unfolding words_from
words_from-IsWord begun [] c s h white = rw (white, words_from, append-nil begun) refl
words_from-IsWord begun (d ∷ word) c s h white =
    rw (h.0, words_from)
      (words_from-IsWord (begun ++ d ∷ []) word c s h.1 white
        ∙ rw (append_assoc begun (d ∷ []) word) refl)

words_from_last :
    (begun word : List ℕ) → IsWord word → words_from begun word ≡ close_word (begun ++ word) []
unfolding words_from
words_from_last begun [] h = rw (append-nil begun) refl
words_from_last begun (d ∷ word) h =
    rw (h.0, words_from)
      (words_from_last (begun ++ d ∷ []) word h.1 ∙ rw (append_assoc begun (d ∷ []) word) refl)

close_word_nonempty :
    (word : List ℕ) (words : List (List ℕ)) → word ≢ [] → close_word word words ≡ word ∷ words
unfolding close_word
close_word_nonempty [] words ne = absurd (ne refl)
close_word_nonempty (c ∷ word) words ne = refl

-- Two words with a white character between them.
pub split_whitespace_two :
    (first second : List ℕ) (c : ℕ)
    → IsWord first
    → first ≢ []
    → is_whitespace c ≡ true
    → IsWord second
    → second ≢ []
    → split_whitespace (first ++ c ∷ second) ≡ first ∷ second ∷ []
unfolding split_whitespace
split_whitespace_two first second c word1 some1 white word2 some2 =
    words_from-IsWord [] first c second word1 white
    ∙ close_word_nonempty first (words_from [] second) some1
    ∙ ap (λ words. first ∷ words)
        (words_from_last [] second word2 ∙ close_word_nonempty second [] some2)
