-- ===== src/Text/StringTokenizer/Tests.antt =====
-- The tokenizer on concrete texts.
use lamb_os.Base.{◌≡◌, refl, [], ◌∷◌, arith}
use lamb_os.Base.Outcome.{done}
use lamb_os.Text.StringTokenizer.{StringTokenizer, is_delim, read_tokens}
use lamb_os.Text.StringTokenizer.Words.{words}
use lamb_os.Text.StringTokenizer.Tokens.{left_of, read_tokens_lem}

-- " ab  c", after the first character.
abbrev spaced : StringTokenizer
spaced = record {
  string = b' ' ∷ b'a' ∷ b'b' ∷ b' ' ∷ b' ' ∷ b'c' ∷ [];
  delimiters = b' ' ∷ [];
  current_index = 1;
}

words-spaced : words (is_delim (b' ' ∷ [])) (left_of spaced) ≡ (b'a' ∷ b'b' ∷ []) ∷ (b'c' ∷ []) ∷ []
unfolding is_delim
words-spaced = refl

read_tokens_lem_example :
    read_tokens (λ k. k) 6 spaced ≡ done (words (is_delim (b' ' ∷ [])) (left_of spaced))
read_tokens_lem_example =
    read_tokens_lem (λ k. k) 6 spaced (omega arith) (omega arith) refl (omega arith)
