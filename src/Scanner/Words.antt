-- ===== src/Scanner/Words.antt =====
-- src/scanner.c: identifiers and keywords.
use kuroko.Prelude.{
  ℕ, ◌+◌, ◌-◌, Bool, true, false, ◌&&◌, ◌||◌, List, [], ◌∷◌, ltb, ◌==◌, if◌then◌else◌, get_or,
  length, drop, take,
}
use kuroko.Scanner.{Position, peek, is_alpha, is_digit, skip}
use kuroko.Scanner.Token.{
  TokenType, identifier, and_word, class_word, def_word, del_word, else_word, false_word,
  finally_word, for_word, if_word, import_word, in_word, is_word, let_word, none_word, not_word,
  or_word, elif_word, pass_word, return_word, super_word, true_word, while_word, try_word,
  except_word, raise_word, break_word, continue_word, as_word, from_word, lambda_word, assert_word,
  yield_word, async_word, await_word, with_word, prefix_b, prefix_f, prefix_r,
}

abbrev pub same_bytes : List ℕ → List ℕ → Bool
same_bytes [] [] = true
same_bytes (a ∷ as') (b ∷ bs) = (a == b) && same_bytes as' bs
same_bytes _ _ = false

-- `switch` with a `break` or a `return` in each case.
unfoldable pub switch {ℓ} : {A : Type ℓ} → ℕ → List (ℕ × A) → A → A
switch c [] default = default
switch c ((k, a) ∷ cases) default = if c == k then a else switch c cases default

abbrev is_quote : ℕ → Bool
is_quote c = c == b'\'' || c == b'"'

-- The characters of the word from `start` to `cur`, and the one behind them.
module _ (word : List ℕ) (after : ℕ) where
  -- `_checkKeyword`: the length and the rest of the word are as they should be.
  unfoldable pub check_keyword : ℕ → List ℕ → TokenType → TokenType
  check_keyword start rest type =
      if (length word == start + length rest) && same_bytes (drop start word) rest
      then type
      else identifier

  -- `MORE(i)`
  abbrev more : ℕ → Bool
  more i = ltb i (length word)

  -- `scanner->start[i]`, for an `i` that is not past the character behind the word
  abbrev char : ℕ → ℕ
  char i = get_or word i after

  words_a : TokenType
  unfolding switch check_keyword
  words_a =
      if more 1
      then switch (char 1)
          ((b'n', check_keyword 2 (b'd' ∷ []) and_word)
            ∷ (b'w', check_keyword 2 (b'a' ∷ b'i' ∷ b't' ∷ []) await_word)
            ∷ (
              b's',
              if more 2
                  then switch (char 2)
                      ((b's', check_keyword 3 (b'e' ∷ b'r' ∷ b't' ∷ []) assert_word)
                        ∷ (b'y', check_keyword 3 (b'n' ∷ b'c' ∷ []) async_word)
                        ∷ [])
                      identifier
                  else check_keyword 2 [] as_word,
            )
            ∷ [])
          identifier
      else identifier

  words_b : TokenType
  unfolding switch check_keyword
  words_b =
      if more 1
      then check_keyword 1 (b'r' ∷ b'e' ∷ b'a' ∷ b'k' ∷ []) break_word
      else (if is_quote (char 1) then prefix_b else identifier)

  words_c : TokenType
  unfolding switch check_keyword
  words_c =
      if more 1
      then switch (char 1)
          ((b'l', check_keyword 2 (b'a' ∷ b's' ∷ b's' ∷ []) class_word)
            ∷ (b'o', check_keyword 2 (b'n' ∷ b't' ∷ b'i' ∷ b'n' ∷ b'u' ∷ b'e' ∷ []) continue_word)
            ∷ [])
          identifier
      else identifier

  words_d : TokenType
  unfolding switch check_keyword
  words_d =
      if more 1
      then switch (char 1)
          ((
            b'e',
            if more 2
                then switch (char 2)
                    ((b'f', check_keyword 3 [] def_word) ∷ (b'l', check_keyword 3 [] del_word) ∷ [])
                    identifier
                else identifier,
          )
            ∷ [])
          identifier
      else identifier

  words_e : TokenType
  unfolding switch check_keyword
  words_e =
      if more 1
      then switch (char 1)
          ((
            b'l',
            if more 2
                then switch (char 2)
                    ((b's', check_keyword 3 (b'e' ∷ []) else_word)
                      ∷ (b'i', check_keyword 3 (b'f' ∷ []) elif_word)
                      ∷ [])
                    identifier
                else identifier,
          )
            ∷ (b'x', check_keyword 2 (b'c' ∷ b'e' ∷ b'p' ∷ b't' ∷ []) except_word)
            ∷ [])
          identifier
      else identifier

  words_f : TokenType
  unfolding switch check_keyword
  words_f =
      if more 1
      then switch (char 1)
          ((b'i', check_keyword 2 (b'n' ∷ b'a' ∷ b'l' ∷ b'l' ∷ b'y' ∷ []) finally_word)
            ∷ (b'o', check_keyword 2 (b'r' ∷ []) for_word)
            ∷ (b'r', check_keyword 2 (b'o' ∷ b'm' ∷ []) from_word)
            ∷ [])
          identifier
      else (if is_quote (char 1) then prefix_f else identifier)

  words_i : TokenType
  unfolding switch check_keyword
  words_i =
      if more 1
      then switch (char 1)
          ((b'f', check_keyword 2 [] if_word)
            ∷ (b'n', check_keyword 2 [] in_word)
            ∷ (b'm', check_keyword 2 (b'p' ∷ b'o' ∷ b'r' ∷ b't' ∷ []) import_word)
            ∷ (b's', check_keyword 2 [] is_word)
            ∷ [])
          identifier
      else identifier

  words_l : TokenType
  unfolding switch check_keyword
  words_l =
      if more 1
      then switch (char 1)
          ((b'a', check_keyword 2 (b'm' ∷ b'b' ∷ b'd' ∷ b'a' ∷ []) lambda_word)
            ∷ (b'e', check_keyword 2 (b't' ∷ []) let_word)
            ∷ [])
          identifier
      else identifier

  words_r : TokenType
  unfolding switch check_keyword
  words_r =
      if more 1
      then switch (char 1)
          ((b'e', check_keyword 2 (b't' ∷ b'u' ∷ b'r' ∷ b'n' ∷ []) return_word)
            ∷ (b'a', check_keyword 2 (b'i' ∷ b's' ∷ b'e' ∷ []) raise_word)
            ∷ [])
          identifier
      else (if is_quote (char 1) then prefix_r else identifier)

  words_w : TokenType
  unfolding switch check_keyword
  words_w =
      if more 1
      then switch (char 1)
          ((b'h', check_keyword 2 (b'i' ∷ b'l' ∷ b'e' ∷ []) while_word)
            ∷ (b'i', check_keyword 2 (b't' ∷ b'h' ∷ []) with_word)
            ∷ [])
          identifier
      else identifier

  unfoldable pub identifier_type : TokenType
  unfolding switch check_keyword words_a words_b words_c words_d words_e words_f words_i words_l
      words_r words_w
  identifier_type =
      switch (char 0)
        ((b'a', words_a)
          ∷ (b'b', words_b)
          ∷ (b'c', words_c)
          ∷ (b'd', words_d)
          ∷ (b'e', words_e)
          ∷ (b'f', words_f)
          ∷ (b'F', check_keyword 1 (b'a' ∷ b'l' ∷ b's' ∷ b'e' ∷ []) false_word)
          ∷ (b'i', words_i)
          ∷ (b'l', words_l)
          ∷ (b'n', check_keyword 1 (b'o' ∷ b't' ∷ []) not_word)
          ∷ (b'N', check_keyword 1 (b'o' ∷ b'n' ∷ b'e' ∷ []) none_word)
          ∷ (b'o', check_keyword 1 (b'r' ∷ []) or_word)
          ∷ (b'p', check_keyword 1 (b'a' ∷ b's' ∷ b's' ∷ []) pass_word)
          ∷ (b'r', words_r)
          ∷ (b's', check_keyword 1 (b'u' ∷ b'p' ∷ b'e' ∷ b'r' ∷ []) super_word)
          ∷ (b't', check_keyword 1 (b'r' ∷ b'y' ∷ []) try_word)
          ∷ (b'T', check_keyword 1 (b'r' ∷ b'u' ∷ b'e' ∷ []) true_word)
          ∷ (b'w', words_w)
          ∷ (b'y', check_keyword 1 (b'i' ∷ b'e' ∷ b'l' ∷ b'd' ∷ []) yield_word)
          ∷ [])
        identifier

module _ (src : List ℕ) where
  -- `identifier`, which reads on and names the word.
  unfoldable pub identifier_end : Position → Position
  unfolding skip is_alpha is_digit
  identifier_end p = skip src (λ c. is_alpha c || is_digit c || ltb 0x7F c) p

  unfoldable pub identifier_token : ℕ → Position → Position × TokenType
  unfolding identifier_end identifier_type peek
  identifier_token start p =
      let end = identifier_end p in
      (end, identifier_type (take (end.cur - start) (drop start src)) (peek src end))
