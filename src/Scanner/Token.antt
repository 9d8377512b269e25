-- ===== src/Scanner/Token.antt =====
-- src/kuroko/scanner.h: tokens, and `makeToken` and `errorToken` of src/scanner.c.
use kuroko.Prelude.{ℕ, ◌+◌, ◌-◌, ◌%◌, ◌^◌, Bool, true, false, if◌then◌else◌}
use kuroko.Scanner.{Position}

pub data TokenType : Type 0 where
  left_paren right_paren left_brace right_brace left_square right_square : TokenType
  colon comma dot minus plus semicolon solidus double_solidus asterisk pow modulo : TokenType
  at caret ampersand pipe tilde left_shift right_shift bang greater less arrow walrus : TokenType
  greater_equal less_equal bang_equal equal_equal : TokenType
  equal lshift_equal rshift_equal plus_equal minus_equal plus_plus minus_minus : TokenType
  caret_equal pipe_equal amp_equal solidus_equal asterisk_equal pow_equal : TokenType
  dsolidus_equal at_equal modulo_equal : TokenType
  string big_string number identifier : TokenType
  and_word class_word def_word del_word else_word false_word finally_word for_word : TokenType
  if_word import_word in_word is_word let_word none_word not_word or_word elif_word : TokenType
  pass_word return_word super_word true_word while_word try_word except_word raise_word : TokenType
  break_word continue_word as_word from_word lambda_word assert_word yield_word : TokenType
  async_word await_word with_word : TokenType
  prefix_b prefix_f prefix_r : TokenType
  indentation eol retry error eof ellipsis : TokenType

-- The texts of error tokens.
pub data Message : Type 0 where
  invalid_mix unterminated unexpected : Message

abbrev message_length : Message → ℕ
message_length invalid_mix = 27
message_length unterminated = 20
message_length unexpected = 21

-- A token starts in the source, or is a message.
pub data TokenStart : Type 0 where
  offset : ℕ → TokenStart
  message : Message → TokenStart

pub record Token : Type 0 where
  pub type : TokenType
  pub start : TokenStart
  pub length : ℕ
  pub line : ℕ
  pub line_ptr : ℕ
  pub col : ℕ
  pub literal_width : ℕ

abbrev is_eol : TokenType → Bool
is_eol eol = true
is_eol _ = false

-- `col` is a difference of pointers as a `size_t`: it wraps for a string that began on an earlier
-- line.
unfoldable pub make_token : ℕ → Position → TokenType → Token
make_token start p type =
    let width = if is_eol type then 0 else p.cur - start in
    record {
      type = type;
      start = offset start;
      length = width;
      line = p.line;
      line_ptr = p.line_ptr;
      col = (start + 1 + 2 ^ 64 - p.line_ptr) % 2 ^ 64;
      literal_width = width;
    }

-- The subtractions stop at 0 as the tests of the C code do.
unfoldable pub error_token : ℕ → Position → Message → Token
error_token start p text = record {
  type = error;
  start = message text;
  length = message_length text;
  line = p.line;
  line_ptr = p.line_ptr;
  col = start - p.line_ptr + 1;
  literal_width = p.cur - start;
}
