-- ===== src/Cypher/Tests.antt =====
-- Runs of the lexer.
use goraphdb.Common.{length, inl, ℕ, ◌≡◌, refl, some, [], ◌∷◌}
use goraphdb.Common.Results.{ok, err, unterminated_string, unexpected_character}
use goraphdb.Types.{Bytes}
use goraphdb.Cypher.Tokens.{
  Token, TokenKind, is_whitespace, is_ident_start, is_ident_part, tok_eof, tok_match, tok_lparen,
  tok_ident, tok_int, tok_dotdot, tok_float, tok_string,
}
use goraphdb.Cypher.Lexer.{tokenize}
use goraphdb.Cypher.Streams.{IsLexed, tokenize-IsLexed}
use goraphdb.Cypher.Escapes.{quoted, tokenize-quoted}

abbrev token : TokenKind → Bytes → ℕ → Token
token kind text pos = record { kind = kind; text = text; pos = pos }

match_node :
    tokenize (b'm' ∷ b'a' ∷ b'T' ∷ b'c' ∷ b'h' ∷ b' ' ∷ b'(' ∷ b'n' ∷ [])
    ≡ some (
        ok (
          token tok_match (b'm' ∷ b'a' ∷ b'T' ∷ b'c' ∷ b'h' ∷ []) 0
          ∷ token tok_lparen (b'(' ∷ []) 6
          ∷ token tok_ident (b'n' ∷ []) 7
          ∷ token tok_eof [] 8
          ∷ []))
unfolding tokenize is_whitespace is_ident_start is_ident_part
match_node = refl

-- A range is no decimal point.
range_of_hops :
    tokenize (b'1' ∷ b'.' ∷ b'.' ∷ b'3' ∷ b'.' ∷ b'5' ∷ [])
    ≡ some (
        ok (
          token tok_int (b'1' ∷ []) 0
          ∷ token tok_dotdot (b'.' ∷ b'.' ∷ []) 1
          ∷ token tok_float (b'3' ∷ b'.' ∷ b'5' ∷ []) 3
          ∷ token tok_eof [] 6
          ∷ []))
unfolding tokenize is_whitespace is_ident_start is_ident_part
range_of_hops = refl

escaped_quote :
    tokenize (39 ∷ 92 ∷ 39 ∷ b'x' ∷ 39 ∷ [])
    ≡ some (ok (token tok_string (39 ∷ b'x' ∷ []) 0 ∷ token tok_eof [] 5 ∷ []))
unfolding tokenize is_whitespace is_ident_start is_ident_part
escaped_quote = refl

unterminated : tokenize (b' ' ∷ 34 ∷ b'a' ∷ []) ≡ some (err (unterminated_string 1))
unfolding tokenize is_whitespace is_ident_start is_ident_part
unterminated = refl

-- The letter e with an acute accent is two bytes, of which only the first passes for a letter.
accented : tokenize (0xc3 ∷ 0xa9 ∷ []) ≡ some (err (unexpected_character 0xa9 1))
unfolding tokenize is_whitespace is_ident_start is_ident_part
accented = refl

-- A query of nine bytes, with two tokens and the end mark.
tokenize-IsLexed_example :
    IsLexed 0 9 (tokenize (b'l' ∷ b'i' ∷ b'm' ∷ b'i' ∷ b't' ∷ b' ' ∷ b'1' ∷ b'0' ∷ b' ' ∷ []))
tokenize-IsLexed_example =
    tokenize-IsLexed (b'l' ∷ b'i' ∷ b'm' ∷ b'i' ∷ b't' ∷ b' ' ∷ b'1' ∷ b'0' ∷ b' ' ∷ [])

tokenize-quoted_example :
    tokenize (39 ∷ quoted 39 (39 ∷ 92 ∷ b'x' ∷ []))
    ≡ some (
        ok (
          token tok_string (39 ∷ 92 ∷ b'x' ∷ []) 0
          ∷ token tok_eof [] (length (39 ∷ quoted 39 (39 ∷ 92 ∷ b'x' ∷ [])))
          ∷ []))
tokenize-quoted_example = tokenize-quoted 39 (39 ∷ 92 ∷ b'x' ∷ []) (inl refl)
