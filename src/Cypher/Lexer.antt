-- ===== src/Cypher/Lexer.antt =====
-- cypher_lexer.go: the lexer. Its state is the position with the bytes from there on; the tokens are
-- returned in place of being appended.
use goraphdb.Common.{
  ℕ, zero, suc, ◌+◌, Bool, true, false, not, ◌&&◌, ◌||◌, Option, none, some, List, [], ◌∷◌, ◌++◌,
  ◌==◌, if◌then◌else◌, length,
}
use goraphdb.Common.Results.{Result, ok, err, unexpected_character, unterminated_string}
use goraphdb.Types.{Bytes}
use goraphdb.Cypher.Tokens.{
  TokenKind, Token, is_whitespace, is_digit, is_ident_start, is_ident_part, to_upper, keywords,
  keyword_in,
}
use goraphdb.Cypher.Tokens.{
  tok_arrow, tok_colon, tok_comma, tok_dash, tok_dot, tok_dotdot, tok_eof, tok_eq, tok_float,
  tok_gt, tok_gte, tok_ident, tok_int, tok_larrow, tok_lbrace, tok_lbracket, tok_lparen, tok_lt,
  tok_lte, tok_neq, tok_param, tok_rbrace, tok_rbracket, tok_rparen, tok_star, tok_string,
}

-- `peek(1)`, before the bytes behind the current one: 0 at the end of the input.
unfoldable pub peek : Bytes → ℕ
peek [] = 0
peek (c ∷ cs) = c

unfoldable pub skip_whitespace : ℕ → Bytes → ℕ × Bytes
skip_whitespace pos [] = (pos, [])
skip_whitespace pos (c ∷ cs) =
    let rest = skip_whitespace (pos + 1) cs in if is_whitespace c then rest else (pos, c ∷ cs)

-- What an escape sequence stands for.
unfoldable pub escape : ℕ → Bytes
escape c =
    if c == 92
    then 92 ∷ []
    else if c == 39
    then 39 ∷ []
    else if c == 34
    then 34 ∷ []
    else if c == b'n'
    then 10 ∷ []
    else if c == b't'
    then 9 ∷ []
    else 92 ∷ c ∷ []

-- Bytes read before the rest of a scan.
abbrev pub before : Bytes → Option (Bytes × ℕ × Bytes) → Option (Bytes × ℕ × Bytes)
before bs none = none
before bs (some (text, pos, rest)) = some (bs ++ text, pos, rest)

-- The loop of `scanString`: the text up to the closing quote, if there is one.
unfoldable pub string_loop : ℕ → ℕ → Bytes → Option (Bytes × ℕ × Bytes)
unfolding escape
string_loop quote pos [] = none
string_loop quote pos (c ∷ []) = if c == quote then some ([], pos + 1, []) else none
string_loop quote pos (c ∷ d ∷ cs) =
    let escaped = before (escape d) (string_loop quote (pos + 2) cs) in
    let plain = before (c ∷ []) (string_loop quote (pos + 1) (d ∷ cs)) in
    if c == 92 then escaped else if c == quote then some ([], pos + 1, d ∷ cs) else plain

abbrev pub with_digit : ℕ → Bytes × Bool × ℕ × Bytes → Bytes × Bool × ℕ × Bytes
with_digit c (digits, is_float, pos, rest) = (c ∷ digits, is_float, pos, rest)

abbrev pub with_byte : ℕ → Bytes × ℕ × Bytes → Bytes × ℕ × Bytes
with_byte c (text, pos, rest) = (c ∷ text, pos, rest)

-- The loop of `scanNumber`: the digits, whether there is a decimal point, and what is left.
unfoldable pub number_loop : Bool → ℕ → Bytes → Bytes × Bool × ℕ × Bytes
unfolding peek is_digit
number_loop is_float pos [] = ([], is_float, pos, [])
number_loop is_float pos (c ∷ cs) =
    let point = with_digit c (number_loop true (pos + 1) cs) in
    let digit = with_digit c (number_loop is_float (pos + 1) cs) in
    if c == b'.' && not is_float && not (peek cs == b'.')
    then (if is_digit (peek cs) then point else ([], is_float, pos, c ∷ cs))
    else if is_digit c
    then digit
    else ([], is_float, pos, c ∷ cs)

-- The loop over the bytes of an identifier.
unfoldable pub ident_loop : ℕ → Bytes → Bytes × ℕ × Bytes
ident_loop pos [] = ([], pos, [])
ident_loop pos (c ∷ cs) =
    let more = with_byte c (ident_loop (pos + 1) cs) in
    if is_ident_part c then more else ([], pos, c ∷ cs)

-- A token with the position and the bytes behind it.
abbrev pub Lexed : Type 0
Lexed = Result (Token × ℕ × Bytes)

abbrev pub emit : TokenKind → Bytes → ℕ → Bytes → Lexed
emit kind text pos rest = ok (record { kind = kind; text = text; pos = pos }, pos + 1, rest)

-- `emitN` of two bytes.
abbrev pub emit_two : TokenKind → Bytes → ℕ → Bytes → Lexed
emit_two kind text pos [] = ok (record { kind = kind; text = text; pos = pos }, pos + 2, [])
emit_two kind text pos (d ∷ rest) =
    ok (record { kind = kind; text = text; pos = pos }, pos + 2, rest)

unfoldable pub scan_string : ℕ → ℕ → Bytes → Lexed
unfolding string_loop
scan_string quote start cs = elim (string_loop quote (start + 1) cs) [
  | none ↦ err (unterminated_string start)
  | some (text, pos, rest) ↦ ok (record { kind = tok_string; text = text; pos = start }, pos, rest)
]

unfoldable pub scan_number : ℕ → Bytes → Lexed
unfolding number_loop
scan_number start cs =
    let (text, is_float, pos, rest) = number_loop false start cs in
    ok (
      record { kind = if is_float then tok_float else tok_int; text = text; pos = start },
      pos,
      rest,
    )

unfoldable pub scan_ident_or_keyword : ℕ → Bytes → Lexed
unfolding ident_loop to_upper keyword_in
scan_ident_or_keyword start cs =
    let (text, pos, rest) = ident_loop start cs in
    let kind : TokenKind = elim (keyword_in keywords (to_upper text)) [
      | none ↦ tok_ident
      | some k ↦ k
    ] in
    ok (record { kind = kind; text = text; pos = start }, pos, rest)

-- Behind the `$`.
unfoldable pub scan_param : ℕ → Bytes → Lexed
unfolding ident_loop
scan_param start cs =
    let (text, pos, rest) = ident_loop (start + 1) cs in
    ok (record { kind = tok_param; text = text; pos = start }, pos, rest)

-- The brackets, and what else is one byte whatever follows.
unfoldable pub single : ℕ → Option TokenKind
single c =
    if c == b'('
    then some tok_lparen
    else if c == b')'
    then some tok_rparen
    else if c == b'['
    then some tok_lbracket
    else if c == b']'
    then some tok_rbracket
    else if c == b'{'
    then some tok_lbrace
    else if c == b'}'
    then some tok_rbrace
    else if c == b':'
    then some tok_colon
    else if c == b','
    then some tok_comma
    else if c == b'*'
    then some tok_star
    else if c == b'='
    then some tok_eq
    else none

unfoldable pub scan_less : ℕ → Bytes → Lexed
unfolding peek
scan_less pos cs =
    if peek cs == b'-'
    then emit_two tok_larrow (b'<' ∷ b'-' ∷ []) pos cs
    else if peek cs == b'='
    then emit_two tok_lte (b'<' ∷ b'=' ∷ []) pos cs
    else if peek cs == b'>'
    then emit_two tok_neq (b'<' ∷ b'>' ∷ []) pos cs
    else emit tok_lt (b'<' ∷ []) pos cs

-- One byte, or two if the second is the given one.
unfoldable pub one_or_two : ℕ → TokenKind → TokenKind → ℕ → ℕ → Bytes → Lexed
unfolding peek
one_or_two d kind kind' c pos cs =
    if peek cs == d then emit_two kind' (c ∷ d ∷ []) pos cs else emit kind (c ∷ []) pos cs

-- The cases behind the single bytes.
unfoldable pub scan_other : ℕ → ℕ → Bytes → Lexed
scan_other pos c cs =
    if c == b'.'
    then one_or_two b'.' tok_dot tok_dotdot b'.' pos cs
    else if c == b'-'
    then one_or_two b'>' tok_dash tok_arrow b'-' pos cs
    else if c == b'<'
    then scan_less pos cs
    else if c == b'>'
    then one_or_two b'=' tok_gt tok_gte b'>' pos cs
    else if c == 39 || c == 34
    then scan_string c pos cs
    else if is_digit c
    then scan_number pos (c ∷ cs)
    else if c == b'$'
    then scan_param pos cs
    else if is_ident_start c
    then scan_ident_or_keyword pos (c ∷ cs)
    else err (unexpected_character c pos)

unfoldable pub next_token : ℕ → ℕ → Bytes → Lexed
unfolding single scan_other
next_token pos c cs = elim (single c) [
  | some kind ↦ emit kind (c ∷ []) pos cs
  | none ↦ scan_other pos c cs
]

abbrev pub with_token : Token → Option (Result (List Token)) → Option (Result (List Token))
with_token token none = none
with_token token (some (err e)) = some (err e)
with_token token (some (ok tokens)) = some (ok (token ∷ tokens))

-- A round behind the white space, before the rounds that follow: its token, or the end.
unfoldable pub scan_rest :
    (ℕ → Bytes → Option (Result (List Token))) → Lexed → Option (Result (List Token))
scan_rest loop (err e) = some (err e)
scan_rest loop (ok (token, pos, rest)) = with_token token (loop pos rest)

unfoldable pub scan_ahead :
    (ℕ → Bytes → Option (Result (List Token))) → ℕ → Bytes → Option (Result (List Token))
unfolding scan_rest next_token
scan_ahead loop pos [] = some (ok (record { kind = tok_eof; text = []; pos = pos } ∷ []))
scan_ahead loop pos (c ∷ cs) = scan_rest loop (next_token pos c cs)

-- The loop of `scan`. `none` means that the fuel ran out.
unfoldable pub scan : ℕ → ℕ → Bytes → Option (Result (List Token))
unfolding skip_whitespace scan_ahead
scan zero pos input = none
scan (suc fuel) pos input =
    let (p, ahead) = skip_whitespace pos input in scan_ahead (λ q rest. scan fuel q rest) p ahead

unfoldable pub tokenize : Bytes → Option (Result (List Token))
unfolding scan scan_less one_or_two scan_string scan_number scan_param scan_ident_or_keyword
tokenize input = scan (length input + 1) 0 input
