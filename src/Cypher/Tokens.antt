-- ===== src/Cypher/Tokens.antt =====
-- cypher_lexer.go: the tokens, the keywords and the classes of bytes.
use goraphdb.Common.{
  ℕ, ◌-◌, Bool, ◌&&◌, ◌||◌, not, Option, none, some, List, [], ◌∷◌, map, leb, ◌==◌, if◌then◌else◌,
  same_bytes,
}
use goraphdb.Types.{Bytes}

pub data TokenKind : Type 0 where
  tok_eof tok_error : TokenKind
  tok_ident tok_string tok_int tok_float : TokenKind
  tok_match tok_where tok_return tok_order tok_by tok_limit tok_and tok_or : TokenKind
  tok_not tok_as tok_asc tok_desc tok_true tok_false tok_null tok_type : TokenKind
  tok_explain tok_profile tok_optional tok_create tok_merge tok_set tok_delete tok_remove :
      TokenKind
  tok_on tok_skip : TokenKind
  tok_eq tok_neq tok_lt tok_gt tok_lte tok_gte tok_lparen tok_rparen : TokenKind
  tok_lbracket tok_rbracket tok_lbrace tok_rbrace tok_colon tok_dot tok_dotdot tok_comma : TokenKind
  tok_star tok_dash tok_arrow tok_larrow tok_param : TokenKind

pub record Token : Type 0 where
  pub kind : TokenKind
  pub text : Bytes
  pub pos : ℕ

unfoldable pub is_whitespace : ℕ → Bool
is_whitespace ch = ch == b' ' || ch == 9 || ch == 10 || ch == 13

unfoldable pub is_digit : ℕ → Bool
is_digit ch = leb b'0' ch && leb ch b'9'

-- `unicode.IsLetter` of a byte that is taken as a code point.
unfoldable pub is_letter : ℕ → Bool
is_letter ch =
    leb b'a' ch && leb ch b'z'
    || leb b'A' ch && leb ch b'Z'
    || ch == 0xaa
    || ch == 0xb5
    || ch == 0xba
    || leb 0xc0 ch && leb ch 0xff && not (ch == 0xd7) && not (ch == 0xf7)

unfoldable pub is_ident_start : ℕ → Bool
unfolding is_letter
is_ident_start ch =
    ch == b'_' || leb b'a' ch && leb ch b'z' || leb b'A' ch && leb ch b'Z' || is_letter ch

unfoldable pub is_ident_part : ℕ → Bool
unfolding is_ident_start is_digit
is_ident_part ch = is_ident_start ch || is_digit ch

-- `strings.ToUpper` on ASCII. Bytes of other characters are left: no keyword has one, before or after.
unfoldable pub to_upper : Bytes → Bytes
to_upper = map (λ ch. if leb b'a' ch && leb ch b'z' then ch - 32 else ch)

abbrev pub keywords : List (Bytes × TokenKind)
keywords =
    (b'M' ∷ b'A' ∷ b'T' ∷ b'C' ∷ b'H' ∷ [], tok_match)
    ∷ (b'W' ∷ b'H' ∷ b'E' ∷ b'R' ∷ b'E' ∷ [], tok_where)
    ∷ (b'R' ∷ b'E' ∷ b'T' ∷ b'U' ∷ b'R' ∷ b'N' ∷ [], tok_return)
    ∷ (b'O' ∷ b'R' ∷ b'D' ∷ b'E' ∷ b'R' ∷ [], tok_order)
    ∷ (b'B' ∷ b'Y' ∷ [], tok_by)
    ∷ (b'L' ∷ b'I' ∷ b'M' ∷ b'I' ∷ b'T' ∷ [], tok_limit)
    ∷ (b'A' ∷ b'N' ∷ b'D' ∷ [], tok_and)
    ∷ (b'O' ∷ b'R' ∷ [], tok_or)
    ∷ (b'N' ∷ b'O' ∷ b'T' ∷ [], tok_not)
    ∷ (b'A' ∷ b'S' ∷ [], tok_as)
    ∷ (b'A' ∷ b'S' ∷ b'C' ∷ [], tok_asc)
    ∷ (b'D' ∷ b'E' ∷ b'S' ∷ b'C' ∷ [], tok_desc)
    ∷ (b'T' ∷ b'R' ∷ b'U' ∷ b'E' ∷ [], tok_true)
    ∷ (b'F' ∷ b'A' ∷ b'L' ∷ b'S' ∷ b'E' ∷ [], tok_false)
    ∷ (b'N' ∷ b'U' ∷ b'L' ∷ b'L' ∷ [], tok_null)
    ∷ (b'T' ∷ b'Y' ∷ b'P' ∷ b'E' ∷ [], tok_type)
    ∷ (b'E' ∷ b'X' ∷ b'P' ∷ b'L' ∷ b'A' ∷ b'I' ∷ b'N' ∷ [], tok_explain)
    ∷ (b'P' ∷ b'R' ∷ b'O' ∷ b'F' ∷ b'I' ∷ b'L' ∷ b'E' ∷ [], tok_profile)
    ∷ (b'O' ∷ b'P' ∷ b'T' ∷ b'I' ∷ b'O' ∷ b'N' ∷ b'A' ∷ b'L' ∷ [], tok_optional)
    ∷ (b'C' ∷ b'R' ∷ b'E' ∷ b'A' ∷ b'T' ∷ b'E' ∷ [], tok_create)
    ∷ (b'M' ∷ b'E' ∷ b'R' ∷ b'G' ∷ b'E' ∷ [], tok_merge)
    ∷ (b'S' ∷ b'E' ∷ b'T' ∷ [], tok_set)
    ∷ (b'D' ∷ b'E' ∷ b'L' ∷ b'E' ∷ b'T' ∷ b'E' ∷ [], tok_delete)
    ∷ (b'R' ∷ b'E' ∷ b'M' ∷ b'O' ∷ b'V' ∷ b'E' ∷ [], tok_remove)
    ∷ (b'O' ∷ b'N' ∷ [], tok_on)
    ∷ (b'S' ∷ b'K' ∷ b'I' ∷ b'P' ∷ [], tok_skip)
    ∷ []

unfoldable pub keyword_in : List (Bytes × TokenKind) → Bytes → Option TokenKind
keyword_in [] text = none
keyword_in ((k, kind) ∷ rest) text = if same_bytes k text then some kind else keyword_in rest text

unfoldable pub token_kind_name : TokenKind → Bytes
token_kind_name tok_eof = b'E' ∷ b'O' ∷ b'F' ∷ []
token_kind_name tok_error = b'E' ∷ b'R' ∷ b'R' ∷ b'O' ∷ b'R' ∷ []
token_kind_name tok_ident = b'I' ∷ b'D' ∷ b'E' ∷ b'N' ∷ b'T' ∷ []
token_kind_name tok_string = b'S' ∷ b'T' ∷ b'R' ∷ b'I' ∷ b'N' ∷ b'G' ∷ []
token_kind_name tok_int = b'I' ∷ b'N' ∷ b'T' ∷ []
token_kind_name tok_float = b'F' ∷ b'L' ∷ b'O' ∷ b'A' ∷ b'T' ∷ []
token_kind_name tok_match = b'M' ∷ b'A' ∷ b'T' ∷ b'C' ∷ b'H' ∷ []
token_kind_name tok_where = b'W' ∷ b'H' ∷ b'E' ∷ b'R' ∷ b'E' ∷ []
token_kind_name tok_return = b'R' ∷ b'E' ∷ b'T' ∷ b'U' ∷ b'R' ∷ b'N' ∷ []
token_kind_name tok_order = b'O' ∷ b'R' ∷ b'D' ∷ b'E' ∷ b'R' ∷ []
token_kind_name tok_by = b'B' ∷ b'Y' ∷ []
token_kind_name tok_limit = b'L' ∷ b'I' ∷ b'M' ∷ b'I' ∷ b'T' ∷ []
token_kind_name tok_and = b'A' ∷ b'N' ∷ b'D' ∷ []
token_kind_name tok_or = b'O' ∷ b'R' ∷ []
token_kind_name tok_not = b'N' ∷ b'O' ∷ b'T' ∷ []
token_kind_name tok_as = b'A' ∷ b'S' ∷ []
token_kind_name tok_asc = b'A' ∷ b'S' ∷ b'C' ∷ []
token_kind_name tok_desc = b'D' ∷ b'E' ∷ b'S' ∷ b'C' ∷ []
token_kind_name tok_true = b'T' ∷ b'R' ∷ b'U' ∷ b'E' ∷ []
token_kind_name tok_false = b'F' ∷ b'A' ∷ b'L' ∷ b'S' ∷ b'E' ∷ []
token_kind_name tok_null = b'N' ∷ b'U' ∷ b'L' ∷ b'L' ∷ []
token_kind_name tok_type = b'T' ∷ b'Y' ∷ b'P' ∷ b'E' ∷ []
token_kind_name tok_explain = b'E' ∷ b'X' ∷ b'P' ∷ b'L' ∷ b'A' ∷ b'I' ∷ b'N' ∷ []
token_kind_name tok_profile = b'P' ∷ b'R' ∷ b'O' ∷ b'F' ∷ b'I' ∷ b'L' ∷ b'E' ∷ []
token_kind_name tok_optional = b'O' ∷ b'P' ∷ b'T' ∷ b'I' ∷ b'O' ∷ b'N' ∷ b'A' ∷ b'L' ∷ []
token_kind_name tok_create = b'C' ∷ b'R' ∷ b'E' ∷ b'A' ∷ b'T' ∷ b'E' ∷ []
token_kind_name tok_merge = b'M' ∷ b'E' ∷ b'R' ∷ b'G' ∷ b'E' ∷ []
token_kind_name tok_set = b'S' ∷ b'E' ∷ b'T' ∷ []
token_kind_name tok_delete = b'D' ∷ b'E' ∷ b'L' ∷ b'E' ∷ b'T' ∷ b'E' ∷ []
token_kind_name tok_remove = b'R' ∷ b'E' ∷ b'M' ∷ b'O' ∷ b'V' ∷ b'E' ∷ []
token_kind_name tok_on = b'O' ∷ b'N' ∷ []
token_kind_name tok_skip = b'S' ∷ b'K' ∷ b'I' ∷ b'P' ∷ []
token_kind_name tok_eq = b'=' ∷ []
token_kind_name tok_neq = b'<' ∷ b'>' ∷ []
token_kind_name tok_lt = b'<' ∷ []
token_kind_name tok_gt = b'>' ∷ []
token_kind_name tok_lte = b'<' ∷ b'=' ∷ []
token_kind_name tok_gte = b'>' ∷ b'=' ∷ []
token_kind_name tok_lparen = b'(' ∷ []
token_kind_name tok_rparen = b')' ∷ []
token_kind_name tok_lbracket = b'[' ∷ []
token_kind_name tok_rbracket = b']' ∷ []
token_kind_name tok_lbrace = b'{' ∷ []
token_kind_name tok_rbrace = b'}' ∷ []
token_kind_name tok_colon = b':' ∷ []
token_kind_name tok_dot = b'.' ∷ []
token_kind_name tok_dotdot = b'.' ∷ b'.' ∷ []
token_kind_name tok_comma = b',' ∷ []
token_kind_name tok_star = b'*' ∷ []
token_kind_name tok_dash = b'-' ∷ []
token_kind_name tok_arrow = b'-' ∷ b'>' ∷ []
token_kind_name tok_larrow = b'<' ∷ b'-' ∷ []
token_kind_name tok_param = b'P' ∷ b'A' ∷ b'R' ∷ b'A' ∷ b'M' ∷ []
