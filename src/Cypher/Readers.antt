-- ===== src/Cypher/Readers.antt =====
-- What one round of the lexer (cypher_lexer.go) reads: its token and how far it advances.
use goraphdb.Common.{
  ℕ, suc, ◌+◌, ◌≤◌, ◌<◌, ◌≡◌, inl, inr, refl, Bool, true, false, ◌||◌, Option, none, some, [], ◌∷◌,
  arith, ◌==◌, length, Bool-cases,
}
use goraphdb.Common.Results.{Error, ok, err, unexpected_character, unterminated_string}
use goraphdb.Types.{Bytes}
use goraphdb.Cypher.Tokens.{
  TokenKind, is_digit, is_ident_start, is_ident_part, tok_string, tok_larrow, tok_lte, tok_neq,
  tok_lt, tok_dot, tok_dotdot, tok_dash, tok_arrow, tok_gt, tok_gte,
}
use goraphdb.Cypher.Lexer.{
  peek, skip_whitespace, escape, before, string_loop, number_loop, ident_loop, Lexed, emit,
  emit_two, scan_string, scan_number, scan_ident_or_keyword, scan_param, single, scan_less,
  one_or_two, scan_other, next_token,
}

-- From a position with `n` bytes ahead to another one, no byte lost.
abbrev Passes : ℕ → ℕ → ℕ → Bytes → Type 0
Passes pos n p rest = p + length rest ≡ pos + n

pub skip_whitespace_lem :
    (pos : ℕ) (cs : Bytes)
    → let (p, rest) = skip_whitespace pos cs in (pos ≤ p) × Passes pos (length cs) p rest
unfolding skip_whitespace
skip_whitespace_lem pos [] = omega arith
skip_whitespace_lem pos (c ∷ cs) = ground (arith, skip_whitespace_lem (pos + 1) cs)

abbrev Advances : ℕ → ℕ → Option (Bytes × ℕ × Bytes) → Type 0
Advances pos n none = Unit
Advances pos n (some (text, p, rest)) = (pos < p) × Passes pos n p rest

before-Advances :
    (bs : Bytes) (pos n pos' n' : ℕ) (o : Option (Bytes × ℕ × Bytes))
    → pos' ≤ pos
    → pos + n ≡ pos' + n'
    → Advances pos n o
    → Advances pos' n' (before bs o)
before-Advances bs pos n pos' n' none h k a = tt
before-Advances bs pos n pos' n' (some (text, p, rest)) h k a = omega (arith, a)

string_loop-Advances :
    (quote pos : ℕ) (cs : Bytes) → Advances pos (length cs) (string_loop quote pos cs)
unfolding string_loop
string_loop-Advances quote pos [] = tt
string_loop-Advances quote pos (c ∷ []) = elim (Bool-cases (c == quote)) [
  | inl closes ↦ rw closes (omega arith)
  | inr open_still ↦ rw open_still tt
]
string_loop-Advances quote pos (c ∷ d ∷ cs) = elim (Bool-cases (c == 92)) [
  | inl escapes ↦ rw escapes (
      before-Advances (escape d) (pos + 2) (length cs) pos (length (c ∷ d ∷ cs))
        (string_loop quote (pos + 2) cs) (omega arith) (omega arith)
        (string_loop-Advances quote (pos + 2) cs))
  | inr plain ↦ elim (Bool-cases (c == quote)) [
    | inl closes ↦ rw (plain, closes) (omega arith)
    | inr open_still ↦
        rw (plain, open_still)
          (before-Advances (c ∷ []) (pos + 1) (length (d ∷ cs)) pos (length (c ∷ d ∷ cs))
            (string_loop quote (pos + 1) (d ∷ cs)) (omega arith) (omega arith)
            (string_loop-Advances quote (pos + 1) (d ∷ cs)))
  ]
]

number_loop_lem :
    (f : Bool) (pos : ℕ) (cs : Bytes)
    → let (text, g, p, rest) = number_loop f pos cs in (pos ≤ p) × Passes pos (length cs) p rest
unfolding number_loop
number_loop_lem f pos [] = omega arith
number_loop_lem f pos (c ∷ cs) =
    ground (arith, number_loop_lem true (pos + 1) cs, number_loop_lem f (pos + 1) cs)

number_first :
    (pos c : ℕ) (cs : Bytes)
    → is_digit c ≡ true
    → let (text, g, p, rest) = number_loop false pos (c ∷ cs) in pos < p
unfolding number_loop
number_first pos c cs h = ground (arith, number_loop_lem false (pos + 1) cs)

ident_loop_lem :
    (pos : ℕ) (cs : Bytes)
    → let (text, p, rest) = ident_loop pos cs in (pos ≤ p) × Passes pos (length cs) p rest
unfolding ident_loop
ident_loop_lem pos [] = omega arith
ident_loop_lem pos (c ∷ cs) = ground (arith, ident_loop_lem (pos + 1) cs)

ident_first :
    (pos c : ℕ) (cs : Bytes)
    → is_ident_start c ≡ true
    → let (text, p, rest) = ident_loop pos (c ∷ cs) in pos < p
unfolding ident_loop is_ident_part
ident_first pos c cs h = ground (arith, ident_loop_lem (pos + 1) cs)

-- The errors of the lexer name a position.
abbrev pub ErrorAt : (ℕ → Type 0) → Error → Type 0
ErrorAt P (unexpected_character c pos) = P pos
ErrorAt P (unterminated_string pos) = P pos
ErrorAt P _ = ⊥

-- One token is read from the position on, or the error is there.
abbrev pub OneRead : ℕ → ℕ → Lexed → Type 0
OneRead pos n (err e) = ErrorAt (λ p. p ≡ pos) e
OneRead pos n (ok (token, p, rest)) = (token.pos ≡ pos) × (pos < p) × Passes pos n p rest

pub record Reads (pos n : ℕ) (r : Lexed) : Type 0 where
  pub one_read : OneRead pos n r

emit_two-Reads :
    (kind : TokenKind) (text : Bytes) (pos k : ℕ) (cs : Bytes)
    → 0 < k
    → (peek cs == k) ≡ true
    → Reads pos (suc (length cs)) (emit_two kind text pos cs)
unfolding peek
emit_two-Reads kind text pos k [] h q = absurd (ground (arith, q))
emit_two-Reads kind text pos k (d ∷ cs) h q = record { one_read = (refl, omega arith, omega arith) }

scan_string-Reads :
    (quote pos : ℕ) (cs : Bytes) → Reads pos (suc (length cs)) (scan_string quote pos cs)
unfolding scan_string
scan_string-Reads quote pos cs =
    closing (string_loop quote (pos + 1) cs) (string_loop-Advances quote (pos + 1) cs)
  where
    closing :
        (o : Option (Bytes × ℕ × Bytes))
        → Advances (pos + 1) (length cs) o
        → Reads pos (suc (length cs)) (elim o [
          | none ↦ err (unterminated_string pos)
          | some (text, p, rest) ↦
              ok (record { kind = tok_string; text = text; pos = pos }, p, rest)
        ])
    closing none a = record { one_read = refl }
    closing (some (text, p, rest)) a = record {
      one_read = (refl, omega (arith, a), omega (arith, a));
    }

scan_number-Reads :
    (pos c : ℕ) (cs : Bytes)
    → is_digit c ≡ true
    → Reads pos (suc (length cs)) (scan_number pos (c ∷ cs))
unfolding scan_number
scan_number-Reads pos c cs h = record {
  one_read = (refl, number_first pos c cs h, (number_loop_lem false pos (c ∷ cs)).1);
}

scan_ident-Reads :
    (pos c : ℕ) (cs : Bytes)
    → is_ident_start c ≡ true
    → Reads pos (suc (length cs)) (scan_ident_or_keyword pos (c ∷ cs))
unfolding scan_ident_or_keyword
scan_ident-Reads pos c cs h = record {
  one_read = (refl, ident_first pos c cs h, (ident_loop_lem pos (c ∷ cs)).1);
}

scan_param-Reads : (pos : ℕ) (cs : Bytes) → Reads pos (suc (length cs)) (scan_param pos cs)
unfolding scan_param
scan_param-Reads pos cs = record {
  one_read = (
    refl,
    omega (arith, ident_loop_lem (pos + 1) cs),
    omega (arith, ident_loop_lem (pos + 1) cs),
  );
}

one-Reads :
    (kind : TokenKind) (text : Bytes) (pos : ℕ) (cs : Bytes)
    → Reads pos (suc (length cs)) (emit kind text pos cs)
one-Reads kind text pos cs = record { one_read = (refl, omega arith, omega arith) }

one_or_two-Reads :
    (d : ℕ) (kind kind' : TokenKind) (c pos : ℕ) (cs : Bytes)
    → 0 < d
    → Reads pos (suc (length cs)) (one_or_two d kind kind' c pos cs)
unfolding one_or_two
one_or_two-Reads d kind kind' c pos cs h = elim (Bool-cases (peek cs == d)) [
  | inl two ↦ rw two (emit_two-Reads kind' (c ∷ d ∷ []) pos d cs h two)
  | inr one ↦ rw one (one-Reads kind (c ∷ []) pos cs)
]

scan_less-Reads : (pos : ℕ) (cs : Bytes) → Reads pos (suc (length cs)) (scan_less pos cs)
unfolding scan_less
scan_less-Reads pos cs = elim (Bool-cases (peek cs == b'-')) [
  | inl dash ↦ rw dash (emit_two-Reads tok_larrow (b'<' ∷ b'-' ∷ []) pos b'-' cs (omega arith) dash)
  | inr no_dash ↦ elim (Bool-cases (peek cs == b'=')) [
    | inl equals ↦
        rw (no_dash, equals)
          (emit_two-Reads tok_lte (b'<' ∷ b'=' ∷ []) pos b'=' cs (omega arith) equals)
    | inr no_equals ↦ elim (Bool-cases (peek cs == b'>')) [
      | inl more ↦
          rw (no_dash, no_equals, more)
            (emit_two-Reads tok_neq (b'<' ∷ b'>' ∷ []) pos b'>' cs (omega arith) more)
      | inr less ↦ rw (no_dash, no_equals, less) (one-Reads tok_lt (b'<' ∷ []) pos cs)
    ]
  ]
]

scan_other-Reads : (pos c : ℕ) (cs : Bytes) → Reads pos (suc (length cs)) (scan_other pos c cs)
unfolding scan_other
scan_other-Reads pos c cs = elim (Bool-cases (c == b'.')) [
  | inl h ↦ rw h (one_or_two-Reads b'.' tok_dot tok_dotdot b'.' pos cs (omega arith))
  | inr n1 ↦ elim (Bool-cases (c == b'-')) [
    | inl h ↦ rw (n1, h) (one_or_two-Reads b'>' tok_dash tok_arrow b'-' pos cs (omega arith))
    | inr n2 ↦ elim (Bool-cases (c == b'<')) [
      | inl h ↦ rw (n1, n2, h) (scan_less-Reads pos cs)
      | inr n3 ↦ elim (Bool-cases (c == b'>')) [
        | inl h ↦
            rw (n1, n2, n3, h) (one_or_two-Reads b'=' tok_gt tok_gte b'>' pos cs (omega arith))
        | inr n4 ↦ elim (Bool-cases (c == 39 || c == 34)) [
          | inl h ↦ rw (n1, n2, n3, n4, h) (scan_string-Reads c pos cs)
          | inr n5 ↦ elim (Bool-cases (is_digit c)) [
            | inl h ↦ rw (n1, n2, n3, n4, n5, h) (scan_number-Reads pos c cs h)
            | inr n6 ↦ elim (Bool-cases (c == b'$')) [
              | inl h ↦ rw (n1, n2, n3, n4, n5, n6, h) (scan_param-Reads pos cs)
              | inr n7 ↦ elim (Bool-cases (is_ident_start c)) [
                | inl h ↦ rw (n1, n2, n3, n4, n5, n6, n7, h) (scan_ident-Reads pos c cs h)
                | inr n8 ↦ rw (n1, n2, n3, n4, n5, n6, n7, n8) (record { one_read = refl })
              ]
            ]
          ]
        ]
      ]
    ]
  ]
]

pub next_token-Reads : (pos c : ℕ) (cs : Bytes) → Reads pos (suc (length cs)) (next_token pos c cs)
unfolding next_token
next_token-Reads pos c cs = chosen (single c)
  where
    chosen :
        (o : Option TokenKind)
        → Reads pos
            (suc (length cs))
            (elim o [ some kind ↦ emit kind (c ∷ []) pos cs | none ↦ scan_other pos c cs ])
    chosen none = scan_other-Reads pos c cs
    chosen (some kind) = record { one_read = (refl, omega arith, omega arith) }
