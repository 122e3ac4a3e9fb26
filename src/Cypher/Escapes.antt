-- ===== src/Cypher/Escapes.antt =====
-- String literals (cypher_lexer.go): what a text is written as, and how it is read.
use goraphdb.Common.{
  ℕ, suc, ◌+◌, ◌<◌, ◌≡◌, refl, sym, ap, ap₂, subst, ◌∙◌, true, false, ◌||◌, some, List, [], ◌∷◌,
  ◌++◌, arith, ◌==◌, ==_iff, if◌then◌else◌, length, append-nil, Bool-cases, ◌⊎◌, inl, inr,
}
use goraphdb.Common.Results.{ok}
use goraphdb.Types.{Bytes}
use goraphdb.Cypher.Tokens.{Token, is_whitespace, is_digit, tok_string, tok_eof}
use goraphdb.Cypher.Lexer.{
  escape, before, string_loop, scan_string, tokenize, scan, next_token, scan_other, skip_whitespace,
  with_token, scan_rest, scan_ahead,
}

-- A text between two quotes: a backslash goes before each backslash and each quote.
pub quoted : ℕ → Bytes → Bytes
quoted quote [] = quote ∷ []
quoted quote (c ∷ cs) =
    let rest = quoted quote cs in if c == 92 || c == quote then 92 ∷ c ∷ rest else c ∷ rest

-- Either quote of the language.
abbrev pub IsQuote : ℕ → Type 0
IsQuote q = (q ≡ 39) ⊎ (q ≡ 34)

plain_step :
    (quote c pos : ℕ) (ys : Bytes)
    → (c == 92) ≡ false
    → (c == quote) ≡ false
    → 0 < length ys
    → string_loop quote pos (c ∷ ys) ≡ before (c ∷ []) (string_loop quote (pos + 1) ys)
unfolding string_loop
plain_step quote c pos [] h k l = absurd (omega (arith, l))
plain_step quote c pos (d ∷ ys) h k l = rw (h, k) refl

escape_step :
    (quote c pos : ℕ) (ys : Bytes)
    → string_loop quote pos (92 ∷ c ∷ ys) ≡ before (escape c) (string_loop quote (pos + 2) ys)
unfolding string_loop
escape_step quote c pos ys = refl

closing_step :
    (quote pos : ℕ) (ys : Bytes)
    → IsQuote quote
    → string_loop quote pos (quote ∷ ys) ≡ some ([], pos + 1, ys)
unfolding string_loop
closing_step quote pos [] q = rw ((==_iff quote quote).1 refl) refl
closing_step quote pos (d ∷ ys) q =
    let no_backslash : (quote == 92) ≡ false = ground arith in
    rw (no_backslash, (==_iff quote quote).1 refl) refl

escape_self : (quote c : ℕ) → IsQuote quote → (c == 92 || c == quote) ≡ true → escape c ≡ c ∷ []
unfolding escape
escape_self quote c q h = ground (arith, ==_iff c 92, ==_iff c 39, ==_iff c 34, ==_iff c quote)

quoted_long : (quote : ℕ) (cs rest : Bytes) → 0 < length (quoted quote cs ++ rest)
unfolding quoted
quoted_long quote [] rest = omega arith
quoted_long quote (c ∷ cs) rest = elim (Bool-cases (c == 92 || c == quote)) [
  | inl special ↦ rw special (omega arith)
  | inr plain ↦ rw plain (omega arith)
]

-- The loop reads the text back, and stops behind its closing quote.
string_loop-quoted :
    (quote : ℕ) (text rest : Bytes) (pos : ℕ)
    → IsQuote quote
    → string_loop quote pos (quoted quote text ++ rest)
      ≡ some (text, pos + length (quoted quote text), rest)
unfolding quoted
string_loop-quoted quote [] rest pos q = closing_step quote pos rest q
string_loop-quoted quote (c ∷ cs) rest pos q =
    let loop = string_loop-quoted quote cs rest in
    elim (Bool-cases (c == 92 || c == quote)) [
      | inl special ↦ rw special (
          escape_step quote c pos (quoted quote cs ++ rest)
          ∙ ap₂ before (escape_self quote c q special) (loop (pos + 2) q)
          ∙ ap (λ p. some (c ∷ cs, p, rest)) (omega arith))
      | inr plain ↦ rw plain (
          plain_step quote c pos (quoted quote cs ++ rest) (ground (arith, plain))
            (ground (arith, plain)) (quoted_long quote cs rest)
          ∙ ap (before (c ∷ [])) (loop (pos + 1) q)
          ∙ ap (λ p. some (c ∷ cs, p, rest)) (omega arith))
    ]

-- The two tokens of a literal.
abbrev literal : Bytes → ℕ → List Token
literal text end =
    (record { kind = tok_string; text = text; pos = 0 })
    ∷ (record { kind = tok_eof; text = []; pos = end })
    ∷ []

whole_loop :
    (quote : ℕ) (text : Bytes)
    → IsQuote quote
    → string_loop quote 1 (quoted quote text) ≡ some (text, 1 + length (quoted quote text), [])
whole_loop quote text q =
    ap (string_loop quote 1) (sym (append-nil (quoted quote text)))
    ∙ string_loop-quoted quote text [] 1 q

scan_string-quoted :
    (quote : ℕ) (text : Bytes)
    → IsQuote quote
    → scan_string quote 0 (quoted quote text)
      ≡ ok (record { kind = tok_string; text = text; pos = 0 }, 1 + length (quoted quote text), [])
unfolding scan_string
scan_string-quoted quote text q = rw (scan_string, whole_loop quote text q) refl

-- One round of the loop.
scan_round :
    (fuel pos p c : ℕ) (input cs : Bytes) (token : Token) (q : ℕ) (rest : Bytes)
    → skip_whitespace pos input ≡ (p, c ∷ cs)
    → next_token p c cs ≡ ok (token, q, rest)
    → scan (suc fuel) pos input ≡ with_token token (scan fuel q rest)
unfolding scan
scan_round fuel pos p c input cs token q rest h k =
    let at : (skip_whitespace pos input).0 ≡ p = ap (λ (x : ℕ × Bytes). x.0) h in
    let ahead : (skip_whitespace pos input).1 ≡ c ∷ cs = ap (λ (x : ℕ × Bytes). x.1) h in
    ap₂ (scan_ahead (λ q rest. scan fuel q rest)) at ahead
    ∙ ap (scan_rest (λ q rest. scan fuel q rest)) k

single_literal :
    (fuel : ℕ) (text : Bytes)
    → scan (suc (suc fuel)) 0 (39 ∷ quoted 39 text)
      ≡ some (ok (literal text (1 + length (quoted 39 text))))
unfolding scan is_whitespace is_digit scan_other
single_literal fuel text =
    scan_round (suc fuel) 0 0 39 (39 ∷ quoted 39 text) (quoted 39 text)
      (record { kind = tok_string; text = text; pos = 0 }) (1 + length (quoted 39 text)) [] refl
      (scan_string-quoted 39 text (inl refl))

double_literal :
    (fuel : ℕ) (text : Bytes)
    → scan (suc (suc fuel)) 0 (34 ∷ quoted 34 text)
      ≡ some (ok (literal text (1 + length (quoted 34 text))))
unfolding scan is_whitespace is_digit scan_other
double_literal fuel text =
    scan_round (suc fuel) 0 0 34 (34 ∷ quoted 34 text) (quoted 34 text)
      (record { kind = tok_string; text = text; pos = 0 }) (1 + length (quoted 34 text)) [] refl
      (scan_string-quoted 34 text (inr refl))

-- A text between quotes, with its backslashes and quotes escaped, is one string token with that text.
pub tokenize-quoted :
    (quote : ℕ) (text : Bytes)
    → IsQuote quote
    → let input = quote ∷ quoted quote text in
      tokenize input
      ≡ some (
          ok (
            (record { kind = tok_string; text = text; pos = 0 })
            ∷ (record { kind = tok_eof; text = []; pos = length input })
            ∷ []))
unfolding tokenize
tokenize-quoted quote text q =
    let n = length (quoted quote text) in
    let enough : length (quote ∷ quoted quote text) + 1 ≡ suc (suc n) = omega arith in
    let reached : 1 + n ≡ length (quote ∷ quoted quote text) = omega arith in
    ap (λ fuel. scan fuel 0 (quote ∷ quoted quote text)) enough
    ∙ either_literal q
    ∙ ap (λ end. some (ok (literal text end))) reached
  where
    either_literal :
        IsQuote quote
        → scan (suc (suc (length (quoted quote text)))) 0 (quote ∷ quoted quote text)
          ≡ some (ok (literal text (1 + length (quoted quote text))))
    either_literal (inl e) =
        subst
          (λ k.
            scan (suc (suc (length (quoted k text)))) 0 (k ∷ quoted k text)
            ≡ some (ok (literal text (1 + length (quoted k text)))))
          (sym e) (single_literal (length (quoted 39 text)) text)
    either_literal (inr e) =
        subst
          (λ k.
            scan (suc (suc (length (quoted k text)))) 0 (k ∷ quoted k text)
            ≡ some (ok (literal text (1 + length (quoted k text)))))
          (sym e) (double_literal (length (quoted 34 text)) text)
