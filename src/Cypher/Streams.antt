-- ===== src/Cypher/Streams.antt =====
-- The outcome of the lexer (cypher_lexer.go): tokens or an error, and their positions.
use goraphdb.Common.{
  ℕ, zero, suc, ◌+◌, ◌≤◌, ◌<◌, ◌≡◌, ◌⊎◌, inl, inr, refl, subst, Option, none, some, List, [], ◌∷◌,
  arith, length,
}
use goraphdb.Common.Results.{Error, Result, ok, err, unexpected_character, unterminated_string}
use goraphdb.Types.{Bytes}
use goraphdb.Cypher.Tokens.{Token, tok_eof}
use goraphdb.Cypher.Lexer.{
  skip_whitespace, Lexed, next_token, with_token, scan_rest, scan_ahead, scan, tokenize,
}
use goraphdb.Cypher.Readers.{ErrorAt, OneRead, next_token-Reads, skip_whitespace_lem}

-- Tokens at ascending positions from `lo` on, all before the end but the last one, which is the mark of
-- the end and stands there.
abbrev pub IsStream : ℕ → ℕ → List Token → Type 0
IsStream lo end [] = ⊥
IsStream lo end (t ∷ ts) =
    (lo ≤ t.pos)
    × (((ts ≡ []) × (t.kind ≡ tok_eof) × (t.pos ≡ end))
        ⊎ ((t.pos < end) × IsStream (t.pos + 1) end ts))

-- The outcome: a stream of tokens, or an error at a byte of the input.
abbrev pub IsLexed : ℕ → ℕ → Option (Result (List Token)) → Type 0
IsLexed lo end none = ⊥
IsLexed lo end (some (err e)) = ErrorAt (λ p. (lo ≤ p) × (p < end)) e
IsLexed lo end (some (ok tokens)) = IsStream lo end tokens

ErrorAt-mono : (P Q : ℕ → Type 0) (e : Error) → ((p : ℕ) → P p → Q p) → ErrorAt P e → ErrorAt Q e
ErrorAt-mono P Q (unexpected_character c pos) f h = f pos h
ErrorAt-mono P Q (unterminated_string pos) f h = f pos h
ErrorAt-mono P Q _ f h = h

IsStream-mono :
    (lo lo' end : ℕ) (ts : List Token) → lo' ≤ lo → IsStream lo end ts → IsStream lo' end ts
IsStream-mono lo lo' end [] h s = s
IsStream-mono lo lo' end (t ∷ ts) h (from, rest) = (omega (arith, from, h), rest)

-- A token in front of what follows it.
with_token-IsLexed :
    (token : Token) (lo q end : ℕ) (o : Option (Result (List Token)))
    → lo ≤ token.pos
    → token.pos < q
    → token.pos < end
    → IsLexed q end o
    → IsLexed lo end (with_token token o)
with_token-IsLexed token lo q end none a b c h = h
with_token-IsLexed token lo q end (some (err e)) a b c h =
    ErrorAt-mono (λ p. (q ≤ p) × (p < end)) (λ p. (lo ≤ p) × (p < end)) e
      (λ p r. (omega (arith, r, a, b), r.1)) h
with_token-IsLexed token lo q end (some (ok ts)) a b c h =
    (a, inr (c, IsStream-mono q (token.pos + 1) end ts (omega arith) h))

-- From any position, with more fuel than there are bytes ahead, the loop ends.
scan-IsLexed :
    (fuel pos : ℕ) (input : Bytes)
    → length input < fuel
    → IsLexed pos (pos + length input) (scan fuel pos input)
unfolding scan
scan-IsLexed zero pos input h = absurd (omega arith)
scan-IsLexed (suc fuel) pos input h =
    let (p, ahead) = skip_whitespace pos input in
    let (further, kept) = skip_whitespace_lem pos input in
    from_here (λ q rest. scan-IsLexed fuel q rest) p ahead further kept
  where
    end : ℕ
    end = pos + length input

    from_token :
        ((q : ℕ) (rest : Bytes)
          → length rest < fuel
          → IsLexed q (q + length rest) (scan fuel q rest))
        → (p : ℕ) (cs : Bytes) (r : Lexed) → pos ≤ p
        → p + suc (length cs) ≡ end
        → OneRead p (suc (length cs)) r
        → IsLexed pos end (scan_rest (λ a b. scan fuel a b) r)
    from_token loop p cs (err e) further kept read =
        ErrorAt-mono (λ q. q ≡ p) (λ q. (pos ≤ q) × (q < end)) e
          (λ q r. (omega (arith, r, further), omega (arith, r, kept))) read
    from_token loop p cs (ok (token, q, rest)) further kept (at, later, passed) =
        with_token-IsLexed token pos q end (scan fuel q rest) (omega (arith, at, further))
          (omega (arith, at, later)) (omega (arith, at, kept))
          (subst (λ n. IsLexed q n (scan fuel q rest)) (omega (arith, passed, kept))
            (loop q rest (omega (arith, passed, later, kept, further, h))))

    from_here :
        ((q : ℕ) (rest : Bytes)
          → length rest < fuel
          → IsLexed q (q + length rest) (scan fuel q rest))
        → (p : ℕ) (ahead : Bytes) → pos ≤ p
        → p + length ahead ≡ end
        → IsLexed pos end (scan_ahead (λ a b. scan fuel a b) p ahead)
    from_here loop p [] further kept = (further, inl (refl, refl, omega (arith, kept)))
    from_here loop p (c ∷ cs) further kept =
        from_token loop p cs (next_token p c cs) further kept (next_token-Reads p c cs).one_read

-- The lexer returns for every input: either an error at a byte of the input, or tokens at ascending
-- positions, all within the input but the last, which is the end mark and stands behind it.
pub tokenize-IsLexed : (input : Bytes) → IsLexed 0 (length input) (tokenize input)
unfolding tokenize
tokenize-IsLexed input =
    subst (λ n. IsLexed 0 n (scan (length input + 1) 0 input)) (omega arith)
      (scan-IsLexed (length input + 1) 0 input (omega arith))
