-- ===== src/Cypher/Parser/Steps.antt =====
-- cypher_parser.go: how far one parser of it moves, with one rule for each way to build a parser.
use goraphdb.Common.{
  ℕ, zero, suc, ◌≤◌, ◌<◌, ◌≡◌, ◌≢◌, refl, sym, subst, Bool, true, false, List, [], ◌∷◌, arith,
  if◌then◌else◌, length,
}
use goraphdb.Cypher.Tokens.{TokenKind, Token, tok_eof}
use goraphdb.Cypher.Kinds.{same_kind_iff}
use goraphdb.Cypher.Parser.{
  ParseError, Outcome, Parser, parsed, refused, out_of_fuel, bind, reword, or_else, cur, ahead,
  fail_at, if_ahead, when_kind, is_kind, expect, expect_or, match_kind, while_match, separated,
}

-- Not the mark of the end.
abbrev pub IsProper : TokenKind → Type 0
IsProper tok_eof = ⊥
IsProper _ = Unit

-- The fuel was enough, and what is left when something was read has a length that `P` holds of.
pub data Leaves {A : Type 0} (P : ℕ → Type 0) : Outcome A → Type 0 where
  leaves : {a : A} {ts : List Token} → P (length ts) → Leaves P (parsed a ts)
  stops : {e : ParseError} → Leaves P (refused e)

pub Leaves-ne : {A : Type 0} {P : ℕ → Type 0} {r : Outcome A} → Leaves P r → r ≢ out_of_fuel
Leaves-ne (leaves h) = cc
Leaves-ne stops = cc

pub Leaves-bind :
    {A B : Type 0} {P Q : ℕ → Type 0} {r : Outcome A} {f : A → Parser B}
    → Leaves P r
    → ((a : A) (ts : List Token) → P (length ts) → Leaves Q (f a ts))
    → Leaves Q (bind r f)
Leaves-bind (leaves {a} {ts} h) k = k a ts h
Leaves-bind stops k = stops

-- With fewer than `n` tokens ahead, the parser reads one or more, or refuses.
pub record Reads {A : Type 0} (n : ℕ) (p : Parser A) : Type 0 where
  pub reads : (ts : List Token) → length ts < n → Leaves (λ m. m < length ts) (p ts)

-- The same of a parser that may read nothing.
pub record Skips {A : Type 0} (n : ℕ) (p : Parser A) : Type 0 where
  pub skips : (ts : List Token) → length ts < n → Leaves (λ m. m ≤ length ts) (p ts)

weaken :
    {A : Type 0} {P Q : ℕ → Type 0} {r : Outcome A}
    → ((m : ℕ) → P m → Q m)
    → Leaves P r
    → Leaves Q r
weaken g (leaves h) = leaves (g _ h)
weaken g stops = stops

-- No list has fewer than no tokens.
pub Skips-none : {A : Type 0} (p : Parser A) → Skips 0 p
Skips-none p = record { skips = λ ts few. absurd (omega arith) }

module _ {n : ℕ} {A : Type 0} where
  pub Reads→Skips : {p : Parser A} → Reads n p → Skips n p
  Reads→Skips h = record { skips = λ ts few. weaken (λ m l. omega arith) (h.reads ts few) }

  pub Reads-mono : {m : ℕ} {p : Parser A} → m ≤ n → Reads n p → Reads m p
  Reads-mono fewer h = record { reads = λ ts few. h.reads ts (omega arith) }

  pub Skips-mono : {m : ℕ} {p : Parser A} → m ≤ n → Skips n p → Skips m p
  Skips-mono fewer h = record { skips = λ ts few. h.skips ts (omega arith) }

  pub Skips-pure : (a : A) → Skips n (λ ts. parsed a ts)
  Skips-pure a = record { skips = λ ts few. leaves (omega arith) }

  module _ {B : Type 0} {p : Parser A} {f : A → Parser B} where
    pub Reads-then : Reads n p → ((a : A) → Skips n (f a)) → Reads n (λ ts. bind (p ts) f)
    Reads-then h k = record {
      reads = λ ts few.
          Leaves-bind (h.reads ts few)
            λ a us less. weaken (λ m l. omega arith) ((k a).skips us (omega arith));
    }

    -- What follows a first token has one token less ahead.
    pub Reads-next :
        Reads (suc n) p → ((a : A) → Skips n (f a)) → Reads (suc n) (λ ts. bind (p ts) f)
    Reads-next h k = record {
      reads = λ ts few.
          Leaves-bind (h.reads ts few)
            λ a us less. weaken (λ m l. omega arith) ((k a).skips us (omega arith));
    }

    pub Skips-then : Skips n p → ((a : A) → Skips n (f a)) → Skips n (λ ts. bind (p ts) f)
    Skips-then h k = record {
      skips = λ ts few.
          Leaves-bind (h.skips ts few)
            λ a us less. weaken (λ m l. omega arith) ((k a).skips us (omega arith));
    }

    pub then_Reads : Skips n p → ((a : A) → Reads n (f a)) → Reads n (λ ts. bind (p ts) f)
    then_Reads h k = record {
      reads = λ ts few.
          Leaves-bind (h.skips ts few)
            λ a us less. weaken (λ m l. omega arith) ((k a).reads us (omega arith));
    }

ahead-le : (ts : List Token) → length (ahead ts) ≤ length ts
unfolding ahead
ahead-le [] = omega arith
ahead-le (t ∷ ts) = omega arith

-- The current token is the mark of the end where no token is left.
ahead-lt :
    (kind : TokenKind) (ts : List Token)
    → IsProper kind
    → is_kind kind ts ≡ true
    → length (ahead ts) < length ts
unfolding ahead is_kind cur
ahead-lt kind [] h is = absurd (subst IsProper (sym ((same_kind_iff tok_eof kind).0 is)) h)
ahead-lt kind (t ∷ ts) h is = omega arith

pub Leaves-if :
    {A : Type 0} {P : ℕ → Type 0} (b : Bool) {r s : Outcome A}
    → (b ≡ true → Leaves P r)
    → Leaves P s
    → Leaves P (if b then r else s)
Leaves-if true h k = h refl
Leaves-if false h k = k

Leaves-reword :
    {A : Type 0} {P : ℕ → Type 0} (f : ParseError → ParseError) {r : Outcome A}
    → Leaves P r
    → Leaves P (reword f r)
Leaves-reword f (leaves h) = leaves h
Leaves-reword f stops = stops

module _ {n : ℕ} {A : Type 0} where
  pub Skips-ahead : {p : Parser A} → Skips n p → Skips n (λ ts. p (ahead ts))
  Skips-ahead h = record {
    skips = λ ts few.
        let shorter = ahead-le ts in weaken (λ m l. omega arith) (h.skips (ahead ts) (omega arith));
  }

  pub Skips-if_ahead :
      (b : List Token → Bool) {p q : Parser A} → Skips n p → Skips n q → Skips n (if_ahead b p q)
  unfolding if_ahead
  Skips-if_ahead b h k = record {
    skips = λ ts few. Leaves-if (b ts) (λ _. h.skips ts few) (k.skips ts few);
  }

  pub Reads-if_ahead :
      (b : List Token → Bool) {p q : Parser A} → Reads n p → Reads n q → Reads n (if_ahead b p q)
  unfolding if_ahead
  Reads-if_ahead b h k = record {
    reads = λ ts few. Leaves-if (b ts) (λ _. h.reads ts few) (k.reads ts few);
  }

  pub Skips-when_kind :
      (kind : TokenKind) {p : Token → Parser A} {q : Parser A}
      → ((t : Token) → Skips n (p t))
      → Skips n q
      → Skips n (when_kind kind p q)
  unfolding when_kind
  Skips-when_kind kind h k = record {
    skips = λ ts few.
        Leaves-if (is_kind kind ts)
          (λ _.
            let shorter = ahead-le ts in
            weaken (λ m l. omega arith) ((h (cur ts)).skips (ahead ts) (omega arith)))
          (k.skips ts few);
  }

  pub Reads-when_kind :
      (kind : TokenKind) {p : Token → Parser A} {q : Parser A}
      → IsProper kind
      → ((t : Token) → Skips n (p t))
      → Reads n q
      → Reads n (when_kind kind p q)
  unfolding when_kind
  Reads-when_kind kind proper h k = record {
    reads = λ ts few.
        Leaves-if (is_kind kind ts)
          (λ is.
            let shorter = ahead-lt kind ts proper is in
            weaken (λ m l. omega arith) ((h (cur ts)).skips (ahead ts) (omega arith)))
          (k.reads ts few);
  }

  -- What is behind a token has one token less ahead.
  pub Reads-behind :
      (kind : TokenKind) {p : Token → Parser A} {q : Parser A}
      → IsProper kind
      → ((t : Token) → Skips n (p t))
      → Reads (suc n) q
      → Reads (suc n) (when_kind kind p q)
  unfolding when_kind
  Reads-behind kind proper h k = record {
    reads = λ ts few.
        Leaves-if (is_kind kind ts)
          (λ is.
            let shorter = ahead-lt kind ts proper is in
            weaken (λ m l. omega arith) ((h (cur ts)).skips (ahead ts) (omega arith)))
          (k.reads ts few);
  }

  pub Skips-behind :
      (kind : TokenKind) {p : Token → Parser A} {q : Parser A}
      → IsProper kind
      → ((t : Token) → Skips n (p t))
      → Skips (suc n) q
      → Skips (suc n) (when_kind kind p q)
  unfolding when_kind
  Skips-behind kind proper h k = record {
    skips = λ ts few.
        Leaves-if (is_kind kind ts)
          (λ is.
            let shorter = ahead-lt kind ts proper is in
            weaken (λ m l. omega arith) ((h (cur ts)).skips (ahead ts) (omega arith)))
          (k.skips ts few);
  }

  pub Reads-fail_at : (message : Token → ParseError) → Reads {A = A} n (fail_at message)
  unfolding fail_at
  Reads-fail_at message = record { reads = λ ts few. stops }

  pub Reads-or_else :
      (f : ParseError → ParseError) {p : Parser A} → Reads n p → Reads n (or_else f p)
  unfolding or_else
  Reads-or_else f h = record { reads = λ ts few. Leaves-reword f (h.reads ts few) }

pub expect_or-Reads :
    {n : ℕ} (message : Token → ParseError) (kind : TokenKind)
    → IsProper kind
    → Reads n (expect_or message kind)
unfolding expect_or
expect_or-Reads message kind proper =
    Reads-when_kind kind proper (λ t. Skips-pure t) (Reads-fail_at message)

pub expect-Reads : {n : ℕ} (kind : TokenKind) → IsProper kind → Reads n (expect kind)
unfolding expect
expect-Reads kind proper = search (expect_or-Reads)

pub match_kind-Skips : {n : ℕ} (kind : TokenKind) → Skips n (match_kind kind)
unfolding match_kind
match_kind-Skips kind = Skips-when_kind kind (λ t. Skips-pure true) (Skips-pure false)

-- A loop that starts with a token of some kind ends when its fuel exceeds the tokens ahead: in any
-- round, `n` bounds the tokens and the fuel that is left.
module _ {A : Type 0} {item : Parser A} (kind : TokenKind) (proper : IsProper kind) where
  while_match-Leaves :
      {n : ℕ} (fuel : ℕ) (ts : List Token)
      → Skips n item
      → length ts < n
      → length ts < fuel
      → Leaves (λ m. m ≤ length ts) (while_match kind item fuel ts)
  unfolding while_match when_kind
  while_match-Leaves zero ts h few enough = absurd (omega arith)
  while_match-Leaves (suc fuel) ts h few enough =
      Leaves-if (is_kind kind ts)
        (λ is.
          let shorter = ahead-lt kind ts proper is in
          Leaves-bind (h.skips (ahead ts) (omega arith)) λ a us l.
            Leaves-bind (while_match-Leaves fuel us h (omega arith) (omega arith))
              λ rest vs l'. leaves (omega arith))
        (leaves (omega arith))

  pub while_match-Skips :
      {n : ℕ} (fuel : ℕ) → n ≤ fuel → Skips n item → Skips n (while_match kind item fuel)
  while_match-Skips fuel enough h = record {
    skips = λ ts few. while_match-Leaves fuel ts h few (omega arith);
  }

  pub separated-Reads :
      {n : ℕ} (fuel : ℕ) → n ≤ fuel → Reads n item → Reads n (separated kind item fuel)
  unfolding separated
  separated-Reads fuel enough h =
      Reads-then h λ a.
        Skips-then (while_match-Skips fuel enough (Reads→Skips h)) λ rest. Skips-pure (a ∷ rest)

pub ruleset reading = (
  Reads→Skips, Skips-pure, Reads-then, Skips-then, Skips-if_ahead, Reads-if_ahead, Skips-when_kind,
  Reads-when_kind, Reads-fail_at, Reads-or_else, expect_or-Reads, expect-Reads, match_kind-Skips,
  while_match-Skips, separated-Reads,
)
