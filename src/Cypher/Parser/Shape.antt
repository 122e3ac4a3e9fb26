-- ===== src/Cypher/Parser/Shape.antt =====
-- cypher_parser.go: what holds of what one parser of it returns, with one rule for each way to build a
-- parser.
pub mod Patterns
pub mod Queries
use goraphdb.Common.{
  ℕ, zero, suc, ◌+◌, ◌^◌, ◌≤◌, ◌<◌, ◌≡◌, ◌≢◌, inl, inr, refl, subst, ap, Bool, true, false, Option,
  none, some, List, [], ◌∷◌, ◌++◌, if◌then◌else◌, arith, length, ltb, Bool-cases, ltb→lt,
}
use goraphdb.Types.{Bytes}
use goraphdb.Cypher.Tokens.{TokenKind, Token}
use goraphdb.Cypher.Ast.{
  PatternProps, PropValue, NodePattern, RelPattern, Pattern, SetItem, ReturnItem, OrderItem,
  CypherQuery, CypherWrite, CypherMerge, Expression,
}
use goraphdb.Cypher.Parser.{
  ParseError, Outcome, Parser, parsed, refused, out_of_fuel, bind, pure, reword, or_else, cur,
  ahead, is_kind, fail_at, if_ahead, when_kind, expect_or, expect, match_kind, while_match,
  separated, parse_int, decimal,
}

-- `P` holds of what was read, if something was read.
pub data Gives {A : Type 0} (P : A → Type 0) : Outcome A → Type 0 where
  gives : {a : A} {ts : List Token} → P a → Gives P (parsed a ts)
  stops : {e : ParseError} → Gives P (refused e)
  spent : Gives P out_of_fuel

abbrev Says : {A : Type 0} → (A → Type 0) → Outcome A → Type 0
Says P (parsed a ts) = P a
Says P _ = Unit

pub Gives-parsed :
    {A : Type 0} {P : A → Type 0} {r : Outcome A} {a : A} {ts : List Token}
    → Gives P r
    → r ≡ parsed a ts
    → P a
Gives-parsed {P = P} (gives h) e = subst (Says P) e h
Gives-parsed stops e = cc
Gives-parsed spent e = cc

pub record Shaped {A : Type 0} (P : A → Type 0) (p : Parser A) : Type 0 where
  pub shaped : (ts : List Token) → Gives P (p ts)

Gives-bind :
    {A B : Type 0} {P : A → Type 0} {Q : B → Type 0} {r : Outcome A} {f : A → Parser B}
    → Gives P r
    → ((a : A) → P a → Shaped Q (f a))
    → Gives Q (bind r f)
Gives-bind (gives {a} {ts} h) k = (k a h).shaped ts
Gives-bind stops k = stops
Gives-bind spent k = spent

Gives-if :
    {A : Type 0} {P : A → Type 0} (b : Bool) {r s : Outcome A}
    → Gives P r
    → Gives P s
    → Gives P (if b then r else s)
Gives-if true h k = h
Gives-if false h k = k

Gives-reword :
    {A : Type 0} {P : A → Type 0} (f : ParseError → ParseError) {r : Outcome A}
    → Gives P r
    → Gives P (reword f r)
Gives-reword f (gives h) = gives h
Gives-reword f stops = stops
Gives-reword f spent = spent

Gives-weaken :
    {A : Type 0} {P Q : A → Type 0} {r : Outcome A} → Gives P r → ((a : A) → P a → Q a) → Gives Q r
Gives-weaken (gives {a} h) k = gives (k a h)
Gives-weaken stops k = stops
Gives-weaken spent k = spent

anything : {A : Type 0} (r : Outcome A) → Gives (λ _. Unit) r
anything (parsed a ts) = gives tt
anything (refused e) = stops
anything out_of_fuel = spent

module _ {A : Type 0} {P : A → Type 0} where
  pub Shaped-pure : (a : A) → P a → Shaped P (λ ts. parsed a ts)
  Shaped-pure a h = record { shaped = λ ts. gives h }

  pub Shaped-if_ahead :
      (b : List Token → Bool) {p q : Parser A} → Shaped P p → Shaped P q → Shaped P (if_ahead b p q)
  unfolding if_ahead
  Shaped-if_ahead b h k = record { shaped = λ ts. Gives-if (b ts) (h.shaped ts) (k.shaped ts) }

  pub Shaped-when_kind :
      (kind : TokenKind) {p : Token → Parser A} {q : Parser A}
      → ((t : Token) → Shaped P (p t))
      → Shaped P q
      → Shaped P (when_kind kind p q)
  unfolding when_kind
  Shaped-when_kind kind h k = record {
    shaped = λ ts. Gives-if (is_kind kind ts) ((h (cur ts)).shaped (ahead ts)) (k.shaped ts);
  }

  pub Shaped-fail_at : (message : Token → ParseError) → Shaped P (fail_at message)
  unfolding fail_at
  Shaped-fail_at message = record { shaped = λ ts. stops }

  pub Shaped-or_else :
      (f : ParseError → ParseError) {p : Parser A} → Shaped P p → Shaped P (or_else f p)
  unfolding or_else
  Shaped-or_else f h = record { shaped = λ ts. Gives-reword f (h.shaped ts) }

  pub Shaped-spent : Shaped P (λ ts. out_of_fuel)
  Shaped-spent = record { shaped = λ ts. spent }

  pub Shaped-then :
      {B : Type 0} {Q : B → Type 0} {p : Parser A} {f : A → Parser B}
      → Shaped P p
      → ((a : A) → P a → Shaped Q (f a))
      → Shaped Q (λ ts. bind (p ts) f)
  Shaped-then h k = record { shaped = λ ts. Gives-bind (h.shaped ts) k }

pub Shaped-any : {A : Type 0} (p : Parser A) → Shaped (λ _. Unit) p
Shaped-any p = record { shaped = λ ts. anything (p ts) }

pub Shaped-weaken :
    {A : Type 0} {P Q : A → Type 0} {p : Parser A} → Shaped P p → ((a : A) → P a → Q a) → Shaped Q p
Shaped-weaken h k = record { shaped = λ ts. Gives-weaken (h.shaped ts) k }

-- A parser of whose result nothing is needed.
pub Shaped-after :
    {A B : Type 0} {Q : B → Type 0} (p : Parser A) {f : A → Parser B}
    → ((a : A) → Shaped Q (f a))
    → Shaped Q (λ ts. bind (p ts) f)
Shaped-after p k = record { shaped = λ ts. Gives-bind (anything (p ts)) λ a _. k a }

abbrev pub All {ℓ κ} : {A : Type ℓ} → (A → Type κ) → List A → Type κ
All P [] = Unit
All P (x ∷ xs) = P x × All P xs

pub while_match-Shaped :
    {A : Type 0} {P : A → Type 0} (kind : TokenKind) {item : Parser A} (fuel : ℕ)
    → Shaped P item
    → Shaped (All P) (while_match kind item fuel)
unfolding while_match
while_match-Shaped kind zero h = Shaped-spent
while_match-Shaped kind (suc fuel) h =
    Shaped-when_kind kind
      (λ t. Shaped-then h λ a x.
        Shaped-then (while_match-Shaped kind fuel h) λ others y. Shaped-pure (a ∷ others) (x, y))
      (Shaped-pure [] tt)

abbrev pub NonEmpty {ℓ} : {A : Type ℓ} → List A → Type 0
NonEmpty [] = ⊥
NonEmpty (x ∷ xs) = Unit

pub separated-Shaped :
    {A : Type 0} {P : A → Type 0} (kind : TokenKind) {item : Parser A} (fuel : ℕ)
    → Shaped P item
    → Shaped (λ found. NonEmpty found × All P found) (separated kind item fuel)
unfolding separated
separated-Shaped kind fuel h = Shaped-then h λ a x.
    Shaped-then (while_match-Shaped kind fuel h) λ others y. Shaped-pure (a ∷ others) (tt, (x, y))
