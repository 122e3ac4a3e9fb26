-- ===== src/Cypher/Grammar/Yields.antt =====
-- cypher_parser.go: what was read and left, with one rule for each way to build a parser.
use goraphdb.Common.{
  ℕ, zero, suc, ◌≡◌, refl, subst, sym, Bool, true, false, List, [], ◌∷◌, if◌then◌else◌,
}
use goraphdb.Cypher.Tokens.{TokenKind, Token, tok_eof}
use goraphdb.Cypher.Kinds.{same_kind, same_kind_iff}
use goraphdb.Cypher.Parser.{
  ParseError, Outcome, Parser, parsed, refused, out_of_fuel, bind, cur, ahead, is_kind, if_ahead,
  when_kind, while_match,
}
use goraphdb.Cypher.Parser.Steps.{IsProper}

-- `P` holds of what was read and what is left, if something was read.
pub data Yields {A : Type 0} (P : A → List Token → Type 0) : Outcome A → Type 0 where
  yields : {a : A} {ts : List Token} → P a ts → Yields P (parsed a ts)
  stops : {e : ParseError} → Yields P (refused e)
  spent : Yields P out_of_fuel

abbrev Says : {A : Type 0} → (A → List Token → Type 0) → Outcome A → Type 0
Says P (parsed a ts) = P a ts
Says P _ = Unit

pub Yields-parsed :
    {A : Type 0} {P : A → List Token → Type 0} {r : Outcome A} {a : A} {ts : List Token}
    → Yields P r
    → r ≡ parsed a ts
    → P a ts
Yields-parsed {P = P} (yields h) e = subst (Says P) e h
Yields-parsed stops e = cc
Yields-parsed spent e = cc

anything : {A : Type 0} (r : Outcome A) → Yields (λ _ _. Unit) r
anything (parsed a ts) = yields tt
anything (refused e) = stops
anything out_of_fuel = spent

module _ {A B : Type 0} {P : A → List Token → Type 0} {Q : B → List Token → Type 0} where
  pub Yields-bind :
      {r : Outcome A} {f : A → Parser B}
      → Yields P r
      → ((a : A) (ts : List Token) → P a ts → Yields Q (f a ts))
      → Yields Q (bind r f)
  Yields-bind (yields {a} {ts} h) k = k a ts h
  Yields-bind stops k = stops
  Yields-bind spent k = spent

pub Yields-weaken :
    {A : Type 0} {P Q : A → List Token → Type 0} {r : Outcome A}
    → Yields P r
    → ((a : A) (ts : List Token) → P a ts → Q a ts)
    → Yields Q r
Yields-weaken (yields {a} {ts} h) k = yields (k a ts h)
Yields-weaken stops k = stops
Yields-weaken spent k = spent

pub Yields-both :
    {A : Type 0} {P Q R : A → List Token → Type 0} {r : Outcome A}
    → Yields P r
    → Yields Q r
    → ((a : A) (ts : List Token) → P a ts → Q a ts → R a ts)
    → Yields R r
Yields-both (yields {a} {ts} h) k j = yields (j a ts h (Yields-parsed k refl))
Yields-both stops k j = stops
Yields-both spent k j = spent

pub while_match-first :
    {A : Type 0} (kind : TokenKind) (item : Parser A) (fuel : ℕ) (ts : List Token)
    → is_kind kind ts ≡ true
    → Yields
        (λ found rest. (a : A) × (others : List A) × (found ≡ a ∷ others))
        (while_match kind item fuel ts)
unfolding while_match when_kind
while_match-first kind item zero ts is = spent
while_match-first kind item (suc fuel) ts is = rw is (
    Yields-bind (anything (item (ahead ts))) λ a us _.
      Yields-bind (anything (while_match kind item fuel us))
        λ others rest _. yields {a = a ∷ others} (a, others, refl))

-- `Q` relates the tokens ahead to what was read and what is left.
pub record Sound {A : Type 0} (Q : List Token → A → List Token → Type 0) (p : Parser A)
    : Type 0 where
  pub sound : (ts : List Token) → Yields (Q ts) (p ts)

module _ {A : Type 0} {Q : List Token → A → List Token → Type 0} where
  pub Sound-if_ahead :
      (test : List Token → Bool) {p q : Parser A}
      → ((ts : List Token) → test ts ≡ true → Yields (Q ts) (p ts))
      → Sound Q q
      → Sound Q (if_ahead test p q)
  unfolding if_ahead
  Sound-if_ahead test {p} {q} h k = record { sound = λ ts. chosen ts (test ts) (h ts) }
    where
      chosen :
          (ts : List Token) (b : Bool)
          → (b ≡ true → Yields (Q ts) (p ts))
          → Yields (Q ts) (if b then p ts else q ts)
      chosen ts true h = h refl
      chosen ts false h = k.sound ts

  pub Sound-when_kind :
      (kind : TokenKind) {p : Token → Parser A} {q : Parser A}
      → IsProper kind
      → ((t : Token) (us : List Token) → t.kind ≡ kind → Yields (Q (t ∷ us)) (p t us))
      → Sound Q q
      → Sound Q (when_kind kind p q)
  unfolding when_kind is_kind cur ahead
  Sound-when_kind kind {p} {q} proper h k = record { sound = from }
    where
      at_end :
          (b : Bool)
          → same_kind tok_eof kind ≡ b
          → Yields (Q []) (if b then p (cur []) [] else q [])
      at_end true e = absurd (subst IsProper (sym ((same_kind_iff tok_eof kind).0 e)) proper)
      at_end false e = k.sound []

      at_token :
          (t : Token) (us : List Token) (b : Bool)
          → same_kind t.kind kind ≡ b
          → Yields (Q (t ∷ us)) (if b then p t us else q (t ∷ us))
      at_token t us true e = h t us ((same_kind_iff t.kind kind).0 e)
      at_token t us false e = k.sound (t ∷ us)

      from :
          (ts : List Token)
          → Yields (Q ts) (if is_kind kind ts then p (cur ts) (ahead ts) else q ts)
      from [] = at_end (same_kind tok_eof kind) refl
      from (t ∷ us) = at_token t us (same_kind t.kind kind) refl
