-- ===== src/Cypher/Kinds.antt =====
-- cypher_lexer.go: whether two kinds of tokens are the same.
use goraphdb.Common.{Bool, true, false, ◌≡◌, ◌↔◌, refl}
use goraphdb.Cypher.Tokens.{TokenKind}

pub TokenKind-discrete : Discrete TokenKind
TokenKind-discrete = hlevel

unfoldable pub is_yes {ℓ} : {P : Type ℓ} → Dec P → Bool
is_yes (yes p) = true
is_yes (no n) = false

unfoldable pub same_kind : TokenKind → TokenKind → Bool
unfolding TokenKind-discrete is_yes
same_kind k l = is_yes (TokenKind-discrete k l)

is_yes_iff {ℓ} : {P : Type ℓ} (d : Dec P) → (is_yes d ≡ true) ↔ P
unfolding is_yes
is_yes_iff (yes p) = (λ _. p, λ _. refl)
is_yes_iff (no n) = (λ h. cc, λ p. absurd (n p))

pub same_kind_iff : (k l : TokenKind) → (same_kind k l ≡ true) ↔ (k ≡ l)
unfolding same_kind
same_kind_iff k l = is_yes_iff (TokenKind-discrete k l)
