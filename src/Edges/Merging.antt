-- ===== src/Edges/Merging.antt =====
-- What `UpdateEdge` (edge.go) makes of the properties of an edge, key by key.
use goraphdb.Common.{
  ◌≡◌, refl, sym, ap, ◌∙◌, Bool, true, false, Option, none, some, [], ◌∷◌, inl, inr, if◌then◌else◌,
  same_bytes, same_bytes_iff, Bool-cases,
}
use goraphdb.Types.{Bytes, PropMap, Props, Value, Edge}
use goraphdb.Encoding.Frames.{made}
use goraphdb.Edges.Writing.{set_prop, merge_loop, merge_props}
use goraphdb.Edges.Insert.{read_back}

-- The value of a property.
pub value_at : Bytes → PropMap → Option Value
value_at k [] = none
value_at k ((j, v) ∷ m) = if same_bytes j k then some v else value_at k m

pub value_of : Bytes → Props → Option Value
value_of k none = none
value_of k (some m) = value_at k m

-- A new value where there is one, or the old one. Of a key that is given twice, which a map has not,
-- the last value counts.
pub given_or : Bytes → PropMap → Option Value → Option Value
given_or k [] old = old
given_or k ((j, v) ∷ m) old = given_or k m (if same_bytes j k then some v else old)

pub updated_or : Bytes → Props → Option Value → Option Value
updated_or k none old = old
updated_or k (some m) old = given_or k m old

same_key :
    {A : Type 0} (p q : Bool) (new old rest : A)
    → q ≡ p
    → (if p then new else rest) ≡ (if p then new else if q then old else rest)
same_key true q new old rest h = refl
same_key false q new old rest h = rw h refl

other_key :
    {A : Type 0} (p q : Bool) (new old rest : A)
    → (p ≡ true → q ≡ true → ⊥)
    → (if q then old else if p then new else rest) ≡ (if p then new else if q then old else rest)
other_key true true new old rest h = absurd (h refl refl)
other_key true false new old rest h = refl
other_key false q new old rest h = refl

value_at-set_prop :
    (k j : Bytes) (v : Value) (m : PropMap)
    → value_at k (set_prop j v m) ≡ (if same_bytes j k then some v else value_at k m)
unfolding value_at set_prop
value_at-set_prop k j v [] = refl
value_at-set_prop k j v ((i, w) ∷ m) = elim (Bool-cases (same_bytes i j)) [
  | inl same ↦ rw same (
      same_key (same_bytes j k) (same_bytes i k) (some v) (some w) (value_at k m)
        (ap (λ x. same_bytes x k) ((same_bytes_iff i j).0 same)))
  | inr other ↦
      let apart : same_bytes j k ≡ true → same_bytes i k ≡ true → ⊥ = λ jk ik.
        let same = (same_bytes_iff i k).0 ik ∙ sym ((same_bytes_iff j k).0 jk) in
        cc (other, (same_bytes_iff i j).1 same) in
      rw (other, value_at-set_prop k j v m)
        (other_key (same_bytes j k) (same_bytes i k) (some v) (some w) (value_at k m) apart)
]

value_at-merge_loop :
    (k : Bytes) (props m : PropMap)
    → value_at k (merge_loop props m) ≡ given_or k props (value_at k m)
unfolding merge_loop given_or
value_at-merge_loop k [] m = refl
value_at-merge_loop k ((j, v) ∷ props) m =
    value_at-merge_loop k props (set_prop j v m) ∙ ap (given_or k props) (value_at-set_prop k j v m)

pub value_of-merge_props :
    (k : Bytes) (props : Props) (e : Edge)
    → value_of k (read_back (merge_props props e)).props ≡ updated_or k props (value_of k e.props)
unfolding merge_props value_at given_or value_of updated_or
value_of-merge_props k props e =
    value_at-merge_loop k (made props) (made e.props) ∙ over props e.props
  where
    over :
        (props old : Props)
        → given_or k (made props) (value_at k (made old)) ≡ updated_or k props (value_of k old)
    over none none = refl
    over none (some m) = refl
    over (some new) none = refl
    over (some new) (some m) = refl
