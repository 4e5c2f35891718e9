-- ===== src/Provenance/References.antt =====
-- What tells references and links apart (src/shared/provenance/references.ts and links.ts).
use modular_hx_fastapi.Common.{
  Text, [], all, arith, codes, false, inl, inr, is_iff, not, refl, subst, sym, true, ◌++◌, ◌==◌,
  ◌↔◌, ◌∷◌, ◌≡◌, ◌⊎◌,
}
use modular_hx_fastapi.Errors.{ok}
use modular_hx_fastapi.Provenance.Actors.{Reference, reference, valid_reference_kind}
use modular_hx_fastapi.Provenance.Links.{Link, bad_link, link_key}

abbrev pub IsReferenceKind : Text → Type 0
IsReferenceKind k = (k ≡ codes "scope") ⊎ (k ≡ codes "work") ⊎ (k ≡ codes "event")

pub valid_reference_kind_iff : (k : Text) → (valid_reference_kind k ≡ true) ↔ IsReferenceKind k
valid_reference_kind_iff k = (
  λ h. ground (arith, is_iff k "scope", is_iff k "work", is_iff k "event"),
  λ h. ground (arith, is_iff k "scope", is_iff k "work", is_iff k "event"),
)

abbrev IsRelation : Text → Type 0
IsRelation t = (t ≡ codes "input") ⊎ (t ≡ codes "replay_of") ⊎ (t ≡ codes "previous_attempt")

-- A link to a reference that the module made, by one of three relations; a previous attempt is a scope.
abbrev pub IsProper : Link → Type 0
IsProper l =
    (l.target.known ≡ true)
    × IsRelation l.relation
    × (l.relation ≡ codes "previous_attempt" → l.target.kind ≡ codes "scope")

pub bad_link-IsProper : (l : Link) → bad_link l ≡ false → IsProper l
bad_link-IsProper l h = (
  ground arith,
  ground (
    arith,
    is_iff l.relation "input",
    is_iff l.relation "replay_of",
    is_iff l.relation "previous_attempt",
  ),
  λ e. ground (arith, is_iff l.relation "previous_attempt", is_iff l.target.kind "scope"),
)

-- Two links are the same if their relations and the kinds and identifiers of their targets are.
abbrev pub SameLink : Link → Link → Type 0
SameLink a b =
    (a.relation ≡ b.relation) × (a.target.kind ≡ b.target.kind) × (a.target.id ≡ b.target.id)

-- A target that counts as made by the module was made by its constructor of references.
abbrev pub IsMade : Link → Type 0
IsMade l = l.target.known ≡ true → reference l.target.kind l.target.id ≡ ok l.target

abbrev HasNoColon : Text → Type 0
HasNoColon t = all (λ c. not (c == b':')) t ≡ true

-- A text without a colon before a colon is found again.
colon_split :
    (a b s t : Text)
    → HasNoColon a
    → HasNoColon b
    → a ++ (b':' ∷ s) ≡ b ++ (b':' ∷ t)
    → (a ≡ b) × (s ≡ t)
colon_split [] [] s t h k e = (refl, cc)
colon_split [] (d ∷ b) s t h k e = let same_unit : b':' ≡ d = cc in absurd (ground arith)
colon_split (c ∷ a) [] s t h k e = let same_unit : c ≡ b':' = cc in absurd (ground arith)
colon_split (c ∷ a) (d ∷ b) s t h k e =
    let same_unit : c ≡ d = cc in
    let same_rest : a ++ (b':' ∷ s) ≡ b ++ (b':' ∷ t) = cc in
    let (p, q) = colon_split a b s t (ground arith) (ground arith) same_rest in (cc, q)

relation_no_colon : (t : Text) → IsRelation t → HasNoColon t
relation_no_colon t (inl e) = subst HasNoColon (sym e) refl
relation_no_colon t (inr (inl e)) = subst HasNoColon (sym e) refl
relation_no_colon t (inr (inr e)) = subst HasNoColon (sym e) refl

kind_no_colon : (t : Text) → IsReferenceKind t → HasNoColon t
kind_no_colon t (inl e) = subst HasNoColon (sym e) refl
kind_no_colon t (inr (inl e)) = subst HasNoColon (sym e) refl
kind_no_colon t (inr (inr e)) = subst HasNoColon (sym e) refl

reference_kind :
    (kind id : Text) (r : Reference) → reference kind id ≡ ok r → valid_reference_kind kind ≡ true
unfolding reference
reference_kind kind id r h = ground arith

made_kind : (l : Link) → IsMade l → l.target.known ≡ true → IsReferenceKind l.target.kind
made_kind l m k =
    (valid_reference_kind_iff l.target.kind).0
      (reference_kind l.target.kind l.target.id l.target (m k))

-- Proper links with one key are the same link.
pub link_key-SameLink :
    (a b : Link)
    → IsProper a
    → IsProper b
    → IsMade a
    → IsMade b
    → link_key a ≡ link_key b
    → SameLink a b
unfolding link_key
link_key-SameLink a b (p, r, x) (q, s, y) m n e =
    let (same_relation, rest) =
      colon_split a.relation b.relation _ _ (relation_no_colon a.relation r)
        (relation_no_colon b.relation s) e in
    let (same_kind, same_id) =
      colon_split a.target.kind b.target.kind _ _ (kind_no_colon a.target.kind (made_kind a m p))
        (kind_no_colon b.target.kind (made_kind b n q)) rest in
    (same_relation, same_kind, same_id)

pub same-link_key : (a b : Link) → SameLink a b → link_key a ≡ link_key b
unfolding link_key
same-link_key a b (p, q, r) = cc
