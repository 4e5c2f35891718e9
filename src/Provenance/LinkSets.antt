-- ===== src/Provenance/LinkSets.antt =====
-- What a link set holds (src/shared/provenance/links.ts).
use modular_hx_fastapi.Common.{
  All, Bool, Bool-cases, List, Text, [], all, any, arith, false, inl, inr, length, not, refl, same,
  same_iff, same_refl, subst, true, ◌||◌, ◌∷◌, ◌≡◌, ◌≤◌, ◌⊎◌,
}
use modular_hx_fastapi.Errors.{Result-cases, is_ok, ok}
use modular_hx_fastapi.Provenance.References.{
  IsMade, IsProper, SameLink, bad_link-IsProper, link_key-SameLink, same-link_key,
}
use modular_hx_fastapi.Provenance.Links.{Link, bad_link, has_key, keep_links, link_key, link_set}

-- The links of `kept` are proper, no key occurs twice and none is among `seen`.
abbrev IsFresh : List Text → List Link → Type 0
IsFresh seen [] = Unit
IsFresh seen (l ∷ ls) =
    (bad_link l ≡ false) × (has_key (link_key l) seen ≡ false) × IsFresh (link_key l ∷ seen) ls

-- A key that is seen or kept.
abbrev covered : Text → List Text → List Link → Bool
covered k seen ls = has_key k seen || any (λ l. same k (link_key l)) ls

-- Each link of the input is proper and its key is seen or kept.
abbrev Covers : List Text → List Link → List Link → Type 0
Covers seen kept [] = Unit
Covers seen kept (l ∷ ls) =
    (bad_link l ≡ false) × (covered (link_key l) seen kept ≡ true) × Covers seen kept ls

-- The first list can be had from the second by dropping links.
pub data Sublist : List Link → List Link → Type 0 where
  done : Sublist [] []
  skip : {xs ys : List Link} (x : Link) → Sublist xs ys → Sublist xs (x ∷ ys)
  keep : {xs ys : List Link} (x : Link) → Sublist xs ys → Sublist (x ∷ xs) (x ∷ ys)

-- What the loop keeps of its input, by keys.
abbrev Keeps : List Text → List Link → List Link → Type 0
Keeps seen input kept =
    IsFresh seen kept × Covers seen kept input × Sublist kept input × (length kept ≤ length input)

-- What is covered with one more key seen is covered with the link of that key kept.
covered_step :
    (k : Text) (l : Link) (seen : List Text) (kept : List Link)
    → covered k (link_key l ∷ seen) kept ≡ true
    → covered k seen (l ∷ kept) ≡ true
covered_step k l seen kept h = ground arith

Covers-step :
    (l : Link) (seen : List Text) (kept input : List Link)
    → Covers (link_key l ∷ seen) kept input
    → Covers seen (l ∷ kept) input
Covers-step l seen kept [] h = tt
Covers-step l seen kept (x ∷ xs) (p, c, h) =
    (p, covered_step (link_key x) l seen kept c, Covers-step l seen kept xs h)

seen_covered :
    (k : Text) (seen : List Text) (kept : List Link)
    → has_key k seen ≡ true
    → covered k seen kept ≡ true
seen_covered k seen kept h = ground arith

kept_covered :
    (l : Link) (seen : List Text) (kept : List Link) → covered (link_key l) seen (l ∷ kept) ≡ true
kept_covered l seen kept = ground (arith, same_refl (link_key l))

keep_links_lem :
    (seen : List Text) (input kept : List Link)
    → keep_links seen input ≡ ok kept
    → Keeps seen input kept
unfolding keep_links
keep_links_lem seen [] kept h =
    let e : [] ≡ kept = ground arith in
    subst (λ (ks : List Link). Keeps seen [] ks) e (tt, tt, done, omega arith)
keep_links_lem seen (l ∷ ls) kept h = elim (Bool-cases (bad_link l)) [
  | inl bad ↦ absurd (ground arith)
  | inr good ↦ elim (Bool-cases (has_key (link_key l) seen)) [
    | inl known ↦
        let (f, c, s, n) = keep_links_lem seen ls kept (ground arith) in
        (f, (good, seen_covered (link_key l) seen kept known, c), skip l s, omega arith)
    | inr new ↦ elim (Result-cases (keep_links (link_key l ∷ seen) ls)) [
      | inr (f, e) ↦ absurd (ground arith)
      | inl (ks, e) ↦
          let (f, c, s, n) = keep_links_lem (link_key l ∷ seen) ls ks e in
          let same_links : l ∷ ks ≡ kept = ground arith in
          subst (λ (k : List Link). Keeps seen (l ∷ ls) k) same_links
            (
              (good, new, f),
              (good, kept_covered l seen ks, Covers-step l seen ks ls c),
              keep l s,
              omega arith,
            )
    ]
  ]
]

-- No two links of a list are the same.
abbrev pub AreDistinct : List Link → Type 0
AreDistinct [] = Unit
AreDistinct (l ∷ ls) = All (λ (m : Link). SameLink l m → ⊥) ls × AreDistinct ls

-- A link of the list is the same as the given one.
abbrev pub Has : Link → List Link → Type 0
Has l [] = ⊥
Has l (m ∷ ms) = SameLink l m ⊎ Has l ms

pub record IsLinkSet (input kept : List Link) : Type 0 where
  pub proper : All IsProper kept
  pub distinct : AreDistinct kept
  pub accepted : All IsProper input
  pub complete : All (λ (l : Link). Has l kept) input
  pub in_order : Sublist kept input
  pub few : length kept ≤ 32

fresh-IsProper : (seen : List Text) (kept : List Link) → IsFresh seen kept → All IsProper kept
fresh-IsProper seen [] h = tt
fresh-IsProper seen (l ∷ ls) (p, n, h) =
    (bad_link-IsProper l p, fresh-IsProper (link_key l ∷ seen) ls h)

-- No link that is kept has a key that was seen.
fresh_unseen :
    (l : Link) (seen : List Text) (kept : List Link)
    → has_key (link_key l) seen ≡ true
    → IsFresh seen kept
    → All (λ (m : Link). SameLink l m → ⊥) kept
fresh_unseen l seen [] k h = tt
fresh_unseen l seen (m ∷ ms) k (p, n, h) = (
  λ e. absurd (ground (arith, same-link_key l m e)),
  fresh_unseen l (link_key m ∷ seen) ms (ground arith) h,
)

fresh-AreDistinct : (seen : List Text) (kept : List Link) → IsFresh seen kept → AreDistinct kept
fresh-AreDistinct seen [] h = tt
fresh-AreDistinct seen (l ∷ ls) (p, n, h) = (
  fresh_unseen l (link_key l ∷ seen) ls (ground (arith, same_refl (link_key l))) h,
  fresh-AreDistinct (link_key l ∷ seen) ls h,
)

Covers-IsProper : (kept input : List Link) → Covers [] kept input → All IsProper input
Covers-IsProper kept [] h = tt
Covers-IsProper kept (l ∷ ls) (p, c, h) = (bad_link-IsProper l p, Covers-IsProper kept ls h)

-- The targets of the links that are kept are made as those of all are.
sublist-All : (kept input : List Link) → Sublist kept input → All IsMade input → All IsMade kept
sublist-All _ _ done h = tt
sublist-All _ _ (skip x s) (p, h) = sublist-All _ _ s h
sublist-All _ _ (keep x s) (p, h) = (p, sublist-All _ _ s h)

found_link :
    (l : Link) (kept : List Link)
    → IsProper l
    → IsMade l
    → All IsProper kept
    → All IsMade kept
    → covered (link_key l) [] kept ≡ true
    → Has l kept
found_link l [] p m ps ms h = absurd (ground arith)
found_link l (k ∷ ks) p m (q, ps) (n, ms) h = elim (Bool-cases (same (link_key l) (link_key k))) [
  | inl e ↦ inl (link_key-SameLink l k p q m n ((same_iff (link_key l) (link_key k)).0 e))
  | inr e ↦ inr (found_link l ks p m ps ms (ground arith))
]

Covers-Has :
    (kept input : List Link)
    → All IsProper kept
    → All IsMade kept
    → All IsMade input
    → Covers [] kept input
    → All (λ (l : Link). Has l kept) input
Covers-Has kept [] ps ms ns h = tt
Covers-Has kept (l ∷ ls) ps ms (n, ns) (p, c, h) =
    (found_link l kept (bad_link-IsProper l p) n ps ms c, Covers-Has kept ls ps ms ns h)

-- If every target that counts as made by the module was made by its constructor of references, a link set
-- that is made of some links holds at most 32 of them in their order; the links are proper, and for each of
-- them exactly one is held with the same relation, kind and identifier.
pub link_set-IsLinkSet :
    (input kept : List Link) → All IsMade input → link_set input ≡ ok kept → IsLinkSet input kept
unfolding link_set
link_set-IsLinkSet input kept m h =
    let (f, c, s, n) = keep_links_lem [] input kept (ground arith) in
    let p = fresh-IsProper [] kept f in
    record {
      proper = p;
      distinct = fresh-AreDistinct [] kept f;
      accepted = Covers-IsProper kept input c;
      complete = Covers-Has kept input p (sublist-All kept input s m) m c;
      in_order = s;
      few = ground (arith, n);
    }

keep_links-total :
    (seen : List Text) (input : List Link)
    → all (λ l. not (bad_link l)) input ≡ true
    → is_ok (keep_links seen input) ≡ true
unfolding keep_links
keep_links-total seen [] h = refl
keep_links-total seen (l ∷ ls) h = elim (Bool-cases (has_key (link_key l) seen)) [
  | inl known ↦ ground (arith, keep_links-total seen ls (ground arith))
  | inr new ↦ ground (arith, keep_links-total (link_key l ∷ seen) ls (ground arith))
]

-- At most 32 proper links always make a link set.
pub link_set-total :
    (input : List Link)
    → length input ≤ 32
    → all (λ l. not (bad_link l)) input ≡ true
    → is_ok (link_set input) ≡ true
unfolding link_set
link_set-total input n h = ground (arith, keep_links-total [] input h)
