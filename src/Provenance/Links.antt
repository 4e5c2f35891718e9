-- ===== src/Provenance/Links.antt =====
-- src/shared/provenance/links.ts: a bounded set of typed links, without repetitions.
use modular_hx_fastapi.Common.{
  Bool, List, Text, [], any, false, length, ltb, not, one_of, same, true, ◌&&◌, ◌++◌, ◌is◌, ◌||◌,
  ◌∷◌,
}
use modular_hx_fastapi.Errors.{Failure, Result, err, ok, refuse_if, ◌>>=◌, ◌>>◌}
use modular_hx_fastapi.Provenance.Actors.{Reference, invalid_provenance}

pub record Link : Type 0 where
  pub relation : Text
  pub target : Reference

-- `${relation}:${kind}:${id}`.
unfoldable pub link_key : Link → Text
link_key l = l.relation ++ (b':' ∷ l.target.kind ++ (b':' ∷ l.target.id))

abbrev pub bad_link : Link → Bool
bad_link l =
    not l.target.known
    || not (one_of l.relation ("input" ∷ "replay_of" ∷ "previous_attempt" ∷ []))
    || (l.relation is "previous_attempt" && not (l.target.kind is "scope"))

abbrev pub has_key : Text → List Text → Bool
has_key k seen = any (same k) seen

-- The loop of `linkSet`, from the keys seen so far; the links kept are in order.
unfoldable pub keep_links : List Text → List Link → Result (List Link) Failure
keep_links seen [] = ok []
keep_links seen (l ∷ ls) = elim (bad_link l) [
  | true ↦ err (invalid_provenance "invalid_reference")
  | false ↦ elim (has_key (link_key l) seen) [
    | true ↦ keep_links seen ls
    | false ↦ do kept ← keep_links (link_key l ∷ seen) ls; ok (l ∷ kept)
  ]
]

unfoldable pub link_set : List Link → Result (List Link) Failure
link_set input = do
  refuse_if (ltb 32 (length input)) (invalid_provenance "too_many_links")
  keep_links [] input
