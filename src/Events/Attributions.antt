-- ===== src/Events/Attributions.antt =====
-- Attributions and replays that were read are read again from what they are written to
-- (src/shared/events/index.ts).
use modular_hx_fastapi.Common.{
  List, Option, String, Text, Value, [], ap, arith, none, object, refl, same, some, string, subst,
  sym, true, ◌is◌, ◌∙◌, ◌∷◌, ◌≡◌,
}
use modular_hx_fastapi.Errors.{ok}
use modular_hx_fastapi.Provenance.{
  Attribution, AttributionSpec, Reference, Replay, attribution, valid_id,
}
use modular_hx_fastapi.Events.Works.{
  actor_in, actor_out, attribution_in, attribution_out, field, id_in, no_reference, object_of,
  only_keys, optional, or_no_reference, ref_in, ref_out, replay_in, replay_out, string_value,
  text_of, value_of,
}
use modular_hx_fastapi.Events.Fields.{
  Members, bind-reads, bind-some, check-reads, check-some, member, named_among, only_keys-written,
  optional-reads, or_undefined, value_of-some, written,
}
use modular_hx_fastapi.Events.Reading.{
  IsActorOption, actor_out-reads, member_reads, optional-IsActor, text_reads,
}
use modular_hx_fastapi.Events.References.{
  IsReference, IsReferenceOption, id_in-reads, optional-IsReference, ref_out-reads,
}

abbrev attribution_members : Attribution → Members
attribution_members a =
    ("initiator", actor_out a.initiator)
    ∷ ("on_behalf_of", actor_out a.on_behalf_of)
    ∷ ("tenant", string_value a.tenant)
    ∷ []

-- An attribution that is made from its parts.
pub record IsAttribution (a : Attribution) : Type 0 where
  pub made : attribution a.spec ≡ ok a
  pub initiated : IsActorOption a.initiator
  pub behalf : IsActorOption a.on_behalf_of

abbrev attribution_keys : List String
attribution_keys = "initiator" ∷ "on_behalf_of" ∷ "tenant" ∷ []

attribution_named : (a : Attribution) → named_among attribution_keys (attribution_members a) ≡ true
unfolding named_among ◌is◌ same
attribution_named a = refl

attribution_initiator :
    (a : Attribution) → member "initiator" (attribution_members a) ≡ actor_out a.initiator
unfolding member ◌is◌ same
attribution_initiator a = refl

attribution_behalf :
    (a : Attribution) → member "on_behalf_of" (attribution_members a) ≡ actor_out a.on_behalf_of
unfolding member ◌is◌ same
attribution_behalf a = refl

attribution_tenant :
    (a : Attribution) → member "tenant" (attribution_members a) ≡ string_value a.tenant
unfolding member ◌is◌ same
attribution_tenant a = refl

pub attribution_out-reads :
    (a : Attribution) → IsAttribution a → attribution_in (attribution_out a) ≡ some a
unfolding attribution_in attribution_out
attribution_out-reads a i =
    let ms = attribution_members a in
    check-reads (only_keys attribution_keys (written ms)) _ _
      (only_keys-written attribution_keys ms (attribution_named a))
      (bind-reads (optional actor_in (field "initiator" (written ms))) _ a.initiator _
        (member_reads (optional actor_in) "initiator" ms (actor_out a.initiator)
            (attribution_initiator a)
          ∙ actor_out-reads a.initiator i.initiated)
        (bind-reads (optional actor_in (field "on_behalf_of" (written ms))) _ a.on_behalf_of _
          (member_reads (optional actor_in) "on_behalf_of" ms (actor_out a.on_behalf_of)
              (attribution_behalf a)
            ∙ actor_out-reads a.on_behalf_of i.behalf)
          (bind-reads (optional text_of (field "tenant" (written ms))) _ a.tenant _
            (member_reads (optional text_of) "tenant" ms (string_value a.tenant)
                (attribution_tenant a)
              ∙ text_reads a.tenant)
            (ap value_of i.made))))

attribution_spec : (s : AttributionSpec) (a : Attribution) → attribution s ≡ ok a → s ≡ a.spec
unfolding attribution
attribution_spec s a h = ground arith

pub attribution_in-IsAttribution :
    (v : Value) (a : Attribution) → attribution_in v ≡ some a → IsAttribution a
unfolding attribution_in
attribution_in-IsAttribution v a h =
    let (ps, o, h1) = bind-some (object_of v) _ a h in
    let (keys, h2) = check-some (only_keys attribution_keys ps) _ a h1 in
    let (initiator, i, h3) = bind-some (optional actor_in (field "initiator" ps)) _ a h2 in
    let (behalf, b, h4) = bind-some (optional actor_in (field "on_behalf_of" ps)) _ a h3 in
    let (tenant, t, h5) = bind-some (optional text_of (field "tenant" ps)) _ a h4 in
    let s : AttributionSpec = record {
      initiator = initiator;
      on_behalf_of = behalf;
      tenant = tenant;
    } in
    let made = value_of-some (attribution s) a h5 in
    let same_spec = attribution_spec s a made in
    record {
      made = subst (λ (x : AttributionSpec). attribution x ≡ ok a) same_spec made;
      initiated =
          subst (λ (x : AttributionSpec). IsActorOption x.initiator) same_spec
            (optional-IsActor (field "initiator" ps) initiator i);
      behalf =
          subst (λ (x : AttributionSpec). IsActorOption x.on_behalf_of) same_spec
            (optional-IsActor (field "on_behalf_of" ps) behalf b);
    }

abbrev replay_members : Replay → Members
replay_members r = ("run_id", string_value r.run_id) ∷ ("source", ref_out (some r.source)) ∷ []

-- A replay with an identifier and a source that is made from its parts.
abbrev pub IsReplay : Replay → Type 0
IsReplay r = (id : Text) × (r.run_id ≡ some id) × (valid_id id ≡ true) × IsReference r.source

replay_named : (r : Replay) → named_among ("run_id" ∷ "source" ∷ []) (replay_members r) ≡ true
unfolding named_among ◌is◌ same
replay_named r = refl

replay_run : (r : Replay) → member "run_id" (replay_members r) ≡ string_value r.run_id
unfolding member ◌is◌ same ref_out
replay_run r = refl

replay_source : (r : Replay) → member "source" (replay_members r) ≡ ref_out (some r.source)
unfolding member ◌is◌ same ref_out
replay_source r = refl

replay_value-reads :
    (r : Replay) → IsReplay r → replay_in (object (written (replay_members r))) ≡ some r
unfolding replay_in
replay_value-reads r (id, e, v, i) =
    let ms = replay_members r in
    check-reads (only_keys ("run_id" ∷ "source" ∷ []) (written ms)) _ _
      (only_keys-written ("run_id" ∷ "source" ∷ []) ms (replay_named r))
      (bind-reads (id_in (field "run_id" (written ms))) _ id _
        (member_reads id_in "run_id" ms (some (string id)) (replay_run r ∙ ap string_value e)
          ∙ id_in-reads id v)
        (bind-reads (optional ref_in (field "source" (written ms))) _ (some r.source) _
          (member_reads (optional ref_in) "source" ms (ref_out (some r.source)) (replay_source r)
            ∙ ref_out-reads (some r.source) i)
          (ap (λ (x : Option Text). some (record { run_id = x; source = r.source })) (sym e))))

abbrev pub IsReplayOption : Option Replay → Type 0
IsReplayOption none = Unit
IsReplayOption (some r) = IsReplay r

pub replay_out-reads :
    (o : Option Replay)
    → IsReplayOption o
    → optional replay_in (or_undefined (replay_out o)) ≡ some o
unfolding replay_out
replay_out-reads none h = refl
replay_out-reads (some r) h =
    optional-reads replay_in (object (written (replay_members r))) r refl (replay_value-reads r h)

sourced :
    (run : Text) (source : Option Reference) (r : Replay)
    → IsReferenceOption source
    → some (record { run_id = some run; source = or_no_reference source }) ≡ some r
    → r.source.known ≡ true
    → IsReference r.source
sourced run none r i h known =
    let made : no_reference ≡ r.source = ground arith in absurd (ground arith)
sourced run (some x) r i h known =
    let made : x ≡ r.source = ground arith in subst IsReference made i

-- The source of a replay that was read is a reference, or it was missing.
pub replay_in-source :
    (v : Value) (r : Replay) → replay_in v ≡ some r → r.source.known ≡ true → IsReference r.source
unfolding replay_in
replay_in-source v r h known =
    let (ps, o, h1) = bind-some (object_of v) _ r h in
    let (keys, h2) = check-some (only_keys ("run_id" ∷ "source" ∷ []) ps) _ r h1 in
    let (run, i, h3) = bind-some (id_in (field "run_id" ps)) _ r h2 in
    let (source, e, h4) = bind-some (optional ref_in (field "source" ps)) _ r h3 in
    sourced run source r (optional-IsReference (field "source" ps) source e) h4 known
