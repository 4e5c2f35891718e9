-- ===== src/Events/Restoring.antt =====
-- Work that was read is read again, and unchanged, from what it is written to (src/shared/events/index.ts).
use modular_hx_fastapi.Common.{
  Num, Option, Props, Text, Value, [], ap, arith, inl, inr, refl, same, some, string, subst, sym,
  true, ◌is◌, ◌∙◌, ◌∷◌, ◌≡◌,
}
use modular_hx_fastapi.Errors.{ok}
use modular_hx_fastapi.Provenance.{
  Attribution, Reference, Replay, Work, WorkContext, operation, restore_work, valid_operation,
}
use modular_hx_fastapi.Provenance.Validity.{
  HasId, IsWork, OnSome, RefersElsewhere, restore_work_iff,
}
use modular_hx_fastapi.Events.Works.{
  attribution_in, attribution_out, field, id_in, number_of, number_value, object_of, only_keys,
  optional, read_work, ref_in, ref_out, replay_in, replay_out, string_value, text_of, value_of,
  work_in, work_keys, work_out,
}
use modular_hx_fastapi.Events.Fields.{
  Members, bind-reads, bind-then, check-reads, check-some, member, named_among, only_keys-written,
  optional-some, value_of-some, written,
}
use modular_hx_fastapi.Events.References.{
  IsReferenceOption, id_in-reads, optional-IsReference, ref_out-reads,
}
use modular_hx_fastapi.Events.Attributions.{
  IsAttribution, IsReplayOption, attribution_in-IsAttribution, attribution_out-reads,
  replay_in-source, replay_out-reads,
}
use modular_hx_fastapi.Events.Reading.{member_reads, number_reads, text_reads}

abbrev work_members : Work → Members
work_members w =
    ("work_id", string_value w.work_id)
    ∷ ("correlation_id", string_value w.correlation_id)
    ∷ ("correlation_source", some (string w.correlation_source))
    ∷ ("operation", some (string w.operation))
    ∷ ("attribution", some (attribution_out w.attribution))
    ∷ ("causation", ref_out w.causation)
    ∷ ("origin", string_value w.origin)
    ∷ ("depth", number_value w.depth)
    ∷ ("replay", replay_out w.replay)
    ∷ []

-- Work whose parts were read and that the validator accepts.
pub record IsReadWork (w : Work) : Type 0 where
  pub valid : IsWork w
  pub attributed : IsAttribution w.attribution
  pub caused : IsReferenceOption w.causation
  pub replayed : IsReplayOption w.replay

module _ (w : Work) where
  work_named : named_among work_keys (work_members w) ≡ true
  unfolding named_among ◌is◌ same
  work_named = refl

  member_work_id : member "work_id" (work_members w) ≡ string_value w.work_id
  unfolding member ◌is◌ same
  member_work_id = refl

  member_correlation : member "correlation_id" (work_members w) ≡ string_value w.correlation_id
  unfolding member ◌is◌ same
  member_correlation = refl

  member_source : member "correlation_source" (work_members w) ≡ some (string w.correlation_source)
  unfolding member ◌is◌ same
  member_source = refl

  member_operation : member "operation" (work_members w) ≡ some (string w.operation)
  unfolding member ◌is◌ same
  member_operation = refl

  member_attribution : member "attribution" (work_members w) ≡ some (attribution_out w.attribution)
  unfolding member ◌is◌ same
  member_attribution = refl

  member_causation : member "causation" (work_members w) ≡ ref_out w.causation
  unfolding member ◌is◌ same
  member_causation = refl

  member_origin : member "origin" (work_members w) ≡ string_value w.origin
  unfolding member ◌is◌ same
  member_origin = refl

  member_depth : member "depth" (work_members w) ≡ number_value w.depth
  unfolding member ◌is◌ same
  member_depth = refl

  member_replay : member "replay" (work_members w) ≡ replay_out w.replay
  unfolding member ◌is◌ same
  member_replay = refl

operation-same : (s op : Text) → operation s ≡ ok op → s ≡ op
unfolding operation
operation-same s op h = ground arith

operation-valid : (s : Text) → valid_operation s ≡ true → value_of (operation s) ≡ some s
unfolding operation
operation-valid s h = ground arith

replay-IsReplayOption :
    (v : Value) (own : Option Text) (o : Option Replay)
    → optional replay_in v ≡ some o
    → OnSome (λ r. HasId r.run_id × RefersElsewhere own r.source) o
    → IsReplayOption o
replay-IsReplayOption v own o h e = elim (optional-some replay_in v o h) [
  | inl n ↦ subst IsReplayOption (sym n) tt
  | inr (r, n, k) ↦
      let (run, elsewhere) =
        subst (OnSome (λ (x : Replay). HasId x.run_id × RefersElsewhere own x.source)) n e in
      let (id, i, v_id) = run in
      subst IsReplayOption (sym n) (id, i, v_id, replay_in-source v r k elsewhere.0)
]

restored_lem :
    (w : Work) (id correlated : Text)
    → IsWork w
    → w.work_id ≡ some id
    → w.correlation_id ≡ some correlated
    → value_of (restore_work (record w { work_id = some id; correlation_id = some correlated }))
      ≡ some (record { known = true; snapshot = w })
restored_lem w id correlated v e k =
    ap
      (λ (x : Option Text).
        value_of (restore_work (record w { work_id = x; correlation_id = some correlated })))
      (sym e)
    ∙ ap (λ (x : Option Text). value_of (restore_work (record w { correlation_id = x }))) (sym k)
    ∙ ap value_of ((restore_work_iff w (record { known = true; snapshot = w })).1 (v, refl))

pub work_out-reads :
    (w : Work)
    → IsReadWork w
    → work_in (work_out (record { known = true; snapshot = w }))
      ≡ some (record { known = true; snapshot = w })
unfolding work_in work_out
work_out-reads w i =
    let ms = work_members w in
    let ps = written ms in
    let (id, e, v_id) = i.valid.work in
    let (correlated, k, v_correlated) = i.valid.correlation in
    check-reads (only_keys work_keys ps) _ _ (only_keys-written work_keys ms (work_named w)) (
      bind-reads (attribution_in (field "attribution" ps)) _ w.attribution _
        (member_reads attribution_in "attribution" ms (some (attribution_out w.attribution))
            (member_attribution w)
          ∙ attribution_out-reads w.attribution i.attributed)
        (bind-reads (optional replay_in (field "replay" ps)) _ w.replay _
          (member_reads (optional replay_in) "replay" ms (replay_out w.replay) (member_replay w)
            ∙ replay_out-reads w.replay i.replayed)
          (bind-reads (id_in (field "work_id" ps)) _ id _
            (member_reads id_in "work_id" ms (some (string id))
                (member_work_id w ∙ ap string_value e)
              ∙ id_in-reads id v_id)
            (bind-reads (id_in (field "correlation_id" ps)) _ correlated _
              (member_reads id_in "correlation_id" ms (some (string correlated))
                  (member_correlation w ∙ ap string_value k)
                ∙ id_in-reads correlated v_correlated)
              (bind-reads (text_of (field "correlation_source" ps)) _ w.correlation_source _
                (member_reads text_of "correlation_source" ms (some (string w.correlation_source))
                  (member_source w))
                (bind-reads (text_of (field "operation" ps)) _ w.operation _
                  (member_reads text_of "operation" ms (some (string w.operation))
                    (member_operation w))
                  (bind-reads (value_of (operation w.operation)) _ w.operation _
                    (operation-valid w.operation i.valid.operation)
                    (bind-reads (optional ref_in (field "causation" ps)) _ w.causation _
                      (member_reads (optional ref_in) "causation" ms (ref_out w.causation)
                          (member_causation w)
                        ∙ ref_out-reads w.causation i.caused)
                      (bind-reads (optional text_of (field "origin" ps)) _ w.origin _
                        (member_reads (optional text_of) "origin" ms (string_value w.origin)
                            (member_origin w)
                          ∙ text_reads w.origin)
                        (bind-reads (optional number_of (field "depth" ps)) _ w.depth _
                          (member_reads (optional number_of) "depth" ms (number_value w.depth)
                              (member_depth w)
                            ∙ number_reads w.depth)
                          (restored_lem w id correlated i.valid e k)))))))))))

-- What was read makes the work.
read_parts :
    (ps : Props) (attributed : Attribution) (replayed : Option Replay)
    (id correlated source op : Text) (causation : Option Reference) (origin : Option Text)
    (depth : Option Num) (c : WorkContext)
    → attribution_in (field "attribution" ps) ≡ some attributed
    → optional replay_in (field "replay" ps) ≡ some replayed
    → optional ref_in (field "causation" ps) ≡ some causation
    → restore_work (record {
      work_id = some id;
      correlation_id = some correlated;
      correlation_source = source;
      causation = causation;
      origin = origin;
      operation = op;
      attribution = attributed;
      depth = depth;
      replay = replayed;
    })
      ≡ ok c
    → (c ≡ record { known = true; snapshot = c.snapshot }) × IsReadWork c.snapshot
read_parts ps attributed replayed id correlated source op causation origin depth c a r u h =
    let w : Work = record {
      work_id = some id;
      correlation_id = some correlated;
      correlation_source = source;
      causation = causation;
      origin = origin;
      operation = op;
      attribution = attributed;
      depth = depth;
      replay = replayed;
    } in
    let (valid, e) = (restore_work_iff w c).0 h in
    let parts : IsReadWork w = record {
      valid = valid;
      attributed = attribution_in-IsAttribution (field "attribution" ps) attributed a;
      caused = optional-IsReference (field "causation" ps) causation u;
      replayed = replay-IsReplayOption (field "replay" ps) (some id) replayed r valid.replay;
    } in
    subst
      (λ (x : WorkContext).
        (x ≡ record { known = true; snapshot = x.snapshot }) × IsReadWork x.snapshot)
      (sym e) (refl, parts)

work_props-IsReadWork :
    (ps : Props) (c : WorkContext)
    → read_work ps ≡ some c
    → (c ≡ record { known = true; snapshot = c.snapshot }) × IsReadWork c.snapshot
work_props-IsReadWork ps c h =
    let P : Type 0 = (c ≡ record { known = true; snapshot = c.snapshot }) × IsReadWork c.snapshot in
    bind-then P (attribution_in (field "attribution" ps)) h (λ attributed a h3.
      bind-then P (optional replay_in (field "replay" ps)) h3 (λ replayed r h4.
        bind-then P (id_in (field "work_id" ps)) h4 (λ id i h5.
          bind-then P (id_in (field "correlation_id" ps)) h5 (λ correlated k h6.
            bind-then P (text_of (field "correlation_source" ps)) h6 (λ source s h7.
              bind-then P (text_of (field "operation" ps)) h7 (λ raw t h8.
                bind-then P (value_of (operation raw)) h8 (λ op p h9.
                  bind-then P (optional ref_in (field "causation" ps)) h9 (λ causation u h10.
                    bind-then P (optional text_of (field "origin" ps)) h10 (λ origin n h11.
                      bind-then P (optional number_of (field "depth" ps)) h11 (λ depth d h12.
                        read_parts ps attributed replayed id correlated source op causation origin
                          depth c a r u (value_of-some _ c h12)))))))))))

pub work_in-IsReadWork :
    (v : Value) (c : WorkContext)
    → work_in v ≡ some c
    → (c ≡ record { known = true; snapshot = c.snapshot }) × IsReadWork c.snapshot
unfolding work_in
work_in-IsReadWork v c h =
    let P : Type 0 = (c ≡ record { known = true; snapshot = c.snapshot }) × IsReadWork c.snapshot in
    bind-then P (object_of v) h
      (λ ps o h1. work_props-IsReadWork ps c (check-some (only_keys work_keys ps) _ c h1).1)
