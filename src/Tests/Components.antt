-- ===== src/Tests/Components.antt =====
-- The logger, the environment reader, reports, principals and pages on concrete inputs.
use modular_hx_fastapi.Common.{
  All, Text, [], all, arith, array, characters, codes, cons, false, has_control, has_lone_surrogate,
  length, nat, nil, number, refl, same, some, string, true, ◌is◌, ◌∷◌, ◌≡◌, ◌≢◌,
}
use modular_hx_fastapi.Errors.{Fields, err, is_ok, ok}
use modular_hx_fastapi.Identifiers.{matches, parse}
use modular_hx_fastapi.Logger.{
  Delivery, Setup, close, create, finished, flush, flushed, pump, push, refuses, write,
}
use modular_hx_fastapi.Logger.Invariant.{IsDelivery}
use modular_hx_fastapi.Logger.Accounting.{Reached, Reached-IsDelivery, accepted, created}
use modular_hx_fastapi.Logger.Draining.{close-drains, pending, settle_all}
use modular_hx_fastapi.Validation.{new_report, text}
use modular_hx_fastapi.Validation.Bounded.{Agrees, add_all, add_all-bounded, distinct_issues}
use modular_hx_fastapi.Identity.{
  Snapshot, activate, bad_snapshot, refused_transition, restore, suspend, transition,
}
use modular_hx_fastapi.Identity.Transitions.{
  IsTransition, changed-IsTransition, suspend-activate_conflict,
}
use modular_hx_fastapi.Pagination.{
  Codec, Page, decode, encode, invalid_pagination, is_wire_unit, valid_part, window,
}
use modular_hx_fastapi.Pagination.Paging.{
  IsBase64Url, IsCodec, IsPage, decode-encode, window-IsPage,
}

-- A queue of one line, with as many bytes as units.
abbrev setup : Setup
setup = record { capacity = 1; max_bytes = 10; noop = false; byte_length = λ t. length t }

abbrev line_a : Text
line_a = codes "a"

abbrev line_b : Text
line_b = codes "b"

not_refused_a : refuses setup create line_a ≡ false
unfolding create
not_refused_a = refl

not_refused_b : refuses setup (write setup line_a create) line_b ≡ false
unfolding create write pump push
not_refused_b = refl

-- Two lines are written, and the delivery is about to be closed.
two_lines : Reached setup (line_a ∷ line_b ∷ []) (write setup line_b (write setup line_a create))
two_lines = accepted line_b not_refused_b (accepted line_a not_refused_a created)

Reached-IsDelivery_example :
    IsDelivery setup (line_a ∷ line_b ∷ []) (write setup line_b (write setup line_a create))
Reached-IsDelivery_example =
    Reached-IsDelivery setup (line_a ∷ line_b ∷ []) (write setup line_b (write setup line_a create))
      two_lines

two_pending :
    length (true ∷ false ∷ [])
    ≡ pending (close setup (write setup line_b (write setup line_a create)))
unfolding create write pump push close flush
two_pending = refl

abbrev drained_state : Delivery
drained_state = flushed true (
    settle_all setup (true ∷ false ∷ [])
      (close setup (write setup line_b (write setup line_a create))))

close-drains_example :
    (drained_state.phase ≡ finished) × (drained_state.handed ≡ line_a ∷ line_b ∷ [])
close-drains_example =
    close-drains setup (true ∷ false ∷ []) true (line_a ∷ line_b ∷ [])
      (write setup line_b (write setup line_a create)) two_lines two_pending

abbrev some_calls : Fields
some_calls =
    (codes "name", codes "required")
    ∷ (codes "name", codes "too_long")
    ∷ (codes "no blanks", codes "x")
    ∷ []

add_all-bounded_example : Agrees (distinct_issues [] some_calls) (add_all some_calls new_report)
add_all-bounded_example = add_all-bounded some_calls

abbrev ada : Snapshot
ada = record {
  id = codes "018bcfe5-6800-7000-8000-000000000001";
  kind = codes "human";
  display_name = codes "Ada";
  status = codes "active";
  created_at_ms = nat 5;
  updated_at_ms = nat 5;
  version = nat 1;
}

abbrev suspended_ada : Snapshot
suspended_ada = record ada { status = codes "suspended"; updated_at_ms = nat 9; version = nat 2 }

abbrev active_ada : Snapshot
active_ada = record ada { updated_at_ms = nat 10; version = nat 3 }

did_suspend : suspend ada (nat 1) (nat 9) ≡ ok suspended_ada
unfolding suspend transition restore bad_snapshot parse matches same ◌is◌ text has_lone_surrogate
    characters has_control
did_suspend = refl

did_activate : activate suspended_ada (nat 2) (nat 10) ≡ ok active_ada
unfolding activate transition restore bad_snapshot parse matches same ◌is◌ text has_lone_surrogate
    characters has_control
did_activate = refl

changed-IsTransition_example :
    IsTransition suspended_ada (codes "active") (nat 2) (nat 10) active_ada
    × (is_ok (restore active_ada) ≡ true)
changed-IsTransition_example =
    changed-IsTransition false suspended_ada (nat 2) (nat 10) active_ada did_activate

suspend-activate_conflict_example :
    activate suspended_ada (nat 1) (nat 10) ≡ err (refused_transition "identity.version_conflict")
suspend-activate_conflict_example =
    suspend-activate_conflict ada suspended_ada (nat 1) (nat 9) (nat 10) did_suspend

-- A codec that knows one cursor.
abbrev wire_ab : Text
wire_ab = codes "WzEsImEiLCJiIl0"

abbrev codec : Codec
codec = record {
  byte_length = λ t. length t;
  to_wire = λ s p. wire_ab;
  normal_wire = λ w. w;
  from_wire =
      λ w. some (array (cons (number (nat 1)) (cons (string line_a) (cons (string line_b) nil))));
}

in_alphabet : (w : Text) → all is_wire_unit w ≡ true → All IsBase64Url w
in_alphabet [] h = tt
in_alphabet (c ∷ w) h = (ground arith, in_alphabet w (ground arith))

codec-IsCodec : IsCodec codec line_a line_b
codec-IsCodec = record {
  alphabet = in_alphabet wire_ab refl;
  not_empty = omega arith;
  normal = refl;
  parsed = refl;
}

did_encode : encode codec line_a line_b ≡ ok wire_ab
unfolding encode valid_part has_lone_surrogate characters has_control
did_encode = refl

decode-encode_example :
    (decode codec wire_ab line_a ≡ ok line_b)
    × (line_b ≢ line_a → decode codec wire_ab line_b ≡ err invalid_pagination)
decode-encode_example =
    decode-encode codec line_a line_b wire_ab line_b codec-IsCodec did_encode (omega arith)

abbrev page_one : Page Text
page_one = record { items = line_b ∷ []; has_more = true; next_cursor = some wire_ab }

did_window : window codec (line_b ∷ line_a ∷ []) (nat 1) line_a (λ t. t) ≡ ok page_one
unfolding window encode valid_part has_lone_surrogate characters has_control
did_window = refl

window-IsPage_example : IsPage codec (line_b ∷ line_a ∷ []) (nat 1) line_a (λ t. t) page_one
window-IsPage_example =
    window-IsPage codec (line_b ∷ line_a ∷ []) (nat 1) line_a (λ t. t) page_one did_window
