-- ===== src/Tests/Provenance.antt =====
-- Scopes of src/shared/provenance on concrete inputs.
use modular_hx_fastapi.Common.{
  Text, [], all, arith, codes, nat, none, not, refl, same, some, suc, true, zero, ℕ, ◌is◌, ◌↔◌, ◌∷◌,
  ◌≡◌,
}
use modular_hx_fastapi.Errors.{Failure, Result, is_ok, ok}
use modular_hx_fastapi.Identifiers.{matches, parse}
use modular_hx_fastapi.Provenance.{snapshot as snapshot_of}
use modular_hx_fastapi.Provenance.{
  Actor, Attribution, Hints, IncomingResult, Link, RootSpec, Scope, ScopeSnapshot, StepSpec, Work,
  WorkContext, bad_link, check_causation, check_depth, check_replay, checked, child, child_cause,
  child_work, continued, emit, enter, fill_in, finish, inspect_incoming, keep_links, link_key,
  link_set, named_actor, next_depth, normalized_time, open_root, reference, restore_scope,
  restore_work, retry, root_work, valid_id, valid_operation, validate_work,
}
use modular_hx_fastapi.Provenance.Validity.{IsWork, restore_work_iff}
use modular_hx_fastapi.Provenance.Execution.{IsScope, restore_scope_iff}
use modular_hx_fastapi.Provenance.Descent.{IsChild, IsRetry, child-IsChild, retry-IsRetry}
use modular_hx_fastapi.Provenance.Entry.{
  Entered, IsEntry, StartsChain, enter-Entered, open_root-StartsChain,
}
use modular_hx_fastapi.Provenance.Inspection.{Inspected, inspect_incoming-Inspected}
use modular_hx_fastapi.Provenance.References.{IsMade}
use modular_hx_fastapi.Provenance.LinkSets.{IsLinkSet, link_set-IsLinkSet, link_set-total}

abbrev first_id : Text
first_id = codes "018bcfe5-6800-7000-8000-000000000001"

abbrev second_id : Text
second_id = codes "018bcfe5-6800-7000-8000-000000000002"

abbrev third_id : Text
third_id = codes "018bcfe5-6800-7000-8000-000000000003"

-- A generator that counts.
abbrev counting : ℕ → Result Text Failure × ℕ
counting zero = (ok third_id, 1)
counting (suc n) = (ok second_id, 0)

abbrev service : Actor
service = record { known = true; kind = codes "service"; identity = some (codes "mailer") }

abbrev no_attribution : Attribution
no_attribution = record {
  known = true;
  spec = record { initiator = none; on_behalf_of = none; tenant = none };
}

abbrev local_work : Work
local_work = record {
  work_id = some second_id;
  correlation_id = some first_id;
  correlation_source = codes "local";
  causation = none;
  origin = some (codes "request");
  operation = codes "mail.send";
  attribution = no_attribution;
  depth = some (nat 0);
  replay = none;
}

abbrev local_snapshot : ScopeSnapshot
local_snapshot = record {
  work = local_work;
  scope_id = first_id;
  started_at = nat 1700000000000;
  executor = some service;
  attempt = nat 1;
  previous_attempt = none;
}

abbrev local_scope : Scope
local_scope = record {
  known = true;
  work_context = record { known = true; snapshot = local_work };
  scope_id = first_id;
  executor = some service;
  attempt = nat 1;
  previous_attempt = none;
  started = 1700000000000;
}

restored : restore_scope local_snapshot ≡ ok local_scope
unfolding restore_scope restore_work validate_work check_causation check_depth check_replay
    valid_operation valid_id parse matches same ◌is◌ named_actor normalized_time snapshot_of
restored = refl

local_scope-IsScope : IsScope local_scope
local_scope-IsScope = ((restore_scope_iff local_snapshot local_scope).0 restored).0

restore_scope_iff_example :
    (restore_scope local_snapshot ≡ ok local_scope)
    ↔ (IsScope local_scope × (snapshot_of local_scope ≡ local_snapshot))
restore_scope_iff_example = restore_scope_iff local_snapshot local_scope

abbrev local_context : WorkContext
local_context = record { known = true; snapshot = local_work }

restore_work_iff_example :
    (restore_work local_work ≡ ok local_context)
    ↔ (IsWork local_work × (local_context ≡ record { known = true; snapshot = local_work }))
restore_work_iff_example = restore_work_iff local_work local_context

abbrev step : StepSpec
step = record {
  work_id = none;
  operation = codes "mail.retry";
  executor = some service;
  cause = none;
}

abbrev child_scope : Scope
child_scope = record {
  known = true;
  work_context = record {
    known = true;
    snapshot = record local_work {
      work_id = some third_id;
      operation = codes "mail.retry";
      depth = some (nat 1);
      causation = some (record { known = true; kind = codes "scope"; id = first_id });
    };
  };
  scope_id = third_id;
  executor = some service;
  attempt = nat 1;
  previous_attempt = none;
  started = 1700000000001;
}

made_child : (child counting (nat 1700000000001) local_scope step 0).0 ≡ ok child_scope
unfolding restore_scope restore_work validate_work check_causation check_depth check_replay
    valid_operation valid_id parse matches same ◌is◌ named_actor normalized_time snapshot_of emit
    checked finish fill_in child child_work next_depth child_cause reference retry open_root
    root_work enter
made_child = refl

child-IsChild_example : IsChild counting (nat 1700000000001) local_scope step child_scope
child-IsChild_example =
    child-IsChild counting (nat 1700000000001) local_scope step 0 child_scope local_scope-IsScope
      made_child

abbrev retried_scope : Scope
retried_scope = record local_scope {
  scope_id = third_id;
  attempt = nat 2;
  previous_attempt = some first_id;
  started = 1700000000001;
}

made_retry : (retry counting (nat 1700000000001) local_scope (some service) 0).0 ≡ ok retried_scope
unfolding restore_scope restore_work validate_work check_causation check_depth check_replay
    valid_operation valid_id parse matches same ◌is◌ named_actor normalized_time snapshot_of emit
    checked finish fill_in child child_work next_depth child_cause reference retry open_root
    root_work enter
made_retry = refl

retry-IsRetry_example :
    IsRetry counting (nat 1700000000001) local_scope (some service) retried_scope
retry-IsRetry_example =
    retry-IsRetry counting (nat 1700000000001) local_scope (some service) 0 retried_scope
      local_scope-IsScope made_retry

abbrev root : RootSpec
root = record {
  work_id = none;
  origin = codes "request";
  operation = codes "mail.send";
  attribution = no_attribution;
  executor = some service;
}

abbrev root_scope : Scope
root_scope = record {
  known = true;
  work_context = record {
    known = true;
    snapshot = record local_work { work_id = some third_id; correlation_id = some third_id };
  };
  scope_id = third_id;
  executor = some service;
  attempt = nat 1;
  previous_attempt = none;
  started = 1700000000001;
}

opened : (open_root counting (nat 1700000000001) root 0).0 ≡ ok root_scope
unfolding restore_scope restore_work validate_work check_causation check_depth check_replay
    valid_operation valid_id parse matches same ◌is◌ named_actor normalized_time snapshot_of emit
    checked finish fill_in child child_work next_depth child_cause reference retry open_root
    root_work enter
opened = refl

open_root-StartsChain_example :
    IsEntry counting (nat 1700000000001) root root_scope
    × StartsChain counting (nat 1700000000001) (codes "request") root_scope
open_root-StartsChain_example =
    open_root-StartsChain counting (nat 1700000000001) root 0 root_scope opened

abbrev continuing : IncomingResult
continuing = record {
  known = true;
  decision = continued;
  correlation = some first_id;
  cause = none;
  issues = [];
}

abbrev entered_scope : Scope
entered_scope = record root_scope {
  work_context = record {
    known = true;
    snapshot = record local_work {
      work_id = some third_id;
      correlation_source = codes "external";
      origin = none;
      depth = none;
    };
  };
}

did_enter : (enter counting (nat 1700000000001) root continuing 0).0 ≡ ok entered_scope
unfolding restore_scope restore_work validate_work check_causation check_depth check_replay
    valid_operation valid_id parse matches same ◌is◌ named_actor normalized_time snapshot_of emit
    checked finish fill_in child child_work next_depth child_cause reference retry open_root
    root_work enter
did_enter = refl

enter-Entered_example :
    IsEntry counting (nat 1700000000001) root entered_scope
    × Entered counting
        (nat 1700000000001)
        (codes "request")
        continued
        (some first_id)
        none
        entered_scope
enter-Entered_example =
    enter-Entered counting (nat 1700000000001) root continuing 0 entered_scope did_enter

abbrev hints : Hints
hints = record {
  correlation = some first_id;
  causation = some (record { kind = codes "event"; id = second_id });
}

inspect_incoming-Inspected_example : Inspected hints (inspect_incoming hints)
inspect_incoming-Inspected_example = inspect_incoming-Inspected hints

abbrev input_link : Link
input_link = record {
  relation = codes "input";
  target = record { known = true; kind = codes "event"; id = second_id };
}

linked : link_set (input_link ∷ input_link ∷ []) ≡ ok (input_link ∷ [])
unfolding link_set keep_links link_key same ◌is◌
linked = refl

input_link-IsMade : IsMade input_link
unfolding reference valid_id parse matches same ◌is◌
input_link-IsMade h = refl

link_set-IsLinkSet_example : IsLinkSet (input_link ∷ input_link ∷ []) (input_link ∷ [])
link_set-IsLinkSet_example =
    link_set-IsLinkSet (input_link ∷ input_link ∷ []) (input_link ∷ [])
      (input_link-IsMade, (input_link-IsMade, tt)) linked

proper_links : all (λ l. not (bad_link l)) (input_link ∷ input_link ∷ []) ≡ true
unfolding same ◌is◌
proper_links = refl

link_set-total_example : is_ok (link_set (input_link ∷ input_link ∷ [])) ≡ true
link_set-total_example = link_set-total (input_link ∷ input_link ∷ []) (omega arith) proper_links
