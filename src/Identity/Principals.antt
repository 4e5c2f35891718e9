-- ===== src/Identity/Principals.antt =====
-- src/modules/identity/domain/principal.ts: principals and their transitions. A principal is its private
-- state; kind and status are texts, as a snapshot may come from outside the type system.
use modular_hx_fastapi.Common.{
  Bool, Num, String, Text, [], above, below, codes, equals, false, has_control, increment,
  is_safe_integer, less, nat, not, one_of, same, same_num, string, true, ℕ, ◌||◌, ◌∷◌,
}
use modular_hx_fastapi.Errors.{
  Failure, Result, conflict, err, invalid, is_ok, ok, refuse_if, typed_failure, ◌>>◌,
}
use modular_hx_fastapi.Identifiers.{parse}
use modular_hx_fastapi.Validation.{text}

pub record Snapshot : Type 0 where
  pub id : Text
  pub kind : Text
  pub display_name : Text
  pub status : Text
  pub created_at_ms : Num
  pub updated_at_ms : Num
  pub version : Num

abbrev pub invalid_principal : Failure
invalid_principal = typed_failure invalid "invalid principal" "identity.principal_invalid"

abbrev pub refused_transition : String → Failure
refused_transition type = typed_failure conflict "principal transition refused" type

abbrev pub last_ms : ℕ
last_ms = 253402300799999

abbrev pub last_version : ℕ
last_version = 2147483647

abbrev pub bad_times : Num → Num → Bool
bad_times created updated =
    not (is_safe_integer created)
    || not (is_safe_integer updated)
    || below created 0
    || less updated created
    || above updated last_ms

abbrev pub bad_version : Num → Bool
bad_version v = not (is_safe_integer v) || below v 1 || above v last_version

abbrev pub bad_name : Text → Bool
bad_name name = not (is_ok (text name (nat 1) (nat 100) true)) || has_control name

-- The condition under which `Principal.restore` refuses.
unfoldable pub bad_snapshot : Snapshot → Bool
bad_snapshot s =
    not (is_ok (parse (string s.id)))
    || not (one_of s.kind ("human" ∷ "service" ∷ []))
    || not (one_of s.status ("active" ∷ "suspended" ∷ []))
    || bad_times s.created_at_ms s.updated_at_ms
    || bad_version s.version
    || bad_name s.display_name

abbrev restored : Snapshot → Result Text Failure → Result Snapshot Failure
restored s (ok id) = ok (record s { id = id })
restored s (err f) = err invalid_principal

-- `Principal.restore`.
unfoldable pub restore : Snapshot → Result Snapshot Failure
restore s = elim (bad_snapshot s) [
  | true ↦ err invalid_principal
  | false ↦ restored s (parse (string s.id))
]

unfoldable pub register : Text → Text → Text → Num → Result Snapshot Failure
register id kind display_name time = restore (record {
  id = id;
  kind = kind;
  display_name = display_name;
  status = codes "active";
  created_at_ms = time;
  updated_at_ms = time;
  version = nat 1;
})

unfoldable pub transition : Snapshot → Text → Num → Num → Result Snapshot Failure
transition s status expected time = do
  refuse_if (not (is_ok (restore s))) invalid_principal
  refuse_if (not (same_num expected s.version)) (refused_transition "identity.version_conflict")
  refuse_if (same status s.status) (refused_transition "identity.state_conflict")
  refuse_if (not (is_safe_integer time) || less time s.updated_at_ms || above time last_ms)
      invalid_principal
  refuse_if (equals s.version last_version) (refused_transition "identity.version_exhausted")
  ok (record s { status = status; version = increment s.version; updated_at_ms = time })

unfoldable pub suspend : Snapshot → Num → Num → Result Snapshot Failure
suspend s expected time = transition s (codes "suspended") expected time

unfoldable pub activate : Snapshot → Num → Num → Result Snapshot Failure
activate s expected time = transition s (codes "active") expected time
