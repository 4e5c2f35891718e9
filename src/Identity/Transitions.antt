-- ===== src/Identity/Transitions.antt =====
-- How transitions change a principal (src/modules/identity/domain/principal.ts).
use modular_hx_fastapi.Common.{
  Bool, Bool-cases, Num, Text, [], above, ap, arith, below, codes, equals, false, if◌then◌else◌,
  increment, inl, inr, is_safe_integer, is_self, less, nat, neg, non_integer, one_of, same,
  same_num, string, subst, suc, sym, true, zero, ◌∙◌, ◌∷◌, ◌≡◌,
}
use modular_hx_fastapi.Errors.{Result-cases, err, is_ok, ok}
use modular_hx_fastapi.Identifiers.{parse}
use modular_hx_fastapi.Identity.Principals.{
  Snapshot, activate, bad_name, bad_snapshot, bad_times, bad_version, last_ms, last_version,
  refused_transition, restore, suspend, transition,
}

-- What a successful transition has passed and made.
pub record IsTransition (s : Snapshot) (status : Text) (expected time : Num) (t : Snapshot)
    : Type 0 where
  pub was_proper : is_ok (restore s) ≡ true
  pub current : same_num expected s.version ≡ true
  pub changed : same status s.status ≡ false
  pub in_time :
      (is_safe_integer time ≡ true)
      × (less time s.updated_at_ms ≡ false)
      × (above time last_ms ≡ false)
  pub room : equals s.version last_version ≡ false
  pub made : t ≡ record s { status = status; version = increment s.version; updated_at_ms = time }

transition-IsTransition :
    (s : Snapshot) (status : Text) (expected time : Num) (t : Snapshot)
    → transition s status expected time ≡ ok t
    → IsTransition s status expected time t
unfolding transition
transition-IsTransition s status expected time t h = record {
  was_proper = ground arith;
  current = ground arith;
  changed = ground arith;
  in_time = ground arith;
  room = ground arith;
  made = ground arith;
}

restore-proper : (s : Snapshot) → is_ok (restore s) ≡ true → bad_snapshot s ≡ false
unfolding restore
restore-proper s h = elim (Bool-cases (bad_snapshot s)) [
  | inl b ↦ absurd (ground arith)
  | inr b ↦ b
]

proper_id : (s : Snapshot) → bad_snapshot s ≡ false → is_ok (parse (string s.id)) ≡ true
unfolding bad_snapshot
proper_id s h = ground arith

proper-restore : (s : Snapshot) → bad_snapshot s ≡ false → is_ok (restore s) ≡ true
unfolding restore
proper-restore s h =
    let p = proper_id s h in
    elim (Result-cases (parse (string s.id))) [
      | inl (id, e) ↦ ground arith
      | inr (f, e) ↦ absurd (ground arith)
    ]

less-ordered :
    (a b c : Num)
    → less b a ≡ false
    → less c b ≡ false
    → is_safe_integer a ≡ true
    → is_safe_integer b ≡ true
    → is_safe_integer c ≡ true
    → less c a ≡ false
less-ordered (nat a) (nat b) (nat c) h k x y z = ground arith
less-ordered (nat a) (nat b) (neg c) h k x y z = ground arith
less-ordered (nat a) (neg b) (nat c) h k x y z = ground arith
less-ordered (nat a) (neg b) (neg c) h k x y z = ground arith
less-ordered (neg a) (nat b) (nat c) h k x y z = ground arith
less-ordered (neg a) (nat b) (neg c) h k x y z = ground arith
less-ordered (neg a) (neg b) (nat c) h k x y z = ground arith
less-ordered (neg a) (neg b) (neg c) h k x y z = ground arith
less-ordered non_integer b c h k x y z = absurd (ground arith)
less-ordered (nat a) non_integer c h k x y z = absurd (ground arith)
less-ordered (nat a) (nat b) non_integer h k x y z = absurd (ground arith)
less-ordered (nat a) (neg b) non_integer h k x y z = absurd (ground arith)
less-ordered (neg a) non_integer c h k x y z = absurd (ground arith)
less-ordered (neg a) (nat b) non_integer h k x y z = absurd (ground arith)
less-ordered (neg a) (neg b) non_integer h k x y z = absurd (ground arith)

next_version :
    (v : Num)
    → bad_version v ≡ false
    → equals v last_version ≡ false
    → bad_version (increment v) ≡ false
next_version (nat n) h k = ground arith
next_version (neg n) h k = absurd (ground arith)
next_version non_integer h k = absurd (ground arith)

bad_times_intro :
    (created time : Num)
    → is_safe_integer created ≡ true
    → is_safe_integer time ≡ true
    → below created 0 ≡ false
    → less time created ≡ false
    → above time last_ms ≡ false
    → bad_times created time ≡ false
bad_times_intro created time a b c d e = rw (a, b, c, d, e)

next_times :
    (created updated time : Num)
    → bad_times created updated ≡ false
    → is_safe_integer time ≡ true
    → less time updated ≡ false
    → above time last_ms ≡ false
    → bad_times created time ≡ false
next_times created updated time h i l a =
    let c : is_safe_integer created ≡ true = ground arith in
    let u : is_safe_integer updated ≡ true = ground arith in
    let o : less updated created ≡ false = ground arith in
    let p : below created 0 ≡ false = ground arith in
    bad_times_intro created time c i p (less-ordered created updated time o l c u i) a

-- The parts of a proper snapshot, and how to build one.
abbrev Parts : Snapshot → Type 0
Parts s =
    (is_ok (parse (string s.id)) ≡ true)
    × (one_of s.kind ("human" ∷ "service" ∷ []) ≡ true)
    × (bad_times s.created_at_ms s.updated_at_ms ≡ false)
    × (bad_version s.version ≡ false)
    × (bad_name s.display_name ≡ false)

parts : (s : Snapshot) → bad_snapshot s ≡ false → Parts s
unfolding bad_snapshot
parts s h = (ground arith, ground arith, ground arith, ground arith, ground arith)

from_Parts :
    (s : Snapshot)
    → Parts s
    → one_of s.status ("active" ∷ "suspended" ∷ []) ≡ true
    → bad_snapshot s ≡ false
unfolding bad_snapshot
from_Parts s (a, b, c, d, e) f = rw (a, b, c, d, e, f)

next_proper :
    (s : Snapshot) (status : Text) (expected time : Num) (t : Snapshot)
    → one_of status ("active" ∷ "suspended" ∷ []) ≡ true
    → IsTransition s status expected time t
    → is_ok (restore t) ≡ true
next_proper s status expected time t known i =
    let (a, b, c, d, e) = parts s (restore-proper s i.was_proper) in
    let (safe, late, bound) = i.in_time in
    subst (λ (u : Snapshot). is_ok (restore u) ≡ true) (sym i.made)
      (proper-restore
        (record s { status = status; version = increment s.version; updated_at_ms = time })
        (from_Parts
          (record s { status = status; version = increment s.version; updated_at_ms = time })
          (
            a,
            b,
            next_times s.created_at_ms s.updated_at_ms time c safe late bound,
            next_version s.version d i.room,
            e,
          )
          known))

suspend-IsTransition :
    (s : Snapshot) (expected time : Num) (t : Snapshot)
    → suspend s expected time ≡ ok t
    → IsTransition s (codes "suspended") expected time t × (is_ok (restore t) ≡ true)
unfolding suspend
suspend-IsTransition s expected time t h =
    let i = transition-IsTransition s (codes "suspended") expected time t h in
    (i, next_proper s (codes "suspended") expected time t (ground (arith, is_self "suspended")) i)

activate-IsTransition :
    (s : Snapshot) (expected time : Num) (t : Snapshot)
    → activate s expected time ≡ ok t
    → IsTransition s (codes "active") expected time t × (is_ok (restore t) ≡ true)
unfolding activate
activate-IsTransition s expected time t h =
    let i = transition-IsTransition s (codes "active") expected time t h in
    (i, next_proper s (codes "active") expected time t (ground (arith, is_self "active")) i)

-- A suspension or an activation that succeeds needed a proper principal, its current version, another status,
-- a time not before the last update and a version below the last one; it changes the status, the version by
-- one and the time of the update only, and the principal that it makes can be restored.
pub changed-IsTransition :
    (suspends : Bool) (s : Snapshot) (expected time : Num) (t : Snapshot)
    → (if suspends then suspend s expected time else activate s expected time) ≡ ok t
    → IsTransition s (if suspends then codes "suspended" else codes "active") expected time t
      × (is_ok (restore t) ≡ true)
changed-IsTransition true s expected time t h = suspend-IsTransition s expected time t h
changed-IsTransition false s expected time t h = activate-IsTransition s expected time t h

moved_on : (v w : Num) → same_num v w ≡ true → same_num v (increment w) ≡ false
moved_on (nat a) (nat b) h = ground arith
moved_on (neg a) (neg zero) h = ground arith
moved_on (neg a) (neg (suc b)) h = ground arith
moved_on (nat a) (neg b) h = absurd (ground arith)
moved_on (neg a) (nat b) h = absurd (ground arith)
moved_on (nat a) non_integer h = absurd (ground arith)
moved_on (neg a) non_integer h = absurd (ground arith)
moved_on non_integer w h = absurd (ground arith)

transition-stale :
    (s : Snapshot) (status : Text) (expected time : Num)
    → is_ok (restore s) ≡ true
    → same_num expected s.version ≡ false
    → transition s status expected time ≡ err (refused_transition "identity.version_conflict")
unfolding transition
transition-stale s status expected time h k = rw (h, k)

-- After a suspension, an activation that expects the version from before it is refused with a version
-- conflict, whatever its time.
pub suspend-activate_conflict :
    (s t : Snapshot) (expected time later : Num)
    → suspend s expected time ≡ ok t
    → activate t expected later ≡ err (refused_transition "identity.version_conflict")
unfolding activate
suspend-activate_conflict s t expected time later h =
    let (i, p) = suspend-IsTransition s expected time t h in
    transition-stale t (codes "active") expected later p (
      ap (λ (u : Snapshot). same_num expected u.version) i.made
      ∙ moved_on expected s.version i.current)
