-- ===== src/Http/Finishing.antt =====
-- A request is finished at most once (src/shared/http/lifecycle.ts).
use modular_hx_fastapi.Common.{
  All, Bool, Bool-cases, List, [], ap, arith, false, inl, inr, ltb, refl, subst, true, ℕ, ◌++◌, ◌+◌,
  ◌-◌, ◌<◌, ◌∙◌, ◌∷◌, ◌≡◌, ◌⊎◌,
}
use modular_hx_fastapi.Errors.{Failure, Result, Result-cases, err, ok}
use modular_hx_fastapi.Http.Policies.{Classification, Facts, classify_completion}
use modular_hx_fastapi.Http.Lifecycles.{Active, finish_active, finish_with}

-- Whether a call returned true.
abbrev pub counted : Result Bool Failure → ℕ
counted (ok true) = 1
counted (ok false) = 0
counted (err e) = 0

-- Calls of `finish` in order, each with its reading of the clock, and how many of them finished the request.
abbrev pub finish_all : List (Facts × ℕ) → Active → ℕ × Active
finish_all [] a = (0, a)
finish_all ((f, now) ∷ calls) a =
    let (r, a') = finish_active f now a in let (n, b) = finish_all calls a' in (counted r + n, b)

-- Why a call does not finish a request: it is finished, the clock reads less than its start, or the facts are
-- not a completion's.
abbrev pub IsRefused : Active → Facts × ℕ → Type 0
IsRefused a (f, now) =
    (a.done ≡ true) ⊎ (now < a.started) ⊎ ((e : Failure) × (classify_completion f ≡ err e))

-- What a call that finishes a request leaves: one more completion, of its own facts, their classification and
-- the time since the start.
pub record IsFinish (f : Facts) (now : ℕ) (a b : Active) : Type 0 where
  pub classification : Classification
  pub elapsed : ℕ
  pub not_done : a.done ≡ false
  pub classified : classify_completion f ≡ ok classification
  pub measured : a.started + elapsed ≡ now
  pub told :
      b.told
      ≡ a.told ++ record { facts = f; classification = classification; elapsed_ns = elapsed } ∷ []
  pub closed : b.done ≡ true

-- The calls before the one that finishes the request, that one, and those after it.
pub record FinishedOnce (calls : List (Facts × ℕ)) (a b : Active) : Type 0 where
  pub before : List (Facts × ℕ)
  pub facts : Facts
  pub now : ℕ
  pub after : List (Facts × ℕ)
  pub split : calls ≡ before ++ (facts, now) ∷ after
  pub refused : All (IsRefused a) before
  pub finished : IsFinish facts now a b

abbrev pub AtMostOnce : List (Facts × ℕ) → Active → ℕ × Active → Type 0
AtMostOnce calls a p =
    ((p.0 ≡ 0) × (p.1 ≡ a) × All (IsRefused a) calls) ⊎ ((p.0 ≡ 1) × FinishedOnce calls a p.1)

-- What one call does.
abbrev IsCall : Facts → ℕ → Active → Result Bool Failure × Active → Type 0
IsCall f now a p =
    ((counted p.0 ≡ 0) × (p.1 ≡ a) × IsRefused a (f, now))
    ⊎ ((counted p.0 ≡ 1) × IsFinish f now a p.1)

finish_with-IsCall :
    (f : Facts) (now : ℕ) (a : Active) (c : Classification)
    → classify_completion f ≡ ok c
    → IsCall f now a (finish_with f now a c)
unfolding finish_with
finish_with-IsCall f now a c k = elim (Bool-cases a.done) [
  | inl d ↦ inl (ground arith, ground arith, inl d)
  | inr d ↦ elim (Bool-cases (ltb now a.started)) [
    | inl n ↦ inl (ground arith, ground arith, inr (inl (ground arith)))
    | inr n ↦ inr (
      ground arith,
      record {
        classification = c;
        elapsed = now - a.started;
        not_done = d;
        classified = k;
        measured = ground arith;
        told = ground arith;
        closed = ground arith;
      },
    )
  ]
]

finish_active-IsCall : (f : Facts) (now : ℕ) (a : Active) → IsCall f now a (finish_active f now a)
unfolding finish_active
finish_active-IsCall f now a = elim (Result-cases (classify_completion f)) [
  | inl (c, e) ↦
      let same_call : finish_with f now a c ≡ finish_active f now a = ground arith in
      subst (IsCall f now a) same_call (finish_with-IsCall f now a c e)
  | inr (x, e) ↦
      let refused : (err x, a) ≡ finish_active f now a = ground arith in
      subst (IsCall f now a) refused (inl (refl, refl, inr (inr (x, e))))
]

never_again : (calls : List (Facts × ℕ)) (a : Active) → a.done ≡ true → finish_all calls a ≡ (0, a)
never_again [] a d = refl
never_again ((f, now) ∷ calls) a d = elim (finish_active-IsCall f now a) [
  | inl (none_now, same_state, w) ↦
      let rest : finish_all calls (finish_active f now a).1 ≡ (0, a) =
        ap (finish_all calls) same_state ∙ never_again calls a d in
      ground arith
  | inr (one_now, i) ↦ absurd (ground (arith, i.not_done))
]

one_more :
    (f : Facts) (now : ℕ) (calls : List (Facts × ℕ)) (a b : Active)
    → IsRefused a (f, now)
    → FinishedOnce calls a b
    → FinishedOnce ((f, now) ∷ calls) a b
one_more f now calls a b w o = record {
  before = (f, now) ∷ o.before;
  facts = o.facts;
  now = o.now;
  after = o.after;
  split = ap (λ (cs : List (Facts × ℕ)). (f, now) ∷ cs) o.split;
  refused = (w, o.refused);
  finished = o.finished;
}

-- However often and with whatever facts and readings `finish` is called, either every call is refused, because
-- the request was finished before, the clock reads less than the start or the facts are not a completion's, and
-- nothing changes; or exactly one call finishes the request, all before it are refused, and the outputs are
-- told one completion more: that call's facts, their classification and the time from the start to its reading.
pub finish_all-once :
    (calls : List (Facts × ℕ)) (a : Active) → AtMostOnce calls a (finish_all calls a)
finish_all-once [] a = inl (refl, refl, tt)
finish_all-once ((f, now) ∷ calls) a = elim (finish_active-IsCall f now a) [
  | inl (none_now, same_state, w) ↦
      let rest = finish_all-once calls a in
      let same_rest = ap (finish_all calls) same_state in
      elim rest [
        | inl (n, s, ws) ↦ inl (ground arith, ground arith, (w, ws))
        | inr (n, o) ↦
            inr
              (ground arith, subst (FinishedOnce _ a) (ground arith) (one_more f now calls a _ w o))
      ]
  | inr (one_now, i) ↦
      let rest = never_again calls (finish_active f now a).1 i.closed in
      inr (
        ground arith,
        record {
          before = [];
          facts = f;
          now = now;
          after = calls;
          split = refl;
          refused = tt;
          finished = subst (IsFinish f now a) (ground arith) i;
        },
      )
]
