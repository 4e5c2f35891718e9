-- ===== src/Postgres/Outcomes.antt =====
-- What a call of `transaction` may answer, in every order of its events (src/shared/postgres/index.ts).
use modular_hx_fastapi.Common.{
  Bool, Bool-cases, Option, ap, arith, false, inl, inr, none, refl, some, subst, suc, sym, true, ℕ,
  ◌∙◌, ◌≡◌, ◌⊎◌,
}
use modular_hx_fastapi.Errors.{Failure, Result, err, ok}
use modular_hx_fastapi.Postgres.Mapping.{canceled_operation, uncertain}
use modular_hx_fastapi.Postgres.Transactions.{
  Phase, Transaction, committing, conclude, connected_state, ended, opened, or_first, release,
  rolling_back, stop, stop_failure,
}

abbrev pub one_if : Bool → ℕ
one_if true = 1
one_if false = 0

abbrev pub is_ended : Phase → Bool
is_ended ended = true
is_ended _ = false

abbrev pub is_rolling_back : Phase → Bool
is_rolling_back rolling_back = true
is_rolling_back _ = false

abbrev pub is_commit_phase : Phase → Bool
is_commit_phase committing = true
is_commit_phase _ = false

abbrev pub answered {ℓ} : {A : Type ℓ} → Option A → Bool
answered none = false
answered (some a) = true

first_stop : (o : Option Failure) (f g : Failure) → or_first o f ≡ some g → (o ≡ some g) ⊎ (f ≡ g)
first_stop none f g h = inr (ground arith)
first_stop (some k) f g h = inl h

stop_uncertain : (c caller : Bool) → c ≡ true → stop_failure c caller ≡ uncertain
stop_uncertain true caller h = refl
stop_uncertain false caller h = absurd (ground arith)

module _ {A : Type 0} where
  abbrev pub is_success : Option (Result A Failure) → Bool
  is_success (some (ok a)) = true
  is_success _ = false

  pub record IsTransaction (t : Transaction A) : Type 0 where
    -- The client is given back at most once, and has been when the operation is over.
    pub once : t.releases ≡ one_if t.released
    pub given_back : is_ended t.phase ≡ true → (t.released ≡ true) × (answered t.answer ≡ true)
    -- At most one COMMIT is sent, and none after the call was stopped before it.
    pub commit_once : t.commits ≡ one_if t.is_committing
    pub sent : is_commit_phase t.phase ≡ true → t.is_committing ≡ true
    pub stopped_first : (f : Failure) → t.stopped ≡ some f → t.is_committing ≡ true → f ≡ uncertain
    pub early : is_ended t.phase ≡ false → is_commit_phase t.phase ≡ false → t.is_committing ≡ false
    -- The callback's value: a success behind COMMIT, a failure behind ROLLBACK.
    pub succeeded : t.is_committing ≡ true → is_success t.body ≡ true
    pub refused : is_rolling_back t.phase ≡ true → is_success t.body ≡ false
    -- A success is answered only if COMMIT was, and it is the callback's.
    pub honest : (a : A) → t.answer ≡ some (ok a) → (t.body ≡ some (ok a)) × (t.confirmed ≡ true)
    pub confirms : t.confirmed ≡ true → t.is_committing ≡ true

  or_first-answered :
      (o : Option (Result A Failure)) (r : Result A Failure) → answered (or_first o r) ≡ true
  or_first-answered none r = refl
  or_first-answered (some q) r = refl

  -- A success that is answered was answered before, or is the new one.
  or_first-success :
      (o : Option (Result A Failure)) (r : Result A Failure) (a : A)
      → or_first o r ≡ some (ok a)
      → (o ≡ some (ok a)) ⊎ (r ≡ ok a)
  or_first-success none r a h = inr (ground arith)
  or_first-success (some q) r a h = inl h

  abbrev pub given : Bool → Transaction A → Transaction A
  given d t = record t { released = true; destroyed = d; releases = 1 }

  pub release-once :
      (b : Bool) (t : Transaction A) → IsTransaction t → (d : Bool) × (release b t ≡ given d t)
  unfolding release
  release-once b t i = elim (Bool-cases t.released) [
    | inl r ↦
        let count : t.releases ≡ 1 = i.once ∙ ap one_if r in
        (
          t.destroyed,
          ground arith
              ∙ ap (λ (x : Bool). record t { released = x }) r
              ∙ ap (λ (n : ℕ). record t { released = true; releases = n }) count,
        )
    | inr r ↦
        let count : t.releases ≡ 0 = i.once ∙ ap one_if r in
        (
          b,
          ground arith
              ∙ ap (λ (n : ℕ). record t { released = true; destroyed = b; releases = suc n }) count,
        )
  ]

  -- The callback's success is confirmed.
  abbrev pub IsHonest : Transaction A → Result A Failure → Type 0
  IsHonest t r = (a : A) → r ≡ ok a → (t.body ≡ some (ok a)) × (t.confirmed ≡ true)

  pub err-IsHonest : (t : Transaction A) (f : Failure) → IsHonest t (err f)
  err-IsHonest t f a e = absurd (ground arith)

  honest_first :
      (t : Transaction A) (r : Result A Failure)
      → IsTransaction t
      → IsHonest t r
      → (a : A) → or_first t.answer r ≡ some (ok a)
      → (t.body ≡ some (ok a)) × (t.confirmed ≡ true)
  honest_first t r i h a e = elim (or_first-success t.answer r a e) [
    | inl o ↦ i.honest a o
    | inr n ↦ h a n
  ]

  ended-IsTransaction :
      (d : Bool) (r : Result A Failure) (t : Transaction A)
      → IsTransaction t
      → IsHonest t r
      → IsTransaction (record (given d t) { phase = ended; answer = or_first t.answer r })
  ended-IsTransaction d r t i h = record {
    once = refl;
    given_back = λ e. (refl, or_first-answered t.answer r);
    commit_once = i.commit_once;
    sent = λ e. absurd (ground arith);
    early = λ e k. absurd (ground arith);
    stopped_first = i.stopped_first;
    succeeded = i.succeeded;
    refused = λ e. absurd (ground arith);
    honest = honest_first t r i h;
    confirms = i.confirms;
  }

  pub conclude-IsTransaction :
      (r : Result A Failure) (t : Transaction A)
      → IsTransaction t
      → IsHonest t r
      → IsTransaction (conclude r t)
  unfolding conclude
  conclude-IsTransaction r t i h =
      let (d, e) = release-once false t i in
      subst
        (λ (u : Transaction A).
          IsTransaction (record u { phase = ended; answer = or_first u.answer r }))
        (sym e) (ended-IsTransaction d r t i h)

  pub given-IsTransaction :
      (d : Bool) (t : Transaction A) → IsTransaction t → IsTransaction (given d t)
  given-IsTransaction d t i = record {
    once = refl;
    given_back = λ e. (refl, (i.given_back e).1);
    commit_once = i.commit_once;
    sent = i.sent;
    early = i.early;
    stopped_first = i.stopped_first;
    succeeded = i.succeeded;
    refused = i.refused;
    honest = i.honest;
    confirms = i.confirms;
  }

  stopping-IsTransaction :
      (f : Failure) (t : Transaction A)
      → IsTransaction t
      → (t.is_committing ≡ true → f ≡ uncertain)
      → IsTransaction
          (record t { stopped = or_first t.stopped f; answer = or_first t.answer (err f) })
  stopping-IsTransaction f t i u = record {
    once = i.once;
    given_back = λ e. ((i.given_back e).0, or_first-answered t.answer (err f));
    commit_once = i.commit_once;
    sent = i.sent;
    early = i.early;
    stopped_first = λ g e c. elim (first_stop t.stopped f g e) [
      | inl o ↦ i.stopped_first g o c
      | inr n ↦ sym n ∙ u c
    ];
    succeeded = i.succeeded;
    refused = i.refused;
    honest = honest_first t (err f) i (err-IsHonest t f);
    confirms = i.confirms;
  }

  pub stop-IsTransaction :
      (caller : Bool) (t : Transaction A) → IsTransaction t → IsTransaction (stop caller t)
  unfolding stop
  stop-IsTransaction caller t i =
      let (d, e) = release-once true t i in
      let f = stop_failure t.is_committing caller in
      subst
        (λ (u : Transaction A).
          IsTransaction
            (record u { stopped = or_first u.stopped f; answer = or_first u.answer (err f) }))
        (sym e)
        (stopping-IsTransaction f (given d t) (given-IsTransaction d t i)
          (stop_uncertain t.is_committing caller))

  started-IsTransaction : IsTransaction connected_state
  started-IsTransaction = record {
    once = refl;
    given_back = λ e. absurd (ground arith);
    commit_once = refl;
    sent = λ e. absurd (ground arith);
    early = λ e k. refl;
    stopped_first = λ f e c. absurd (ground arith);
    succeeded = λ e. absurd (ground arith);
    refused = λ e. absurd (ground arith);
    honest = λ a e. absurd (ground arith);
    confirms = λ e. absurd (ground arith);
  }

  pub opened-IsTransaction : (aborted : Bool) → IsTransaction (opened aborted)
  unfolding opened
  opened-IsTransaction false = started-IsTransaction
  opened-IsTransaction true =
      conclude-IsTransaction (err canceled_operation) (stop true connected_state)
        (stop-IsTransaction true connected_state started-IsTransaction)
        (err-IsHonest (stop true connected_state) canceled_operation)
