-- ===== src/Postgres/Races.antt =====
-- Every order of the events of a transaction (src/shared/postgres/index.ts).
use modular_hx_fastapi.Common.{
  Bool, List, Option, Option-cases, [], ap, arith, false, inl, inr, none, refl, some, subst, sym,
  true, ◌∙◌, ◌∷◌, ◌≡◌, ◌⊎◌,
}
use modular_hx_fastapi.Errors.{Failure, Result, Unknown, err, ok}
use modular_hx_fastapi.Postgres.Mapping.{PgCode, rolled_back_commit}
use modular_hx_fastapi.Postgres.Transactions.{
  Event, Phase, Transaction, after_body, after_commit, after_throw, beginning, begun,
  commit_answered, committing, conclude, ended, move, move_all, opened, release, returned,
  rolled_back, rolling_back, running, stops, threw,
}
use modular_hx_fastapi.Postgres.Outcomes.{
  IsHonest, IsTransaction, conclude-IsTransaction, err-IsHonest, given-IsTransaction,
  is_commit_phase, is_rolling_back, is_success, opened-IsTransaction, release-once,
  stop-IsTransaction,
}

Phase-cases :
    (p : Phase)
    → (p ≡ beginning) ⊎ ((p ≡ running) ⊎ ((p ≡ rolling_back) ⊎ ((p ≡ committing) ⊎ (p ≡ ended))))
Phase-cases beginning = inl refl
Phase-cases running = inr (inl refl)
Phase-cases rolling_back = inr (inr (inl refl))
Phase-cases committing = inr (inr (inr (inl refl)))
Phase-cases ended = inr (inr (inr (inr refl)))

module _ (pg_code : PgCode) {A : Type 0} where
  -- Nothing is moved, or to a state known by an equation.
  along : (t u : Transaction A) → t ≡ u → IsTransaction t → IsTransaction u
  along t u e i = subst (λ (x : Transaction A). IsTransaction x) e i

  release-IsTransaction :
      (b : Bool) (t : Transaction A) → IsTransaction t → IsTransaction (release b t)
  release-IsTransaction b t i =
      let (d, e) = release-once b t i in along _ _ (sym e) (given-IsTransaction d t i)

  begun-IsTransaction : (t : Transaction A) → IsTransaction t → IsTransaction (move pg_code begun t)
  unfolding move
  begun-IsTransaction t i = elim (Phase-cases t.phase) [
    | inl p ↦
        let same : record t { phase = running } ≡ move pg_code begun t = ground arith in
        along _ _ same (record {
          once = i.once;
          given_back = λ e. absurd (ground arith);
          commit_once = i.commit_once;
          sent = λ e. absurd (ground arith);
          early = λ e k. i.early (ground arith) (ground arith);
          stopped_first = i.stopped_first;
          succeeded = i.succeeded;
          refused = λ e. absurd (ground arith);
          honest = i.honest;
          confirms = i.confirms;
        })
    | inr other ↦
        let same : t ≡ move pg_code begun t = elim other [
          | inl p ↦ ground arith
          | inr (inl p) ↦ ground arith
          | inr (inr (inl p)) ↦ ground arith
          | inr (inr (inr p)) ↦ ground arith
        ] in
        along _ _ same i
  ]

  -- No success is answered while the callback runs.
  unanswered :
      (t : Transaction A) (a : A) → IsTransaction t → t.phase ≡ running → t.answer ≡ some (ok a) → ⊥
  unanswered t a i p e =
      let (b, k) = i.honest a e in let c = i.confirms k in ground (arith, i.early)

  after_body-IsTransaction :
      (r : Result A Failure) (t : Transaction A)
      → IsTransaction t
      → t.phase ≡ running
      → t.stopped ≡ none
      → IsTransaction (after_body r t)
  unfolding after_body
  after_body-IsTransaction (err f) t i p s = record {
    once = i.once;
    given_back = λ e. absurd (ground arith);
    commit_once = i.commit_once;
    sent = λ e. absurd (ground arith);
    stopped_first = i.stopped_first;
    early = λ e k. i.early (ground arith) (ground arith);
    succeeded = λ c. absurd (ground (arith, i.early));
    refused = λ e. refl;
    honest = λ a e. absurd (unanswered t a i p e);
    confirms = i.confirms;
  }
  after_body-IsTransaction (ok a) t i p s = record {
    once = i.once;
    given_back = λ e. absurd (ground arith);
    commit_once = ground (arith, i.early, i.commit_once);
    sent = λ e. refl;
    early = λ e k. absurd (ground arith);
    stopped_first = λ f e c. absurd (ground arith);
    succeeded = λ c. refl;
    refused = λ e. absurd (ground arith);
    honest = λ b e. absurd (unanswered t b i p e);
    confirms = λ e. refl;
  }

  returned-IsTransaction :
      (r : Result A Failure) (t : Transaction A)
      → IsTransaction t
      → IsTransaction (move pg_code (returned r) t)
  unfolding move
  returned-IsTransaction r t i = elim (Phase-cases t.phase) [
    | inr (inl p) ↦ elim (Option-cases t.stopped) [
      | inl s ↦ along _ _ (ground arith) (after_body-IsTransaction r t i p s)
      | inr (f, s) ↦
          let same : conclude (err f) t ≡ move pg_code (returned r) t = ground arith in
          along _ _ same (conclude-IsTransaction (err f) t i (err-IsHonest t f))
    ]
    | inl p ↦ along t _ (ground arith) i
    | inr (inr (inl p)) ↦ along t _ (ground arith) i
    | inr (inr (inr (inl p))) ↦ along t _ (ground arith) i
    | inr (inr (inr (inr p))) ↦ along t _ (ground arith) i
  ]

  failed-IsHonest :
      (t : Transaction A) (o : Option (Result A Failure))
      → is_success o ≡ false
      → IsHonest t (elim o [ none ↦ err rolled_back_commit | some r ↦ r ])
  failed-IsHonest t none h a e = absurd (ground arith)
  failed-IsHonest t (some (err f)) h a e = absurd (ground arith)
  failed-IsHonest t (some (ok b)) h a e = absurd (ground arith)

  rolled_back-IsTransaction :
      (t : Transaction A) → IsTransaction t → IsTransaction (move pg_code rolled_back t)
  unfolding move
  rolled_back-IsTransaction t i = elim (Phase-cases t.phase) [
    | inr (inr (inl p)) ↦
        let r : Result A Failure = elim t.body [ none ↦ err rolled_back_commit | some r ↦ r ] in
        let same : conclude r t ≡ move pg_code rolled_back t = ground arith in
        along _ _ same (
          conclude-IsTransaction r t i
            (failed-IsHonest t t.body (i.refused (ap is_rolling_back p))))
    | inl p ↦ along t _ (ground arith) i
    | inr (inl p) ↦ along t _ (ground arith) i
    | inr (inr (inr (inl p))) ↦ along t _ (ground arith) i
    | inr (inr (inr (inr p))) ↦ along t _ (ground arith) i
  ]

  confirmed-IsTransaction :
      (t : Transaction A)
      → IsTransaction t
      → t.is_committing ≡ true
      → IsTransaction (record t { confirmed = true })
  confirmed-IsTransaction t i c = record {
    once = i.once;
    given_back = i.given_back;
    commit_once = i.commit_once;
    sent = i.sent;
    early = i.early;
    stopped_first = i.stopped_first;
    succeeded = i.succeeded;
    refused = i.refused;
    honest = λ a e. ((i.honest a e).0, refl);
    confirms = λ e. c;
  }

  body-IsHonest :
      (t : Transaction A) (o : Option (Result A Failure))
      → t.body ≡ o
      → t.confirmed ≡ true
      → IsHonest t (elim o [ none ↦ err rolled_back_commit | some r ↦ r ])
  body-IsHonest t none h k a e = absurd (ground arith)
  body-IsHonest t (some r) h k a e = (h ∙ ap some e, k)

  after_commit-IsTransaction :
      (b : Bool) (t : Transaction A)
      → IsTransaction t
      → t.is_committing ≡ true
      → IsTransaction (after_commit b t)
  unfolding after_commit
  after_commit-IsTransaction false t i c =
      conclude-IsTransaction (err rolled_back_commit) t i (err-IsHonest t rolled_back_commit)
  after_commit-IsTransaction true t i c =
      let u : Transaction A = record t { confirmed = true } in
      conclude-IsTransaction (elim t.body [ none ↦ err rolled_back_commit | some r ↦ r ]) u
        (confirmed-IsTransaction t i c) (body-IsHonest u t.body refl refl)

  commit_answered-IsTransaction :
      (b : Bool) (t : Transaction A)
      → IsTransaction t
      → IsTransaction (move pg_code (commit_answered b) t)
  unfolding move
  commit_answered-IsTransaction b t i = elim (Phase-cases t.phase) [
    | inr (inr (inr (inl p))) ↦
        along _ _ (ground arith) (after_commit-IsTransaction b t i (i.sent (ap is_commit_phase p)))
    | inl p ↦ along t _ (ground arith) i
    | inr (inl p) ↦ along t _ (ground arith) i
    | inr (inr (inl p)) ↦ along t _ (ground arith) i
    | inr (inr (inr (inr p))) ↦ along t _ (ground arith) i
  ]

  after_throw-IsTransaction :
      (e : Unknown) (t : Transaction A) → IsTransaction t → IsTransaction (after_throw pg_code e t)
  unfolding after_throw
  after_throw-IsTransaction e t i =
      let u = release true t in
      conclude-IsTransaction (err _) u (release-IsTransaction true t i) (err-IsHonest u _)

  threw-IsTransaction :
      (e : Unknown) (t : Transaction A) → IsTransaction t → IsTransaction (move pg_code (threw e) t)
  unfolding move
  threw-IsTransaction e t i =
      let thrown = after_throw-IsTransaction e t i in
      elim (Phase-cases t.phase) [
        | inr (inr (inr (inr p))) ↦ along t _ (ground arith) i
        | inl p ↦ along _ _ (ground arith) thrown
        | inr (inl p) ↦ along _ _ (ground arith) thrown
        | inr (inr (inl p)) ↦ along _ _ (ground arith) thrown
        | inr (inr (inr (inl p))) ↦ along _ _ (ground arith) thrown
      ]

  move-IsTransaction :
      (e : Event A) (t : Transaction A) → IsTransaction t → IsTransaction (move pg_code e t)
  unfolding move
  move-IsTransaction begun t i = begun-IsTransaction t i
  move-IsTransaction rolled_back t i = rolled_back-IsTransaction t i
  move-IsTransaction (returned r) t i = returned-IsTransaction r t i
  move-IsTransaction (commit_answered b) t i = commit_answered-IsTransaction b t i
  move-IsTransaction (threw e) t i = threw-IsTransaction e t i
  move-IsTransaction (stops caller) t i = stop-IsTransaction caller t i

  all-IsTransaction :
      (es : List (Event A)) (t : Transaction A)
      → IsTransaction t
      → IsTransaction (move_all pg_code es t)
  all-IsTransaction [] t i = i
  all-IsTransaction (e ∷ es) t i =
      all-IsTransaction es (move pg_code e t) (move-IsTransaction e t i)

  -- In every order of the events of a transaction: the client is given back at most once, and has been, with
  -- an answer, when the operation is over; at most one COMMIT is sent; a call that was stopped with any failure
  -- other than the uncertain one never sends one; and a success is answered only if it is the callback's and
  -- COMMIT was answered by COMMIT.
  pub move_all-IsTransaction :
      (aborted : Bool) (es : List (Event A)) → IsTransaction (move_all pg_code es (opened aborted))
  move_all-IsTransaction aborted es =
      all-IsTransaction es (opened aborted) (opened-IsTransaction aborted)
