-- ===== src/Identifiers/History.antt =====
-- All identifiers that one generator issues, over any history of calls (src/shared/id/v7.ts).
use modular_hx_fastapi.Common.{
  All, List, Num, Option, Text, [], arith, length, none, refl, some, ℕ, ◌<◌, ◌∷◌, ◌≡◌, ◌≤◌,
}
use modular_hx_fastapi.Errors.{Failure, Result, err, ok}
use modular_hx_fastapi.Identifiers.Values.{encode_v7}
use modular_hx_fastapi.Identifiers.Generator.{Entropy, V7, max_time, new_id}
use modular_hx_fastapi.Identifiers.Format.{Bytes}
use modular_hx_fastapi.Identifiers.Ordering.{Earlier, Precedes, encode_v7-Precedes}
use modular_hx_fastapi.Identifiers.Issuing.{Called, IsDraw, IsLater, IsValid, Issued, new_id-Called}

abbrev collect : Result Text Failure → List Text → List Text
collect (ok id) ids = id ∷ ids
collect (err f) ids = ids

-- The identifiers of a sequence of calls, each with its reading of the clock and its draw.
unfoldable pub issue : V7 → List (Num × Entropy) → List Text
issue g [] = []
issue g ((now, entropy) ∷ calls) = let (r, g') = new_id g now entropy in collect r (issue g' calls)

-- An identifier that comes after the state of the generator.
record IsFrom (g : V7) (id : Text) : Type 0 where
  ms : ℕ
  counter : ℕ
  suffix : List ℕ
  encoded : id ≡ encode_v7 ms counter suffix
  stamp : ms ≤ max_time
  small : counter < 4096
  bytes : Bytes suffix
  eight : length suffix ≡ 8
  later : IsLater g (ms, counter)

IsFrom-Issued : (g g' : V7) (id : Text) → Issued g g' id → IsFrom g id
IsFrom-Issued g g' id i = record {
  ms = i.ms;
  counter = g'.counter;
  suffix = i.suffix;
  encoded = i.encoded;
  stamp = i.stamp;
  small = i.small;
  bytes = i.bytes;
  eight = i.eight;
  later = i.later;
}

Earlier-trans : (a b c : ℕ × ℕ) → Earlier a b → Earlier b c → Earlier a c
Earlier-trans (a, x) (b, y) (c, z) h k = ground arith

IsLater-trans :
    (g g' : V7) (id : Text) (i : Issued g g' id) (stamp : ℕ × ℕ)
    → IsLater g' stamp
    → IsLater g stamp
IsLater-trans g g' id i stamp h = cases g.last refl
  where
    step : Earlier (i.ms, g'.counter) stamp
    step = rw i.last at h

    cases : (l : Option ℕ) → g.last ≡ l → IsLater g stamp
    cases none e = rw e tt
    cases (some last) e = rw e (Earlier-trans (last, g.counter) _ _ (rw e at i.later) step)

IsFrom-trans : (g g' : V7) (id x : Text) → Issued g g' id → IsFrom g' x → IsFrom g x
IsFrom-trans g g' id x i f = record {
  ms = f.ms;
  counter = f.counter;
  suffix = f.suffix;
  encoded = f.encoded;
  stamp = f.stamp;
  small = f.small;
  bytes = f.bytes;
  eight = f.eight;
  later = IsLater-trans g g' id i (f.ms, f.counter) f.later;
}

Precedes-IsFrom : (g g' : V7) (id x : Text) → Issued g g' id → IsFrom g' x → Precedes id x
Precedes-IsFrom g g' id x i f =
    rw (i.encoded, f.encoded)
      (encode_v7-Precedes i.ms g'.counter f.ms f.counter i.suffix f.suffix (rw i.last at f.later)
        (omega (arith, f.stamp)) i.small f.small i.bytes f.bytes i.eight f.eight)

IsValid-Issued : (g g' : V7) (id : Text) → Issued g g' id → IsValid g'
IsValid-Issued g g' id i = record { bounded = i.small; timed = rw i.last i.stamp }

abbrev pub Draws : List (Num × Entropy) → Type 0
Draws = All (λ c. IsDraw c.1)

-- Each text comes before all the later ones.
abbrev pub Increasing : List Text → Type 0
Increasing [] = Unit
Increasing (x ∷ xs) = All (Precedes x) xs × Increasing xs

module _ {ℓ κ} {A : Type 0} {P : A → Type ℓ} {Q : A → Type κ} (f : (x : A) → P x → Q x) where
  All-map : (xs : List A) → All P xs → All Q xs
  All-map [] h = tt
  All-map (x ∷ xs) (p, h) = (f x p, All-map xs h)

issue_lem :
    (g : V7) (calls : List (Num × Entropy))
    → IsValid g
    → Draws calls
    → All (IsFrom g) (issue g calls) × Increasing (issue g calls)
unfolding issue
issue_lem g [] v d = (tt, tt)
issue_lem g ((now, entropy) ∷ calls) v (d, ds) =
    step (new_id g now entropy) (new_id-Called g now entropy v d)
      (λ g' v'. issue_lem g' calls v' ds)
  where
    step :
        (r : Result Text Failure × V7)
        → Called g r
        → ((g' : V7) → IsValid g' → All (IsFrom g') (issue g' calls) × Increasing (issue g' calls))
        → All (IsFrom g) (collect r.0 (issue r.1 calls))
          × Increasing (collect r.0 (issue r.1 calls))
    step (ok id, g') i rest =
        let (from, sorted) = rest g' (IsValid-Issued g g' id i) in
        (
          (IsFrom-Issued g g' id i, All-map (λ x. IsFrom-trans g g' id x i) (issue g' calls) from),
          (All-map (λ x. Precedes-IsFrom g g' id x i) (issue g' calls) from, sorted),
        )
    step (err f, g') e rest = rw e (rest g v)

-- Whatever the clock shows, forwards or backwards, the identifiers that a generator issues increase
-- strictly as texts, so that they are distinct and sorted by the order of the calls.
pub issue-Increasing :
    (g : V7) (calls : List (Num × Entropy)) → IsValid g → Draws calls → Increasing (issue g calls)
issue-Increasing g calls v d = (issue_lem g calls v d).1
