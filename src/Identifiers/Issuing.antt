-- ===== src/Identifiers/Issuing.antt =====
-- What one generator issues over its lifetime (src/shared/id/v7.ts): the clock and the entropy source
-- are the arguments of each call.
use modular_hx_fastapi.Common.{
  ==_iff, Bool, Bool-cases, List, Num, Option, Text, [], arith, drop, false, if◌then◌else◌, inl,
  inr, leb, length, ltb, ltb→lt, max_safe_integer, nat, neg, non_integer, none, not, refl, some,
  suc, true, zero, ℕ, ◌%◌, ◌*◌, ◌+◌, ◌<◌, ◌==◌, ◌||◌, ◌∷◌, ◌≡◌, ◌≤◌,
}
use modular_hx_fastapi.Errors.{Failure, Result, err, ok}
use modular_hx_fastapi.Identifiers.Values.{encode_v7}
use modular_hx_fastapi.Identifiers.Generator.{
  Entropy, V7, choose, commit, fills, fresh_counter, max_time, new_id, throws,
}
use modular_hx_fastapi.Identifiers.Format.{Bytes, all_below, all_below_sound}
use modular_hx_fastapi.Identifiers.Ordering.{Earlier}

counter_table :
    all_below 256 (λ a. all_below 256 (λ b. fresh_counter (a ∷ b ∷ []) == a % 8 * 256 + b)) ≡ true
unfolding all_below fresh_counter
counter_table = refl

fresh_counter-eq :
    (a b : ℕ) (r : List ℕ) → a < 256 → b < 256 → fresh_counter (a ∷ b ∷ r) ≡ a % 8 * 256 + b
unfolding fresh_counter
fresh_counter-eq a b r h k = (==_iff _ _).0 (
    all_below_sound 256 (λ b. fresh_counter (a ∷ b ∷ []) == a % 8 * 256 + b) b
      (all_below_sound 256 (λ a. all_below 256 (λ b. fresh_counter (a ∷ b ∷ []) == a % 8 * 256 + b))
        a counter_table h)
      k)

-- Ten bytes, or an exception.
abbrev pub IsDraw : Entropy → Type 0
IsDraw (fills r) = Bytes r × (length r ≡ 10)
IsDraw (throws c) = Unit

fresh_counter-lt : (r : List ℕ) → Bytes r → fresh_counter r < 2048
fresh_counter-lt [] h = unfold fresh_counter in omega arith
fresh_counter-lt (a ∷ []) h = unfold fresh_counter in omega arith
fresh_counter-lt (a ∷ b ∷ r) (ha, (hb, h)) = omega (arith, fresh_counter-eq a b r ha hb)

abbrev pub Timed : Option ℕ → Type 0
Timed none = Unit
Timed (some last) = last ≤ max_time

pub record IsValid (g : V7) : Type 0 where
  pub bounded : g.counter < 4096
  pub timed : Timed g.last

-- The stamp of an identifier against the last one that the generator used.
abbrev pub IsLater : V7 → ℕ × ℕ → Type 0
IsLater g stamp = elim g.last [ none ↦ Unit | some last ↦ Earlier (last, g.counter) stamp ]

-- What a successful call did.
pub record Issued (g g' : V7) (id : Text) : Type 0 where
  pub ms : ℕ
  pub suffix : List ℕ
  pub encoded : id ≡ encode_v7 ms g'.counter suffix
  pub last : g'.last ≡ some ms
  pub stamp : ms ≤ max_time
  pub small : g'.counter < 4096
  pub bytes : Bytes suffix
  pub eight : length suffix ≡ 8
  pub later : IsLater g (ms, g'.counter)

-- A call that fails leaves the generator as it was.
abbrev pub Called : V7 → Result Text Failure × V7 → Type 0
Called g (ok id, g') = Issued g g' id
Called g (err f, g') = g' ≡ g

Bytes-drop : (n : ℕ) (r : List ℕ) → Bytes r → Bytes (drop n r)
Bytes-drop zero r h = h
Bytes-drop (suc n) [] h = tt
Bytes-drop (suc n) (b ∷ r) (_, h) = Bytes-drop n r h

length-drop_two : (r : List ℕ) → length r ≡ 10 → length (drop 2 r) ≡ 8
length-drop_two [] h = absurd (omega arith)
length-drop_two (a ∷ []) h = absurd (omega arith)
length-drop_two (a ∷ b ∷ r) h = omega arith

module _ (g : V7) (fresh : Bool) (ms next : ℕ) where
  commit-Called :
      (e : Entropy)
      → IsDraw e
      → next < 4096
      → ms ≤ max_time
      → ((c : ℕ) → (fresh ≡ false → c ≡ next) → IsLater g (ms, c))
      → Called g (commit g fresh ms next e)
  unfolding commit
  commit-Called (throws cause) d small stamp later = refl
  commit-Called (fills r) (bytes, ten) small stamp later = record {
    ms = ms;
    suffix = drop 2 r;
    encoded = refl;
    last = refl;
    stamp = stamp;
    small = ground (arith, fresh_counter-lt r bytes);
    bytes = Bytes-drop 2 r bytes;
    eight = length-drop_two r ten;
    later = later (if fresh then fresh_counter r else next) (λ e. rw e);
  }

choose-Called :
    (g : V7) (l : Option ℕ) (now : ℕ) (e : Entropy)
    → g.last ≡ l
    → IsValid g
    → IsDraw e
    → now ≤ max_time
    → Called g (choose g l now e)
unfolding choose
choose-Called g none now e same_last v d h =
    commit-Called g true now 0 e d (omega arith) h (λ c k. rw same_last tt)
choose-Called g (some last) now e same_last v d h = elim (Bool-cases (ltb last now)) [
  | inl fresh ↦ rw fresh (
      commit-Called g true now 0 e d (omega arith) h
        (λ c k. rw same_last (inl (ltb→lt last now fresh))))
  | inr stale ↦ elim (Bool-cases (g.counter == 4095)) [
    | inl full ↦ rw (stale, full)
    | inr room ↦
        rw (stale, room)
          (commit-Called g false last (g.counter + 1) e d (ground (arith, v.bounded))
            (rw same_last at v.timed) (λ c k. rw same_last (inr (refl, omega (arith, k refl)))))
  ]
]

-- Every call either fails and changes nothing, or issues an identifier whose timestamp and counter
-- come after the last ones, within their bounds.
pub new_id-Called :
    (g : V7) (now : Num) (e : Entropy) → IsValid g → IsDraw e → Called g (new_id g now e)
unfolding new_id
new_id-Called g (neg n) e v d = refl
new_id-Called g non_integer e v d = refl
new_id-Called g (nat now) e v d =
    elim (Bool-cases (not (leb now max_safe_integer) || ltb max_time now)) [
      | inl outside ↦ rw outside
      | inr inside ↦ rw inside (choose-Called g g.last now e refl v d (ground arith))
    ]
