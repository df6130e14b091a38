-- ===== src/Runtime/Effects.antt =====
-- Counting what the daemon does outside: an effect has a weight, such as 1 for each goroutine of a
-- kind, and an Update adds only the weight of what its closure starts.
use mathlib.Core.Path.{subst}
use x_network.Base.{ℕ, ◌∙◌, ◌+◌, ◌≡◌, List, [], ◌∷◌, Option, none, some, arith}
use x_network.Base.Outcome.{Outcome, ok, ◌>>=◌, ok-injective, two_steps}
use x_network.State.{State}
use x_network.State.Manager.{announce}
use x_network.Runtime.{Effect, World, state_of, noted, modify, modify_with, modify_or_panic}

module _ (weight : Effect → ℕ) where
  abbrev pub total : List Effect → ℕ
  total [] = 0
  total (e ∷ es) = weight e + total es

  -- The change callback adds nothing by itself.
  abbrev pub IsSilent : World → Type 0
  IsSilent w = (s : State) → total (noted (announce w.manager.on_change s) []) ≡ 0

  total-noted :
      (o : Option Effect) (es : List Effect) → total (noted o es) ≡ total (noted o []) + total es
  total-noted none es = omega arith
  total-noted (some e) es = omega arith

  pub total-modify :
      (fn : State → State) (w : World) → IsSilent w → total (modify fn w).effects ≡ total w.effects
  unfolding modify
  total-modify fn w q = omega (
    arith,
    total-noted (announce w.manager.on_change (fn (state_of w))) w.effects,
    q (fn (state_of w)),
  )

  -- A silent world with this total.
  pub record IsCounted (n : ℕ) (w : World) : Type 0 where
    pub silent : IsSilent w
    pub counted : total w.effects ≡ n

  pub modify-IsCounted :
      (fn : State → State) (w : World) (n : ℕ) → IsCounted n w → IsCounted n (modify fn w)
  unfolding modify
  modify-IsCounted fn w n v = record {
    silent = v.silent;
    counted = total-modify fn w v.silent ∙ v.counted;
  }

  -- An Update whose closure starts nothing adds nothing.
  pub modify_or_panic-IsCounted :
      (fn : State → Outcome State) (w w' : World) (n : ℕ)
      → modify_or_panic (λ st. fn st >>= λ s. ok (s, [])) w ≡ ok w'
      → IsCounted n w
      → IsCounted n w'
  unfolding modify_or_panic modify
  modify_or_panic-IsCounted fn w w' n e v =
      let (r, ends, given) = two_steps (fn (state_of w) >>= λ s. ok (s, [])) _ e in
      let (s, last, read) = two_steps (fn (state_of w)) (λ s. ok (s, [])) given in
      let same = ok-injective (s, []) r last in
      subst (IsCounted n) (ok-injective _ w' ends)
        (subst (λ r. IsCounted n (modify_with (λ _. r) w)) same (modify-IsCounted (λ _. s) w n v))
