-- ===== src/LoadBalancer/Algorithms/Shares.antt =====
-- Weighted round robin (internal/loadbalancer/algorithms.go): each healthy backend gets its weight's
-- share of the selections.
use native.Mathlib.Nat.{mod-eq_of_lt, add_assoc, add-zero}
use mathlib.Core.Option.{some-injective}
use helios_lb.Prelude.{
  ℕ, zero, suc, ◌+◌, ◌%◌, ◌^◌, ◌<◌, ◌≡◌, refl, ◌∙◌, ap, List, [], ◌∷◌, some, All, get_elem?, arith,
  Text, text_eq_refl, insert, true, false, take,
}
use helios_lb.Prelude.Int.{pos, ◌+ℤ◌, ◌-ℤ◌, ltb_ℤ}
use helios_lb.LoadBalancer.Types.{Pointer, Store, Weight, RoundRobinStates}
use helios_lb.LoadBalancer.Algorithms.{
  current, next_current, resolve_weight, healthy_backends, total_weight, weighted_loop, or_first,
  is_zero, weighted_select,
}
use helios_lb.LoadBalancer.Algorithms.Rotation.{residue, residue_hits, current-insert}

-- The resolved weights of the list, as natural numbers.
abbrev pub HasWeights : List Weight → Store → (Pointer → ℕ) → List Pointer → Type 0
HasWeights ws σ w = All (λ p. resolve_weight ws (σ p) ≡ pos (w p))

abbrev pub weight_sum : (Pointer → ℕ) → List Pointer → ℕ
weight_sum w [] = 0
weight_sum w (p ∷ ps) = w p + weight_sum w ps

pub total_weight_sum :
    (ws : List Weight) (σ : Store) (w : Pointer → ℕ) (ps : List Pointer)
    → HasWeights ws σ w ps
    → total_weight ws σ ps ≡ pos (weight_sum w ps)
unfolding total_weight
total_weight_sum ws σ w [] h = refl
total_weight_sum ws σ w (p ∷ ps) (e, h) =
    rw (total_weight, e, total_weight_sum ws σ w ps h) (unfold ◌+ℤ◌ in ground arith)

minus_below : (a b : ℕ) → a < b → ltb_ℤ (pos a -ℤ pos b) (pos 0) ≡ true
unfolding ◌-ℤ◌
minus_below a b h = ground arith

minus_above : (a b : ℕ) → pos (b + a) -ℤ pos b ≡ pos a
unfolding ◌-ℤ◌
minus_above a b = ground arith

not_below_zero : (a : ℕ) → ltb_ℤ (pos a) (pos 0) ≡ false
not_below_zero a = ground arith

weighted_loop_hit :
    (ws : List Weight) (σ : Store) (p : Pointer) (ps : List Pointer) (m n : ℕ)
    → resolve_weight ws (σ p) ≡ pos n
    → m < n
    → weighted_loop ws σ (p ∷ ps) (pos m) ≡ some p
unfolding weighted_loop
weighted_loop_hit ws σ p ps m n e h = rw (weighted_loop, e, minus_below m n h)

weighted_loop_miss :
    (ws : List Weight) (σ : Store) (p : Pointer) (ps : List Pointer) (m n : ℕ)
    → resolve_weight ws (σ p) ≡ pos n
    → weighted_loop ws σ (p ∷ ps) (pos (n + m)) ≡ weighted_loop ws σ ps (pos m)
unfolding weighted_loop
weighted_loop_miss ws σ p ps m n e = rw (weighted_loop, e, minus_above m n, not_below_zero m)

-- The loop finds the i-th backend from every point of its share.
pub weighted_loop_share :
    (ws : List Weight) (σ : Store) (w : Pointer → ℕ) (ps : List Pointer) (i d : ℕ) (q : Pointer)
    → HasWeights ws σ w ps
    → get_elem? ps i ≡ some q
    → d < w q
    → weighted_loop ws σ ps (pos (weight_sum w (take i ps) + d)) ≡ some q
weighted_loop_share ws σ w [] i d q h g l = cc
weighted_loop_share ws σ w (p ∷ ps) zero d q (e, h) g l =
    let same : p ≡ q = some-injective p q g in
    let l' : 0 + d < w p = rw same (omega (arith, l)) in
    weighted_loop_hit ws σ p ps (0 + d) (w p) e l' ∙ g
weighted_loop_share ws σ w (p ∷ ps) (suc i) d q (e, h) g l =
    ap (λ m. weighted_loop ws σ (p ∷ ps) (pos m)) (add_assoc (w p) (weight_sum w (take i ps)) d)
    ∙ weighted_loop_miss ws σ p ps (weight_sum w (take i ps) + d) (w p) e
    ∙ weighted_loop_share ws σ w ps i d q h g l

-- A share ends within the whole.
share_within :
    (w : Pointer → ℕ) (ps : List Pointer) (i d : ℕ) (q : Pointer)
    → get_elem? ps i ≡ some q
    → d < w q
    → weight_sum w (take i ps) + d < weight_sum w ps
share_within w [] i d q g l = cc
share_within w (p ∷ ps) zero d q g l =
    let same : p ≡ q = some-injective p q g in let l' : d < w p = rw same l in omega (arith, l')
share_within w (p ∷ ps) (suc i) d q g l = omega (arith, share_within w ps i d q g l)

not_zero : (n : ℕ) → 0 < n → is_zero (pos n) ≡ false
unfolding is_zero
not_zero n h = ground arith

next_current_lem :
    (states : RoundRobinStates) (service : Text)
    → current states service + 1 < 2 ^ 32
    → next_current states service ≡ current states service + 1
unfolding next_current
next_current_lem states service l = mod-eq_of_lt l

-- The selection in the state `states` of a service with healthy backends of a positive total weight.
module _ (ws : List Weight) (σ : Store) (w : Pointer → ℕ) (b : Pointer) (bs : List Pointer)
    (service : Text) (h : HasWeights ws σ w (healthy_backends σ (b ∷ bs)))
    (positive : 0 < weight_sum w (healthy_backends σ (b ∷ bs))) where
  abbrev healthy : List Pointer
  healthy = healthy_backends σ (b ∷ bs)

  abbrev total : ℕ
  total = weight_sum w healthy

  select_step :
      (states : RoundRobinStates)
      → current states service + 1 < 2 ^ 32
      → weighted_select states ws σ (b ∷ bs) service ≡ (
        or_first (weighted_loop ws σ healthy (pos ((current states service + 1) % total))) healthy,
        insert service (current states service + 1) states,
      )
  unfolding weighted_select
  select_step states l = rw (
    weighted_select,
    total_weight_sum ws σ w healthy h,
    not_zero total positive,
    next_current_lem states service l,
    add-zero,
  )

  -- The state after `k` selections.
  abbrev pub after : ℕ → RoundRobinStates → RoundRobinStates
  after zero states = states
  after (suc k) states = after k (weighted_select states ws σ (b ∷ bs) service).1

  current-after :
      (k : ℕ) (states : RoundRobinStates)
      → current states service + k < 2 ^ 32
      → current (after k states) service ≡ current states service + k
  current-after zero states l = omega arith
  current-after (suc k) states l =
      let e : current (weighted_select states ws σ (b ∷ bs) service).1 service
          ≡ current states service + 1 =
        rw
          (
            select_step states (omega arith),
            current-insert states service service _,
            text_eq_refl service,
          )
          refl in
      omega (
        arith,
        e,
        current-after k (weighted_select states ws σ (b ∷ bs) service).1 (rw e (omega arith)),
      )

  -- Where the resolved weights of the healthy backends are not negative and have a positive sum,
  -- each healthy backend has, for each unit of its weight, a selection of its own among as many
  -- consecutive ones as the weights add up to, if the counter does not wrap among them.
  pub weighted_shares :
      (states : RoundRobinStates) (i d : ℕ) (q : Pointer)
      → current states service + total < 2 ^ 32
      → get_elem? healthy i ≡ some q
      → d < w q
      → (k : ℕ) × (k < total)
        × ((current states service + 1 + k) % total ≡ weight_sum w (take i healthy) + d)
        × ((weighted_select (after k states) ws σ (b ∷ bs) service).0 ≡ some q)
  weighted_shares states i d q l g m =
      let c = current states service + 1 in
      let point = weight_sum w (take i healthy) + d in
      let (lt, hit) = residue_hits c total point (share_within w healthy i d q g m) in
      let k = residue c total point in
      let e : current (after k states) service ≡ current states service + k =
        current-after k states (omega (arith, lt)) in
      let f : (current (after k states) service + 1) % total ≡ point =
        ap (λ n. n % total) (omega (arith, e)) ∙ hit in
      (
        k,
        lt,
        hit,
        rw
            (
              select_step (after k states) (rw e (omega (arith, lt))),
              f,
              weighted_loop_share ws σ w healthy i d q h g m,
            )
            (unfold or_first in refl),
      )
