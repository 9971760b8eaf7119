-- ===== src/LoadBalancer/Algorithms/Least.antt =====
-- Least connections (internal/loadbalancer/algorithms.go): the result is the minimum.
use helios_lb.Prelude.{
  ℕ, suc, ◌≤◌, ◌<◌, ◌≡◌, refl, ◌⊎◌, inl, inr, List, [], ◌∷◌, Option, none, some, All, arith, true,
  false, ltb, ltb→lt, get_elem?, Bool-cases, sym, ◌∙◌, subst,
}
use helios_lb.LoadBalancer.Types.{Pointer, Store, is_healthy, int32_lt, biased, max_int32}
use helios_lb.LoadBalancer.Algorithms.{least_loop, least_connection_select}

not_lt→le : (a b : ℕ) → ltb a b ≡ false → b ≤ a
not_lt→le a b h = ground arith

-- The pointer stands in the list.
abbrev pub Holds : List Pointer → Pointer → Type 0
Holds ps p = (i : ℕ) × (get_elem? ps i ≡ some p)

-- No healthy backend of the list has fewer connections than `c`.
abbrev pub NoneBelow : Store → ℕ → List Pointer → Type 0
NoneBelow σ c = All (λ q. is_healthy (σ q) ≡ true → biased c ≤ biased (σ q).connections)

-- A minimum of the list, below `least`; or `found`, where no healthy backend is below `least`.
abbrev pub LeastOf : Store → List Pointer → ℕ → Option Pointer → Option Pointer → Type 0
LeastOf σ ps least found r =
    ((r ≡ found) × NoneBelow σ least ps)
    ⊎ ((p : Pointer) × (r ≡ some p)
        × Holds ps p
        × (is_healthy (σ p) ≡ true)
        × (biased (σ p).connections < biased least)
        × NoneBelow σ (σ p).connections ps)

-- A backend in front that is not below keeps the minimum.
LeastOf-skip :
    (σ : Store) (q : Pointer) (ps : List Pointer) (least : ℕ) (found r : Option Pointer)
    → (is_healthy (σ q) ≡ true → biased least ≤ biased (σ q).connections)
    → LeastOf σ ps least found r
    → LeastOf σ (q ∷ ps) least found r
LeastOf-skip σ q ps least found r h (inl (e, n)) = inl (e, (h, n))
LeastOf-skip σ q ps least found r h (inr (p, e, (i, k), u, l, n)) =
    inr (p, e, (suc i, k), u, l, ((λ v. omega (arith, h v, l)), n))

LeastOf-take :
    (σ : Store) (q : Pointer) (ps : List Pointer) (least : ℕ) (found r : Option Pointer)
    → is_healthy (σ q) ≡ true
    → biased (σ q).connections < biased least
    → LeastOf σ ps (σ q).connections (some q) r
    → LeastOf σ (q ∷ ps) least found r
LeastOf-take σ q ps least found r u l (inl (e, n)) =
    inr (q, e, (0, refl), u, l, ((λ v. omega arith), n))
LeastOf-take σ q ps least found r u l (inr (p, e, (i, k), w, m, n)) =
    inr (p, e, (suc i, k), w, omega (arith, l, m), ((λ v. omega (arith, m)), n))

least_loop-LeastOf :
    (σ : Store) (ps : List Pointer) (least : ℕ) (found : Option Pointer)
    → LeastOf σ ps least found (least_loop σ ps least found)
unfolding least_loop
least_loop-LeastOf σ [] least found = inl (refl, tt)
least_loop-LeastOf σ (q ∷ ps) least found = elim (Bool-cases (is_healthy (σ q))) [
  | inr u ↦
      let e : least_loop σ (q ∷ ps) least found ≡ least_loop σ ps least found =
        rw (least_loop, u) in
      subst (LeastOf σ (q ∷ ps) least found) (sym e) (
        LeastOf-skip σ q ps least found _ (λ v. let c : false ≡ true = sym u ∙ v in cc)
          (least_loop-LeastOf σ ps least found))
  | inl u ↦ elim (Bool-cases (int32_lt (σ q).connections least)) [
    | inl l ↦
        let e : least_loop σ (q ∷ ps) least found ≡ least_loop σ ps (σ q).connections (some q) =
          rw (least_loop, u, l) in
        subst (LeastOf σ (q ∷ ps) least found) (sym e) (
          LeastOf-take σ q ps least found _ u (ltb→lt _ _ l)
            (least_loop-LeastOf σ ps (σ q).connections (some q)))
    | inr l ↦
        let e : least_loop σ (q ∷ ps) least found ≡ least_loop σ ps least found =
          rw (least_loop, u, l) in
        subst (LeastOf σ (q ∷ ps) least found) (sym e) (
          LeastOf-skip σ q ps least found _ (λ v. not_lt→le _ _ l)
            (least_loop-LeastOf σ ps least found))
  ]
]

-- The selected backend stands in the list, is healthy, and no healthy backend of the list has fewer
-- connections, as an int32; nil is returned exactly when no healthy backend has less than the
-- largest int32.
pub least_connection_select-LeastOf :
    (σ : Store) (ps : List Pointer) → LeastOf σ ps max_int32 none (least_connection_select σ ps)
unfolding least_connection_select
least_connection_select-LeastOf σ ps = least_loop-LeastOf σ ps max_int32 none
