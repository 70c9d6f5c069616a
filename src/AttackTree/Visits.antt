-- ===== src/AttackTree/Visits.antt =====
-- The depth-first visit: what it marks, and that it succeeds where walks are short.
use bantam_bank.Prelude.{
  ℕ, zero, suc, ◌+◌, ◌<◌, ◌≡◌, inl, inr, refl, sym, subst, arith, Bool-cases, Option-cases, false,
  Option, some, List, [], ◌∷◌,
}
use bantam_bank.Prelude.Members.{In}
use bantam_bank.Prelude.Text.{Text}
use bantam_bank.AttackTree.{AttackEdge, contains, children, each_child, visit, max_depth}
use bantam_bank.AttackTree.Walks.{
  contains_iff, IsEdge-children, children-IsEdge, Walk, IsForest, Walk-steps,
}

-- A property of the visited set that every child's visit keeps.
each_child-keeps :
    (Q : List Text → Type 0) (step : Text → List Text → Option (List Text))
    (cs visited end : List Text)
    → ((c : Text) (before after : List Text)
        → In c cs
        → step c before ≡ some after
        → Q before
        → Q after)
    → each_child step cs visited ≡ some end
    → Q visited
    → Q end
unfolding each_child
each_child-keeps Q step [] visited end keep e q = subst Q (ground (arith, e)) q
each_child-keeps Q step (c ∷ cs) visited end keep e q = elim (Option-cases (step c visited)) [
  | inl fails ↦ absurd (ground (arith, fails, e))
  | inr (grown, goes) ↦
      each_child-keeps Q step cs grown end (λ d before after i. keep d before after (inr i))
        (ground (arith, goes, e)) (keep c visited grown (inl refl) goes q)
]

-- Reached by a walk of at most five steps: within the depth that is allowed.
abbrev pub IsReached : List AttackEdge → Text → Text → Type 0
IsReached es root x = (k : ℕ) × (k < max_depth) × Walk es root k x

module _ (es : List AttackEdge) (root : Text) where
  abbrev AllReached : List Text → Type 0
  AllReached visited = (x : Text) → In x visited → IsReached es root x

  -- Whatever a visit marks is reached.
  pub visit-AllReached :
      (f k : ℕ) (id : Text) (visiting visited end : List Text)
      → k + f ≡ max_depth
      → Walk es root k id
      → visit es f visiting id visited ≡ some end
      → AllReached visited
      → AllReached end
  unfolding visit
  visit-AllReached zero k id visiting visited end level w e q = absurd (ground (arith, e))
  visit-AllReached (suc f) k id visiting visited end level w e q =
      elim (Bool-cases (contains visiting id)) [
        | inl loops ↦ absurd (ground (arith, loops, e))
        | inr fresh ↦ elim (Bool-cases (contains visited id)) [
          | inl seen ↦
              let same : visited ≡ end = ground (arith, fresh, seen, e) in subst AllReached same q
          | inr unseen ↦
              let step = visit es f (id ∷ visiting) in
              elim (Option-cases (each_child step (children es id) visited)) [
                | inl fails ↦ absurd (ground (arith, fresh, unseen, fails, e))
                | inr (below, goes) ↦
                    let all_below : AllReached below =
                      each_child-keeps AllReached step (children es id) visited below
                        (λ c before after i.
                          visit-AllReached f (suc k) c (id ∷ visiting) before after
                            (omega (arith, level)) (id, w, IsEdge-children es id c i))
                        goes q in
                    let same : id ∷ below ≡ end = ground (arith, fresh, unseen, goes, e) in
                    subst AllReached same (λ x i. elim i [
                      | inl here ↦ (k, omega (arith, level), subst (Walk es root k) (sym here) w)
                      | inr later ↦ all_below x later
                    ])
              ]
        ]
      ]

-- The set holds the children of its members.
abbrev pub IsClosed : List AttackEdge → List Text → Type 0
IsClosed es visited = (x c : Text) → In x visited → In c (children es x) → In c visited

abbrev Grows : List Text → List Text → Type 0
Grows visited end = (x : Text) → In x visited → In x end

-- The visits of children that all succeed mark all of them.
each_child_returns :
    (es : List AttackEdge) (step : Text → List Text → Option (List Text)) (cs visited : List Text)
    → ((c : Text) (before : List Text)
        → In c cs
        → IsClosed es before
        → (after : List Text) × (step c before ≡ some after)
          × IsClosed es after
          × In c after
          × Grows before after)
    → IsClosed es visited
    → (end : List Text) × (each_child step cs visited ≡ some end)
      × IsClosed es end
      × ((c : Text) → In c cs → In c end)
      × Grows visited end
unfolding each_child
each_child_returns es step [] visited goes closed =
    (visited, refl, closed, (λ c i. absurd i), (λ x i. i))
each_child_returns es step (c ∷ cs) visited goes closed =
    let (after, e, closed', marked, grown) = goes c visited (inl refl) closed in
    let (end, e', closed'', all_marked, grown') =
      each_child_returns es step cs after (λ d before i. goes d before (inr i)) closed' in
    (
      end,
      rw (e, each_child) e',
      closed'',
      (λ d i. elim i [
        | inl same ↦ grown' d (subst (λ y. In y after) (sym same) marked)
        | inr later ↦ all_marked d later
      ]),
      (λ x i. grown' x (grown x i)),
    )

module _ (es : List AttackEdge) (root : Text) (forest : IsForest es root)
    (short : (k : ℕ) (x : Text) → Walk es root k x → k < max_depth) where
  -- Where all walks are short, the visit succeeds, and marks the node with all below it.
  pub visit_returns :
      (f k : ℕ) (id : Text) (visiting visited : List Text)
      → k + f ≡ max_depth
      → Walk es root k id
      → ((x : Text) → In x visiting → (j : ℕ) × (j < k) × Walk es root j x)
      → IsClosed es visited
      → (end : List Text) × (visit es f visiting id visited ≡ some end)
        × IsClosed es end
        × In id end
        × Grows visited end
  unfolding visit
  visit_returns zero k id visiting visited level w above closed =
      absurd (omega (arith, short k id w))
  visit_returns (suc f) k id visiting visited level w above closed =
      let fresh : contains visiting id ≡ false = elim (Bool-cases (contains visiting id)) [
        | inr fresh ↦ fresh
        | inl loops ↦
            let (j, less, w') = above id ((contains_iff visiting id).0 loops) in
            absurd (omega (arith, Walk-steps es root forest k j id w w'))
      ] in
      elim (Bool-cases (contains visited id)) [
        | inl seen ↦
            (visited, rw (fresh, seen), closed, (contains_iff visited id).0 seen, (λ x i. i))
        | inr unseen ↦
            let (below, goes, closed', marked, grown) =
              each_child_returns es (visit es f (id ∷ visiting)) (children es id) visited
                (λ c before i closed_before.
                  visit_returns f (suc k) c (id ∷ visiting) before (omega (arith, level))
                    (id, w, IsEdge-children es id c i)
                    (λ x j. elim j [
                      | inl same ↦ (k, omega arith, subst (Walk es root k) (sym same) w)
                      | inr later ↦
                          let (m, less, w') = above x later in (m, omega (arith, less), w')
                    ])
                    closed_before)
                closed in
            (
              id ∷ below,
              rw (fresh, unseen, goes),
              (λ x c i j. inr (elim i [
                | inl same ↦ marked c (subst (λ y. In c (children es y)) same j)
                | inr later ↦ closed' x c later j
              ])),
              inl refl,
              (λ x i. inr (grown x i)),
            )
      ]

-- A closed set that holds the root holds all that is reached.
pub Walk-IsClosed :
    (es : List AttackEdge) (root : Text) (visited : List Text) (k : ℕ) (x : Text)
    → IsClosed es visited
    → In root visited
    → Walk es root k x
    → In x visited
Walk-IsClosed es root visited zero x closed here w = subst (λ y. In y visited) (sym w) here
Walk-IsClosed es root visited (suc k) x closed here (u, w, e) =
    closed u x (Walk-IsClosed es root visited k u closed here w) (children-IsEdge es u x e)
